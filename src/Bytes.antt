-- ===== src/Bytes.antt =====
-- Byte strings as Rust's `str` and `String` use them: comparison, UTF-8 validity, character
-- boundaries, ASCII case, splitting. They serve src/auth.rs and src/routes/admin.rs.
pub mod Laws
use Prim.Native.Char.{code}
use st0x_rest_api.Prelude.{
  ℕ, zero, suc, ◌+◌, ◌-◌, Bool, true, false, ◌&&◌, not, Option, none, some, List, [], ◌∷◌, String,
  ltb, leb, ◌==◌, if◌then◌else◌, length, get_elem?, is_empty, take, drop, all,
}
use mathlib.Core.List.{foldl}

abbrev pub ByteString : Type 0
ByteString = List ℕ

-- The bytes of an ASCII literal.
abbrev pub bytes : String → ByteString
bytes String.[] = []
bytes (String.◌∷◌ c s) = code c ∷ bytes s

unfoldable pub bytes_eq : ByteString → ByteString → Bool
bytes_eq [] [] = true
bytes_eq [] (b ∷ bs) = false
bytes_eq (a ∷ as') [] = false
bytes_eq (a ∷ as') (b ∷ bs) = a == b && bytes_eq as' bs

-- `to_ascii_lowercase` on a byte.
unfoldable pub to_lower : ℕ → ℕ
to_lower b = if leb b'A' b && leb b b'Z' then b + 32 else b

unfoldable pub eq_ignore_ascii_case : ByteString → ByteString → Bool
unfolding to_lower
eq_ignore_ascii_case [] [] = true
eq_ignore_ascii_case [] (b ∷ bs) = false
eq_ignore_ascii_case (a ∷ as') [] = false
eq_ignore_ascii_case (a ∷ as') (b ∷ bs) = to_lower a == to_lower b && eq_ignore_ascii_case as' bs

-- `is_char_boundary`: the end, or a byte that does not continue a character.
unfoldable pub is_char_boundary : ByteString → ℕ → Bool
is_char_boundary s zero = true
is_char_boundary [] (suc n) = false
is_char_boundary (b ∷ []) (suc zero) = true
is_char_boundary (b ∷ c ∷ s) (suc zero) = not (leb 0x80 c && ltb c 0xc0)
is_char_boundary (b ∷ s) (suc n) = is_char_boundary s n

-- `split_once(sep)`, at the first separator.
unfoldable pub split_once : ℕ → ByteString → Option (ByteString × ByteString)
split_once sep [] = none
split_once sep (b ∷ s) =
    let rest = split_once sep s in
    if b == sep
    then some ([], s)
    else elim rest [ none ↦ none | some (before, after) ↦ some (b ∷ before, after) ]

-- The continuation bytes that a lead byte asks for, as ranges: `none` for a bad byte.
unfoldable pub lead : ℕ → Option (List (ℕ × ℕ))
lead b =
    if ltb b 0x80
    then some []
    else if ltb b 0xc2
    then none
    else if ltb b 0xe0
    then some ((0x80, 0xbf) ∷ [])
    else if b == 0xe0
    then some ((0xa0, 0xbf) ∷ (0x80, 0xbf) ∷ [])
    else if b == 0xed
    then some ((0x80, 0x9f) ∷ (0x80, 0xbf) ∷ [])
    else if ltb b 0xf0
    then some ((0x80, 0xbf) ∷ (0x80, 0xbf) ∷ [])
    else if b == 0xf0
    then some ((0x90, 0xbf) ∷ (0x80, 0xbf) ∷ (0x80, 0xbf) ∷ [])
    else if ltb b 0xf4
    then some ((0x80, 0xbf) ∷ (0x80, 0xbf) ∷ (0x80, 0xbf) ∷ [])
    else if b == 0xf4
    then some ((0x80, 0x8f) ∷ (0x80, 0xbf) ∷ (0x80, 0xbf) ∷ [])
    else none

unfoldable pub utf8_step : Option (List (ℕ × ℕ)) → ℕ → Option (List (ℕ × ℕ))
unfolding lead
utf8_step none b = none
utf8_step (some []) b = lead b
utf8_step (some ((lo, hi) ∷ rest)) b = if leb lo b && leb b hi then some rest else none

unfoldable pub is_complete : Option (List (ℕ × ℕ)) → Bool
is_complete none = false
is_complete (some pending) = is_empty pending

-- `String::from_utf8(bytes).is_ok()`
unfoldable pub is_utf8 : ByteString → Bool
unfolding utf8_step is_complete
is_utf8 s = is_complete (foldl utf8_step (some []) s)
