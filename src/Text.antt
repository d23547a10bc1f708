-- ===== src/Text.antt =====
-- Texts as lists of code points, with the operations of Rust's `str` that the program uses on them.
use st0x_rest_api.Prelude.{
  ℕ, Bool, true, false, ◌&&◌, ◌||◌, Option, none, some, List, [], ◌∷◌, ◌++◌, leb, ◌==◌,
  if◌then◌else◌, any, is_empty, length, drop,
}
use st0x_rest_api.Bytes.{ByteString}

-- `char::is_whitespace`: the code points with the property White_Space.
abbrev pub is_whitespace : ℕ → Bool
is_whitespace c =
    (leb 9 c && leb c 13)
    || (leb 8192 c && leb c 8202)
    || any (λ w. c == w) (32 ∷ 133 ∷ 160 ∷ 5760 ∷ 8232 ∷ 8233 ∷ 8239 ∷ 8287 ∷ 12288 ∷ [])

abbrev pub trim_start : ByteString → ByteString
trim_start [] = []
trim_start (c ∷ s) = let rest = trim_start s in if is_whitespace c then rest else c ∷ s

abbrev pub trim_end : ByteString → ByteString
trim_end [] = []
trim_end (c ∷ s) =
    let rest = trim_end s in if is_whitespace c && is_empty rest then [] else c ∷ rest

abbrev pub trim : ByteString → ByteString
trim s = trim_start (trim_end s)

abbrev pub starts_with : ByteString → ByteString → Bool
starts_with [] s = true
starts_with (p ∷ ps) [] = false
starts_with (p ∷ ps) (c ∷ s) = p == c && starts_with ps s

abbrev pub contains : ByteString → ByteString → Bool
contains p [] = starts_with p []
contains p (c ∷ s) = starts_with p (c ∷ s) || contains p s

-- `strip_suffix('\r')`, or the text itself
abbrev pub strip_cr : ByteString → ByteString
strip_cr [] = []
strip_cr (c ∷ s) = let rest = strip_cr s in if c == 13 && is_empty s then [] else c ∷ rest

-- `lines()`: a line that ends at '\n' loses a '\r' before it, and the last line need not end.
-- `line` is what has been read of the current one.
abbrev pub lines_from : ByteString → ByteString → List ByteString
lines_from line [] = if is_empty line then [] else line ∷ []
lines_from line (c ∷ s) = elim (c == 10) [
  | true ↦ strip_cr line ∷ lines_from [] s
  | false ↦ lines_from (line ++ c ∷ []) s
]

abbrev pub join_lines : List ByteString → ByteString
join_lines [] = []
join_lines (l ∷ []) = l
join_lines (l ∷ m ∷ ls) = l ++ 10 ∷ join_lines (m ∷ ls)

-- `split_once(p).map(|(_, after)| after)`
abbrev pub after_first : ByteString → ByteString → Option ByteString
after_first p [] = if is_empty p then some [] else none
after_first p (c ∷ s) =
    let rest = after_first p s in
    if starts_with p (c ∷ s) then some (drop (length p) (c ∷ s)) else rest
