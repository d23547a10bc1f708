-- ===== src/Auth/Header.antt =====
-- What the guard makes of the header `Authorization`.
use st0x_rest_api.Prelude.{
  ℕ, ◌≤◌, ◌<◌, ◌≡◌, ◌≢◌, refl, ◌↔◌, true, false, some, [], ◌∷◌, ◌++◌, arith, ◌>>=◌, ok, err,
  Option-cases, inl, inr, All, get_elem?, ltb, length,
}
use st0x_rest_api.Bytes.{ByteString, bytes, is_utf8, eq_ignore_ascii_case, is_char_boundary}
use st0x_rest_api.Bytes.Laws.{split_once-join}
use st0x_rest_api.Auth.{
  Crypto, Checked, panics, parse_credentials, encoded_part, decode_credentials,
}

-- Slicing a header of at least six bytes at the sixth panics exactly when the seventh byte
-- continues a character.
boundary_iff :
    (header : ByteString)
    → ltb (length header) 6 ≡ false
    → (is_char_boundary header 6 ≡ false)
      ↔ ((c : ℕ) × (get_elem? header 6 ≡ some c) × (0x80 ≤ c) × (c < 0xc0))
unfolding is_char_boundary
boundary_iff (a ∷ b ∷ c ∷ d ∷ e ∷ f ∷ []) h = ((λ p. cc), (λ (x, p, q, r). cc))
boundary_iff (a ∷ b ∷ c ∷ d ∷ e ∷ f ∷ g ∷ rest) h =
    ((λ p. (g, refl, ground arith, ground arith)), (λ (x, p, q, r). ground arith))
boundary_iff [] h = ground arith
boundary_iff (a ∷ []) h = ground arith
boundary_iff (a ∷ b ∷ []) h = ground arith
boundary_iff (a ∷ b ∷ c ∷ []) h = ground arith
boundary_iff (a ∷ b ∷ c ∷ d ∷ []) h = ground arith
boundary_iff (a ∷ b ∷ c ∷ d ∷ e ∷ []) h = ground arith

six_bytes :
    (header : ByteString) (c : ℕ) → get_elem? header 6 ≡ some c → ltb (length header) 6 ≡ false
six_bytes (a ∷ b ∷ c ∷ d ∷ e ∷ f ∷ g ∷ rest) x h = ground arith
six_bytes _ x h = cc

encoded_part_ascii :
    (scheme encoded : ByteString)
    → eq_ignore_ascii_case scheme (bytes "Basic ") ≡ true
    → All (λ b. b < 0x80) encoded
    → encoded_part (scheme ++ encoded) ≡ ok encoded
unfolding encoded_part eq_ignore_ascii_case is_char_boundary
encoded_part_ascii (a ∷ b ∷ c ∷ d ∷ e ∷ f ∷ []) [] h k = ground arith
encoded_part_ascii (a ∷ b ∷ c ∷ d ∷ e ∷ f ∷ []) (g ∷ rest) h k = ground arith
encoded_part_ascii scheme encoded h k = ground arith

encoded_part-panics_iff :
    (header : ByteString)
    → (encoded_part header ≡ err panics)
      ↔ ((ltb (length header) 6 ≡ false) × (is_char_boundary header 6 ≡ false))
unfolding encoded_part
encoded_part-panics_iff header = (λ h. (ground arith, ground arith), λ (p, q). ground arith)

decode_credentials-ne-panics :
    (crypto : Crypto) (encoded : ByteString) → decode_credentials crypto encoded ≢ err panics
unfolding decode_credentials
decode_credentials-ne-panics crypto encoded h = elim (Option-cases (crypto.base64_decode encoded)) [
  | inl e ↦ ground arith
  | inr (credentials, e) ↦ ground arith
]

after_encoded :
    (crypto : Crypto) (r : Checked ByteString)
    → (r >>= decode_credentials crypto) ≡ err panics
    → r ≡ err panics
after_encoded crypto (ok encoded) h = absurd (decode_credentials-ne-panics crypto encoded h)
after_encoded crypto (err e) h = cc

-- A header makes the guard panic exactly when its seventh byte continues a UTF-8 character (in a
-- valid text the sixth position then lies inside a character).
pub parse_credentials-panics_iff :
    (crypto : Crypto) (header : ByteString)
    → (parse_credentials crypto (some header) ≡ err panics)
      ↔ ((c : ℕ) × (get_elem? header 6 ≡ some c) × (0x80 ≤ c) × (c < 0xc0))
unfolding parse_credentials
parse_credentials-panics_iff crypto header = (
  λ h.
      let (long, inside) =
        (encoded_part-panics_iff header).0 (after_encoded crypto (encoded_part header) h) in
      (boundary_iff header long).0 inside,
  λ (c, at', low, high).
      let long = six_bytes header c at' in
      rw (
        (encoded_part-panics_iff header).1
          (long, (boundary_iff header long).1 (c, at', low, high))),
)

-- A client that sends `Basic ` in any case, followed by a text of ASCII characters that decodes
-- to the UTF-8 text of an identifier without a colon, a colon, and a secret, is read as that
-- identifier and that secret.
pub parse_credentials-join :
    (crypto : Crypto) (scheme encoded key_id secret : ByteString)
    → eq_ignore_ascii_case scheme (bytes "Basic ") ≡ true
    → All (λ b. b < 0x80) encoded
    → crypto.base64_decode encoded ≡ some (key_id ++ b':' ∷ secret)
    → is_utf8 (key_id ++ b':' ∷ secret) ≡ true
    → All (λ b. b ≢ b':') key_id
    → parse_credentials crypto (some (scheme ++ encoded)) ≡ ok (key_id, secret)
unfolding parse_credentials decode_credentials
parse_credentials-join crypto scheme encoded key_id secret basic ascii decoded utf8 plain = rw (
  encoded_part_ascii scheme encoded basic ascii,
  decoded,
  utf8,
  split_once-join b':' key_id secret plain,
)
