-- ===== src/Bytes/Laws.antt =====
-- Laws of comparing and splitting byte strings.
use st0x_rest_api.Prelude.{ℕ, ◌≡◌, ◌≢◌, refl, true, some, [], ◌∷◌, ◌++◌, arith, All}
use st0x_rest_api.Bytes.{ByteString, bytes_eq, split_once}

pub bytes_eq_sound : (xs ys : ByteString) → bytes_eq xs ys ≡ true → xs ≡ ys
unfolding bytes_eq
bytes_eq_sound [] [] h = refl
bytes_eq_sound [] (y ∷ ys) h = cc
bytes_eq_sound (x ∷ xs) [] h = cc
bytes_eq_sound (x ∷ xs) (y ∷ ys) h = ground (arith, bytes_eq_sound xs ys)

pub bytes_eq_refl : (xs : ByteString) → bytes_eq xs xs ≡ true
unfolding bytes_eq
bytes_eq_refl [] = refl
bytes_eq_refl (x ∷ xs) = ground (arith, bytes_eq_refl xs)

-- What is joined by a separator that the first part lacks is split again.
pub split_once-join :
    (sep : ℕ) (xs ys : ByteString)
    → All (λ b. b ≢ sep) xs
    → split_once sep (xs ++ sep ∷ ys) ≡ some (xs, ys)
unfolding split_once
split_once-join sep [] ys h = ground arith
split_once-join sep (x ∷ xs) ys h = ground (arith, split_once-join sep xs ys h.1)
