-- ===== src/RateLimiter/Window.antt =====
-- Pruning a window, for `prune_window` of src/fairings/rate_limiter.rs.
use st0x_rest_api.Prelude.{
  ℕ, ◌≤◌, ◌≡◌, refl, sym, ap, ◌∙◌, List, [], ◌∷◌, ◌++◌, arith, ltb, leb, Bool-cases, inl, inr, keep,
}
use st0x_rest_api.RateLimiter.{prune_window}

pub prune-prune :
    (c d : ℕ) (w : List ℕ) → c ≤ d → prune_window d (prune_window c w) ≡ prune_window d w
unfolding prune_window
prune-prune c d [] h = refl
prune-prune c d (t ∷ w) h = ground (arith, prune-prune c d w h)

-- What pruning leaves of an appended list depends on what it leaves of the front.
after_front : ℕ → List ℕ → List ℕ → List ℕ
after_front c [] ys = prune_window c ys
after_front c (x ∷ xs) ys = (x ∷ xs) ++ ys

prune-append :
    (c : ℕ) (xs ys : List ℕ) → prune_window c (xs ++ ys) ≡ after_front c (prune_window c xs) ys
unfolding prune_window after_front
prune-append c [] ys = refl
prune-append c (x ∷ xs) ys = ground (arith, prune-append c xs ys)

pub prune_append_congr :
    (c : ℕ) (xs ys zs : List ℕ)
    → prune_window c xs ≡ prune_window c ys
    → prune_window c (xs ++ zs) ≡ prune_window c (ys ++ zs)
prune_append_congr c xs ys zs h =
    prune-append c xs zs ∙ (ap (λ w. after_front c w zs) h ∙ sym (prune-append c ys zs))

-- A log of instants that do not fall, from `lo` up to `hi`.
abbrev pub IsLog : ℕ → ℕ → List ℕ → Type 0
IsLog lo hi [] = lo ≤ hi
IsLog lo hi (t ∷ ts) = (lo ≤ t) × IsLog t hi ts

pub IsLog-le : (lo hi : ℕ) (ts : List ℕ) → IsLog lo hi ts → lo ≤ hi
IsLog-le lo hi [] h = h
IsLog-le lo hi (t ∷ ts) h = omega (arith, IsLog-le t hi ts h.1)

pub IsLog-mono : (lo hi k : ℕ) (ts : List ℕ) → hi ≤ k → IsLog lo hi ts → IsLog lo k ts
IsLog-mono lo hi k [] m h = omega arith
IsLog-mono lo hi k (t ∷ ts) m h = (h.0, IsLog-mono t hi k ts m h.1)

pub IsLog-append : (lo hi n : ℕ) (ts : List ℕ) → hi ≤ n → IsLog lo hi ts → IsLog lo n (ts ++ n ∷ [])
IsLog-append lo hi n [] m h = (omega arith, omega arith)
IsLog-append lo hi n (t ∷ ts) m h = (h.0, IsLog-append t hi n ts m h.1)

keep_all : (c lo hi : ℕ) (ts : List ℕ) → c ≤ lo → IsLog lo hi ts → keep (leb c) ts ≡ ts
keep_all c lo hi [] m h = refl
keep_all c lo hi (t ∷ ts) m h = ground (arith, keep_all c t hi ts)

-- On a log, pruning the front keeps exactly the instants that are recent enough.
pub prune-eq-keep :
    (c lo hi : ℕ) (ts : List ℕ) → IsLog lo hi ts → prune_window c ts ≡ keep (leb c) ts
unfolding prune_window
prune-eq-keep c lo hi [] h = refl
prune-eq-keep c lo hi (t ∷ ts) h = ground (arith, prune-eq-keep c t hi ts h.1, keep_all c t hi ts)

IsLog-lower : (k lo hi : ℕ) (ts : List ℕ) → k ≤ lo → IsLog lo hi ts → IsLog k hi ts
IsLog-lower k lo hi [] m h = omega arith
IsLog-lower k lo hi (t ∷ ts) m h = (omega arith, h.1)

pub IsLog-prune : (c lo hi : ℕ) (ts : List ℕ) → IsLog lo hi ts → IsLog lo hi (prune_window c ts)
unfolding prune_window
IsLog-prune c lo hi [] h = h
IsLog-prune c lo hi (t ∷ ts) h = elim (Bool-cases (ltb t c)) [
  | inl old ↦ rw old (IsLog-lower lo t hi (prune_window c ts) h.0 (IsLog-prune c t hi ts h.1))
  | inr recent ↦ rw recent h
]
