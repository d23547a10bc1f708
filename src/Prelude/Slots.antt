-- ===== src/Prelude/Slots.antt =====
-- Results that arrive in any order are written into slots by their index. The lemma says when all
-- slots are filled with the values meant for them.
use Prim.Native.Nat.{ℕ, zero, suc}
use mathlib.Core.Path.{◌≡◌, refl, sym, ap, ◌∙◌}
use mathlib.Core.Logic.{◌≢◌, ◌⊎◌, inl, inr}
use mathlib.Core.Option.{Option, some}
use mathlib.Core.List.{List, [], ◌∷◌, map, Memᴰ}
use native.Mathlib.Omega.{arith}
use st0x_rest_api.Prelude.Tests.{◌==◌, ==_iff, Bool-cases}
use st0x_rest_api.Prelude.Lists.{length, get_elem?, set}
use st0x_rest_api.Prelude.Maps.{unwrap_or}

-- `iter().enumerate()`, counted from `i`.
abbrev pub enumerate_from {ℓ} : {A : Type ℓ} → ℕ → List A → List (ℕ × A)
enumerate_from i [] = []
enumerate_from i (x ∷ xs) = (i, x) ∷ enumerate_from (suc i) xs

module _ {ℓ} {R : Type ℓ} where
  -- `slots[i] = Some(r)` for each pair in turn.
  abbrev pub write_all : List (Option R) → List (ℕ × R) → List (Option R)
  write_all slots [] = slots
  write_all slots ((i, r) ∷ pairs) = write_all (set slots i (some r)) pairs

  get_elem?-set :
      (xs : List (Option R)) (i j : ℕ) (r : R) {o : Option R}
      → get_elem? xs j ≡ some o
      → (i ≢ j → get_elem? (set xs i (some r)) j ≡ some o)
        × (i ≡ j → get_elem? (set xs i (some r)) j ≡ some (some r))
  get_elem?-set [] i j r h = cc
  get_elem?-set (x ∷ xs) zero zero r h = ((λ n. absurd (n refl)), λ e. refl)
  get_elem?-set (x ∷ xs) zero (suc j) r h = ((λ n. h), λ e. absurd (omega arith))
  get_elem?-set (x ∷ xs) (suc i) zero r h = ((λ n. h), λ e. absurd (omega arith))
  get_elem?-set (x ∷ xs) (suc i) (suc j) r h =
      let (other, same) = get_elem?-set xs i j r h in
      ((λ n. other (λ e. n (ap suc e))), λ e. same (omega arith))

  length-set : (xs : List (Option R)) (i : ℕ) (r : Option R) → length (set xs i r) ≡ length xs
  length-set [] i r = refl
  length-set (x ∷ xs) zero r = refl
  length-set (x ∷ xs) (suc i) r = ap suc (length-set xs i r)

  get_elem?_total :
      (slots : List (Option R)) (values : List R) (j : ℕ) {v : R}
      → length slots ≡ length values
      → get_elem? values j ≡ some v
      → (o : Option R) × (get_elem? slots j ≡ some o)
  get_elem?_total slots [] j l h = cc
  get_elem?_total [] (x ∷ xs) j l h = absurd (omega arith)
  get_elem?_total (s ∷ slots) (x ∷ xs) zero l h = (s, refl)
  get_elem?_total (s ∷ slots) (x ∷ xs) (suc j) l h = get_elem?_total slots xs j (omega arith) h

  -- Every value has its slot filled with it.
  abbrev IsFilled : List R → List (Option R) → Type ℓ
  IsFilled values slots =
      (j : ℕ) (v : R) → get_elem? values j ≡ some v → get_elem? slots j ≡ some (some v)

  eq_of_IsFilled :
      (slots : List (Option R)) (values : List R)
      → length slots ≡ length values
      → IsFilled values slots
      → slots ≡ map some values
  eq_of_IsFilled [] [] l h = refl
  eq_of_IsFilled [] (v ∷ values) l h = absurd (omega arith)
  eq_of_IsFilled (s ∷ slots) [] l h = absurd (omega arith)
  eq_of_IsFilled (s ∷ slots) (v ∷ values) l h =
      let rest = eq_of_IsFilled slots values (omega arith) (λ j w e. h (suc j) w e) in
      cc (h 0 v refl, rest)

  after_write :
      (i : ℕ) (r : R) (pairs : List (ℕ × R)) (slots : List (Option R)) (values : List R) (j : ℕ)
      (v : R)
      → get_elem? values i ≡ some r
      → length slots ≡ length values
      → get_elem? values j ≡ some v
      → (get_elem? slots j ≡ some (some v)) ⊎ Memᴰ (j, v) ((i, r) ∷ pairs)
      → (get_elem? (set slots i (some r)) j ≡ some (some v)) ⊎ Memᴰ (j, v) pairs
  after_write i r pairs slots values j v h l e (inr (Memᴰ.tail m)) = inr m
  after_write i r pairs slots values j v h l e (inr (Memᴰ.head q)) =
      let same : i ≡ j = sym (ap (λ p. p.0) q) in
      let value : v ≡ r = ap (λ p. p.1) q in
      let (o, old) = get_elem?_total slots values j l e in
      inl (rw value ((get_elem?-set slots i j r old).1 same))
  after_write i r pairs slots values j v h l e (inl d) = elim (Bool-cases (i == j)) [
    | inl hit ↦
        let same : i ≡ j = (==_iff i j).0 hit in
        let value : v ≡ r = cc (ap (get_elem? values) same) in
        inl (rw value ((get_elem?-set slots i j r d).1 same))
    | inr miss ↦ inl ((get_elem?-set slots i j r d).0 (λ q. cc ((==_iff i j).1 q)))
  ]

  -- The pairs are right, and each value is in its slot already or among the pairs.
  pub write_all-settles :
      (pairs : List (ℕ × R)) (slots : List (Option R)) (values : List R)
      → length slots ≡ length values
      → ((i : ℕ) (r : R) → Memᴰ (i, r) pairs → get_elem? values i ≡ some r)
      → ((j : ℕ) (v : R)
          → get_elem? values j ≡ some v
          → (get_elem? slots j ≡ some (some v)) ⊎ Memᴰ (j, v) pairs)
      → write_all slots pairs ≡ map some values
  write_all-settles [] slots values l right there =
      eq_of_IsFilled slots values l λ j v e. elim (there j v e) [ inl d ↦ d | inr m ↦ elim m [ ] ]
  write_all-settles ((i, r) ∷ pairs) slots values l right there =
      write_all-settles pairs (set slots i (some r)) values (length-set slots i (some r) ∙ l)
        (λ k w m. right k w (Memᴰ.tail m))
        (λ j v e.
          after_write i r pairs slots values j v (right i r (Memᴰ.head refl)) l e (there j v e))

  pub unwrap_or-some :
      (d : R) (values : List R) → map (λ o. unwrap_or o d) (map some values) ≡ values
  unwrap_or-some d [] = refl
  unwrap_or-some d (v ∷ values) = ap (◌∷◌ v) (unwrap_or-some d values)
