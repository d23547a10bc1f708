-- ===== src/Prelude/Picked.antt =====
-- The entries of a list that a test picks, with their places; and the slots that are complete once
-- the picked places are written.
use Prim.Native.Nat.{ℕ, zero, suc, ◌+◌}
use mathlib.Core.Path.{◌≡◌, refl, sym, ap, ◌∙◌, subst}
use mathlib.Core.Logic.{inl, inr}
use mathlib.Core.Bool.{Bool, true, false}
use mathlib.Core.Option.{Option, some}
use mathlib.Core.List.{List, [], ◌∷◌, map, Memᴰ}
use mathlib.Core.List.Memᴰ
use native.Mathlib.Omega.{arith}
use st0x_rest_api.Prelude.Tests.{Bool-cases, if◌then◌else◌}
use st0x_rest_api.Prelude.Lists.{length, get_elem?, is_empty, length-map}
use st0x_rest_api.Prelude.Slots.{write_all, write_all-settles}

zero_place : (i : ℕ) → i + 0 ≡ i
zero_place i = omega arith

zero_add : (j : ℕ) → 0 + j ≡ j
zero_add j = omega arith

module _ {ℓ} {A : Type ℓ} where
  -- `iter().enumerate().filter(p)`, counted from `i`.
  abbrev pub picked : (A → Bool) → ℕ → List A → List (ℕ × A)
  picked p i [] = []
  picked p i (x ∷ xs) = let rest = picked p (suc i) xs in if p x then (i, x) ∷ rest else rest

  pick_head :
      (p : A → Bool) (i : ℕ) (x : A) (xs : List A)
      → p x ≡ true
      → picked p i (x ∷ xs) ≡ (i, x) ∷ picked p (suc i) xs
  pick_head p i x xs h = rw h refl

  pick_skip :
      (p : A → Bool) (i : ℕ) (x : A) (xs : List A)
      → p x ≡ false
      → picked p i (x ∷ xs) ≡ picked p (suc i) xs
  pick_skip p i x xs h = rw h refl

  picked_place :
      (p : A → Bool) (i : ℕ) (xs : List A) (k : ℕ) (x : A)
      → Memᴰ (k, x) (picked p i xs)
      → (n : ℕ) × (k ≡ i + n) × (get_elem? xs n ≡ some x)
  picked_place p i [] k x m = elim m [ ]
  picked_place p i (y ∷ xs) k x m =
      let later : Memᴰ (k, x) (picked p (suc i) xs)
          → (n : ℕ) × (k ≡ i + n) × (get_elem? (y ∷ xs) n ≡ some x) =
        (λ m'. let (n, e, g) = picked_place p (suc i) xs k x m' in (suc n, omega arith, g)) in
      elim (Bool-cases (p y)) [
        | inl hit ↦ elim (subst (Memᴰ (k, x)) (pick_head p i y xs hit) m) [
          | Memᴰ.head e ↦ (0, omega (arith, ap (λ q. q.0) e), ap (λ q. some q.1) (sym e))
          | Memᴰ.tail m' ↦ later m'
        ]
        | inr miss ↦ later (subst (Memᴰ (k, x)) (pick_skip p i y xs miss) m)
      ]

  mem-picked :
      (p : A → Bool) (i : ℕ) (xs : List A) (n : ℕ) (x : A)
      → get_elem? xs n ≡ some x
      → p x ≡ true
      → Memᴰ (i + n, x) (picked p i xs)
  mem-picked p i [] n x g h = cc
  mem-picked p i (y ∷ xs) zero x g h =
      let same : y ≡ x = cc in
      let here : p y ≡ true = ap p same ∙ h in
      rw (pick_head p i y xs here) (Memᴰ.head (cc (same, zero_place i)))
  mem-picked p i (y ∷ xs) (suc n) x g h =
      let later = mem-picked p (suc i) xs n x g h in
      let place : suc i + n ≡ i + suc n = omega arith in
      let m : Memᴰ (i + suc n, x) (picked p (suc i) xs) =
        subst (λ k. Memᴰ (k, x) (picked p (suc i) xs)) place later in
      elim (Bool-cases (p y)) [
        | inl hit ↦ rw (pick_head p i y xs hit) (Memᴰ.tail m)
        | inr miss ↦ rw (pick_skip p i y xs miss) m
      ]

module _ {ℓ κ} {A : Type ℓ} {R : Type κ} where
  pub get_elem?-map :
      (f : A → R) (xs : List A) (n : ℕ) {x : A}
      → get_elem? xs n ≡ some x
      → get_elem? (map f xs) n ≡ some (f x)
  get_elem?-map f [] n h = cc
  get_elem?-map f (y ∷ xs) zero h = cc
  get_elem?-map f (y ∷ xs) (suc n) h = get_elem?-map f xs n h

  pub of_get_elem?-map :
      (f : A → R) (xs : List A) (n : ℕ) (v : R)
      → get_elem? (map f xs) n ≡ some v
      → (x : A) × (get_elem? xs n ≡ some x) × (v ≡ f x)
  of_get_elem?-map f [] n v h = cc
  of_get_elem?-map f (y ∷ xs) zero v h = (y, refl, cc)
  of_get_elem?-map f (y ∷ xs) (suc n) v h = of_get_elem?-map f xs n v h

  -- Two functions that agree where the test picks.
  pub map-picked-agree :
      (p : A → Bool) (f g : A → R) (i : ℕ) (xs : List A)
      → ((x : A) → p x ≡ true → f x ≡ g x)
      → map {B = ℕ × R} (λ (q : ℕ × A). (q.0, f q.1)) (picked p i xs)
        ≡ map (λ (q : ℕ × A). (q.0, g q.1)) (picked p i xs)
  map-picked-agree p f g i [] h = refl
  map-picked-agree p f g i (x ∷ xs) h = elim (Bool-cases (p x)) [
    | inl e ↦ rw e (cc (h x e, map-picked-agree p f g (suc i) xs h))
    | inr e ↦ rw e (map-picked-agree p f g (suc i) xs h)
  ]

  -- Writing nothing may be skipped.
  pub write_all-nonempty :
      (slots : List (Option R)) (f : ℕ × A → ℕ × R) (xs : List (ℕ × A))
      → (if is_empty xs then slots else write_all slots (map f xs)) ≡ write_all slots (map f xs)
  write_all-nonempty slots f [] = refl
  write_all-nonempty slots f (x ∷ xs) = refl

  -- The slots that the test does not pick hold their values already, and the picked ones are
  -- written: all slots hold their values.
  pub write_all-picked :
      (p : A → Bool) (f : A → R) (xs : List A) (slots : List (Option R))
      → length slots ≡ length xs
      → ((n : ℕ) (x : A)
          → get_elem? xs n ≡ some x
          → p x ≡ false
          → get_elem? slots n ≡ some (some (f x)))
      → write_all slots (map (λ (q : ℕ × A). (q.0, f q.1)) (picked p 0 xs)) ≡ map some (map f xs)
  write_all-picked p f xs slots l old =
      write_all-settles (map (λ (q : ℕ × A). (q.0, f q.1)) (picked p 0 xs)) slots (map f xs)
        (l ∙ sym (length-map xs f))
        (λ i r m.
          let (q, mq, e) = Memᴰ.of_map (λ (q : ℕ × A). (q.0, f q.1)) (picked p 0 xs) m in
          let (n, place, g) = picked_place p 0 xs q.0 q.1 mq in
          let same : i ≡ n = sym (ap (λ t. t.0) e) ∙ place ∙ zero_add n in
          rw (same, sym (ap (λ t. t.1) e)) (get_elem?-map f xs n g))
        (λ j v e.
          let (x, g, value) = of_get_elem?-map f xs j v e in
          elim (Bool-cases (p x)) [
            | inl hit ↦
                let m = Memᴰ.map (λ (q : ℕ × A). (q.0, f q.1)) (mem-picked p 0 xs j x g hit) in
                inr (Memᴰ.cast (cc (sym value, zero_add j)) m)
            | inr miss ↦ inl (rw value (old j x g miss))
          ])
