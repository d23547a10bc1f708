-- ===== src/Prelude/Members.antt =====
-- The members of a list that a traversal, a filter or a chain of lists made.
use Prim.Native.Nat.{ℕ, zero, suc}
use mathlib.Core.Path.{◌≡◌, refl, sym, ap, ◌∙◌}
use mathlib.Core.Logic.{inl, inr}
use mathlib.Core.Bool.{Bool, true}
use mathlib.Core.Option.{some}
use mathlib.Core.List.{List, [], ◌∷◌, Memᴰ}
use st0x_rest_api.Prelude.Tests.{Bool-cases}
use st0x_rest_api.Prelude.Lists.{get_elem?, keep}
use st0x_rest_api.Prelude.Fallible.{Result, ok, >>=-eq-ok, traverse}

module _ {A B E : Type 0} (f : A → Result E B) where
  pub of_mem-traverse :
      {y : B} (xs : List A) (ys : List B)
      → traverse f xs ≡ ok ys
      → Memᴰ y ys
      → (x : A) × Memᴰ x xs × (f x ≡ ok y)
  of_mem-traverse [] [] h m = elim m [ ]
  of_mem-traverse [] (z ∷ ys) h m = cc
  of_mem-traverse (x ∷ xs) [] h m = elim m [ ]
  of_mem-traverse (x ∷ xs) (z ∷ ys) h m =
      let (y', here, h1) = >>=-eq-ok (f x) _ h in
      let (rest, later, h2) = >>=-eq-ok (traverse f xs) _ h1 in
      elim m [
        | Memᴰ.head e ↦ let same : f x ≡ ok z = cc in (x, Memᴰ.head refl, cc)
        | Memᴰ.tail n ↦
            let same : traverse f xs ≡ ok ys = cc in
            let (w, k, e) = of_mem-traverse xs ys same n in (w, Memᴰ.tail k, e)
      ]

  pub mem-traverse :
      {x : A} (xs : List A) (ys : List B)
      → traverse f xs ≡ ok ys
      → Memᴰ x xs
      → (y : B) × Memᴰ y ys × (f x ≡ ok y)
  mem-traverse [] ys h m = elim m [ ]
  mem-traverse (x ∷ xs) [] h m =
      let (y', here, h1) = >>=-eq-ok (f x) _ h in
      let (rest, later, h2) = >>=-eq-ok (traverse f xs) _ h1 in cc
  mem-traverse (x ∷ xs) (z ∷ ys) h m =
      let (y', here, h1) = >>=-eq-ok (f x) _ h in
      let (rest, later, h2) = >>=-eq-ok (traverse f xs) _ h1 in
      elim m [
        | Memᴰ.head e ↦ (z, Memᴰ.head refl, cc)
        | Memᴰ.tail n ↦
            let same : traverse f xs ≡ ok ys = cc in
            let (w, k, e) = mem-traverse xs ys same n in (w, Memᴰ.tail k, e)
      ]

module _ {A : Type 0} where
  pub of_mem-keep :
      (p : A → Bool) {a : A} (xs : List A) → Memᴰ a (keep p xs) → Memᴰ a xs × (p a ≡ true)
  of_mem-keep p [] m = elim m [ ]
  of_mem-keep p {a} (x ∷ xs) m = elim (Bool-cases (p x)) [
    | inl hit ↦
        let m' : Memᴰ a (x ∷ keep p xs) = rw hit at m in
        elim m' [
          | Memᴰ.head e ↦ (Memᴰ.head e, ap p e ∙ hit)
          | Memᴰ.tail n ↦ let (k, h) = of_mem-keep p xs n in (Memᴰ.tail k, h)
        ]
    | inr miss ↦
        let m' : Memᴰ a (keep p xs) = rw miss at m in
        let (k, h) = of_mem-keep p xs m' in (Memᴰ.tail k, h)
  ]

  pub mem-keep : (p : A → Bool) {a : A} (xs : List A) → Memᴰ a xs → p a ≡ true → Memᴰ a (keep p xs)
  mem-keep p [] m h = elim m [ ]
  mem-keep p (x ∷ xs) (Memᴰ.head e) h =
      let hit : p x ≡ true = ap p (sym e) ∙ h in rw hit (Memᴰ.head e)
  mem-keep p (x ∷ xs) (Memᴰ.tail m) h = elim (Bool-cases (p x)) [
    | inl hit ↦ rw hit (Memᴰ.tail (mem-keep p xs m h))
    | inr miss ↦ rw miss (mem-keep p xs m h)
  ]

  pub mem_of_get_elem? : {a : A} (xs : List A) (i : ℕ) → get_elem? xs i ≡ some a → Memᴰ a xs
  mem_of_get_elem? [] i h = cc
  mem_of_get_elem? (x ∷ xs) zero h = Memᴰ.head (cc)
  mem_of_get_elem? (x ∷ xs) (suc i) h = Memᴰ.tail (mem_of_get_elem? xs i h)

  pub get_elem?_of_mem : {a : A} (xs : List A) → Memᴰ a xs → (i : ℕ) × (get_elem? xs i ≡ some a)
  get_elem?_of_mem [] m = elim m [ ]
  get_elem?_of_mem (x ∷ xs) (Memᴰ.head e) = (0, ap some (sym e))
  get_elem?_of_mem (x ∷ xs) (Memᴰ.tail m) = let (i, h) = get_elem?_of_mem xs m in (suc i, h)
