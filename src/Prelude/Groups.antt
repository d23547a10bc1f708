-- ===== src/Prelude/Groups.antt =====
-- Elements grouped by a key in a `BTreeMap<K, Vec<V>>`, and elements found by their places.
use Prim.Native.Nat.{ℕ, zero, suc, ◌+◌}
use mathlib.Core.Path.{◌≡◌, refl, sym, ap}
use mathlib.Core.Logic.{◌⊎◌, inl, inr}
use mathlib.Core.Option.{some}
use mathlib.Core.List.{List, [], ◌∷◌, ◌++◌, map, Memᴰ}
use mathlib.Core.List.Memᴰ
use native.Mathlib.Omega.{arith}
use st0x_rest_api.Prelude.Tests.{ltb, ◌==◌, if◌then◌else◌, Bool-cases}
use st0x_rest_api.Prelude.Lists.{get_elem?}
use st0x_rest_api.Prelude.Slots.{enumerate_from}

module _ {V : Type 0} where
  -- `entry(key).or_default().push(value)`, with the entries in the order of their keys.
  unfoldable pub entry_push : ℕ → V → List (ℕ × List V) → List (ℕ × List V)
  entry_push k p [] = (k, p ∷ []) ∷ []
  entry_push k p ((j, g) ∷ m) =
      if k == j
      then (j, g ++ p ∷ []) ∷ m
      else if ltb k j
      then (k, p ∷ []) ∷ (j, g) ∷ m
      else (j, g) ∷ entry_push k p m

  -- Some group holds the value.
  abbrev pub In : V → List (ℕ × List V) → Type 0
  In p [] = ⊥
  In p ((k, g) ∷ m) = Memᴰ p g ⊎ In p m

  entry_push-In :
      (k : ℕ) (x p : V) (m : List (ℕ × List V)) → (p ≡ x) ⊎ In p m → In p (entry_push k x m)
  unfolding entry_push
  entry_push-In k x p [] (inl e) = inl (Memᴰ.head e)
  entry_push-In k x p ((j, g) ∷ m) (inl e) = elim (Bool-cases (k == j)) [
    | inl hit ↦ rw hit (inl (Memᴰ.append_right g (Memᴰ.head e)))
    | inr miss ↦ rw miss (elim (Bool-cases (ltb k j)) [
      | inl before ↦ rw before (inl (Memᴰ.head e))
      | inr after ↦ rw after (inr (entry_push-In k x p m (inl e)))
    ])
  ]
  entry_push-In k x p ((j, g) ∷ m) (inr d) = elim (Bool-cases (k == j)) [
    | inl hit ↦
        rw hit (elim d [ inl here ↦ inl (Memᴰ.append_left (x ∷ []) here) | inr later ↦ inr later ])
    | inr miss ↦ rw miss (elim (Bool-cases (ltb k j)) [
      | inl before ↦ rw before (inr d)
      | inr after ↦
          rw after
            (elim d [ inl here ↦ inl here | inr later ↦ inr (entry_push-In k x p m (inr later)) ])
    ])
  ]
  entry_push-In k x p [] (inr d) = elim d [ ]

  In-entry_push :
      (k : ℕ) (x p : V) (m : List (ℕ × List V)) → In p (entry_push k x m) → (p ≡ x) ⊎ In p m
  unfolding entry_push
  In-entry_push k x p [] (inl here) = inl (Memᴰ.eq_of_singleton here)
  In-entry_push k x p [] (inr d) = elim d [ ]
  In-entry_push k x p ((j, g) ∷ m) d = elim (Bool-cases (k == j)) [
    | inl hit ↦
        let d' : Memᴰ p (g ++ x ∷ []) ⊎ In p m = rw hit at d in
        elim d' [
          | inl here ↦ elim (Memᴰ.append_cases g here) [
            | inl old ↦ inr (inl old)
            | inr new ↦ inl (Memᴰ.eq_of_singleton new)
          ]
          | inr later ↦ inr (inr later)
        ]
    | inr miss ↦
        let d' : In p (if ltb k j then (k, x ∷ []) ∷ (j, g) ∷ m else (j, g) ∷ entry_push k x m) =
          rw miss at d in
        elim (Bool-cases (ltb k j)) [
          | inl before ↦
              let e : Memᴰ p (x ∷ []) ⊎ (Memᴰ p g ⊎ In p m) = rw before at d' in
              elim e [ inl new ↦ inl (Memᴰ.eq_of_singleton new) | inr old ↦ inr old ]
          | inr after ↦
              let e : Memᴰ p g ⊎ In p (entry_push k x m) = rw after at d' in
              elim e [
                | inl here ↦ inr (inl here)
                | inr later ↦ elim (In-entry_push k x p m later) [
                  | inl new ↦ inl new
                  | inr old ↦ inr (inr old)
                ]
              ]
        ]
  ]

module _ {A V : Type 0} (key : A → ℕ) (value : A → V) where
  -- The loop that pushes each value under its key.
  unfoldable pub group_from : List (ℕ × List V) → List A → List (ℕ × List V)
  group_from m [] = m
  group_from m (x ∷ xs) = group_from (entry_push (key x) (value x) m) xs

  pub group_from-In :
      (p : V) (m : List (ℕ × List V)) (xs : List A)
      → Memᴰ p (map value xs) ⊎ In p m
      → In p (group_from m xs)
  unfolding group_from
  group_from-In p m [] (inl h) = elim h [ ]
  group_from-In p m [] (inr h) = h
  group_from-In p m (x ∷ xs) (inl (Memᴰ.head e)) =
      group_from-In p (entry_push (key x) (value x) m) xs
        (inr (entry_push-In (key x) (value x) p m (inl e)))
  group_from-In p m (x ∷ xs) (inl (Memᴰ.tail h)) =
      group_from-In p (entry_push (key x) (value x) m) xs (inl h)
  group_from-In p m (x ∷ xs) (inr h) =
      group_from-In p (entry_push (key x) (value x) m) xs
        (inr (entry_push-In (key x) (value x) p m (inr h)))

  pub In-group_from :
      (p : V) (m : List (ℕ × List V)) (xs : List A)
      → In p (group_from m xs)
      → Memᴰ p (map value xs) ⊎ In p m
  unfolding group_from
  In-group_from p m [] h = inr h
  In-group_from p m (x ∷ xs) h = elim (In-group_from p (entry_push (key x) (value x) m) xs h) [
    | inl later ↦ inl (Memᴰ.tail later)
    | inr d ↦ elim (In-entry_push (key x) (value x) p m d) [
      | inl e ↦ inl (Memᴰ.head e)
      | inr old ↦ inr old
    ]
  ]

-- The members of an enumeration are the elements at their places.
pub get_elem?_of_enumerate {ℓ} :
    {A : Type ℓ} (i j : ℕ) (a : A) (xs : List A)
    → Memᴰ (j, a) (enumerate_from i xs)
    → (k : ℕ) × (j ≡ i + k) × (get_elem? xs k ≡ some a)
get_elem?_of_enumerate i j a [] h = elim h [ ]
get_elem?_of_enumerate i j a (x ∷ xs) (Memᴰ.head e) =
    (0, omega (arith, ap (λ p. p.0) e), ap (λ p. some p.1) (sym e))
get_elem?_of_enumerate i j a (x ∷ xs) (Memᴰ.tail h) =
    let (k, place, found) = get_elem?_of_enumerate (suc i) j a xs h in (suc k, omega arith, found)

pub enumerate_of_get_elem? {ℓ} :
    {A : Type ℓ} (i k : ℕ) (a : A) (xs : List A)
    → get_elem? xs k ≡ some a
    → (j : ℕ) → j ≡ i + k
    → Memᴰ (j, a) (enumerate_from i xs)
enumerate_of_get_elem? i k a [] h j e = cc
enumerate_of_get_elem? i zero a (x ∷ xs) h j e =
    let v : a ≡ x = cc in let n : j ≡ i = omega arith in Memᴰ.head (cc)
enumerate_of_get_elem? i (suc k) a (x ∷ xs) h j e =
    Memᴰ.tail (enumerate_of_get_elem? (suc i) k a xs h j (omega arith))

-- The list of the elements of an enumeration, without their places.
pub map-enumerate {ℓ} :
    {A : Type ℓ} (i : ℕ) (xs : List A) → map (λ p. p.1) (enumerate_from i xs) ≡ xs
map-enumerate i [] = refl
map-enumerate i (x ∷ xs) = ap (◌∷◌ x) (map-enumerate (suc i) xs)

pub map-same {ℓ} : {A : Type ℓ} (xs : List A) → map (λ x. x) xs ≡ xs
map-same [] = refl
map-same (x ∷ xs) = ap (◌∷◌ x) (map-same xs)
