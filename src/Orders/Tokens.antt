-- ===== src/Orders/Tokens.antt =====
-- The tokens whose ratios are asked for: each token of the orders once, in ascending order.
use mathlib.Core.Path.{subst}
use mathlib.Core.List.{Memᴰ}
use st0x_rest_api.Prelude.{
  ℕ, ◌<◌, ◌≡◌, refl, ◌∙◌, ◌↔◌, inl, inr, true, false, List, [], ◌∷◌, ltb, ◌==◌, ==_iff, ltb→lt,
  Bool-cases, All, arith,
}
use st0x_rest_api.Orders.Summaries.{insert_sorted, sort_dedup}

abbrev pub IsAscending : List ℕ → Type 0
IsAscending [] = Unit
IsAscending (a ∷ as') = All (λ b. a < b) as' × IsAscending as'

-- The three places that a number can take before a list's head.
insert_before : (a b : ℕ) (bs : List ℕ) → ltb a b ≡ true → insert_sorted a (b ∷ bs) ≡ a ∷ b ∷ bs
unfolding insert_sorted
insert_before a b bs h = rw h refl

insert_same :
    (a b : ℕ) (bs : List ℕ) → ltb a b ≡ false → (a == b) ≡ true → insert_sorted a (b ∷ bs) ≡ b ∷ bs
unfolding insert_sorted
insert_same a b bs h k = rw (h, k) refl

insert_after :
    (a b : ℕ) (bs : List ℕ)
    → ltb a b ≡ false
    → (a == b) ≡ false
    → insert_sorted a (b ∷ bs) ≡ b ∷ insert_sorted a bs
unfolding insert_sorted
insert_after a b bs h k = rw (h, k) refl

mem-insert_sorted : (x a : ℕ) (bs : List ℕ) → Memᴰ x (a ∷ bs) → Memᴰ x (insert_sorted a bs)
unfolding insert_sorted
mem-insert_sorted x a [] m = m
mem-insert_sorted x a (b ∷ bs) m = elim (Bool-cases (ltb a b)) [
  | inl less ↦ rw (insert_before a b bs less) m
  | inr more ↦ elim (Bool-cases (a == b)) [
    | inl same ↦
        rw (insert_same a b bs more same)
          (elim m [ Memᴰ.head e ↦ Memᴰ.head (e ∙ (==_iff a b).0 same) | Memᴰ.tail later ↦ later ])
    | inr other ↦ rw (insert_after a b bs more other) (elim m [
      | Memᴰ.head e ↦ Memᴰ.tail (mem-insert_sorted x a bs (Memᴰ.head e))
      | Memᴰ.tail later ↦ elim later [
        | Memᴰ.head e ↦ Memᴰ.head e
        | Memᴰ.tail far ↦ Memᴰ.tail (mem-insert_sorted x a bs (Memᴰ.tail far))
      ]
    ])
  ]
]

of_mem-insert_sorted : (x a : ℕ) (bs : List ℕ) → Memᴰ x (insert_sorted a bs) → Memᴰ x (a ∷ bs)
unfolding insert_sorted
of_mem-insert_sorted x a [] m = m
of_mem-insert_sorted x a (b ∷ bs) m = elim (Bool-cases (ltb a b)) [
  | inl less ↦ subst (Memᴰ x) (insert_before a b bs less) m
  | inr more ↦ elim (Bool-cases (a == b)) [
    | inl same ↦ Memᴰ.tail (subst (Memᴰ x) (insert_same a b bs more same) m)
    | inr other ↦ elim (subst (Memᴰ x) (insert_after a b bs more other) m) [
      | Memᴰ.head e ↦ Memᴰ.tail (Memᴰ.head e)
      | Memᴰ.tail later ↦ elim (of_mem-insert_sorted x a bs later) [
        | Memᴰ.head e ↦ Memᴰ.head e
        | Memᴰ.tail far ↦ Memᴰ.tail (Memᴰ.tail far)
      ]
    ]
  ]
]

lower_bound_trans : (c a : ℕ) (bs : List ℕ) → c < a → All (λ b. a < b) bs → All (λ b. c < b) bs
lower_bound_trans c a [] h hs = tt
lower_bound_trans c a (b ∷ bs) h (k, ks) = (omega arith, lower_bound_trans c a bs h ks)

insert_sorted-above :
    (c a : ℕ) (bs : List ℕ) → c < a → All (λ b. c < b) bs → All (λ b. c < b) (insert_sorted a bs)
unfolding insert_sorted
insert_sorted-above c a [] h hs = (h, tt)
insert_sorted-above c a (b ∷ bs) h (k, ks) = elim (Bool-cases (ltb a b)) [
  | inl less ↦ rw (insert_before a b bs less) (h, (k, ks))
  | inr more ↦ elim (Bool-cases (a == b)) [
    | inl same ↦ rw (insert_same a b bs more same) (k, ks)
    | inr other ↦ rw (insert_after a b bs more other) (k, insert_sorted-above c a bs h ks)
  ]
]

insert_sorted-IsAscending :
    (a : ℕ) (bs : List ℕ) → IsAscending bs → IsAscending (insert_sorted a bs)
unfolding insert_sorted
insert_sorted-IsAscending a [] h = (tt, tt)
insert_sorted-IsAscending a (b ∷ bs) (h, hs) = elim (Bool-cases (ltb a b)) [
  | inl less ↦
      let below = ltb→lt a b less in
      rw (insert_before a b bs less) ((below, lower_bound_trans a b bs below h), (h, hs))
  | inr more ↦ elim (Bool-cases (a == b)) [
    | inl same ↦ rw (insert_same a b bs more same) (h, hs)
    | inr other ↦
        rw (insert_after a b bs more other)
          (insert_sorted-above b a bs (ground arith) h, insert_sorted-IsAscending a bs hs)
  ]
]

sort_dedup-IsAscending : (xs : List ℕ) → IsAscending (sort_dedup xs)
unfolding sort_dedup
sort_dedup-IsAscending [] = tt
sort_dedup-IsAscending (x ∷ xs) =
    insert_sorted-IsAscending x (sort_dedup xs) (sort_dedup-IsAscending xs)

mem-sort_dedup : (x : ℕ) (xs : List ℕ) → Memᴰ x xs → Memᴰ x (sort_dedup xs)
unfolding sort_dedup
mem-sort_dedup x [] m = m
mem-sort_dedup x (y ∷ xs) (Memᴰ.head e) = mem-insert_sorted x y (sort_dedup xs) (Memᴰ.head e)
mem-sort_dedup x (y ∷ xs) (Memᴰ.tail m) =
    mem-insert_sorted x y (sort_dedup xs) (Memᴰ.tail (mem-sort_dedup x xs m))

of_mem-sort_dedup : (x : ℕ) (xs : List ℕ) → Memᴰ x (sort_dedup xs) → Memᴰ x xs
unfolding sort_dedup
of_mem-sort_dedup x [] m = m
of_mem-sort_dedup x (y ∷ xs) m = elim (of_mem-insert_sorted x y (sort_dedup xs) m) [
  | Memᴰ.head e ↦ Memᴰ.head e
  | Memᴰ.tail later ↦ Memᴰ.tail (of_mem-sort_dedup x xs later)
]

-- The tokens whose ratios are asked for are the tokens of the orders, each once, in ascending
-- order.
pub sort_dedup_lem :
    (x : ℕ) (addresses : List ℕ)
    → IsAscending (sort_dedup addresses) × (Memᴰ x (sort_dedup addresses) ↔ Memᴰ x addresses)
sort_dedup_lem x addresses =
    (sort_dedup-IsAscending addresses, (of_mem-sort_dedup x addresses, mem-sort_dedup x addresses))
