-- ===== src/Orders/Batching.antt =====
-- Batching by chain, and the order in which the groups complete, cannot be seen in the quotes of a
-- list of orders.
use mathlib.Core.List.{Memᴰ, Permᴰ}
use mathlib.Core.List.Memᴰ
use mathlib.Core.List.Permᴰ
use mathlib.Core.Path.{subst}
use st0x_rest_api.Prelude.{
  ℕ, zero, suc, ◌≡◌, refl, sym, ap, ◌∙◌, inl, inr, Option, none, some, List, [], ◌∷◌, ◌++◌, ◌==◌,
  ==_iff, length, map, replicate, set, zip, Result, ok, err, write_all, write_all-settles,
  unwrap_or-some, get_elem?, Bool-cases, length-map, In,
}
use st0x_rest_api.ApiError.{ApiError, internal}
use st0x_rest_api.Sdk.{RaindexOrder}
use st0x_rest_api.Orders.{OrdersListDataSource}
use st0x_rest_api.Orders.Quotes.{
  Quotes, OrderQuoteResult, IndexedOrder, GroupedOrders, group_orders_by_chain,
  fetch_order_quotes_individually, from_batch, fetch_quotes_for_chain_group, write_groups,
  fetch_order_quotes_grouped,
}
use st0x_rest_api.Orders.Grouping.{group_orders_by_chain-In, In-group_orders_by_chain}

-- The data source answers for an order in one way, alone or in a batch; a batch may also fail, or
-- return another number of answers.
pub record IsConsistent (ds : OrdersListDataSource) (q : RaindexOrder → OrderQuoteResult)
    : Type 0 where
  pub single : (order : RaindexOrder) → ds.get_order_quotes order ≡ q order
  pub batch :
      (orders : List RaindexOrder) (quotes : List Quotes)
      → ds.get_order_quotes_batch_for_chain orders ≡ ok quotes
      → length quotes ≡ length orders
      → map ok quotes ≡ map q orders

module _ (q : RaindexOrder → OrderQuoteResult) where
  abbrev answer : IndexedOrder → ℕ × OrderQuoteResult
  answer p = (p.0, q p.1)

  zip-answers :
      (g : List IndexedOrder) (quotes : List Quotes)
      → map {B = OrderQuoteResult} ok quotes ≡ map (λ p. q p.1) g
      → map (λ (p : IndexedOrder × Quotes). (p.0.0, ok p.1)) (zip g quotes) ≡ map answer g
  zip-answers [] quotes h = refl
  zip-answers (p ∷ g) [] h = cc
  zip-answers (p ∷ g) (x ∷ quotes) h =
      let here : ok x ≡ q p.1 = cc in
      let rest : map {B = OrderQuoteResult} ok quotes ≡ map (λ p. q p.1) g = cc in
      cc (here, zip-answers g quotes rest)

  module _ (ds : OrdersListDataSource) (c : IsConsistent ds q) where
    individually : (g : List IndexedOrder) → fetch_order_quotes_individually ds g ≡ map answer g
    unfolding fetch_order_quotes_individually
    individually [] = refl
    individually (p ∷ g) = cc (c.single p.1, individually g)

    map-snd : (g : List IndexedOrder) → map q (map (λ p. p.1) g) ≡ map (λ p. q p.1) g
    map-snd [] = refl
    map-snd (p ∷ g) = ap (◌∷◌ (q p.1)) (map-snd g)

    from_batch-answers :
        (r : Result ApiError (List Quotes)) (g : List IndexedOrder)
        → ds.get_order_quotes_batch_for_chain (map (λ p. p.1) g) ≡ r
        → from_batch ds r g ≡ map answer g
    unfolding from_batch
    from_batch-answers (err e) g h = individually g
    from_batch-answers (ok quotes) g h = elim (Bool-cases (length quotes == length g)) [
      | inl same ↦ rw same (
          zip-answers g quotes (
            c.batch (map (λ p. p.1) g) quotes h
              ((==_iff _ _).0 same ∙ sym (length-map g (λ p. p.1)))
            ∙ map-snd g))
      | inr other ↦ rw other (individually g)
    ]

    group_answers : (g : List IndexedOrder) → fetch_quotes_for_chain_group ds g ≡ map answer g
    unfolding fetch_quotes_for_chain_group
    group_answers g = from_batch-answers _ g refl

abbrev concat_groups : List (List (ℕ × OrderQuoteResult)) → List (ℕ × OrderQuoteResult)
concat_groups [] = []
concat_groups (g ∷ gs) = g ++ concat_groups gs

write_all-append :
    (slots : List (Option OrderQuoteResult)) (xs ys : List (ℕ × OrderQuoteResult))
    → write_all slots (xs ++ ys) ≡ write_all (write_all slots xs) ys
write_all-append slots [] ys = refl
write_all-append slots ((i, r) ∷ xs) ys = write_all-append (set slots i (some r)) xs ys

write_groups-eq-write_all :
    (slots : List (Option OrderQuoteResult)) (gs : List (List (ℕ × OrderQuoteResult)))
    → write_groups slots gs ≡ write_all slots (concat_groups gs)
unfolding write_groups
write_groups-eq-write_all slots [] = refl
write_groups-eq-write_all slots (g ∷ gs) =
    write_groups-eq-write_all (write_all slots g) gs
    ∙ sym (write_all-append slots g (concat_groups gs))

mem-concat :
    {p : ℕ × OrderQuoteResult} {g : List (ℕ × OrderQuoteResult)}
    (gs : List (List (ℕ × OrderQuoteResult)))
    → Memᴰ g gs
    → Memᴰ p g
    → Memᴰ p (concat_groups gs)
mem-concat {p} (x ∷ gs) (Memᴰ.head e) m = Memᴰ.append_left (concat_groups gs) (subst (Memᴰ p) e m)
mem-concat (x ∷ gs) (Memᴰ.tail h) m = Memᴰ.append_right x (mem-concat gs h m)
mem-concat [] h m = elim h [ ]

of_mem-concat :
    {p : ℕ × OrderQuoteResult} (gs : List (List (ℕ × OrderQuoteResult)))
    → Memᴰ p (concat_groups gs)
    → (g : List (ℕ × OrderQuoteResult)) × Memᴰ g gs × Memᴰ p g
of_mem-concat [] h = elim h [ ]
of_mem-concat (x ∷ gs) h = elim (Memᴰ.append_cases x h) [
  | inl here ↦ (x, Memᴰ.head refl, here)
  | inr later ↦ let (g, m, n) = of_mem-concat gs later in (g, Memᴰ.tail m, n)
]

mem-perm {ℓ} : {A : Type ℓ} {a : A} {xs ys : List A} → Permᴰ xs ys → Memᴰ a xs → Memᴰ a ys
mem-perm (Permᴰ.cons e p) (Memᴰ.head h) = Memᴰ.head (h ∙ e)
mem-perm (Permᴰ.cons e p) (Memᴰ.tail m) = Memᴰ.tail (mem-perm p m)
mem-perm (Permᴰ.swap e f) (Memᴰ.head h) = Memᴰ.tail (Memᴰ.head (h ∙ e))
mem-perm (Permᴰ.swap e f) (Memᴰ.tail (Memᴰ.head h)) = Memᴰ.head (h ∙ f)
mem-perm (Permᴰ.swap e f) (Memᴰ.tail (Memᴰ.tail m)) = Memᴰ.tail (Memᴰ.tail m)
mem-perm (Permᴰ.trans p r) m = mem-perm r (mem-perm p m)
mem-perm Permᴰ.nil m = m

module _ (q : RaindexOrder → OrderQuoteResult) (ds : OrdersListDataSource)
    (c : IsConsistent ds q) where
  abbrev results : GroupedOrders → List (List (ℕ × OrderQuoteResult))
  results = map (λ g. fetch_quotes_for_chain_group ds g.1)

  mem-results :
      (k : ℕ) (o : RaindexOrder) (m : GroupedOrders)
      → In (k, o) m
      → (g : List (ℕ × OrderQuoteResult)) × Memᴰ g (results m) × Memᴰ (k, q o) g
  mem-results k o [] d = elim d [ ]
  mem-results k o ((j, g) ∷ m) (inl here) = (
    fetch_quotes_for_chain_group ds g,
    Memᴰ.head refl,
    rw (group_answers q ds c g) (Memᴰ.map (answer q) here),
  )
  mem-results k o ((j, g) ∷ m) (inr later) =
      let (h, mh, mk) = mem-results k o m later in (h, Memᴰ.tail mh, mk)

  of_mem-results :
      (i : ℕ) (r : OrderQuoteResult) (m : GroupedOrders) (h : List (ℕ × OrderQuoteResult))
      → Memᴰ h (results m)
      → Memᴰ (i, r) h
      → (o : RaindexOrder) × In (i, o) m × (r ≡ q o)
  of_mem-results i r [] h d e = elim d [ ]
  of_mem-results i r ((j, g) ∷ m) h (Memᴰ.head same) e =
      let e' : Memᴰ (i, r) (map (answer q) g) =
        subst (Memᴰ (i, r)) (same ∙ group_answers q ds c g) e in
      let (p, mp, eq) = Memᴰ.of_map (answer q) g e' in (p.1, inl (Memᴰ.cast (cc eq) mp), cc eq)
  of_mem-results i r ((j, g) ∷ m) h (Memᴰ.tail d) e =
      let (o, there, value) = of_mem-results i r m h d e in (o, inr there, value)

  get_elem?-map :
      (orders : List RaindexOrder) (k : ℕ) (o : RaindexOrder)
      → get_elem? orders k ≡ some o
      → get_elem? (map q orders) k ≡ some (q o)
  get_elem?-map [] k o h = cc
  get_elem?-map (x ∷ orders) zero o h = cc
  get_elem?-map (x ∷ orders) (suc k) o h = get_elem?-map orders k o h

  of_get_elem?-map :
      (orders : List RaindexOrder) (k : ℕ) (v : OrderQuoteResult)
      → get_elem? (map q orders) k ≡ some v
      → (o : RaindexOrder) × (get_elem? orders k ≡ some o) × (v ≡ q o)
  of_get_elem?-map [] k v h = cc
  of_get_elem?-map (x ∷ orders) zero v h = (x, refl, cc)
  of_get_elem?-map (x ∷ orders) (suc k) v h = of_get_elem?-map orders k v h

  length-replicate : (n : ℕ) → length (replicate {A = Option OrderQuoteResult} n none) ≡ n
  length-replicate zero = refl
  length-replicate (suc n) = ap suc (length-replicate n)

  module _ (arrive : List (List (ℕ × OrderQuoteResult)) → List (List (ℕ × OrderQuoteResult)))
      (rearranges : (gs : List (List (ℕ × OrderQuoteResult))) → Permᴰ gs (arrive gs)) where
    filled :
        (orders : List RaindexOrder)
        → write_groups
            (replicate (length orders) none)
            (arrive (results (group_orders_by_chain orders)))
          ≡ map some (map q orders)
    filled orders =
        let gs = results (group_orders_by_chain orders) in
        write_groups-eq-write_all _ (arrive gs)
        ∙ write_all-settles (concat_groups (arrive gs)) (replicate (length orders) none)
            (map q orders) (length-replicate (length orders) ∙ sym (length-map orders q))
            (λ i r m.
              let (h, mh, mi) = of_mem-concat (arrive gs) m in
              let (o, there, value) =
                of_mem-results i r (group_orders_by_chain orders) h
                  (mem-perm (Permᴰ.symm (rearranges gs)) mh) mi in
              rw value (get_elem?-map orders i o (In-group_orders_by_chain orders i o there)))
            (λ j v e.
              let (o, found, value) = of_get_elem?-map orders j v e in
              let (h, mh, mj) =
                mem-results j o (group_orders_by_chain orders)
                  (group_orders_by_chain-In orders j o found) in
              inr (rw value (mem-concat (arrive gs) (mem-perm (rearranges gs) mh) mj)))

-- If the data source answers for an order in the same way alone and in a batch (where a batch may
-- fail or return a wrong number of answers), the quotes of a list of orders are the answers for
-- the orders one by one, in the list's order: in whatever order the chains' groups complete, and
-- whichever groups fall back to single requests. No slot is left to the internal error.
pub fetch_order_quotes_grouped-eq-map :
    (q : RaindexOrder → OrderQuoteResult) (ds : OrdersListDataSource)
    (arrive : List (List (ℕ × OrderQuoteResult)) → List (List (ℕ × OrderQuoteResult)))
    (orders : List RaindexOrder)
    → IsConsistent ds q
    → ((gs : List (List (ℕ × OrderQuoteResult))) → Permᴰ gs (arrive gs))
    → fetch_order_quotes_grouped ds arrive orders ≡ map q orders
unfolding fetch_order_quotes_grouped
fetch_order_quotes_grouped-eq-map q ds arrive [] c perm = refl
fetch_order_quotes_grouped-eq-map q ds arrive (o ∷ orders) c perm =
    rw (filled q ds c arrive perm (o ∷ orders))
      (unwrap_or-some (err (internal "failed to query order quotes")) (map q (o ∷ orders)))
