-- ===== src/Orders/Grouping.antt =====
-- An order stands in some group under its place, and nothing else does.
use mathlib.Core.List.{Memᴰ}
use mathlib.Core.Path.{subst}
use st0x_rest_api.Prelude.{
  ℕ, ◌≡◌, inl, inr, some, List, [], enumerate_from, get_elem?, arith, In, group_from-In,
  In-group_from, get_elem?_of_enumerate, enumerate_of_get_elem?, map-same,
}
use st0x_rest_api.Sdk.{RaindexOrder}
use st0x_rest_api.Orders.Quotes.{group_orders_by_chain}

pub group_orders_by_chain-In :
    (orders : List RaindexOrder) (k : ℕ) (o : RaindexOrder)
    → get_elem? orders k ≡ some o
    → In (k, o) (group_orders_by_chain orders)
unfolding group_orders_by_chain
group_orders_by_chain-In orders k o h =
    let xs = enumerate_from 0 orders in
    group_from-In (λ p. p.1.chain_id) (λ p. p) (k, o) [] xs
      (inl (rw (map-same xs) (enumerate_of_get_elem? 0 k o orders h k (omega arith))))

pub In-group_orders_by_chain :
    (orders : List RaindexOrder) (k : ℕ) (o : RaindexOrder)
    → In (k, o) (group_orders_by_chain orders)
    → get_elem? orders k ≡ some o
unfolding group_orders_by_chain
In-group_orders_by_chain orders k o h =
    let xs = enumerate_from 0 orders in
    elim (In-group_from (λ p. p.1.chain_id) (λ p. p) (k, o) [] xs h) [
      | inl m ↦
          let m' : Memᴰ (k, o) xs = subst (Memᴰ (k, o)) (map-same xs) m in
          let (j, place, found) = get_elem?_of_enumerate 0 k o orders m' in
          let e : k ≡ j = omega arith in rw e found
      | inr none_yet ↦ elim none_yet [ ]
    ]
