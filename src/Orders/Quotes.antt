-- ===== src/Orders/Quotes.antt =====
-- src/routes/orders/mod.rs: the quotes of a list of orders, fetched chain by chain.
use st0x_rest_api.Prelude.{
  ℕ, Option, none, some, List, [], ◌∷◌, ◌==◌, if◌then◌else◌, length, map, replicate, zip, is_empty,
  unwrap_or, Result, ok, err, enumerate_from, write_all, picked, group_from,
}
use st0x_rest_api.ApiError.{ApiError, internal}
use st0x_rest_api.Sdk.{RaindexOrder, RaindexOrderQuote}
use st0x_rest_api.Orders.{OrdersListDataSource}

abbrev pub Quotes : Type 0
Quotes = List RaindexOrderQuote

abbrev pub OrderQuoteResult : Type 0
OrderQuoteResult = Result ApiError Quotes

abbrev pub IndexedOrder : Type 0
IndexedOrder = ℕ × RaindexOrder

-- `BTreeMap<u32, Vec<IndexedOrder>>`: the entries in the order of their keys.
abbrev pub GroupedOrders : Type 0
GroupedOrders = List (ℕ × List IndexedOrder)

unfoldable pub group_orders_by_chain : List RaindexOrder → GroupedOrders
group_orders_by_chain orders = group_from (λ p. p.1.chain_id) (λ p. p) [] (enumerate_from 0 orders)

module _ (ds : OrdersListDataSource) where
  unfoldable pub fetch_order_quotes_individually : List IndexedOrder → List (ℕ × OrderQuoteResult)
  fetch_order_quotes_individually = map (λ p. (p.0, ds.get_order_quotes p.1))

  -- The three arms of the match on the batch's answer.
  unfoldable pub from_batch :
      Result ApiError (List Quotes) → List IndexedOrder → List (ℕ × OrderQuoteResult)
  from_batch (ok group_quotes) indexed_orders =
      if length group_quotes == length indexed_orders
      then map (λ p. (p.0.0, ok p.1)) (zip indexed_orders group_quotes)
      else fetch_order_quotes_individually indexed_orders
  from_batch (err e) indexed_orders = fetch_order_quotes_individually indexed_orders

  unfoldable pub fetch_quotes_for_chain_group : List IndexedOrder → List (ℕ × OrderQuoteResult)
  fetch_quotes_for_chain_group indexed_orders =
      from_batch (ds.get_order_quotes_batch_for_chain (map (λ p. p.1) indexed_orders))
        indexed_orders

-- The nested loops that write the groups' results.
unfoldable pub write_groups :
    List (Option OrderQuoteResult)
    → List (List (ℕ × OrderQuoteResult))
    → List (Option OrderQuoteResult)
write_groups slots [] = slots
write_groups slots (group ∷ groups) = write_groups (write_all slots group) groups

-- `buffer_unordered` yields the groups' results in the order in which they complete: `arrive`
-- rearranges them.
unfoldable pub fetch_order_quotes_grouped :
    OrdersListDataSource
    → (List (List (ℕ × OrderQuoteResult)) → List (List (ℕ × OrderQuoteResult)))
    → List RaindexOrder
    → List OrderQuoteResult
fetch_order_quotes_grouped ds arrive orders =
    if is_empty orders
    then []
    else (let grouped_results =
          arrive (map (λ g. fetch_quotes_for_chain_group ds g.1) (group_orders_by_chain orders)) in
        map (λ slot. unwrap_or slot (err (internal "failed to query order quotes")))
          (write_groups (replicate (length orders) none) grouped_results))

-- The active orders with their places, and the slots that the inactive ones fill at once.
unfoldable pub active_from : List RaindexOrder → List IndexedOrder
active_from = picked (λ order. order.active) 0

unfoldable pub inactive_slots : List RaindexOrder → List (Option OrderQuoteResult)
inactive_slots [] = []
inactive_slots (order ∷ orders) =
    (if order.active then none else some (ok [])) ∷ inactive_slots orders

unfoldable pub get_order_quotes_for_summaries :
    (List RaindexOrder → List OrderQuoteResult) → List RaindexOrder → List OrderQuoteResult
get_order_quotes_for_summaries get_order_quotes_batch orders =
    let active_orders = active_from orders in
    let active_quote_results = get_order_quotes_batch (map (λ p. p.1) active_orders) in
    let slots =
      if is_empty active_orders
      then inactive_slots orders
      else write_all (inactive_slots orders)
          (map (λ p. (p.0.0, p.1)) (zip active_orders active_quote_results)) in
    map (λ slot. unwrap_or slot (ok [])) slots
