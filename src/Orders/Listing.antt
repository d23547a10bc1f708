-- ===== src/Orders/Listing.antt =====
-- src/routes/orders/get_by_owner.rs and get_by_token.rs: the two lists of orders.
use st0x_rest_api.Prelude.{
  ℕ, Bool, true, false, Option, none, some, List, [], ◌∷◌, min, unwrap_or, Result, ◌>>=◌,
}
use st0x_rest_api.ApiError.{ApiError}
use st0x_rest_api.Sdk.{RaindexOrder}
use st0x_rest_api.Floats.{FloatOps}
use st0x_rest_api.Denomination.{Denomination}
use st0x_rest_api.Orders.{
  default_page_size, max_page_size, OrderState, OrderSide, input_side, output_side,
  GetOrdersFilters, OrdersListDataSource, active_filter_for_state,
}
use st0x_rest_api.Orders.Quotes.{OrderQuoteResult, get_order_quotes_for_summaries}
use st0x_rest_api.Orders.Summaries.{
  OrdersListResponse, build_orders_list_response, current_wrap_ratios_for_orders,
}

-- What both routes do once they have made the filters. `get_order_quotes_batch` is the data
-- source's own, `fetch_order_quotes_grouped`.
unfoldable pub effective_page_size : Option ℕ → ℕ
effective_page_size page_size = min (unwrap_or page_size default_page_size) max_page_size

unfoldable pub then_some_true : Option Bool → Option Bool
then_some_true (some true) = some true
then_some_true (some false) = none
then_some_true none = none

-- `GetOrdersTokenFilter`: a side restricts the search to one of the two lists.
unfoldable pub side_inputs : ℕ → Option OrderSide → Option (List ℕ)
side_inputs address (some output_side) = none
side_inputs address (some input_side) = some (address ∷ [])
side_inputs address none = some (address ∷ [])

unfoldable pub side_outputs : ℕ → Option OrderSide → Option (List ℕ)
side_outputs address (some input_side) = none
side_outputs address (some output_side) = some (address ∷ [])
side_outputs address none = some (address ∷ [])

module _ (ops : FloatOps) (ds : OrdersListDataSource)
    (get_order_quotes_batch : List RaindexOrder → List OrderQuoteResult) where
  unfoldable pub list_orders :
      GetOrdersFilters → Option ℕ → Option ℕ → Denomination → Result ApiError OrdersListResponse
  list_orders filters page page_size denomination =
      let page_num = unwrap_or page 1 in
      let size = effective_page_size page_size in
      do
        found ← ds.get_orders_list filters (some page_num) (some size)
        ratios ← current_wrap_ratios_for_orders ds denomination found.0
        build_orders_list_response ops found.0 found.1 page_num size
            (get_order_quotes_for_summaries get_order_quotes_batch found.0) denomination ratios

  unfoldable pub process_get_orders_by_owner :
      ℕ
      → Option OrderState
      → Option ℕ
      → Option ℕ
      → Denomination
      → Result ApiError OrdersListResponse
  process_get_orders_by_owner address state page page_size denomination =
      let active_filter = active_filter_for_state state in
      list_orders
        (record {
          owners = address ∷ [];
          order_hash = none;
          active = active_filter;
          token_inputs = none;
          token_outputs = none;
          has_positive_output_vault_balance = then_some_true active_filter;
        })
        page page_size denomination

  unfoldable pub process_get_orders_by_token :
      ℕ
      → Option OrderState
      → Option OrderSide
      → Option ℕ
      → Option ℕ
      → Denomination
      → Result ApiError OrdersListResponse
  process_get_orders_by_token address state side page page_size denomination =
      let active_filter = active_filter_for_state state in
      list_orders
        (record {
          owners = [];
          order_hash = none;
          active = active_filter;
          token_inputs = side_inputs address side;
          token_outputs = side_outputs address side;
          has_positive_output_vault_balance = then_some_true active_filter;
        })
        page page_size denomination
