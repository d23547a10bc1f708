-- ===== src/Orders/Summaries.antt =====
-- src/routes/orders/mod.rs: the response that lists orders.
use st0x_rest_api.Prelude.{
  ℕ, Bool, not, Option, none, some, List, [], ◌∷◌, String, ltb, ◌==◌, if◌then◌else◌, length, zip,
  first, is_empty, unwrap_or, Result, ok, err, ◌>>=◌, traverse,
}
use st0x_rest_api.ApiError.{ApiError, internal}
use st0x_rest_api.Sdk.{RaindexVault, RaindexOrder, RaindexOrderQuote, TokenInfo, to_u64}
use st0x_rest_api.Bytes.{ByteString}
use st0x_rest_api.IoVaults.{resolve_io_vaults}
use st0x_rest_api.Floats.{FloatOps}
use st0x_rest_api.Denomination.{
  Denomination, wrapped, unwrapped, WrapRatioMap, convert_wrapped_amount_for_token,
  convert_wrapped_io_ratio,
}
use st0x_rest_api.Orders.{OrdersListDataSource, OrdersPagination, build_pagination}
use st0x_rest_api.Orders.Kind.{OrderSummaryOrderType, classify_order_type}
use st0x_rest_api.Orders.Quotes.{OrderQuoteResult}

-- src/types/common.rs
pub record TokenRef : Type 0 where
  pub address : ℕ
  pub symbol : String
  pub decimals : ℕ

-- src/types/orders.rs
pub record OrderSummary : Type 0 where
  pub order_hash : ℕ
  pub owner : ℕ
  pub chain_id : ℕ
  pub order_bytes : ByteString
  pub active : Bool
  pub removed_at : Option ℕ
  pub order_type : OrderSummaryOrderType
  pub input_token : TokenRef
  pub output_token : TokenRef
  pub output_vault_balance : String
  pub max_output : Option String
  pub io_ratio : String
  pub created_at : ℕ
  pub orderbook_id : ℕ

pub record OrdersListResponse : Type 0 where
  pub orders : List OrderSummary
  pub pagination : OrdersPagination

pub record OrderQuoteSummary : Type 0 where
  pub io_ratio : String
  pub max_output : Option String

-- `quotes.first().and_then(|quote| quote.data.as_ref())`, read into the summary.
abbrev summary_of_first : Option RaindexOrderQuote → OrderQuoteSummary
summary_of_first none = record { io_ratio = "-"; max_output = none }
summary_of_first (some quote) = elim quote.value [
  | none ↦ record { io_ratio = "-"; max_output = none }
  | some v ↦ record { io_ratio = v.formatted_ratio; max_output = some v.formatted_max_output }
]

unfoldable pub quote_result_to_summary : OrderQuoteResult → OrderQuoteSummary
quote_result_to_summary (ok quotes) = summary_of_first (first quotes)
quote_result_to_summary (err e) = record { io_ratio = "-"; max_output = none }

unfoldable pub token_ref : TokenInfo → TokenRef
token_ref token = record {
  address = token.address;
  symbol = unwrap_or token.symbol "";
  decimals = token.decimals;
}

module _ (ops : FloatOps) where
  -- The three values that an unwrapped denomination converts.
  unfoldable pub balance_in : Denomination → RaindexVault → WrapRatioMap → Result ApiError String
  balance_in wrapped vault ratios = ok vault.formatted_balance
  balance_in unwrapped vault ratios =
      convert_wrapped_amount_for_token ops vault.formatted_balance vault.token.address ratios

  unfoldable pub io_ratio_in : Denomination → String → ℕ → ℕ → WrapRatioMap → Result ApiError String
  io_ratio_in wrapped io_ratio i o ratios = ok io_ratio
  io_ratio_in unwrapped io_ratio i o ratios = convert_wrapped_io_ratio ops io_ratio i o ratios

  unfoldable pub max_output_in :
      Denomination → Option String → ℕ → WrapRatioMap → Result ApiError (Option String)
  max_output_in unwrapped (some amount) o ratios = do
    converted ← convert_wrapped_amount_for_token ops amount o ratios
    ok (some converted)
  max_output_in unwrapped none o ratios = ok none
  max_output_in wrapped max_output o ratios = ok max_output

  unfoldable pub build_order_summary :
      RaindexOrder
      → String
      → Option String
      → Denomination
      → WrapRatioMap
      → Result ApiError OrderSummary
  build_order_summary order io_ratio max_output denomination ratios = do
    vaults ← resolve_io_vaults order
    balance ← balance_in denomination vaults.1 ratios
    ratio ← io_ratio_in denomination io_ratio vaults.0.token.address vaults.1.token.address ratios
    most ← max_output_in denomination max_output vaults.1.token.address ratios
    ok (record {
      order_hash = order.order_hash;
      owner = order.owner;
      chain_id = order.chain_id;
      order_bytes = order.order_bytes;
      active = order.active;
      removed_at = elim order.timestamp_removed [ none ↦ none | some t ↦ to_u64 t ];
      order_type = classify_order_type order;
      input_token = token_ref vaults.0.token;
      output_token = token_ref vaults.1.token;
      output_vault_balance = if order.active then balance else "0";
      max_output = most;
      io_ratio = ratio;
      created_at = unwrap_or (to_u64 order.timestamp_added) 0;
      orderbook_id = order.raindex;
    })

  -- The body of the loop over the orders and their quotes.
  unfoldable pub summary_of :
      Denomination → WrapRatioMap → RaindexOrder × OrderQuoteResult → Result ApiError OrderSummary
  summary_of denomination ratios (order, quotes_result) =
      let quote_summary = quote_result_to_summary quotes_result in
      build_order_summary order quote_summary.io_ratio quote_summary.max_output denomination ratios

  unfoldable pub build_orders_list_response :
      List RaindexOrder
      → ℕ
      → ℕ
      → ℕ
      → List OrderQuoteResult
      → Denomination
      → WrapRatioMap
      → Result ApiError OrdersListResponse
  build_orders_list_response orders total_count page page_size quote_results denomination ratios =
      if not (length quote_results == length orders)
      then err (internal "failed to query order quotes")
      else (do
        summaries ← traverse (summary_of denomination ratios) (zip orders quote_results)
        ok (record {
          orders = summaries;
          pagination = build_pagination total_count page page_size;
        }))

-- The addresses of the tokens of the orders, in the order of the loop.
unfoldable pub token_addresses : List RaindexOrder → Result ApiError (List ℕ)
token_addresses [] = ok []
token_addresses (order ∷ orders) = do
  vaults ← resolve_io_vaults order
  rest ← token_addresses orders
  ok (vaults.0.token.address ∷ vaults.1.token.address ∷ rest)

-- `sort_unstable` and `dedup`: each number once, in ascending order.
unfoldable pub insert_sorted : ℕ → List ℕ → List ℕ
insert_sorted a [] = a ∷ []
insert_sorted a (b ∷ bs) =
    let rest = insert_sorted a bs in
    if ltb a b then a ∷ b ∷ bs else if a == b then b ∷ bs else b ∷ rest

unfoldable pub sort_dedup : List ℕ → List ℕ
sort_dedup [] = []
sort_dedup (a ∷ as') = insert_sorted a (sort_dedup as')

unfoldable pub current_wrap_ratios_for_orders :
    OrdersListDataSource → Denomination → List RaindexOrder → Result ApiError WrapRatioMap
current_wrap_ratios_for_orders ds wrapped orders = ok (λ token. none)
current_wrap_ratios_for_orders ds unwrapped orders =
    if is_empty orders then ok (λ token. none) else (do
      addresses ← token_addresses orders
      ds.get_wrap_ratios_for_tokens (sort_dedup addresses))
