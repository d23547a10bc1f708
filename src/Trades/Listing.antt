-- ===== src/Trades/Listing.antt =====
-- src/routes/trades/mod.rs, get_by_address.rs, get_by_taker.rs, get_by_token.rs and
-- get_by_order_hashes.rs: the lists of trades.
use st0x_rest_api.Prelude.{
  ℕ, Bool, Option, some, List, [], ◌∷◌, ◌++◌, String, ltb, if◌then◌else◌, unwrap_or, Result, ok,
  ◌>>=◌, ok_or, traverse,
}
use st0x_rest_api.ApiError.{ApiError, internal, bad_request}
use st0x_rest_api.Sdk.{to_u64, div_ceil}
use st0x_rest_api.Floats.{FloatOps}
use st0x_rest_api.Denomination.{
  Denomination, wrapped, unwrapped, WrapRatioMap, convert_wrapped_amount_for_token,
}
use st0x_rest_api.Orders.Summaries.{TokenRef, token_ref}
use st0x_rest_api.Trades.{
  VaultBalanceChange, RaindexTrade, RaindexTradesListResult, TradesOfOrder,
  RaindexTradesByOrderHashResult, TimeFilter, TradesDataSource, TradesPaginationParams,
  trades_pagination_params, trade_block_number, TradeWrapRatioMap, current_wrap_ratios_for_trades,
  wrap_ratios_in,
}

-- src/types/trades.rs
pub record TradeByAddress : Type 0 where
  pub tx_hash : ℕ
  pub input_amount : String
  pub output_amount : String
  pub input_token : TokenRef
  pub output_token : TokenRef
  pub order_hash : Option ℕ
  pub timestamp : ℕ
  pub block_number : ℕ

pub record TradesPagination : Type 0 where
  pub page : ℕ
  pub page_size : ℕ
  pub total_trades : ℕ
  pub total_pages : ℕ
  pub has_more : Bool

pub record TradesByAddressResponse : Type 0 where
  pub trades : List TradeByAddress
  pub pagination : TradesPagination

pub record TradesByOrderHashEntry : Type 0 where
  pub order_hash : ℕ
  pub trades : List TradeByAddress

pub record TradesByOrderHashesResponse : Type 0 where
  pub trades_by_order_hash : List TradesByOrderHashEntry
  pub total_count : ℕ

unfoldable pub trades_pagination : ℕ → ℕ → ℕ → TradesPagination
trades_pagination total_trades page page_size =
    let total_pages = if ltb 0 page_size then div_ceil total_trades page_size else 0 in
    record {
      page = page;
      page_size = page_size;
      total_trades = total_trades;
      total_pages = total_pages;
      has_more = ltb page total_pages;
    }

unfoldable pub parse_order_hashes : (String → Option ℕ) → List String → Result ApiError (List ℕ)
parse_order_hashes parse_hash =
    traverse (λ hash. ok_or (parse_hash hash) (bad_request "invalid order hash"))

-- `flat_map(|entry| entry.trades().iter().cloned())`
abbrev pub trades_of_all : List TradesOfOrder → List RaindexTrade
trades_of_all [] = []
trades_of_all (entry ∷ entries) = entry.trades ++ trades_of_all entries

module _ (ops : FloatOps) where
  -- The amount of a vault's change in the denomination that was asked for.
  unfoldable pub amount_in :
      Denomination → WrapRatioMap → VaultBalanceChange → Result ApiError String
  amount_in wrapped wrap_ratios change = ok change.formatted_amount
  amount_in unwrapped wrap_ratios change =
      convert_wrapped_amount_for_token ops change.formatted_amount change.token.address wrap_ratios

  -- The trade as it is listed, from the ratios that it is converted with.
  unfoldable pub listed_with :
      Denomination → WrapRatioMap → ℕ → ℕ → RaindexTrade → Result ApiError TradeByAddress
  listed_with denomination wrap_ratios timestamp block_number trade = do
    input_amount ← amount_in denomination wrap_ratios trade.input_vault_balance_change
    output_amount ← amount_in denomination wrap_ratios trade.output_vault_balance_change
    ok (record {
      tx_hash = trade.transaction.id;
      input_amount = input_amount;
      output_amount = output_amount;
      input_token = token_ref trade.input_vault_balance_change.token;
      output_token = token_ref trade.output_vault_balance_change.token;
      order_hash = some trade.order_hash;
      timestamp = timestamp;
      block_number = block_number;
    })

  unfoldable pub map_trade_for_list :
      RaindexTrade → Denomination → TradeWrapRatioMap → Result ApiError TradeByAddress
  map_trade_for_list trade denomination trade_wrap_ratios = do
    timestamp ← ok_or (to_u64 trade.timestamp) (internal "timestamp overflow")
    block_number ← trade_block_number trade
    listed_with denomination (wrap_ratios_in denomination trade_wrap_ratios trade block_number)
        timestamp block_number trade

  -- One entry of the response by order hashes.
  unfoldable pub order_hash_entry :
      Denomination → TradeWrapRatioMap → TradesOfOrder → Result ApiError TradesByOrderHashEntry
  order_hash_entry denomination trade_wrap_ratios entry =
      traverse (λ trade. map_trade_for_list trade denomination trade_wrap_ratios) entry.trades
      >>= λ trades. ok (record { order_hash = entry.order_hash; trades = trades })

  module _ (ds : TradesDataSource) where
    unfoldable pub build_trades_list_response :
        RaindexTradesListResult → ℕ → ℕ → Denomination → Result ApiError TradesByAddressResponse
    build_trades_list_response result page page_size denomination = do
      trade_wrap_ratios ← current_wrap_ratios_for_trades ds denomination result.trades
      trades ←
          traverse (λ trade. map_trade_for_list trade denomination trade_wrap_ratios) result.trades
      ok (record {
        trades = trades;
        pagination = trades_pagination result.total_count page page_size;
      })

    unfoldable pub process_get_trades_by_address :
        ℕ → TradesPaginationParams → Result ApiError TradesByAddressResponse
    process_get_trades_by_address owner params = do
      p ← trades_pagination_params params
      result ← ds.get_trades_for_owner owner (some p.sdk_page, some p.sdk_page_size) p.time_filter
      build_trades_list_response result p.page p.page_size (unwrap_or params.denomination wrapped)

    unfoldable pub process_get_trades_by_token :
        ℕ → TradesPaginationParams → Result ApiError TradesByAddressResponse
    process_get_trades_by_token token params = do
      p ← trades_pagination_params params
      result ← ds.get_trades_for_token token p.sdk_page p.sdk_page_size p.time_filter
      build_trades_list_response result p.page p.page_size (unwrap_or params.denomination wrapped)

    unfoldable pub process_get_trades_by_taker :
        ℕ → TradesPaginationParams → Result ApiError TradesByAddressResponse
    process_get_trades_by_taker taker params = do
      p ← trades_pagination_params params
      result ← ds.get_trades_for_taker taker p.sdk_page p.sdk_page_size p.time_filter
      build_trades_list_response result p.page p.page_size (unwrap_or params.denomination wrapped)

    unfoldable pub build_trades_by_order_hashes_response :
        RaindexTradesByOrderHashResult → Denomination → Result ApiError TradesByOrderHashesResponse
    build_trades_by_order_hashes_response result denomination = do
      trade_wrap_ratios ←
          current_wrap_ratios_for_trades ds denomination (trades_of_all result.trades_by_order_hash)
      entries ←
          traverse (order_hash_entry denomination trade_wrap_ratios) result.trades_by_order_hash
      ok (record { trades_by_order_hash = entries; total_count = result.total_count })

    unfoldable pub process_get_trades_by_order_hashes :
        (String → Option ℕ)
        → List String
        → TimeFilter
        → Option Denomination
        → Result ApiError TradesByOrderHashesResponse
    process_get_trades_by_order_hashes parse_hash order_hashes time_filter denomination = do
      hashes ← parse_order_hashes parse_hash order_hashes
      result ← ds.get_trades_by_order_hashes hashes time_filter
      build_trades_by_order_hashes_response result (unwrap_or denomination wrapped)
