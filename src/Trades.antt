-- ===== src/Trades.antt =====
-- src/routes/trades: the lists of trades and the trades of a transaction. This file has the data
-- source that the routes read, the page numbers, and the ratios of the trades' tokens.
pub mod Listing
pub mod ByTx
pub mod Ratios
pub mod Direct
pub mod ByHash
pub mod Totals
pub mod Source
pub mod Cached
pub mod Pages
mod Tests
use st0x_rest_api.Prelude.{
  ℕ, Bool, Option, none, some, List, [], ◌∷◌, String, ◌==◌, ◌&&◌, if◌then◌else◌, is_empty,
  unwrap_or, Result, ok, err, ◌>>=◌, ok_or, map_err, insert_fn,
}
use st0x_rest_api.ApiError.{ApiError, bad_request, internal, not_yet_indexed}
use st0x_rest_api.Sdk.{TokenInfo, to_u16, to_u64}
use st0x_rest_api.Denomination.{
  Denomination, wrapped, unwrapped, WrapRatioValue, WrapRatioMap, concat,
}
use st0x_rest_api.Orders.Summaries.{sort_dedup}
use st0x_rest_api.WrapRatio.{TokenCfg, Erc4626BatchResponse}
use st0x_rest_api.WrapRatio.Rows.{
  read_wrap_ratio_responses_for_addresses, wrap_ratio_values_from_responses,
}

-- What the accessors of the client's `RaindexTrade` return. Times and block numbers are 256-bit.
pub record VaultBalanceChange : Type 0 where
  pub token : TokenInfo
  pub formatted_amount : String

pub record RaindexTransaction : Type 0 where
  pub id : ℕ
  pub from : ℕ
  pub block_number : ℕ
  pub timestamp : ℕ

pub record RaindexTrade : Type 0 where
  pub id : String
  pub transaction : RaindexTransaction
  pub timestamp : ℕ
  pub order_hash : ℕ
  pub owner : ℕ
  pub input_vault_balance_change : VaultBalanceChange
  pub output_vault_balance_change : VaultBalanceChange
  pub formatted_io_ratio : String

pub record PairSummary : Type 0 where
  pub formatted_total_input : String
  pub formatted_total_output : String
  pub formatted_average_io_ratio : String

pub record RaindexTradesListResult : Type 0 where
  pub trades : List RaindexTrade
  pub total_count : ℕ
  pub summary : Option (List PairSummary)

pub record TradesOfOrder : Type 0 where
  pub order_hash : ℕ
  pub trades : List RaindexTrade

pub record RaindexTradesByOrderHashResult : Type 0 where
  pub trades_by_order_hash : List TradesOfOrder
  pub total_count : ℕ

pub record TimeFilter : Type 0 where
  pub start : Option ℕ
  pub end : Option ℕ

-- The trait `TradesDataSource`, for the time of one request.
pub record TradesDataSource : Type 0 where
  pub get_trades_by_tx : ℕ → Result ApiError RaindexTradesListResult
  pub get_trades_for_owner :
      ℕ → Option ℕ × Option ℕ → TimeFilter → Result ApiError RaindexTradesListResult
  pub get_trades_for_token : ℕ → ℕ → ℕ → TimeFilter → Result ApiError RaindexTradesListResult
  pub get_trades_for_taker : ℕ → ℕ → ℕ → TimeFilter → Result ApiError RaindexTradesListResult
  pub get_trades_by_order_hashes :
      List ℕ → TimeFilter → Result ApiError RaindexTradesByOrderHashResult
  pub get_current_wrap_ratios_for_tokens : List ℕ → Result ApiError WrapRatioMap

-- src/types/trades.rs
pub record TradesPaginationParams : Type 0 where
  pub page : Option ℕ
  pub page_size : Option ℕ
  pub start_time : Option ℕ
  pub end_time : Option ℕ
  pub denomination : Option Denomination

pub record PageParams : Type 0 where
  pub page : ℕ
  pub page_size : ℕ
  pub sdk_page : ℕ
  pub sdk_page_size : ℕ
  pub time_filter : TimeFilter

unfoldable pub trades_pagination_params : TradesPaginationParams → Result ApiError PageParams
trades_pagination_params params =
    let page = unwrap_or params.page 1 in
    let page_size = unwrap_or params.page_size 20 in
    do
      sdk_page ← ok_or (to_u16 page) (bad_request "page value too large")
      sdk_page_size ← ok_or (to_u16 page_size) (bad_request "page_size value too large")
      ok (record {
        page = page;
        page_size = page_size;
        sdk_page = sdk_page;
        sdk_page_size = sdk_page_size;
        time_filter = record { start = params.start_time; end = params.end_time };
      })

unfoldable pub trade_block_number : RaindexTrade → Result ApiError ℕ
trade_block_number trade =
    ok_or (to_u64 trade.transaction.block_number) (internal "block number overflow")

-- The hash map from pairs of a token and a block.
abbrev pub TradeWrapRatioMap : Type 0
TradeWrapRatioMap = ℕ → ℕ → Option WrapRatioValue

abbrev pub insert_at : ℕ → ℕ → WrapRatioValue → TradeWrapRatioMap → TradeWrapRatioMap
insert_at token block ratio m t b = if token == t && (block == b) then some ratio else m t b

-- `if let Some(ratio) = found { ratios.insert(.., ratio.clone()) }`, for both kinds of maps.
abbrev pub insert_if : Option WrapRatioValue → ℕ → WrapRatioMap → WrapRatioMap
insert_if none token m = m
insert_if (some ratio) token m = insert_fn token ratio m

abbrev pub insert_at_if : Option WrapRatioValue → ℕ → ℕ → TradeWrapRatioMap → TradeWrapRatioMap
insert_at_if none token block m = m
insert_at_if (some ratio) token block m = insert_at token block ratio m

abbrev pub input_address : RaindexTrade → ℕ
input_address trade = trade.input_vault_balance_change.token.address

abbrev pub output_address : RaindexTrade → ℕ
output_address trade = trade.output_vault_balance_change.token.address

-- The addresses that the first loop collects.
unfoldable pub trade_addresses : List RaindexTrade → List ℕ
trade_addresses [] = []
trade_addresses (trade ∷ trades) =
    input_address trade ∷ output_address trade ∷ trade_addresses trades

-- The second loop, with the ratios so far.
unfoldable pub ratios_by_block :
    WrapRatioMap → TradeWrapRatioMap → List RaindexTrade → Result ApiError TradeWrapRatioMap
ratios_by_block current ratios [] = ok ratios
ratios_by_block current ratios (trade ∷ trades) = do
  block_number ← trade_block_number trade
  ratios_by_block current
      (insert_at_if (current (output_address trade)) (output_address trade) block_number
        (insert_at_if (current (input_address trade)) (input_address trade) block_number ratios))
      trades

unfoldable pub current_wrap_ratios_for_trades :
    TradesDataSource → Denomination → List RaindexTrade → Result ApiError TradeWrapRatioMap
current_wrap_ratios_for_trades ds wrapped trades = ok (λ token block. none)
current_wrap_ratios_for_trades ds unwrapped trades =
    if is_empty trades then ok (λ token block. none) else (do
      current_ratios ← ds.get_current_wrap_ratios_for_tokens (sort_dedup (trade_addresses trades))
      ratios_by_block current_ratios (λ token block. none) trades)

unfoldable pub wrap_ratio_map_for_trade : ℕ → ℕ → ℕ → TradeWrapRatioMap → WrapRatioMap
wrap_ratio_map_for_trade input_token output_token block_number trade_wrap_ratios =
    insert_if (trade_wrap_ratios output_token block_number) output_token
      (insert_if (trade_wrap_ratios input_token block_number) input_token (λ token. none))

-- The ratios that a trade is converted with.
unfoldable pub wrap_ratios_in : Denomination → TradeWrapRatioMap → RaindexTrade → ℕ → WrapRatioMap
wrap_ratios_in wrapped ratios trade block_number = λ token. none
wrap_ratios_in unwrapped ratios trade block_number =
    wrap_ratio_map_for_trade (input_address trade) (output_address trade) block_number ratios
