-- ===== src/Trades/ByTx.antt =====
-- src/routes/trades/get_by_tx.rs: the trades of a transaction, with their totals.
use st0x_rest_api.Prelude.{
  ℕ, none, some, List, [], ◌∷◌, String, if◌then◌else◌, first, Result, ok, ◌>>=◌, ok_or, traverse,
}
use st0x_rest_api.ApiError.{ApiError, internal, not_found}
use st0x_rest_api.Sdk.{to_u64}
use st0x_rest_api.Floats.{FloatOps}
use st0x_rest_api.Denomination.{
  Denomination, wrapped, unwrapped, WrapRatioMap, parse_decimal_float, format_decimal_float,
  convert_wrapped_io_ratio,
}
use st0x_rest_api.Trades.{
  RaindexTrade, PairSummary, TradesDataSource, trade_block_number, input_address, output_address,
  TradeWrapRatioMap, current_wrap_ratios_for_trades, wrap_ratios_in,
}
use st0x_rest_api.Trades.Listing.{amount_in}

-- src/types/trades.rs
pub record TradeRequest : Type 0 where
  pub input_token : ℕ
  pub output_token : ℕ
  pub maximum_input : String
  pub maximum_io_ratio : String

pub record TradeResult : Type 0 where
  pub input_amount : String
  pub output_amount : String
  pub actual_io_ratio : String

pub record TradeByTxEntry : Type 0 where
  pub order_hash : ℕ
  pub order_owner : ℕ
  pub request : TradeRequest
  pub result : TradeResult

pub record TradesTotals : Type 0 where
  pub total_input_amount : String
  pub total_output_amount : String
  pub average_io_ratio : String

pub record TradesByTxResponse : Type 0 where
  pub tx_hash : ℕ
  pub block_number : ℕ
  pub timestamp : ℕ
  pub sender : ℕ
  pub trades : List TradeByTxEntry
  pub totals : TradesTotals

abbrev pub failed_totals : ApiError
failed_totals = internal "failed to calculate trade totals"

module _ (ops : FloatOps) where
  open ops use {Float}

  -- The loop over the entries, with the two sums so far.
  unfoldable pub add_entries :
      Float → Float → Float → List TradeByTxEntry → Result ApiError (Float × Float)
  add_entries zero total_input total_output [] = ok (total_input, total_output)
  add_entries zero total_input total_output (trade ∷ trades) = do
    input ← parse_decimal_float ops trade.result.input_amount "input"
    output ← parse_decimal_float ops trade.result.output_amount "output"
    normalized_output ← ok_or (ops.sub zero output) failed_totals
    next_input ← ok_or (ops.add total_input input) failed_totals
    next_output ← ok_or (ops.add total_output normalized_output) failed_totals
    add_entries zero next_input next_output trades

  unfoldable pub average_of : Float → Float → Result ApiError Float
  average_of total_input total_output = do
    zero ← ok_or ops.zero failed_totals
    nothing ← ok_or (ops.eq total_output zero) failed_totals
    (if nothing
        then ok_or ops.zero failed_totals
        else ok_or (ops.div total_input total_output) failed_totals)

  unfoldable pub totals_from_trade_entries : List TradeByTxEntry → Result ApiError TradesTotals
  totals_from_trade_entries trades = do
    input_from ← ok_or ops.zero failed_totals
    output_from ← ok_or ops.zero failed_totals
    zero ← ok_or ops.zero failed_totals
    sums ← add_entries zero input_from output_from trades
    average ← average_of sums.0 sums.1
    total_input ← format_decimal_float ops sums.0 "total_input"
    total_output ← format_decimal_float ops sums.1 "total_output"
    average_io_ratio ← format_decimal_float ops average "average_io_ratio"
    ok (record {
      total_input_amount = total_input;
      total_output_amount = total_output;
      average_io_ratio = average_io_ratio;
    })

  unfoldable pub trade_io_ratio_in :
      Denomination → WrapRatioMap → RaindexTrade → Result ApiError String
  trade_io_ratio_in wrapped wrap_ratios trade = ok trade.formatted_io_ratio
  trade_io_ratio_in unwrapped wrap_ratios trade =
      convert_wrapped_io_ratio ops trade.formatted_io_ratio (input_address trade)
        (output_address trade) wrap_ratios

  -- The entry of a trade, from the ratios that it is converted with.
  unfoldable pub entry_with :
      Denomination → WrapRatioMap → RaindexTrade → Result ApiError TradeByTxEntry
  entry_with denomination wrap_ratios trade = do
    io_ratio ← trade_io_ratio_in denomination wrap_ratios trade
    input_amount ← amount_in ops denomination wrap_ratios trade.input_vault_balance_change
    output_amount ← amount_in ops denomination wrap_ratios trade.output_vault_balance_change
    ok (record {
      order_hash = trade.order_hash;
      order_owner = trade.owner;
      request = record {
        input_token = input_address trade;
        output_token = output_address trade;
        maximum_input = input_amount;
        maximum_io_ratio = io_ratio;
      };
      result = record {
        input_amount = input_amount;
        output_amount = output_amount;
        actual_io_ratio = io_ratio;
      };
    })

  unfoldable pub trade_entry :
      Denomination → TradeWrapRatioMap → RaindexTrade → Result ApiError TradeByTxEntry
  trade_entry denomination trade_wrap_ratios trade = do
    block_number ← trade_block_number trade
    entry_with denomination (wrap_ratios_in denomination trade_wrap_ratios trade block_number) trade

  unfoldable pub totals_in :
      Denomination → PairSummary → List TradeByTxEntry → Result ApiError TradesTotals
  totals_in unwrapped summary entries = totals_from_trade_entries entries
  totals_in wrapped summary entries = ok (record {
    total_input_amount = summary.formatted_total_input;
    total_output_amount = summary.formatted_total_output;
    average_io_ratio = summary.formatted_average_io_ratio;
  })

  unfoldable pub process_get_trades_by_tx :
      TradesDataSource → ℕ → Denomination → Result ApiError TradesByTxResponse
  process_get_trades_by_tx trades_ds tx_hash denomination = do
    result ← trades_ds.get_trades_by_tx tx_hash
    first_trade ← ok_or (first result.trades) (not_found "transaction has no associated trades")
    let first_tx = first_trade.transaction
    block_number ← ok_or (to_u64 first_tx.block_number) (internal "block number overflow")
    timestamp ← ok_or (to_u64 first_tx.timestamp) (internal "timestamp overflow")
    trade_wrap_ratios ← current_wrap_ratios_for_trades trades_ds denomination result.trades
    trade_entries ← traverse (trade_entry denomination trade_wrap_ratios) result.trades
    summary ←
        ok_or (elim result.summary [ none ↦ none | some summaries ↦ first summaries ])
          (internal "missing pair summary")
    totals ← totals_in denomination summary trade_entries
    ok (record {
      tx_hash = tx_hash;
      block_number = block_number;
      timestamp = timestamp;
      sender = first_tx.from;
      trades = trade_entries;
      totals = totals;
    })
