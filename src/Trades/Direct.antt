-- ===== src/Trades/Direct.antt =====
-- The lists of trades, described without the ratios by token and block: each trade is converted by
-- the ratios of its tokens that one request for all tokens gave.
use mathlib.Core.List.{Memᴰ}
use st0x_rest_api.Prelude.{
  ℕ, String, ◌≡◌, refl, ap, inl, inr, List, Result, ok, ◌>>=◌, Result-cases, ok_or, traverse, none,
  some, first,
}
use st0x_rest_api.ApiError.{ApiError, internal}
use st0x_rest_api.Sdk.{to_u64}
use st0x_rest_api.Floats.{FloatOps}
use st0x_rest_api.Denomination.{
  Denomination, wrapped, unwrapped, WrapRatioMap, ratio_for_token, convert_wrapped_amount_for_token,
  convert_wrapped_io_ratio,
}
use st0x_rest_api.Trades.{
  VaultBalanceChange, RaindexTransaction, RaindexTrade, RaindexTradesListResult, TradesDataSource,
  trade_block_number, input_address, output_address, TradeWrapRatioMap, wrap_ratios_in,
  current_wrap_ratios_for_trades,
}
use st0x_rest_api.Trades.Listing.{
  TradeByAddress, amount_in, listed_with, map_trade_for_list, trades_pagination,
  build_trades_list_response,
}
use st0x_rest_api.Trades.ByTx.{
  TradeByTxEntry, TradesByTxResponse, trade_io_ratio_in, entry_with, trade_entry, totals_in,
  process_get_trades_by_tx,
}
use st0x_rest_api.Trades.Ratios.{Fits, ratios_asked, Shares, shared_ratios, traverse-ext}

module _ (ops : FloatOps) where
  convert_same :
      (amount : String) (t : ℕ) (w w' : WrapRatioMap)
      → w t ≡ w' t
      → convert_wrapped_amount_for_token ops amount t w
        ≡ convert_wrapped_amount_for_token ops amount t w'
  unfolding convert_wrapped_amount_for_token
  convert_same amount t w w' h = rw (convert_wrapped_amount_for_token, h) refl

  amount_in-same :
      (d : Denomination) (change : VaultBalanceChange) (w w' : WrapRatioMap)
      → w change.token.address ≡ w' change.token.address
      → amount_in ops d w change ≡ amount_in ops d w' change
  unfolding amount_in
  amount_in-same wrapped change w w' h = refl
  amount_in-same unwrapped change w w' h =
      convert_same change.formatted_amount change.token.address w w' h

  listed_with-same :
      (d : Denomination) (time b : ℕ) (trade : RaindexTrade) (w w' : WrapRatioMap)
      → w (input_address trade) ≡ w' (input_address trade)
      → w (output_address trade) ≡ w' (output_address trade)
      → listed_with ops d w time b trade ≡ listed_with ops d w' time b trade
  unfolding listed_with
  listed_with-same d time b trade w w' h k =
      rw
        (
          amount_in-same d trade.input_vault_balance_change w w' h,
          amount_in-same d trade.output_vault_balance_change w w' k,
        )
        refl

  ratio_same :
      (t : ℕ) (w w' : WrapRatioMap)
      → w t ≡ w' t
      → ratio_for_token ops t w ≡ ratio_for_token ops t w'
  unfolding ratio_for_token
  ratio_same t w w' h = rw (ratio_for_token, h) refl

  io_ratio_same :
      (d : Denomination) (trade : RaindexTrade) (w w' : WrapRatioMap)
      → w (input_address trade) ≡ w' (input_address trade)
      → w (output_address trade) ≡ w' (output_address trade)
      → trade_io_ratio_in ops d w trade ≡ trade_io_ratio_in ops d w' trade
  unfolding trade_io_ratio_in convert_wrapped_io_ratio
  io_ratio_same wrapped trade w w' h k = refl
  io_ratio_same unwrapped trade w w' h k =
      rw (ratio_same (input_address trade) w w' h, ratio_same (output_address trade) w w' k) refl

  entry_with-same :
      (d : Denomination) (trade : RaindexTrade) (w w' : WrapRatioMap)
      → w (input_address trade) ≡ w' (input_address trade)
      → w (output_address trade) ≡ w' (output_address trade)
      → entry_with ops d w trade ≡ entry_with ops d w' trade
  unfolding entry_with
  entry_with-same d trade w w' h k =
      rw
        (
          io_ratio_same d trade w w' h k,
          amount_in-same d trade.input_vault_balance_change w w' h,
          amount_in-same d trade.output_vault_balance_change w w' k,
        )
        refl

  -- A trade as it is listed and its entry under a transaction, from the ratios of the tokens.
  abbrev pub listed_directly :
      Denomination → WrapRatioMap → RaindexTrade → Result ApiError TradeByAddress
  listed_directly d ratios trade = do
    timestamp ← ok_or (to_u64 trade.timestamp) (internal "timestamp overflow")
    block_number ← trade_block_number trade
    listed_with ops d ratios timestamp block_number trade

  abbrev pub entry_directly :
      Denomination → WrapRatioMap → RaindexTrade → Result ApiError TradeByTxEntry
  entry_directly d ratios trade = do
    block_number ← trade_block_number trade
    entry_with ops d ratios trade

  module _ (d : Denomination) (m : TradeWrapRatioMap) (current : WrapRatioMap)
      (trades : List RaindexTrade) (s : Shares d m current trades) where
    listed_shared :
        (trade : RaindexTrade)
        → Memᴰ trade trades
        → map_trade_for_list ops trade d m ≡ listed_directly d current trade
    unfolding map_trade_for_list
    listed_shared trade i = elim (Result-cases (trade_block_number trade)) [
      | inl (b, found) ↦
          let (h, k) = s trade b i found in
          rw (map_trade_for_list, found)
            (ap (λ f. ok_or (to_u64 trade.timestamp) (internal "timestamp overflow") >>= f)
              (λ j time.
                listed_with-same d time b trade (wrap_ratios_in d m trade b) current h k j))
      | inr (e, failed) ↦ rw (map_trade_for_list, failed) refl
    ]

    entry_shared :
        (trade : RaindexTrade)
        → Memᴰ trade trades
        → trade_entry ops d m trade ≡ entry_directly d current trade
    unfolding trade_entry
    entry_shared trade i = elim (Result-cases (trade_block_number trade)) [
      | inl (b, found) ↦
          let (h, k) = s trade b i found in
          rw (trade_entry, found) (entry_with-same d trade (wrap_ratios_in d m trade b) current h k)
      | inr (e, failed) ↦ rw (trade_entry, failed) refl
    ]

-- If the block numbers fit into 64 bits, a list of trades is that of one request for the ratios of
-- all its tokens, by which each trade is converted, with the page numbers for the total count.
pub build_trades_list_response-direct :
    (ops : FloatOps) (ds : TradesDataSource) (result : RaindexTradesListResult) (page page_size : ℕ)
    (d : Denomination)
    → Fits result.trades
    → build_trades_list_response ops ds result page page_size d ≡ (
        ratios_asked ds d result.trades >>= λ current.
        traverse (listed_directly ops d current) result.trades >>= λ trades. ok (record {
          trades = trades;
          pagination = trades_pagination result.total_count page page_size;
        }))
unfolding build_trades_list_response
build_trades_list_response-direct ops ds result page page_size d fits =
    shared_ratios _ _ ds d result.trades fits λ m current s.
      rw (traverse-ext _ _ result.trades (listed_shared ops d m current result.trades s)) refl

-- Whatever follows the entries of a transaction's trades.
entries_direct :
    (ops : FloatOps) (ds : TradesDataSource) (trades : List RaindexTrade) (d : Denomination)
    (k : List TradeByTxEntry → Result ApiError TradesByTxResponse)
    → Fits trades
    → (current_wrap_ratios_for_trades ds d trades >>= λ m.
        traverse (trade_entry ops d m) trades >>= k)
      ≡ (ratios_asked ds d trades >>= λ current.
          traverse (entry_directly ops d current) trades >>= k)
entries_direct ops ds trades d k fits =
    shared_ratios (λ m. traverse (trade_entry ops d m) trades >>= k)
      (λ current. traverse (entry_directly ops d current) trades >>= k) ds d trades fits
      λ m current s.
        ap (λ r. r >>= k) (traverse-ext _ _ trades (entry_shared ops d m current trades s))

-- The rest of the response, from the entries.
abbrev pub answer_by_tx :
    FloatOps
    → ℕ
    → Denomination
    → RaindexTradesListResult
    → ℕ
    → ℕ
    → ℕ
    → List TradeByTxEntry
    → Result ApiError TradesByTxResponse
answer_by_tx ops tx_hash d result sender block_number timestamp entries = do
  summary ←
      ok_or (elim result.summary [ none ↦ none | some summaries ↦ first summaries ])
        (internal "missing pair summary")
  totals ← totals_in ops d summary entries
  ok (record {
    tx_hash = tx_hash;
    block_number = block_number;
    timestamp = timestamp;
    sender = sender;
    trades = entries;
    totals = totals;
  })

-- What a transaction's trades become, without the ratios by token and block.
abbrev pub by_tx_directly :
    FloatOps
    → TradesDataSource
    → ℕ
    → Denomination
    → RaindexTradesListResult
    → RaindexTransaction
    → Result ApiError TradesByTxResponse
by_tx_directly ops ds tx_hash d result first_tx = do
  block_number ← ok_or (to_u64 first_tx.block_number) (internal "block number overflow")
  timestamp ← ok_or (to_u64 first_tx.timestamp) (internal "timestamp overflow")
  current ← ratios_asked ds d result.trades
  entries ← traverse (entry_directly ops d current) result.trades
  answer_by_tx ops tx_hash d result first_tx.from block_number timestamp entries

-- If the trades of a transaction were found, some trades, with block numbers that fit into 64
-- bits, the response has the first one's block, time and sender, and for each trade an entry that
-- is converted by the ratios of its tokens, of one request for the ratios of all tokens.
pub process_get_trades_by_tx-direct :
    (ops : FloatOps) (ds : TradesDataSource) (tx_hash : ℕ) (d : Denomination)
    (result : RaindexTradesListResult) (trade : RaindexTrade)
    → ds.get_trades_by_tx tx_hash ≡ ok result
    → first result.trades ≡ some trade
    → Fits result.trades
    → process_get_trades_by_tx ops ds tx_hash d
      ≡ by_tx_directly ops ds tx_hash d result trade.transaction
unfolding process_get_trades_by_tx
process_get_trades_by_tx-direct ops ds tx_hash d result trade found some_trade fits =
    rw (process_get_trades_by_tx, found, some_trade)
      (ap
        (λ (f : ℕ → ℕ → Result ApiError TradesByTxResponse).
          ok_or (to_u64 trade.transaction.block_number) (internal "block number overflow") >>= λ b.
          ok_or (to_u64 trade.transaction.timestamp) (internal "timestamp overflow") >>= λ t. f b t)
        (λ j b t.
          entries_direct ops ds result.trades d
            (answer_by_tx ops tx_hash d result trade.transaction.from b t) fits j))
