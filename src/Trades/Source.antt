-- ===== src/Trades/Source.antt =====
-- src/routes/trades/mod.rs: the data source that asks the raindex client, whose answers are
-- parameters.
use st0x_rest_api.Prelude.{ℕ, Option, none, some, List, [], ◌∷◌, String, Result, ok, ◌>>=◌, map_err}
use st0x_rest_api.ApiError.{ApiError, internal, not_yet_indexed}
use st0x_rest_api.Denomination.{WrapRatioMap, concat}
use st0x_rest_api.WrapRatio.{TokenCfg, Erc4626BatchResponse}
use st0x_rest_api.WrapRatio.Rows.{
  read_wrap_ratio_responses_for_addresses, wrap_ratio_values_from_responses,
}
use st0x_rest_api.Trades.{
  RaindexTradesListResult, RaindexTradesByOrderHashResult, TimeFilter, TradesDataSource,
}

-- The client's errors: the one that the program treats by itself, and all others.
pub data TradesClientError : Type 0 where
  transaction_indexing_timeout : ℕ → ℕ → TradesClientError
  other_error : TradesClientError

-- The fields of `GetTradesFilters` that are set.
pub record GetTradesFilters : Type 0 where
  pub owners : List ℕ
  pub takers : List ℕ
  pub inputs : Option (List ℕ)
  pub outputs : Option (List ℕ)
  pub time_filter : Option TimeFilter

pub record TradesClient : Type 0 where
  pub get_trades_for_transaction : ℕ → Result TradesClientError RaindexTradesListResult
  pub get_trades :
      GetTradesFilters → Option ℕ → Option ℕ → Result TradesClientError RaindexTradesListResult
  pub get_trades_by_order_hashes :
      List ℕ → TimeFilter → Result TradesClientError RaindexTradesByOrderHashResult
  pub get_all_tokens : Result TradesClientError (List TokenCfg)

abbrev pub failed_query : TradesClientError → ApiError
failed_query e = internal "failed to query trades"

-- `hex` prints a hash with `{:#x}` and `decimal` a number.
unfoldable pub by_tx_error : (ℕ → String) → (ℕ → String) → TradesClientError → ApiError
by_tx_error hex decimal (transaction_indexing_timeout tx_hash attempts) = not_yet_indexed (
    concat "transaction " (
      concat (hex tx_hash)
        (concat " not yet indexed after " (concat (decimal attempts) " attempts"))))
by_tx_error hex decimal other_error = internal "failed to query trades"

module _ (client : TradesClient) (hex decimal : ℕ → String)
    (read_rpc : String → List ℕ → Result String Erc4626BatchResponse)
    (parse_address : String → Option ℕ) where
  unfoldable pub current_ratios_for : List ℕ → Result ApiError WrapRatioMap
  current_ratios_for token_addresses = do
    tokens ← map_err (λ e. internal "failed to retrieve curated tokens") client.get_all_tokens
    responses ←
        read_wrap_ratio_responses_for_addresses read_rpc parse_address tokens token_addresses
    ok (wrap_ratio_values_from_responses responses)

  unfoldable pub raindex_trades_data_source : TradesDataSource
  raindex_trades_data_source = record {
    get_trades_by_tx =
        λ tx_hash. map_err (by_tx_error hex decimal) (client.get_trades_for_transaction tx_hash);
    get_trades_for_owner = λ owner pagination time_filter. map_err failed_query (
        client.get_trades
          (record {
            owners = owner ∷ [];
            takers = [];
            inputs = none;
            outputs = none;
            time_filter = some time_filter;
          })
          pagination.0 pagination.1);
    get_trades_for_token = λ token page page_size time_filter. map_err failed_query (
        client.get_trades
          (record {
            owners = [];
            takers = [];
            inputs = some (token ∷ []);
            outputs = some (token ∷ []);
            time_filter = some time_filter;
          })
          (some page) (some page_size));
    get_trades_for_taker = λ taker page page_size time_filter. map_err failed_query (
        client.get_trades
          (record {
            owners = [];
            takers = taker ∷ [];
            inputs = none;
            outputs = none;
            time_filter = some time_filter;
          })
          (some page) (some page_size));
    get_trades_by_order_hashes = λ order_hashes time_filter.
        map_err failed_query (client.get_trades_by_order_hashes order_hashes time_filter);
    get_current_wrap_ratios_for_tokens = current_ratios_for;
  }
