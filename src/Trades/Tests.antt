-- ===== src/Trades/Tests.antt =====
-- The theorems on trades at two trades of one transaction, in which the token 5 is wrapped at -1.
use st0x_rest_api.Prelude.{
  ℕ, ◌≡◌, refl, true, ◌==◌, if◌then◌else◌, none, some, List, [], ◌∷◌, String, ok, ◌>>=◌, map_ok,
  traverse,
}
use st0x_rest_api.Sdk.{TokenInfo}
use st0x_rest_api.Denomination.{unwrapped, WrapRatioMap}
use st0x_rest_api.Floats.Trits.{Trit, one, minus_one, nil, trit_ops, trit_ops-IsExact}
use st0x_rest_api.Trades.{
  RaindexTrade, RaindexTradesListResult, RaindexTradesByOrderHashResult, TradesDataSource,
  trade_block_number, TradesPaginationParams,
}
use st0x_rest_api.Trades.Listing.{
  trades_pagination, process_get_trades_by_token, build_trades_list_response,
  build_trades_by_order_hashes_response,
}
use st0x_rest_api.AppCache.{Holds}
use st0x_rest_api.Trades.Cached.{
  TradesCache, same_trades_key, get_trades_by_token, by_token, get_trades_by_token-Holds,
}
use st0x_rest_api.Trades.ByTx.{TradeByTxEntry, process_get_trades_by_tx, totals_from_trade_entries}
use st0x_rest_api.Trades.Ratios.{Fits, ratios_asked}
use st0x_rest_api.Trades.Direct.{
  listed_directly, by_tx_directly, build_trades_list_response-direct,
  process_get_trades_by_tx-direct,
}
use st0x_rest_api.Trades.ByHash.{listed_of_all, build_trades_by_order_hashes_response-eq-list}
use st0x_rest_api.Trades.Totals.{report, totals_from_trade_entries-sums}

abbrev token : ℕ → TokenInfo
token address = record { address = address; name = none; symbol = some "TKN"; decimals = 18 }

abbrev trade : ℕ → RaindexTrade
trade order_hash = record {
  id = "trade";
  transaction = record { id = 100; from = 9; block_number = 7; timestamp = 50 };
  timestamp = 50;
  order_hash = order_hash;
  owner = 8;
  input_vault_balance_change = record { token = token 5; formatted_amount = "1" };
  output_vault_balance_change = record { token = token 6; formatted_amount = "-1" };
  formatted_io_ratio = "-1";
}

abbrev current : WrapRatioMap
current address =
    if address == 5 then some (record { share_address = 5; assets_per_share = "-1" }) else none

abbrev found : RaindexTradesListResult
found = record {
  trades = trade 1 ∷ trade 2 ∷ [];
  total_count = 2;
  summary = some (
      record {
        formatted_total_input = "1";
        formatted_total_output = "1";
        formatted_average_io_ratio = "1";
      }
      ∷ []);
}

abbrev by_hash : RaindexTradesByOrderHashResult
by_hash = record {
  trades_by_order_hash =
      record { order_hash = 1; trades = trade 1 ∷ [] }
      ∷ record { order_hash = 2; trades = trade 2 ∷ [] }
      ∷ [];
  total_count = 2;
}

abbrev ds : TradesDataSource
ds = record {
  get_trades_by_tx = λ tx_hash. ok found;
  get_trades_for_owner = λ owner pagination time_filter. ok found;
  get_trades_for_token = λ address page page_size time_filter. ok found;
  get_trades_for_taker = λ taker page page_size time_filter. ok found;
  get_trades_by_order_hashes = λ order_hashes time_filter. ok by_hash;
  get_current_wrap_ratios_for_tokens = λ addresses. ok current;
}

abbrev blocks : Fits found.trades
unfolding trade_block_number
blocks = ((7, refl), ((7, refl), tt))

build_trades_list_response-direct_example :
    build_trades_list_response trit_ops ds found 1 20 unwrapped ≡ (
      ratios_asked ds unwrapped found.trades >>= λ ratios.
      traverse (listed_directly trit_ops unwrapped ratios) found.trades >>= λ trades.
      ok (record { trades = trades; pagination = trades_pagination 2 1 20 }))
build_trades_list_response-direct_example =
    build_trades_list_response-direct trit_ops ds found 1 20 unwrapped blocks

process_get_trades_by_tx-direct_example :
    process_get_trades_by_tx trit_ops ds 100 unwrapped
    ≡ by_tx_directly trit_ops ds 100 unwrapped found (trade 1).transaction
process_get_trades_by_tx-direct_example =
    process_get_trades_by_tx-direct trit_ops ds 100 unwrapped found (trade 1) refl refl blocks

build_trades_by_order_hashes_response-eq-list_example :
    map_ok
      (λ r. listed_of_all r.trades_by_order_hash)
      (build_trades_by_order_hashes_response trit_ops ds by_hash unwrapped)
    ≡ map_ok (λ r. r.trades) (build_trades_list_response trit_ops ds found 1 20 unwrapped)
build_trades_by_order_hashes_response-eq-list_example =
    build_trades_by_order_hashes_response-eq-list trit_ops ds by_hash found 1 20 unwrapped refl

abbrev entry : String → String → TradeByTxEntry
entry input output = record {
  order_hash = 1;
  order_owner = 8;
  request = record {
    input_token = 5;
    output_token = 6;
    maximum_input = input;
    maximum_io_ratio = "1";
  };
  result = record { input_amount = input; output_amount = output; actual_io_ratio = "1" };
}

abbrev entries : List TradeByTxEntry
entries = entry "1" "-1" ∷ entry "0" "-1" ∷ []

abbrev values : List (Trit × Trit)
values = (one, minus_one) ∷ (nil, minus_one) ∷ []

totals_from_trade_entries-sums_example :
    totals_from_trade_entries trit_ops entries ≡ report trit_ops nil one minus_one
totals_from_trade_entries-sums_example =
    totals_from_trade_entries-sums trit_ops trit_ops-IsExact entries values
      (refl, refl, (refl, refl, tt))

-- The totals as they are printed.
totals_printed :
    totals_from_trade_entries trit_ops entries
    ≡ ok (record { total_input_amount = "1"; total_output_amount = "-1"; average_io_ratio = "-1" })
unfolding totals_from_trade_entries
totals_printed =
    totals_from_trade_entries-sums trit_ops trit_ops-IsExact entries values
      (refl, refl, (refl, refl, tt))

-- A request, and another one for the same page, which is answered from the cache.
abbrev first_page : TradesPaginationParams
first_page = record {
  page = none;
  page_size = none;
  start_time = none;
  end_time = some 60;
  denomination = some unwrapped;
}

abbrev warm : TradesCache
warm = (get_trades_by_token trit_ops ds true (λ key. none) 5 first_page).0

get_trades_by_token-Holds_example :
    ((get_trades_by_token trit_ops ds true warm 5 (record first_page { page = some 1 })).1
      ≡ process_get_trades_by_token trit_ops ds 5 (record first_page { page = some 1 }))
    × Holds same_trades_key
        (by_token trit_ops ds)
        (get_trades_by_token trit_ops ds true warm 5 (record first_page { page = some 1 })).0
get_trades_by_token-Holds_example =
    get_trades_by_token-Holds trit_ops ds true warm 5 (record first_page { page = some 1 })
      (get_trades_by_token-Holds trit_ops ds true (λ key. none) 5 first_page (λ key value h. cc)).1
