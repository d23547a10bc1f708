-- ===== src/Tokens/Tests.antt =====
-- The theorems on tokens at a registry with one wrapped token.
use mathlib.Core.List.{Memᴰ}
use st0x_rest_api.Prelude.{
  ℕ, suc, ◌+◌, ◌<◌, ◌≡◌, refl, ◌⊎◌, ◌==◌, true, Option, none, some, List, [], ◌∷◌, String, str_eq,
  if◌then◌else◌, length, take, map, Result, ok, arith, sym, ap,
}
use st0x_rest_api.ApiError.{ApiError, internal}
use st0x_rest_api.Prelude.Groups.{group_from, entry_push}
use st0x_rest_api.WrapRatio.{
  JsonValue, json_text, TokenCfg, Erc4626BatchResponse, WrapRatioResponse, is_st0x_token,
  unwrapped_address, find_wrap_ratio_item, one_item, build_wrap_ratio_response,
  assets_per_share_display, from_batch_response,
}
use st0x_rest_api.WrapRatio.Rows.{
  read_wrap_ratios_batch, read_groups, inputs_by_chain, read_group, batch_share_ratios, try_rpcs,
}
use st0x_rest_api.WrapRatio.Laws.{IsRatioOf}
use st0x_rest_api.Tokens.Batch.{HasError, get_wrap_ratios-answers}
use st0x_rest_api.WrapRatio.Snapshots.{
  WrappedExchangeRateSnapshot, SnapshotsDb, history_of, descending, insert_descending,
}
use st0x_rest_api.WrapRatio.Range.{IsDescending}
use st0x_rest_api.Tokens.{
  registry_tokens, wrapped_token, sort_inputs, add_groups, add_rows, lookup_row, get_wrap_ratios,
}
use st0x_rest_api.Tokens.History.{get_wrap_ratio_history_by_address}
use st0x_rest_api.Tokens.Walk.{walk, event_of, get_wrap_ratio_history_by_address-walk}
use st0x_rest_api.Tokens.Graphql.{
  Sent, not_sent, refused, answered, Chunk, verdict, post_graphql, read_limited_response_body,
}
use st0x_rest_api.Tokens.Attempts.{trace, Ends, post_graphql-Ends}
use st0x_rest_api.Tokens.Graphql.{last_result}
use st0x_rest_api.Tokens.Bodies.{read_limited_response_body-eq-take}
use st0x_rest_api.Tokens.Cursor.{
  SftCountRow, SftAmountRow, SftPages, read_token_details_aggregate_uncached,
}
use st0x_rest_api.Tokens.Proofs.{resolve_sft_subgraph_url}
use st0x_rest_api.Tokens.Cursor.{parse_u256_decimal}
use st0x_rest_api.Tokens.Details.{
  SftTokenDetailsSummaryVault, checked_sub_u256, add_volumes, parse_u64_decimal,
  aggregate_from_summary_vault, build_token_details_summary_fields,
  build_token_details_list_summary_response,
}
use st0x_rest_api.Tokens.Listing.{
  TokenDetailsBatchItem, TokenDetailsListResponse, token_details_list_cache_key, chunks_from,
  entry_token, group_items, read_chunks, read_token_details_list_vaults, read_subgraphs,
  details_row, add_items, details_of_items, batch_items, get_token_details,
}
use st0x_rest_api.Tokens.Listed.{IsListed, kept, get_token_details-answers}
use st0x_rest_api.Tokens.Aggregate.{Serves, read_token_details_aggregate_uncached-sums}

abbrev fields : String → Option JsonValue
fields key =
    if str_eq key "category"
    then some (json_text "ST0x")
    else if str_eq key "unwrappedAddress"
    then some (json_text "0x06")
    else none

abbrev wrapped_cfg : TokenCfg
wrapped_cfg = record {
  address = 5;
  decimals = some 18;
  label = none;
  symbol = none;
  network_key = "base";
  chain_id = 8453;
  rpcs = "up" ∷ [];
  extensions = some fields;
}

abbrev parse_address : String → Option ℕ
parse_address s = if str_eq s "0x06" then some 6 else none

-- Three observations, which two pages of two rows show.
abbrev observed : ℕ → WrappedExchangeRateSnapshot
observed block = record {
  share_token_address = 5;
  asset_token_address = 6;
  assets_per_share = "1.0";
  block_number = block;
  block_timestamp = none;
  captured_at = "now";
}

abbrev db : SnapshotsDb
db = record { rows = observed 7 ∷ observed 9 ∷ observed 8 ∷ []; reachable = true }

found : wrapped_token (some (wrapped_cfg ∷ [])) 5 ≡ ok wrapped_cfg
unfolding wrapped_token registry_tokens is_st0x_token
found = refl

is_wrapped : is_st0x_token wrapped_cfg ≡ true
unfolding is_st0x_token
is_wrapped = refl

asset_found : unwrapped_address parse_address wrapped_cfg ≡ ok 6
unfolding unwrapped_address
asset_found = refl

few_rows : length (history_of db 5) ≡ 3
unfolding descending insert_descending
few_rows = refl

get_wrap_ratio_history_by_address-walk_example :
    (walk
        (λ page.
          get_wrap_ratio_history_by_address db parse_address
            (some (wrapped_cfg ∷ []))
            5
            (record { page = some page; page_size = some 2 }))
        (suc (length (history_of db 5)))
        1
      ≡ ok (map event_of (history_of db 5)))
    × IsDescending (history_of db 5)
get_wrap_ratio_history_by_address-walk_example =
    get_wrap_ratio_history_by_address-walk db parse_address (some (wrapped_cfg ∷ [])) 5 6 1
      wrapped_cfg refl ((omega arith, tt), ((omega arith, tt), ((omega arith, tt), tt)))
      (omega arith) found asset_found (omega (arith, few_rows))

-- The first request is not sent, the second one is turned away for its rate, the third is answered.
abbrev send : ℕ → Sent ℕ
send attempt =
    if attempt == 1
    then not_sent
    else if attempt == 2
    then refused 429
    else answered (some (record { data' = some 42; errors = none }))

post_graphql-Ends_example :
    (k : ℕ) × (k < 3)
    × Ends send 1 2 k
    × (post_graphql send ≡ (trace 1 k, last_result (verdict (send (k + 1)))))
post_graphql-Ends_example = post_graphql-Ends send

abbrev chunks : List Chunk
chunks = some (1 ∷ 2 ∷ []) ∷ some (3 ∷ []) ∷ none ∷ some (4 ∷ []) ∷ []

read_limited_response_body-eq-take_example :
    read_limited_response_body chunks 2 ≡ (1 ∷ 2 ∷ [], true)
read_limited_response_body-eq-take_example =
    read_limited_response_body-eq-take chunks 2 (omega arith)

-- A subgraph with one row, which a page shows unless it is asked for what follows the row.
abbrev only : {Row : Type 0} → Row → String → Result ApiError (List Row)
only row cursor = if str_eq cursor "" then ok (row ∷ []) else ok []

only-Serves :
    {Row : Type 0} (id : Row → String) (row : Row) → id row ≡ "a" → Serves id (only row) (row ∷ [])
only-Serves id row named [] rest h = ap (λ rows. ok (take 1000 rows)) (sym h)
only-Serves id row named (x ∷ []) rest h =
    let none_left : rest ≡ [] = cc in let same : x ≡ row = cc in rw (none_left, same, named) refl
only-Serves id row named (x ∷ y ∷ before) rest h = cc

abbrev count_row : SftCountRow
count_row = record { id = "a" }

abbrev amount_row : SftAmountRow
amount_row = record { id = "a"; amount = "7" }

abbrev pages : SftPages
pages = record {
  holders = only count_row;
  transfers = only count_row;
  deposits = only amount_row;
  withdraws = only amount_row;
}

abbrev parse_u256 : String → Option ℕ
parse_u256 s = if str_eq s "7" then some 7 else none

read_token_details_aggregate_uncached-sums_example :
    read_token_details_aggregate_uncached parse_u256 (λ a b c d. internal "failed") pages 1
    ≡ some (
        ok (record {
          holder_count = 1;
          transfer_count = 1;
          deposit_volume = 7;
          withdraw_volume = 7;
        }))
read_token_details_aggregate_uncached-sums_example =
    read_token_details_aggregate_uncached-sums parse_u256 (λ a b c d. internal "failed") pages
      (count_row ∷ []) (count_row ∷ []) (amount_row ∷ []) (amount_row ∷ []) 1
      (only-Serves (λ row. row.id) count_row refl) (only-Serves (λ row. row.id) count_row refl)
      (only-Serves (λ row. row.id) amount_row refl) (only-Serves (λ row. row.id) amount_row refl)
      (omega arith, omega arith) ((refl, tt), (refl, tt)) (omega arith, omega arith)
      (omega arith, omega arith, omega arith, omega arith)

-- The endpoint answers for the token.
abbrev read_rpc : String → List ℕ → Result String Erc4626BatchResponse
read_rpc rpc vaults = ok (record {
  block_number = 7;
  block_timestamp = 50;
  captured_at = "now";
  items =
      record {
        vault_address = 5;
        success = true;
        error = none;
        data' = some (record { asset_address = 6; assets_display = "1" });
      }
      ∷ [];
})

abbrev row : WrapRatioResponse
row = record {
  share_address = 5;
  asset_address = 6;
  assets_per_share = "1.0";
  block_number = 7;
  block_timestamp = some 50;
  captured_at = "now";
}

ratios_read :
    get_wrap_ratios read_rpc parse_address (some (wrapped_cfg ∷ []))
    ≡ ok (record { data' = row ∷ []; errors = [] })
unfolding get_wrap_ratios registry_tokens is_st0x_token sort_inputs unwrapped_address
    read_wrap_ratios_batch read_groups inputs_by_chain group_from entry_push read_group
    batch_share_ratios try_rpcs add_groups add_rows lookup_row find_wrap_ratio_item one_item
    build_wrap_ratio_response assets_per_share_display from_batch_response
ratios_read = refl

get_wrap_ratios-answers_example :
    ((r : WrapRatioResponse) × Memᴰ r (row ∷ []) × IsRatioOf parse_address wrapped_cfg r)
    ⊎ HasError 5 []
get_wrap_ratios-answers_example =
    get_wrap_ratios-answers read_rpc parse_address (wrapped_cfg ∷ [])
      (record { data' = row ∷ []; errors = [] }) wrapped_cfg ratios_read (Memᴰ.head refl) is_wrapped

-- One vault for the wrapped token, whose withdrawals are below its deposits.
abbrev summary_vault : SftTokenDetailsSummaryVault
summary_vault = record {
  receipt_contract_address = none;
  wrapped_token_contract_address = some 5;
  total_shares = "3";
  name = "Wrapped";
  symbol = "wTKN";
  token_holder_count = "2";
  share_transfer_count = "4";
  deposit_volume = "7";
  withdraw_volume = "4";
}

abbrev digit : String → Option ℕ
digit s =
    if str_eq s "2"
    then some 2
    else if str_eq s "4"
    then some 4
    else if str_eq s "7"
    then some 7
    else none

abbrev print : ℕ → String
print n = if n == 3 then "3" else if n == 4 then "4" else if n == 7 then "7" else "many"

abbrev query : String → List ℕ → Result ApiError (List SftTokenDetailsSummaryVault)
query url addresses = ok (summary_vault ∷ [])

abbrev wrapped_items : List TokenDetailsBatchItem
wrapped_items = batch_items (λ key. some "https://sft") (wrapped_cfg ∷ [])

shared :
    (map
        (λ row. row.bridged_supply)
        (details_of_items digit digit print print query (λ groups. groups) wrapped_items).data'
      ≡ "3" ∷ [])
unfolding details_of_items batch_items is_st0x_token resolve_sft_subgraph_url group_items
    entry_token read_subgraphs read_token_details_list_vaults read_chunks chunks_from add_items
    details_row build_token_details_list_summary_response build_token_details_summary_fields
    aggregate_from_summary_vault parse_u64_decimal parse_u256_decimal checked_sub_u256 add_volumes
shared = refl

get_token_details-answers_example :
    (answer : TokenDetailsListResponse) × (get_token_details digit digit print print query
        (λ groups. groups)
        (λ key. none)
        (some (wrapped_cfg ∷ []))
        (λ key. some "https://sft")
      ≡ (kept (λ key. none) (token_details_list_cache_key print wrapped_items) answer, ok answer))
    × ((token : TokenCfg)
        → Memᴰ token (wrapped_cfg ∷ [])
        → is_st0x_token token ≡ true
        → IsListed token.address answer)
get_token_details-answers_example =
    get_token_details-answers digit digit print print query (λ groups. groups) (λ key. none)
      (wrapped_cfg ∷ []) (λ key. some "https://sft") (λ groups g m. m) refl
