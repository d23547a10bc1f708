-- ===== src/WrapRatio/Tests.antt =====
-- The theorems on ratios at a registry with one wrapped token and a batch that answers for it.
use mathlib.Core.List.{Memᴰ}
use st0x_rest_api.Prelude.{
  ℕ, ◌^◌, ◌≡◌, refl, true, Option, none, some, List, [], ◌∷◌, String, str_eq, if◌then◌else◌, Result,
  ok, err,
}
use st0x_rest_api.Prelude.Groups.{group_from, entry_push}
use st0x_rest_api.WrapRatio.{
  JsonValue, json_text, TokenCfg, Erc4626BatchResponse, WrapRatioResponse, is_st0x_token,
  unwrapped_address, find_wrap_ratio_item, one_item, build_wrap_ratio_response,
  assets_per_share_display, from_batch_response, into_api_error,
}
use st0x_rest_api.WrapRatio.Rows.{
  is_wanted, input_of, read_wrap_ratios_batch, read_groups, inputs_by_chain, read_group,
  batch_share_ratios, try_rpcs, rows_of, row_of, read_wrap_ratio_responses_for_addresses,
}
use st0x_rest_api.WrapRatio.Laws.{IsRatioOf, read_wrap_ratio_responses_for_addresses-rows}
use st0x_rest_api.WrapRatio.Snapshots.{SnapshotsDb, persist_wrap_ratio_snapshots_best_effort}
use st0x_rest_api.WrapRatio.Recorded.{recorded, persist_wrap_ratio_snapshots_best_effort-recorded}

abbrev fields : String → Option JsonValue
fields key =
    if str_eq key "category"
    then some (json_text "ST0x")
    else if str_eq key "unwrappedAddress"
    then some (json_text "0x06")
    else none

abbrev wrapped_cfg : TokenCfg
wrapped_cfg = record {
  address = 5;
  decimals = some 18;
  label = none;
  symbol = none;
  network_key = "base";
  chain_id = 8453;
  rpcs = "down" ∷ "up" ∷ [];
  extensions = some fields;
}

abbrev parse_address : String → Option ℕ
parse_address s = if str_eq s "0x06" then some 6 else none

-- The first endpoint fails, the second one answers.
abbrev read_rpc : String → List ℕ → Result String Erc4626BatchResponse
read_rpc rpc vaults =
    if str_eq rpc "up"
    then ok (record {
      block_number = 7;
      block_timestamp = 50;
      captured_at = "now";
      items =
          record {
            vault_address = 5;
            success = true;
            error = none;
            data' = some (record { asset_address = 6; assets_display = "1" });
          }
          ∷ [];
    })
    else err "no connection"

abbrev row : WrapRatioResponse
row = record {
  share_address = 5;
  asset_address = 6;
  assets_per_share = "1.0";
  block_number = 7;
  block_timestamp = some 50;
  captured_at = "now";
}

abbrev rows : List WrapRatioResponse
rows = row ∷ []

rows_read :
    read_wrap_ratio_responses_for_addresses read_rpc parse_address (wrapped_cfg ∷ []) (5 ∷ [])
    ≡ ok rows
unfolding read_wrap_ratio_responses_for_addresses is_wanted is_st0x_token input_of unwrapped_address
    read_wrap_ratios_batch read_groups inputs_by_chain group_from entry_push read_group
    batch_share_ratios try_rpcs rows_of row_of find_wrap_ratio_item one_item
    build_wrap_ratio_response assets_per_share_display from_batch_response into_api_error
rows_read = refl

read_wrap_ratio_responses_for_addresses-rows_example :
    ((token : TokenCfg)
      → Memᴰ token (wrapped_cfg ∷ [])
      → is_wanted (5 ∷ []) token ≡ true
      → (r : WrapRatioResponse) × Memᴰ r rows × IsRatioOf parse_address token r)
    × ((r : WrapRatioResponse)
        → Memᴰ r rows
        → (token : TokenCfg) × Memᴰ token (wrapped_cfg ∷ [])
          × (is_wanted (5 ∷ []) token ≡ true)
          × IsRatioOf parse_address token r)
read_wrap_ratio_responses_for_addresses-rows_example =
    read_wrap_ratio_responses_for_addresses-rows read_rpc parse_address (wrapped_cfg ∷ []) (5 ∷ [])
      rows rows_read

abbrev db : SnapshotsDb
db = record { rows = []; reachable = true }

-- The first observation of the block is of a time that does not fit, and the last one comes too late.
abbrev observations : List WrapRatioResponse
observations =
    record row { assets_per_share = "9.0"; block_timestamp = some (2 ^ 63) }
    ∷ row
    ∷ record row { assets_per_share = "8.0" }
    ∷ []

persist_wrap_ratio_snapshots_best_effort-recorded_example :
    recorded 5 7 (persist_wrap_ratio_snapshots_best_effort db observations).rows
    ≡ some (record {
      share_token_address = 5;
      asset_token_address = 6;
      assets_per_share = "1.0";
      block_number = 7;
      block_timestamp = some 50;
      captured_at = "now";
    })
persist_wrap_ratio_snapshots_best_effort-recorded_example =
    persist_wrap_ratio_snapshots_best_effort-recorded db observations 5 7 refl
