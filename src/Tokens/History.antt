-- ===== src/Tokens/History.antt =====
-- src/routes/tokens.rs: the pages of the history of a token's ratios.
use st0x_rest_api.Prelude.{
  ℕ, ◌-◌, ◌*◌, ◌^◌, Bool, not, Option, none, some, List, String, ltb, ◌==◌, if◌then◌else◌, min,
  unwrap_or, Result, ok, ◌>>=◌, ◌>>◌, guard, ok_or, map_err, traverse,
}
use st0x_rest_api.ApiError.{ApiError, internal, bad_request}
use st0x_rest_api.Sdk.{to_u64, div_ceil}
use st0x_rest_api.WrapRatio.{TokenCfg, into_api_error, unwrapped_address}
use st0x_rest_api.WrapRatio.Snapshots.{
  WrappedExchangeRateSnapshot, SnapshotsDb, count_wrapped_exchange_rate_snapshots_for_share,
  list_wrapped_exchange_rate_snapshots_for_share,
}
use st0x_rest_api.Tokens.{wrapped_token}

pub record WrapRatioHistoryParams : Type 0 where
  pub page : Option ℕ
  pub page_size : Option ℕ

pub record WrapRatioHistorySnapshotEvent : Type 0 where
  pub event_type : String
  pub block_number : ℕ
  pub block_timestamp : Option ℕ
  pub assets_per_share : String
  pub captured_at : String

pub record WrapRatioHistoryPagination : Type 0 where
  pub page : ℕ
  pub page_size : ℕ
  pub total_events : ℕ
  pub total_pages : ℕ
  pub has_more : Bool

pub record WrapRatioHistoryResponse : Type 0 where
  pub share_address : ℕ
  pub asset_address : ℕ
  pub events : List WrapRatioHistorySnapshotEvent
  pub pagination : WrapRatioHistoryPagination

-- `checked_mul` of `u32`
abbrev pub checked_mul : ℕ → ℕ → Option ℕ
checked_mul a b = if ltb (a * b) (2 ^ 32) then some (a * b) else none

-- The page, the page size and the offset.
unfoldable pub wrap_ratio_history_pagination_params :
    WrapRatioHistoryParams → Result ApiError (ℕ × ℕ × ℕ)
wrap_ratio_history_pagination_params params =
    let page = unwrap_or params.page 1 in
    let page_size = min (unwrap_or params.page_size 20) 100 in
    do
      guard (not (page == 0)) (bad_request "page must be greater than 0")
      guard (not (page_size == 0)) (bad_request "pageSize must be greater than 0")
      offset ←
          ok_or (checked_mul (page - 1) page_size) (bad_request "pagination offset value too large")
      ok (page, page_size, offset)

unfoldable pub build_wrap_ratio_history_pagination : ℕ → ℕ → ℕ → WrapRatioHistoryPagination
build_wrap_ratio_history_pagination total_events page page_size =
    let total_pages = div_ceil total_events page_size in
    record {
      page = page;
      page_size = page_size;
      total_events = total_events;
      total_pages = total_pages;
      has_more = ltb page total_pages;
    }

-- `block_timestamp.map(u64::try_from).transpose()`
abbrev pub timestamp_u64 : Option ℕ → Result ApiError (Option ℕ)
timestamp_u64 none = ok none
timestamp_u64 (some t) = ok_or (to_u64 t) (internal "block timestamp overflow") >>= λ u. ok (some u)

unfoldable pub wrap_ratio_history_event_from_snapshot :
    WrappedExchangeRateSnapshot → Result ApiError WrapRatioHistorySnapshotEvent
wrap_ratio_history_event_from_snapshot snapshot = do
  block_number ← ok_or (to_u64 snapshot.block_number) (internal "block number overflow")
  block_timestamp ← timestamp_u64 snapshot.block_timestamp
  ok (record {
    event_type = "snapshot";
    block_number = block_number;
    block_timestamp = block_timestamp;
    assets_per_share = snapshot.assets_per_share;
    captured_at = snapshot.captured_at;
  })

abbrev pub failed_history : ApiError
failed_history = internal "failed to query wrapped token ratio history"

module _ (db : SnapshotsDb) where
  -- What follows once the token was found.
  unfoldable pub history_of_token :
      TokenCfg → ℕ → WrapRatioHistoryParams → Result ApiError WrapRatioHistoryResponse
  history_of_token token asset_address params = do
    p ← wrap_ratio_history_pagination_params params
    total_events ←
        ok_or (count_wrapped_exchange_rate_snapshots_for_share db token.address) failed_history
    snapshots ←
        ok_or (list_wrapped_exchange_rate_snapshots_for_share db token.address p.1 p.2)
          failed_history
    events ← traverse wrap_ratio_history_event_from_snapshot snapshots
    ok (record {
      share_address = token.address;
      asset_address = asset_address;
      events = events;
      pagination = build_wrap_ratio_history_pagination total_events p.0 p.1;
    })

  module _ (parse_address : String → Option ℕ) (registry : Option (List TokenCfg)) where
    unfoldable pub get_wrap_ratio_history_by_address :
        ℕ → WrapRatioHistoryParams → Result ApiError WrapRatioHistoryResponse
    get_wrap_ratio_history_by_address address params = do
      token ← wrapped_token registry address
      asset_address ← map_err into_api_error (unwrapped_address parse_address token)
      history_of_token token asset_address params
