-- ===== src/WrapRatio/Snapshots.antt =====
-- src/wrap_ratio.rs and src/db/wrapped_exchange_rate_history.rs: the table of observed ratios, with
-- at most one row for a token and a block. An address stands for its normalized text, and the
-- numbers of a row are those of `i64` that are not negative, since only such rows are written.
use st0x_rest_api.Prelude.{
  ℕ, ◌-◌, Bool, ◌&&◌, Option, none, some, List, [], ◌∷◌, ◌++◌, String, ltb, ◌==◌, if◌then◌else◌,
  any, keep, length, take, drop,
}
use st0x_rest_api.Sdk.{to_i64}
use st0x_rest_api.WrapRatio.{WrapRatioResponse}

pub record WrappedExchangeRateSnapshot : Type 0 where
  pub share_token_address : ℕ
  pub asset_token_address : ℕ
  pub assets_per_share : String
  pub block_number : ℕ
  pub block_timestamp : Option ℕ
  pub captured_at : String

abbrev pub Snapshots : Type 0
Snapshots = List WrappedExchangeRateSnapshot

-- The database, which may be out of reach: every statement then fails and changes nothing.
pub record SnapshotsDb : Type 0 where
  pub rows : Snapshots
  pub reachable : Bool

abbrev pub has_place : ℕ → ℕ → WrappedExchangeRateSnapshot → Bool
has_place share block row = row.share_token_address == share && (row.block_number == block)

-- `INSERT OR IGNORE` under `UNIQUE (share_token_address, block_number)`
unfoldable pub insert_or_ignore : Snapshots → WrappedExchangeRateSnapshot → Snapshots
insert_or_ignore rows row =
    if any (has_place row.share_token_address row.block_number) rows then rows else rows ++ row ∷ []

unfoldable pub insert_all : Snapshots → Snapshots → Snapshots
insert_all rows [] = rows
insert_all rows (row ∷ later) = insert_all (insert_or_ignore rows row) later

-- The transaction, with the number of rows that it added.
unfoldable pub insert_wrapped_exchange_rate_snapshots :
    SnapshotsDb → Snapshots → Option (SnapshotsDb × ℕ)
insert_wrapped_exchange_rate_snapshots db snapshots =
    let rows = insert_all db.rows snapshots in
    if db.reachable then some (record db { rows = rows }, length rows - length db.rows) else none

-- `block_timestamp.map(i64::try_from).transpose()`
abbrev pub timestamp_i64 : Option ℕ → Option (Option ℕ)
timestamp_i64 none = some none
timestamp_i64 (some t) = elim (to_i64 t) [ none ↦ none | some s ↦ some (some s) ]

abbrev pub with_times :
    WrapRatioResponse → Option ℕ → Option (Option ℕ) → Option WrappedExchangeRateSnapshot
with_times response none time = none
with_times response (some block) none = none
with_times response (some block) (some time) = some (record {
  share_token_address = response.share_address;
  asset_token_address = response.asset_address;
  assets_per_share = response.assets_per_share;
  block_number = block;
  block_timestamp = time;
  captured_at = response.captured_at;
})

unfoldable pub wrap_ratio_snapshot_from_response :
    WrapRatioResponse → Option WrappedExchangeRateSnapshot
wrap_ratio_snapshot_from_response response =
    with_times response (to_i64 response.block_number) (timestamp_i64 response.block_timestamp)

-- The rows that could be prepared.
unfoldable pub prepared : List WrapRatioResponse → Snapshots
prepared [] = []
prepared (response ∷ responses) =
    let rest = prepared responses in
    elim (wrap_ratio_snapshot_from_response response) [ none ↦ rest | some row ↦ row ∷ rest ]

-- Every failure is only logged.
unfoldable pub persist_prepared : SnapshotsDb → Snapshots → SnapshotsDb
persist_prepared db [] = db
persist_prepared db (row ∷ rows) = elim (insert_wrapped_exchange_rate_snapshots db (row ∷ rows)) [
  | none ↦ db
  | some done ↦ done.0
]

unfoldable pub persist_wrap_ratio_snapshots_best_effort :
    SnapshotsDb → List WrapRatioResponse → SnapshotsDb
persist_wrap_ratio_snapshots_best_effort db responses = persist_prepared db (prepared responses)

abbrev pub of_share : ℕ → WrappedExchangeRateSnapshot → Bool
of_share share row = row.share_token_address == share

unfoldable pub count_wrapped_exchange_rate_snapshots_for_share : SnapshotsDb → ℕ → Option ℕ
count_wrapped_exchange_rate_snapshots_for_share db share =
    if db.reachable then some (length (keep (of_share share) db.rows)) else none

-- `ORDER BY block_number DESC`; no two rows of a token have the same block, so the second key of
-- the order never decides.
unfoldable pub insert_descending : WrappedExchangeRateSnapshot → Snapshots → Snapshots
insert_descending row [] = row ∷ []
insert_descending row (other ∷ rows) =
    let rest = insert_descending row rows in
    if ltb row.block_number other.block_number then other ∷ rest else row ∷ other ∷ rows

unfoldable pub descending : Snapshots → Snapshots
descending [] = []
descending (row ∷ rows) = insert_descending row (descending rows)

-- The history of a token, the latest block first.
abbrev pub history_of : SnapshotsDb → ℕ → Snapshots
history_of db share = descending (keep (of_share share) db.rows)

unfoldable pub list_wrapped_exchange_rate_snapshots_for_share :
    SnapshotsDb → ℕ → ℕ → ℕ → Option Snapshots
list_wrapped_exchange_rate_snapshots_for_share db share limit offset =
    if db.reachable then some (take limit (drop offset (history_of db share))) else none
