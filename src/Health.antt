-- ===== src/Health.antt =====
-- src/routes/health.rs and src/types/health.rs: the detailed state of the server, from its database
-- and from the snapshot of the raindex client's local database.
use st0x_rest_api.Prelude.{
  ℕ, Bool, true, false, not, ◌||◌, ◌≡◌, ◌↔◌, Option, none, some, List, [], String, map,
  if◌then◌else◌, arith,
}

pub data HealthStatus : Type 0 where
  all_well degraded faulty : HealthStatus

pub data DbHealthStatus : Type 0 where
  reachable unreachable : DbHealthStatus

pub record DbStatus : Type 0 where
  pub status : DbHealthStatus
  pub connected : Bool
  pub error : Option String

-- The client's state of a database.
pub data LocalDbStatus : Type 0 where
  local_active local_syncing local_failure : LocalDbStatus

pub data RaindexSyncStatusKind : Type 0 where
  active syncing failure not_configured : RaindexSyncStatusKind

unfoldable pub kind_of : LocalDbStatus → RaindexSyncStatusKind
kind_of local_active = active
kind_of local_syncing = syncing
kind_of local_failure = failure

pub record NetworkSyncStatusSnapshot : Type 0 where
  pub chain_id : ℕ
  pub network_key : Option String
  pub status : LocalDbStatus
  pub raindex_count : ℕ
  pub ready : Bool
  pub error : Option String

pub record RaindexSyncStatusSnapshot : Type 0 where
  pub chain_id : ℕ
  pub raindex_address : ℕ
  pub raindex_key : Option String
  pub network_key : Option String
  pub status : LocalDbStatus
  pub ready : Bool
  pub phase_message : Option String
  pub last_synced_block : Option ℕ
  pub updated_at : Option String
  pub error : Option String

pub record LocalDbSyncSnapshot : Type 0 where
  pub configured : Bool
  pub status : LocalDbStatus
  pub healthy : Bool
  pub networks : List NetworkSyncStatusSnapshot
  pub raindexes : List RaindexSyncStatusSnapshot

pub record NetworkSyncInfo : Type 0 where
  pub chain_id : ℕ
  pub network_key : Option String
  pub status : RaindexSyncStatusKind
  pub orderbook_count : ℕ
  pub ready : Bool
  pub error : Option String

-- The address stands for its text.
pub record OrderbookSyncInfo : Type 0 where
  pub chain_id : ℕ
  pub orderbook_address : ℕ
  pub orderbook_key : Option String
  pub network_key : Option String
  pub status : RaindexSyncStatusKind
  pub ready : Bool
  pub phase_message : Option String
  pub last_synced_block : Option ℕ
  pub updated_at : Option String
  pub error : Option String

pub record RaindexSyncStatus : Type 0 where
  pub status : RaindexSyncStatusKind
  pub configured : Bool
  pub healthy : Bool
  pub error : Option String
  pub networks : List NetworkSyncInfo
  pub orderbooks : List OrderbookSyncInfo

pub record DetailedHealthResponse : Type 0 where
  pub status : HealthStatus
  pub app_db : DbStatus
  pub raindex : RaindexSyncStatus

-- `check_app_db`, from whether the query succeeds.
unfoldable pub check_app_db : Bool → DbStatus
check_app_db true = record { status = reachable; connected = true; error = none }
check_app_db false = record {
  status = unreachable;
  connected = false;
  error = some "application database unavailable";
}

-- `error.map(|_| message)`
abbrev public_error : Option String → String → Option String
public_error none message = none
public_error (some e) message = some message

unfoldable pub map_network_snapshot : NetworkSyncStatusSnapshot → NetworkSyncInfo
map_network_snapshot snapshot = record {
  chain_id = snapshot.chain_id;
  network_key = snapshot.network_key;
  status = kind_of snapshot.status;
  orderbook_count = snapshot.raindex_count;
  ready = snapshot.ready;
  error = public_error snapshot.error "network sync failed";
}

unfoldable pub map_raindex_status_snapshot : RaindexSyncStatusSnapshot → OrderbookSyncInfo
map_raindex_status_snapshot snapshot = record {
  chain_id = snapshot.chain_id;
  orderbook_address = snapshot.raindex_address;
  orderbook_key = snapshot.raindex_key;
  network_key = snapshot.network_key;
  status = kind_of snapshot.status;
  ready = snapshot.ready;
  phase_message = snapshot.phase_message;
  last_synced_block = snapshot.last_synced_block;
  updated_at = snapshot.updated_at;
  error = public_error snapshot.error "orderbook sync failed";
}

unfoldable pub raindex_error : LocalDbSyncSnapshot → Option String
raindex_error snapshot =
    if not snapshot.healthy
    then some "raindex local DB sync is unhealthy"
    else if not snapshot.configured
    then some "raindex local DB sync is not configured"
    else none

unfoldable pub map_raindex_snapshot : LocalDbSyncSnapshot → RaindexSyncStatus
map_raindex_snapshot snapshot = record {
  status = if snapshot.configured then kind_of snapshot.status else not_configured;
  configured = snapshot.configured;
  healthy = snapshot.healthy;
  error = raindex_error snapshot;
  networks = map map_network_snapshot snapshot.networks;
  orderbooks = map map_raindex_status_snapshot snapshot.raindexes;
}

-- `check_raindex_db`, from the client's answer.
unfoldable pub check_raindex_db : Option LocalDbSyncSnapshot → RaindexSyncStatus
check_raindex_db (some snapshot) = map_raindex_snapshot snapshot
check_raindex_db none = record {
  status = failure;
  configured = false;
  healthy = false;
  error = some "raindex local DB sync snapshot unavailable";
  networks = [];
  orderbooks = [];
}

abbrev is_failure : RaindexSyncStatusKind → Bool
is_failure failure = true
is_failure k = false

abbrev is_pending : RaindexSyncStatusKind → Bool
is_pending not_configured = true
is_pending syncing = true
is_pending k = false

unfoldable pub detailed_status : DbStatus → RaindexSyncStatus → HealthStatus
detailed_status app_db raindex =
    if not app_db.connected || (not raindex.healthy || is_failure raindex.status)
    then faulty
    else if is_pending raindex.status
    then degraded
    else all_well

unfoldable pub get_health_detailed : Bool → Option LocalDbSyncSnapshot → DetailedHealthResponse
get_health_detailed db snapshot =
    let app_db = check_app_db db in
    let raindex = check_raindex_db snapshot in
    record { status = detailed_status app_db raindex; app_db = app_db; raindex = raindex }

-- The client's local database is configured, healthy and in sync.
abbrev pub InSync : Option LocalDbSyncSnapshot → Type 0
InSync none = ⊥
InSync (some s) = (s.configured ≡ true) × (s.healthy ≡ true) × (s.status ≡ local_active)

-- The server reports that all is well exactly if its database can be reached and the client has a
-- snapshot which says that the local database is configured, healthy and in sync.
pub get_health_detailed_iff :
    (db : Bool) (snapshot : Option LocalDbSyncSnapshot)
    → ((get_health_detailed db snapshot).status ≡ all_well) ↔ ((db ≡ true) × InSync snapshot)
unfolding get_health_detailed check_app_db check_raindex_db map_raindex_snapshot detailed_status
    kind_of
get_health_detailed_iff true none = ground arith
get_health_detailed_iff false none = ground arith
get_health_detailed_iff false (some s) = ground arith
get_health_detailed_iff true (some s) = ground arith
