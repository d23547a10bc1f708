-- ===== src/Trades/Cached.antt =====
-- src/routes/trades/get_by_token.rs and get_by_taker.rs: the routes with their response caches.
use st0x_rest_api.Prelude.{
  ℕ, ◌≡◌, refl, ap, Bool, true, false, Option, none, some, ◌==◌, ==_iff, if◌then◌else◌, unwrap_or,
  Result,
}
use st0x_rest_api.ApiError.{ApiError}
use st0x_rest_api.Denomination.{Denomination, wrapped, unwrapped}
use st0x_rest_api.Floats.{FloatOps}
use st0x_rest_api.AppCache.{AppCache, get_or_try_insert, Holds, get_or_try_insert-Holds}
use st0x_rest_api.Trades.{TradesDataSource, TradesPaginationParams, trades_pagination_params}
use st0x_rest_api.Trades.Listing.{
  TradesByAddressResponse, process_get_trades_by_token, process_get_trades_by_taker,
}

-- `trades_cache_key`: the parts that the key's text joins; the route's part is the same for all
-- keys of a cache.
pub record TradesKey : Type 0 where
  pub address : ℕ
  pub page : ℕ
  pub page_size : ℕ
  pub start_time : Option ℕ
  pub end_time : Option ℕ
  pub denomination : Denomination

unfoldable pub trades_cache_key : ℕ → TradesPaginationParams → TradesKey
trades_cache_key address params = record {
  address = address;
  page = unwrap_or params.page 1;
  page_size = unwrap_or params.page_size 20;
  start_time = params.start_time;
  end_time = params.end_time;
  denomination = unwrap_or params.denomination wrapped;
}

abbrev same_time : Option ℕ → Option ℕ → Bool
same_time none none = true
same_time none (some b) = false
same_time (some a) none = false
same_time (some a) (some b) = a == b

abbrev same_denomination : Denomination → Denomination → Bool
same_denomination wrapped wrapped = true
same_denomination wrapped unwrapped = false
same_denomination unwrapped wrapped = false
same_denomination unwrapped unwrapped = true

abbrev pub same_trades_key : TradesKey → TradesKey → Bool
same_trades_key j k =
    if j.address == k.address
    then (if j.page == k.page
        then (if j.page_size == k.page_size
            then (if same_time j.start_time k.start_time
                then (if same_time j.end_time k.end_time
                    then same_denomination j.denomination k.denomination
                    else false)
                else false)
            else false)
        else false)
    else false

abbrev pub TradesCache : Type 0
TradesCache = AppCache TradesKey TradesByAddressResponse

-- `is_enabled` of the caches is a flag.
abbrev pub cached_trades :
    Bool
    → TradesCache
    → TradesKey
    → Result ApiError TradesByAddressResponse
    → TradesCache × Result ApiError TradesByAddressResponse
cached_trades enabled cache key fetch =
    if enabled then get_or_try_insert same_trades_key cache key fetch else (cache, fetch)

module _ (ops : FloatOps) (ds : TradesDataSource) where
  unfoldable pub get_trades_by_token :
      Bool
      → TradesCache
      → ℕ
      → TradesPaginationParams
      → TradesCache × Result ApiError TradesByAddressResponse
  get_trades_by_token enabled cache address params =
      cached_trades enabled cache (trades_cache_key address params)
        (process_get_trades_by_token ops ds address params)

  unfoldable pub get_trades_by_taker :
      Bool
      → TradesCache
      → ℕ
      → TradesPaginationParams
      → TradesCache × Result ApiError TradesByAddressResponse
  get_trades_by_taker enabled cache address params =
      cached_trades enabled cache (trades_cache_key address params)
        (process_get_trades_by_taker ops ds address params)

same_time_sound : (a b : Option ℕ) → same_time a b ≡ true → a ≡ b
same_time_sound none none h = refl
same_time_sound none (some b) h = cc
same_time_sound (some a) none h = cc
same_time_sound (some a) (some b) h = ap some ((==_iff a b).0 h)

same_denomination_sound : (a b : Denomination) → same_denomination a b ≡ true → a ≡ b
same_denomination_sound wrapped wrapped h = refl
same_denomination_sound wrapped unwrapped h = cc
same_denomination_sound unwrapped wrapped h = cc
same_denomination_sound unwrapped unwrapped h = refl

both_true : (b c : Bool) → (if b then c else false) ≡ true → (b ≡ true) × (c ≡ true)
both_true true c h = (refl, h)
both_true false c h = cc

same_trades_key_sound : (j k : TradesKey) → same_trades_key j k ≡ true → j ≡ k
same_trades_key_sound j k h =
    let (address, h1) = both_true (j.address == k.address) _ h in
    let (page, h2) = both_true (j.page == k.page) _ h1 in
    let (page_size, h3) = both_true (j.page_size == k.page_size) _ h2 in
    let (start_time, h4) = both_true (same_time j.start_time k.start_time) _ h3 in
    let (end_time, h5) = both_true (same_time j.end_time k.end_time) _ h4 in
    let a : j.address ≡ k.address = (==_iff j.address k.address).0 address in
    let p : j.page ≡ k.page = (==_iff j.page k.page).0 page in
    let n : j.page_size ≡ k.page_size = (==_iff j.page_size k.page_size).0 page_size in
    let s = same_time_sound j.start_time k.start_time start_time in
    let e = same_time_sound j.end_time k.end_time end_time in
    let d = same_denomination_sound j.denomination k.denomination h5 in
    λ i. record {
      address = a i;
      page = p i;
      page_size = n i;
      start_time = s i;
      end_time = e i;
      denomination = d i;
    }

-- The parameters that a key stands for.
abbrev pub params_of : TradesKey → TradesPaginationParams
params_of key = record {
  page = some key.page;
  page_size = some key.page_size;
  start_time = key.start_time;
  end_time = key.end_time;
  denomination = some key.denomination;
}

module _ (ops : FloatOps) (ds : TradesDataSource) where
  -- What the source answers for a key.
  abbrev pub by_token : TradesKey → Result ApiError TradesByAddressResponse
  by_token key = process_get_trades_by_token ops ds key.address (params_of key)

  abbrev pub by_taker : TradesKey → Result ApiError TradesByAddressResponse
  by_taker key = process_get_trades_by_taker ops ds key.address (params_of key)

  by_token-key :
      (address : ℕ) (params : TradesPaginationParams)
      → process_get_trades_by_token ops ds address params
        ≡ by_token (trades_cache_key address params)
  unfolding process_get_trades_by_token trades_cache_key trades_pagination_params
  by_token-key address params = refl

  by_taker-key :
      (address : ℕ) (params : TradesPaginationParams)
      → process_get_trades_by_taker ops ds address params
        ≡ by_taker (trades_cache_key address params)
  unfolding process_get_trades_by_taker trades_cache_key trades_pagination_params
  by_taker-key address params = refl

-- With a cache that holds the source's answers, enabled or not, the route of a token answers what
-- the source answers without a cache, and the cache holds the source's answers afterwards.
pub get_trades_by_token-Holds :
    (ops : FloatOps) (ds : TradesDataSource) (enabled : Bool) (cache : TradesCache) (address : ℕ)
    (params : TradesPaginationParams)
    → Holds same_trades_key (by_token ops ds) cache
    → ((get_trades_by_token ops ds enabled cache address params).1
        ≡ process_get_trades_by_token ops ds address params)
      × Holds same_trades_key
          (by_token ops ds)
          (get_trades_by_token ops ds enabled cache address params).0
unfolding get_trades_by_token
get_trades_by_token-Holds ops ds false cache address params h = (refl, h)
get_trades_by_token-Holds ops ds true cache address params h =
    rw (by_token-key ops ds address params) (
      get_or_try_insert-Holds same_trades_key (by_token ops ds) cache
        (trades_cache_key address params) same_trades_key_sound h)

-- The same of the route of a taker.
pub get_trades_by_taker-Holds :
    (ops : FloatOps) (ds : TradesDataSource) (enabled : Bool) (cache : TradesCache) (address : ℕ)
    (params : TradesPaginationParams)
    → Holds same_trades_key (by_taker ops ds) cache
    → ((get_trades_by_taker ops ds enabled cache address params).1
        ≡ process_get_trades_by_taker ops ds address params)
      × Holds same_trades_key
          (by_taker ops ds)
          (get_trades_by_taker ops ds enabled cache address params).0
unfolding get_trades_by_taker
get_trades_by_taker-Holds ops ds false cache address params h = (refl, h)
get_trades_by_taker-Holds ops ds true cache address params h =
    rw (by_taker-key ops ds address params) (
      get_or_try_insert-Holds same_trades_key (by_taker ops ds) cache
        (trades_cache_key address params) same_trades_key_sound h)
