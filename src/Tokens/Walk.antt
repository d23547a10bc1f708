-- ===== src/Tokens/Walk.antt =====
-- A client that reads the pages of a history until there is no more has read the whole history.
use st0x_rest_api.Prelude.{
  ℕ, zero, suc, ◌+◌, ◌-◌, ◌*◌, ◌^◌, ◌<◌, ◌≤◌, ◌≡◌, refl, sym, ap, ◌∙◌, inl, inr, true, false,
  String, Option, none, some, List, [], ◌∷◌, ◌++◌, ltb, lt→ltb, ltb→lt, ◌==◌, if◌then◌else◌, min,
  keep, length, take, drop, map, Result, ok, err, ◌>>=◌, traverse, All, Bool-cases, drop-drop,
  take-drop, take_all, length-drop, arith,
}
use st0x_rest_api.ApiError.{ApiError, internal}
use st0x_rest_api.Sdk.{to_u64, div_ceil}
use st0x_rest_api.Orders.Pages.{div_ceil-above}
use st0x_rest_api.WrapRatio.{TokenCfg, unwrapped_address}
use st0x_rest_api.WrapRatio.Range.{
  TimeInRange, InRange, length-descending, InRange-history, InRange-take, InRange-drop,
  IsDescending, history_of-IsDescending,
}
use st0x_rest_api.Tokens.{wrapped_token}
use st0x_rest_api.WrapRatio.Snapshots.{
  WrappedExchangeRateSnapshot, Snapshots, SnapshotsDb, of_share, history_of,
  count_wrapped_exchange_rate_snapshots_for_share, list_wrapped_exchange_rate_snapshots_for_share,
}
use st0x_rest_api.Tokens.History.{
  WrapRatioHistorySnapshotEvent, WrapRatioHistoryResponse, timestamp_u64,
  wrap_ratio_history_pagination_params, build_wrap_ratio_history_pagination,
  wrap_ratio_history_event_from_snapshot, history_of_token, get_wrap_ratio_history_by_address,
}

-- The client's loop: it asks for the page `page` of `size` events, and goes on while there is more.
abbrev pub walk :
    (ℕ → Result ApiError WrapRatioHistoryResponse)
    → ℕ
    → ℕ
    → Result ApiError (List WrapRatioHistorySnapshotEvent)
walk read_page zero page = err (internal "the pages do not end")
walk read_page (suc fuel) page = read_page page >>= λ response.
    if response.pagination.has_more
    then (walk read_page fuel (suc page) >>= λ later. ok (response.events ++ later))
    else ok response.events

-- A row as an event.
abbrev pub event_of : WrappedExchangeRateSnapshot → WrapRatioHistorySnapshotEvent
event_of row = record {
  event_type = "snapshot";
  block_number = row.block_number;
  block_timestamp = row.block_timestamp;
  assets_per_share = row.assets_per_share;
  captured_at = row.captured_at;
}

to_u64_below : (n : ℕ) → n < 2 ^ 63 → to_u64 n ≡ some n
to_u64_below n h = ground arith

timestamp_u64_below : (t : Option ℕ) → TimeInRange t → timestamp_u64 t ≡ ok t
timestamp_u64_below none h = refl
timestamp_u64_below (some t) h = rw (to_u64_below t h) refl

event_from-eq :
    (row : WrappedExchangeRateSnapshot)
    → InRange row
    → wrap_ratio_history_event_from_snapshot row ≡ ok (event_of row)
unfolding wrap_ratio_history_event_from_snapshot
event_from-eq row (h, k) =
    rw (to_u64_below row.block_number h, timestamp_u64_below row.block_timestamp k) refl

traverse-events :
    (rows : Snapshots)
    → All InRange rows
    → traverse wrap_ratio_history_event_from_snapshot rows ≡ ok (map event_of rows)
traverse-events [] h = refl
traverse-events (row ∷ rows) (h, hs) = rw (event_from-eq row h, traverse-events rows hs) refl

-- The response to the page after `i` others.
abbrev pub page_of : SnapshotsDb → TokenCfg → ℕ → ℕ → ℕ → WrapRatioHistoryResponse
page_of db token asset size i = record {
  share_address = token.address;
  asset_address = asset;
  events = map event_of (take size (drop (i * size) (history_of db token.address)));
  pagination =
      build_wrap_ratio_history_pagination (length (history_of db token.address)) (suc i) size;
}

params_of_page :
    (i k : ℕ)
    → suc k ≤ 100
    → i * suc k < 2 ^ 32
    → wrap_ratio_history_pagination_params
        (record { page = some (suc i); page_size = some (suc k) })
      ≡ ok (suc i, suc k, i * suc k)
unfolding wrap_ratio_history_pagination_params
params_of_page i k small fits =
    let size : min (suc k) 100 ≡ suc k = ground arith in
    let before : suc i - 1 ≡ i = omega arith in
    let some_page : (suc i == 0) ≡ false = ground arith in
    let some_size : (suc k == 0) ≡ false = ground arith in
    rw (size, before, some_page, some_size, lt→ltb (i * suc k) (2 ^ 32) fits) refl

count_up :
    (db : SnapshotsDb) (share : ℕ)
    → db.reachable ≡ true
    → count_wrapped_exchange_rate_snapshots_for_share db share ≡ some (length (history_of db share))
unfolding count_wrapped_exchange_rate_snapshots_for_share
count_up db share h = ground (arith, length-descending (keep (of_share share) db.rows))

list_up :
    (db : SnapshotsDb) (share limit offset : ℕ)
    → db.reachable ≡ true
    → list_wrapped_exchange_rate_snapshots_for_share db share limit offset
      ≡ some (take limit (drop offset (history_of db share)))
unfolding list_wrapped_exchange_rate_snapshots_for_share
list_up db share limit offset h = ground arith

history_of_token-page :
    (db : SnapshotsDb) (token : TokenCfg) (asset k i : ℕ)
    → db.reachable ≡ true
    → All InRange db.rows
    → suc k ≤ 100
    → i * suc k < 2 ^ 32
    → history_of_token db token asset (record { page = some (suc i); page_size = some (suc k) })
      ≡ ok (page_of db token asset (suc k) i)
unfolding history_of_token
history_of_token-page db token asset k i up range small fits =
    let rows = take (suc k) (drop (i * suc k) (history_of db token.address)) in
    let events = traverse-events rows (
      InRange-take (suc k) _
        (InRange-drop (i * suc k) _ (InRange-history token.address db.rows range))) in
    rw
      (
        params_of_page i k small fits,
        count_up db token.address up,
        list_up db token.address (suc k) (i * suc k) up,
        events,
      )
      refl

map-append : (xs ys : Snapshots) → map event_of (xs ++ ys) ≡ map event_of xs ++ map event_of ys
map-append [] ys = refl
map-append (x ∷ xs) ys = ap (◌∷◌ (event_of x)) (map-append xs ys)

module _ (db : SnapshotsDb) (token : TokenCfg) (asset k : ℕ) (up : db.reachable ≡ true)
    (range : All InRange db.rows) (small : suc k ≤ 100) where
  -- The route, as the client calls it.
  abbrev read : ℕ → Result ApiError WrapRatioHistoryResponse
  read page =
      history_of_token db token asset (record { page = some page; page_size = some (suc k) })

  -- What is left of the history after `i` pages.
  abbrev left : ℕ → Snapshots
  left i = drop (i * suc k) (history_of db token.address)

  split_left : (i : ℕ) → take (suc k) (left i) ++ left (suc i) ≡ left i
  split_left i =
      let next : i * suc k + suc k ≡ suc i * suc k = omega arith in
      ap (◌++◌ (take (suc k) (left i))) (
        ap (λ n. drop n (history_of db token.address)) (sym next)
        ∙ sym (drop-drop (suc k) (i * suc k) (history_of db token.address)))
      ∙ take-drop (suc k) (left i)

  goes_on :
      (i : ℕ)
      → (page_of db token asset (suc k) i).pagination.has_more ≡ true
      → suc i * suc k < length (history_of db token.address)
  unfolding build_wrap_ratio_history_pagination
  goes_on i more =
      let total = length (history_of db token.address) in
      let same : suc k * suc i ≡ suc i * suc k = omega arith in
      let h = (div_ceil-above total k (suc i)).0 (ltb→lt (suc i) (div_ceil total (suc k)) more) in
      omega (arith, same, h)

  ends_here :
      (i : ℕ)
      → (page_of db token asset (suc k) i).pagination.has_more ≡ false
      → length (left i) ≤ suc k
  unfolding build_wrap_ratio_history_pagination
  ends_here i last =
      let total = length (history_of db token.address) in
      let same : suc k * suc i ≡ i * suc k + suc k = omega arith in
      let not_above : total ≤ suc k * suc i = elim (Bool-cases (ltb (suc k * suc i) total)) [
        | inl above ↦
            let h = (div_ceil-above total k (suc i)).1 (ltb→lt (suc k * suc i) total above) in
            absurd (ground (arith, lt→ltb (suc i) (div_ceil total (suc k)) h))
        | inr below ↦ ground arith
      ] in
      omega (arith, same, not_above, length-drop (i * suc k) (history_of db token.address))

  fuel_left : (fuel i total : ℕ) → suc i * suc k < total → total < (suc i + fuel) * suc k → 0 < fuel
  fuel_left zero i total above enough =
      let same : suc i + 0 ≡ suc i = omega arith in
      let h : total < suc i * suc k = rw same at enough in absurd (omega arith)
  fuel_left (suc fuel) i total above enough = omega arith

  walk_from :
      (fuel i : ℕ)
      → length (history_of db token.address) < 2 ^ 32
      → i * suc k < 2 ^ 32
      → length (history_of db token.address) < (i + fuel) * suc k
      → 0 < fuel
      → walk read fuel (suc i) ≡ ok (map event_of (left i))
  walk_from zero i all start enough some_left = absurd (omega arith)
  walk_from (suc fuel) i all start enough some_left =
      let here = history_of_token-page db token asset k i up range small start in
      elim (Bool-cases (page_of db token asset (suc k) i).pagination.has_more) [
        | inl more ↦
            let above = goes_on i more in
            let shift : i + suc fuel ≡ suc i + fuel = omega arith in
            let rest : length (history_of db token.address) < (suc i + fuel) * suc k =
              rw shift at enough in
            let later =
              walk_from fuel (suc i) all (omega (arith, above)) rest
                (fuel_left fuel i _ above rest) in
            rw (here, more, later)
              (ap ok (
                sym (map-append (take (suc k) (left i)) (left (suc i)))
                ∙ ap (map event_of) (split_left i)))
        | inr last ↦
            rw (here, last)
              (ap (λ rows. ok (map event_of rows)) (take_all (suc k) (left i) (ends_here i last)))
      ]

  walk_all :
      length (history_of db token.address) < 2 ^ 32
      → walk read (suc (length (history_of db token.address))) 1
        ≡ ok (map event_of (history_of db token.address))
  walk_all all =
      let total = length (history_of db token.address) in
      let none_before : 0 * suc k ≡ 0 = omega arith in
      let whole : 0 + suc total ≡ suc total = omega arith in
      let grows : suc total ≤ suc total * suc k = omega arith in
      walk_from (suc total) 0 all (omega (arith, none_before)) (rw whole (omega (arith, grows)))
        (omega arith)
      ∙ ap (λ n. ok (map event_of (drop n (history_of db token.address)))) none_before

-- A client that reads the pages of a wrapped token's history from the first one on, of at most 100
-- events each, until a page says that there is no more, comes to an end and has read the whole
-- history, each recorded row once, the latest block first. The database can be reached, its numbers
-- are those that an insertion writes, and the history has fewer than 2^32 rows.
pub get_wrap_ratio_history_by_address-walk :
    (db : SnapshotsDb) (parse_address : String → Option ℕ) (registry : Option (List TokenCfg))
    (address asset k : ℕ) (token : TokenCfg)
    → db.reachable ≡ true
    → All InRange db.rows
    → suc k ≤ 100
    → wrapped_token registry address ≡ ok token
    → unwrapped_address parse_address token ≡ ok asset
    → length (history_of db token.address) < 2 ^ 32
    → (walk
          (λ page.
            get_wrap_ratio_history_by_address db parse_address registry address
              (record { page = some page; page_size = some (suc k) }))
          (suc (length (history_of db token.address)))
          1
        ≡ ok (map event_of (history_of db token.address)))
      × IsDescending (history_of db token.address)
unfolding get_wrap_ratio_history_by_address
get_wrap_ratio_history_by_address-walk db parse_address registry address asset k token up range
      small found asset_is all =
    let same : (page : ℕ)
        → get_wrap_ratio_history_by_address db parse_address registry address
            (record { page = some page; page_size = some (suc k) })
          ≡ history_of_token db token asset
              (record { page = some page; page_size = some (suc k) }) =
      (λ page. rw (get_wrap_ratio_history_by_address, found, asset_is) refl) in
    (
      ap (λ f. walk f (suc (length (history_of db token.address))) 1) (λ j page. same page j)
          ∙ walk_all db token asset k up range small all,
      history_of-IsDescending db token.address,
    )
