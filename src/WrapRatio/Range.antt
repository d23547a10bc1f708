-- ===== src/WrapRatio/Range.antt =====
-- The history of a token: its rows from the latest block to the first, with numbers of `i64`.
use mathlib.Core.Path.{subst}
use mathlib.Core.Option.{some-injective as some_inj}
use st0x_rest_api.Prelude.{
  ℕ, zero, suc, ◌^◌, ◌<◌, ◌≤◌, ◌≡◌, refl, sym, ap, ◌∙◌, inl, inr, false, Option, none, some, List,
  [], ◌∷◌, ◌++◌, ltb, any, keep, length, take, drop, All, Bool-cases, Option-cases, arith,
}
use st0x_rest_api.Sdk.{to_i64}
use st0x_rest_api.WrapRatio.{WrapRatioResponse}
use st0x_rest_api.WrapRatio.Snapshots.{
  WrappedExchangeRateSnapshot, Snapshots, SnapshotsDb, has_place, of_share, history_of,
  insert_descending, descending, insert_or_ignore, insert_all, wrap_ratio_snapshot_from_response,
  prepared, with_times, timestamp_i64, persist_prepared, insert_wrapped_exchange_rate_snapshots,
  persist_wrap_ratio_snapshots_best_effort,
}
use st0x_rest_api.WrapRatio.Recorded.{persist_prepared-rows}

abbrev pub TimeInRange : Option ℕ → Type 0
TimeInRange none = Unit
TimeInRange (some t) = t < 2 ^ 63

-- The numbers of a row are those of `i64`, which a row that was inserted has.
abbrev pub InRange : WrappedExchangeRateSnapshot → Type 0
InRange row = (row.block_number < 2 ^ 63) × TimeInRange row.block_timestamp

length-insert_descending :
    (row : WrappedExchangeRateSnapshot) (rows : Snapshots)
    → length (insert_descending row rows) ≡ suc (length rows)
unfolding insert_descending
length-insert_descending row [] = refl
length-insert_descending row (other ∷ rows) = ground (arith, length-insert_descending row rows)

pub length-descending : (rows : Snapshots) → length (descending rows) ≡ length rows
unfolding descending
length-descending [] = refl
length-descending (row ∷ rows) =
    length-insert_descending row (descending rows) ∙ ap suc (length-descending rows)

InRange-insert_descending :
    (row : WrappedExchangeRateSnapshot) (rows : Snapshots)
    → InRange row
    → All InRange rows
    → All InRange (insert_descending row rows)
unfolding insert_descending
InRange-insert_descending row [] h hs = (h, tt)
InRange-insert_descending row (other ∷ rows) h (k, ks) =
    elim (Bool-cases (ltb row.block_number other.block_number)) [
      | inl below ↦ rw below (k, InRange-insert_descending row rows h ks)
      | inr above ↦ rw above (h, (k, ks))
    ]

pub InRange-history :
    (share : ℕ) (rows : Snapshots)
    → All InRange rows
    → All InRange (descending (keep (of_share share) rows))
unfolding descending
InRange-history share [] h = tt
InRange-history share (row ∷ rows) (h, hs) = elim (Bool-cases (of_share share row)) [
  | inl hit ↦ rw hit (InRange-insert_descending row _ h (InRange-history share rows hs))
  | inr miss ↦ rw miss (InRange-history share rows hs)
]

pub InRange-take : (n : ℕ) (rows : Snapshots) → All InRange rows → All InRange (take n rows)
InRange-take zero rows h = tt
InRange-take (suc n) [] h = tt
InRange-take (suc n) (row ∷ rows) (h, hs) = (h, InRange-take n rows hs)

pub InRange-drop : (n : ℕ) (rows : Snapshots) → All InRange rows → All InRange (drop n rows)
InRange-drop zero rows h = h
InRange-drop (suc n) [] h = tt
InRange-drop (suc n) (row ∷ rows) (h, hs) = InRange-drop n rows hs

-- From the latest block to the first.
abbrev pub IsDescending : Snapshots → Type 0
IsDescending [] = Unit
IsDescending (row ∷ rows) =
    All (λ other. other.block_number ≤ row.block_number) rows × IsDescending rows

abbrev Below : ℕ → Snapshots → Type 0
Below block = All (λ other. other.block_number ≤ block)

Below-trans : (a b : ℕ) (rows : Snapshots) → a ≤ b → Below a rows → Below b rows
Below-trans a b [] h hs = tt
Below-trans a b (row ∷ rows) h (k, ks) = (omega arith, Below-trans a b rows h ks)

Below-insert_descending :
    (block : ℕ) (row : WrappedExchangeRateSnapshot) (rows : Snapshots)
    → row.block_number ≤ block
    → Below block rows
    → Below block (insert_descending row rows)
unfolding insert_descending
Below-insert_descending block row [] h hs = (h, tt)
Below-insert_descending block row (other ∷ rows) h (k, ks) =
    elim (Bool-cases (ltb row.block_number other.block_number)) [
      | inl below ↦ rw below (k, Below-insert_descending block row rows h ks)
      | inr above ↦ rw above (h, (k, ks))
    ]

insert_descending-IsDescending :
    (row : WrappedExchangeRateSnapshot) (rows : Snapshots)
    → IsDescending rows
    → IsDescending (insert_descending row rows)
unfolding insert_descending
insert_descending-IsDescending row [] h = (tt, tt)
insert_descending-IsDescending row (other ∷ rows) (h, hs) =
    elim (Bool-cases (ltb row.block_number other.block_number)) [
      | inl below ↦ rw below (
        Below-insert_descending other.block_number row rows (ground arith) h,
        insert_descending-IsDescending row rows hs,
      )
      | inr above ↦
          let last : other.block_number ≤ row.block_number = ground arith in
          rw above ((last, Below-trans other.block_number row.block_number rows last h), (h, hs))
    ]

descending-IsDescending : (rows : Snapshots) → IsDescending (descending rows)
unfolding descending
descending-IsDescending [] = tt
descending-IsDescending (row ∷ rows) =
    insert_descending-IsDescending row (descending rows) (descending-IsDescending rows)

pub history_of-IsDescending : (db : SnapshotsDb) (share : ℕ) → IsDescending (history_of db share)
history_of-IsDescending db share = descending-IsDescending (keep (of_share share) db.rows)

-- What is written has numbers of `i64`.
to_i64_below : (n m : ℕ) → to_i64 n ≡ some m → m < 2 ^ 63
to_i64_below n m h = ground arith

timestamp_i64_below : (t : Option ℕ) (s : Option ℕ) → timestamp_i64 t ≡ some s → TimeInRange s
timestamp_i64_below none none h = tt
timestamp_i64_below none (some s) h = cc
timestamp_i64_below (some t) s h = ground arith

with_times-InRange :
    (response : WrapRatioResponse) (block : Option ℕ) (time : Option (Option ℕ))
    (row : WrappedExchangeRateSnapshot)
    → ((n : ℕ) → block ≡ some n → n < 2 ^ 63)
    → ((t : Option ℕ) → time ≡ some t → TimeInRange t)
    → with_times response block time ≡ some row
    → InRange row
with_times-InRange response none time row h k e = cc
with_times-InRange response (some n) none row h k e = cc
with_times-InRange response (some n) (some t) row h k e =
    subst InRange (some_inj _ _ e) (h n refl, k t refl)

snapshot_of-InRange :
    (response : WrapRatioResponse) (row : WrappedExchangeRateSnapshot)
    → wrap_ratio_snapshot_from_response response ≡ some row
    → InRange row
unfolding wrap_ratio_snapshot_from_response
snapshot_of-InRange response row h =
    with_times-InRange response (to_i64 response.block_number)
      (timestamp_i64 response.block_timestamp) row (λ n. to_i64_below response.block_number n)
      (λ t. timestamp_i64_below response.block_timestamp t) h

prepared-InRange : (responses : List WrapRatioResponse) → All InRange (prepared responses)
unfolding prepared
prepared-InRange [] = tt
prepared-InRange (response ∷ responses) =
    elim (Option-cases (wrap_ratio_snapshot_from_response response)) [
      | inl void ↦ rw (prepared, void) (prepared-InRange responses)
      | inr (row, made) ↦
          rw (prepared, made) (snapshot_of-InRange response row made, prepared-InRange responses)
    ]

All-append : (xs ys : Snapshots) → All InRange xs → All InRange ys → All InRange (xs ++ ys)
All-append [] ys h k = k
All-append (x ∷ xs) ys (h, hs) k = (h, All-append xs ys hs k)

insert_all-InRange :
    (rows later : Snapshots)
    → All InRange rows
    → All InRange later
    → All InRange (insert_all rows later)
unfolding insert_all insert_or_ignore
insert_all-InRange rows [] h k = h
insert_all-InRange rows (row ∷ later) h (k, ks) =
    elim (Bool-cases (any (has_place row.share_token_address row.block_number) rows)) [
      | inl taken ↦ rw taken (insert_all-InRange rows later h ks)
      | inr free ↦
          rw free
            (insert_all-InRange (rows ++ row ∷ []) later (All-append rows (row ∷ []) h (k, tt)) ks)
    ]

persist_prepared-down :
    (db : SnapshotsDb) (rows : Snapshots)
    → db.reachable ≡ false
    → (persist_prepared db rows).rows ≡ db.rows
unfolding persist_prepared insert_wrapped_exchange_rate_snapshots
persist_prepared-down db [] h = refl
persist_prepared-down db (row ∷ rows) h = ground arith

persist_prepared-InRange :
    (db : SnapshotsDb) (rows : Snapshots)
    → All InRange db.rows
    → All InRange rows
    → All InRange (persist_prepared db rows).rows
unfolding persist_prepared insert_all
persist_prepared-InRange db [] h k = h
persist_prepared-InRange db (row ∷ rows) h k = elim (Bool-cases db.reachable) [
  | inl up ↦
      subst (All InRange) (sym (persist_prepared-rows db (row ∷ rows) up))
        (insert_all-InRange db.rows (row ∷ rows) h k)
  | inr down ↦ subst (All InRange) (sym (persist_prepared-down db (row ∷ rows) down)) h
]

-- Persisting the ratios of any responses keeps the numbers of the table in the range of `i64`, which
-- the history relies on.
pub persist_wrap_ratio_snapshots_best_effort-InRange :
    (db : SnapshotsDb) (responses : List WrapRatioResponse)
    → All InRange db.rows
    → All InRange (persist_wrap_ratio_snapshots_best_effort db responses).rows
unfolding persist_wrap_ratio_snapshots_best_effort
persist_wrap_ratio_snapshots_best_effort-InRange db responses h =
    persist_prepared-InRange db (prepared responses) h (prepared-InRange responses)
