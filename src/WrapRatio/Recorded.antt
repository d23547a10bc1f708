-- ===== src/WrapRatio/Recorded.antt =====
-- What was observed for a token at a block stays as it was first recorded.
use st0x_rest_api.Prelude.{
  ℕ, ◌^◌, Bool, true, false, ◌&&◌, ◌==◌, ltb, if◌then◌else◌, ◌≡◌, refl, sym, ap, ◌∙◌, inl, inr,
  Option, none, some, List, [], ◌∷◌, ◌++◌, any, find, Bool-cases, arith,
}
use st0x_rest_api.WrapRatio.{WrapRatioResponse}
use st0x_rest_api.WrapRatio.Snapshots.{
  WrappedExchangeRateSnapshot, Snapshots, SnapshotsDb, has_place, insert_or_ignore, insert_all,
  insert_wrapped_exchange_rate_snapshots, timestamp_i64, wrap_ratio_snapshot_from_response,
  prepared, persist_prepared, persist_wrap_ratio_snapshots_best_effort,
}

-- What the table says of a token at a block.
abbrev pub recorded : ℕ → ℕ → Snapshots → Option WrappedExchangeRateSnapshot
recorded share block rows = find (has_place share block) rows

-- The first of two observations.
abbrev pub or_else :
    Option WrappedExchangeRateSnapshot
    → Option WrappedExchangeRateSnapshot
    → Option WrappedExchangeRateSnapshot
or_else none later = later
or_else (some row) later = some row

recorded-append :
    (share block : ℕ) (rows others : Snapshots)
    → recorded share block (rows ++ others)
      ≡ or_else (recorded share block rows) (recorded share block others)
recorded-append share block [] others = refl
recorded-append share block (row ∷ rows) others = elim (Bool-cases (has_place share block row)) [
  | inl hit ↦ rw hit refl
  | inr miss ↦ rw miss (recorded-append share block rows others)
]

or_else-none : (o : Option WrappedExchangeRateSnapshot) → or_else o none ≡ o
or_else-none none = refl
or_else-none (some row) = refl

or_else_assoc :
    (o p q : Option WrappedExchangeRateSnapshot) → or_else (or_else o p) q ≡ or_else o (or_else p q)
or_else_assoc none p q = refl
or_else_assoc (some row) p q = refl

-- A place that is taken is found.
recorded_of_any :
    (share block : ℕ) (rows : Snapshots)
    → any (has_place share block) rows ≡ true
    → (row : WrappedExchangeRateSnapshot) × (recorded share block rows ≡ some row)
recorded_of_any share block [] h = cc
recorded_of_any share block (row ∷ rows) h = elim (Bool-cases (has_place share block row)) [
  | inl hit ↦ (row, rw hit refl)
  | inr miss ↦
      let later : any (has_place share block) rows ≡ true = rw miss at h in
      let (x, found) = recorded_of_any share block rows later in (x, rw miss found)
]

insert_or_ignore-recorded :
    (share block : ℕ) (rows : Snapshots) (row : WrappedExchangeRateSnapshot)
    → recorded share block (insert_or_ignore rows row)
      ≡ or_else (recorded share block rows) (recorded share block (row ∷ []))
unfolding insert_or_ignore
insert_or_ignore-recorded share block rows row =
    elim (Bool-cases (any (has_place row.share_token_address row.block_number) rows)) [
      | inr free ↦ rw free (recorded-append share block rows (row ∷ []))
      | inl taken ↦ rw taken (elim (Bool-cases (has_place share block row)) [
        | inr miss ↦ rw miss (sym (or_else-none (recorded share block rows)))
        | inl hit ↦
            let s : row.share_token_address ≡ share = ground arith in
            let b : row.block_number ≡ block = ground arith in
            let (x, found) = recorded_of_any row.share_token_address row.block_number rows taken in
            let found' : recorded share block rows ≡ some x = rw (s, b) at found in rw found' refl
      ])
    ]

insert_all-recorded :
    (share block : ℕ) (rows later : Snapshots)
    → recorded share block (insert_all rows later)
      ≡ or_else (recorded share block rows) (recorded share block later)
unfolding insert_all
insert_all-recorded share block rows [] = sym (or_else-none (recorded share block rows))
insert_all-recorded share block rows (row ∷ later) =
    insert_all-recorded share block (insert_or_ignore rows row) later
    ∙ ap (λ o. or_else o (recorded share block later))
        (insert_or_ignore-recorded share block rows row)
    ∙ or_else_assoc (recorded share block rows) (recorded share block (row ∷ []))
        (recorded share block later)
    ∙ ap (or_else (recorded share block rows)) (sym (recorded-append share block (row ∷ []) later))

pub persist_prepared-rows :
    (db : SnapshotsDb) (rows : Snapshots)
    → db.reachable ≡ true
    → (persist_prepared db rows).rows ≡ insert_all db.rows rows
unfolding persist_prepared insert_wrapped_exchange_rate_snapshots insert_all
persist_prepared-rows db [] h = refl
persist_prepared-rows db (row ∷ rows) h = ground arith

-- The numbers of a response fit into `i64`.
abbrev pub time_fits : Option ℕ → Bool
time_fits none = true
time_fits (some t) = ltb t (2 ^ 63)

abbrev pub fits : WrapRatioResponse → Bool
fits response = ltb response.block_number (2 ^ 63) && time_fits response.block_timestamp

abbrev pub is_about : ℕ → ℕ → WrapRatioResponse → Bool
is_about share block response = response.share_address == share && (response.block_number == block)

-- The row that has the fields of a response.
abbrev pub same_fields : WrapRatioResponse → WrappedExchangeRateSnapshot
same_fields response = record {
  share_token_address = response.share_address;
  asset_token_address = response.asset_address;
  assets_per_share = response.assets_per_share;
  block_number = response.block_number;
  block_timestamp = response.block_timestamp;
  captured_at = response.captured_at;
}

-- What the responses say of a token at a block: the first one about them whose numbers fit.
abbrev pub observed : ℕ → ℕ → List WrapRatioResponse → Option WrappedExchangeRateSnapshot
observed share block [] = none
observed share block (response ∷ responses) =
    let later = observed share block responses in
    if fits response
    then (if is_about share block response then some (same_fields response) else later)
    else later

timestamp_of_fitting : (t : Option ℕ) → time_fits t ≡ true → timestamp_i64 t ≡ some t
timestamp_of_fitting none h = refl
timestamp_of_fitting (some t) h = ground arith

timestamp_of_large : (t : Option ℕ) → time_fits t ≡ false → timestamp_i64 t ≡ none
timestamp_of_large none h = cc
timestamp_of_large (some t) h = ground arith

snapshot_of_fitting :
    (response : WrapRatioResponse)
    → fits response ≡ true
    → wrap_ratio_snapshot_from_response response ≡ some (same_fields response)
unfolding wrap_ratio_snapshot_from_response
snapshot_of_fitting response h = elim (Bool-cases (ltb response.block_number (2 ^ 63))) [
  | inl small ↦
      let time : time_fits response.block_timestamp ≡ true = rw small at h in
      rw (small, timestamp_of_fitting response.block_timestamp time) refl
  | inr large ↦ let wrong : false ≡ true = rw large at h in cc
]

snapshot_of_large :
    (response : WrapRatioResponse)
    → fits response ≡ false
    → wrap_ratio_snapshot_from_response response ≡ none
unfolding wrap_ratio_snapshot_from_response
snapshot_of_large response h = elim (Bool-cases (ltb response.block_number (2 ^ 63))) [
  | inl small ↦
      let time : time_fits response.block_timestamp ≡ false = rw small at h in
      rw (small, timestamp_of_large response.block_timestamp time) refl
  | inr large ↦ rw large refl
]

prepared_nil : prepared [] ≡ []
unfolding prepared
prepared_nil = refl

prepared-fitting :
    (response : WrapRatioResponse) (responses : List WrapRatioResponse)
    → fits response ≡ true
    → prepared (response ∷ responses) ≡ same_fields response ∷ prepared responses
unfolding prepared
prepared-fitting response responses h = rw (snapshot_of_fitting response h, prepared) refl

prepared-large :
    (response : WrapRatioResponse) (responses : List WrapRatioResponse)
    → fits response ≡ false
    → prepared (response ∷ responses) ≡ prepared responses
unfolding prepared
prepared-large response responses h = rw (snapshot_of_large response h, prepared) refl

recorded-prepared :
    (share block : ℕ) (responses : List WrapRatioResponse)
    → recorded share block (prepared responses) ≡ observed share block responses
recorded-prepared share block [] = ap (recorded share block) prepared_nil
recorded-prepared share block (r ∷ responses) =
    let later = recorded-prepared share block responses in
    elim (Bool-cases (fits r)) [
      | inr large ↦ rw (large, prepared-large r responses large) later
      | inl small ↦
          rw (small, prepared-fitting r responses small)
            (elim (Bool-cases (is_about share block r)) [
              | inl hit ↦ rw hit refl
              | inr miss ↦ rw miss later
            ])
    ]

-- If the database can be reached, the table says of a token at a block what it said before. Where it
-- said nothing, it has the fields of the first response about them whose numbers fit into `i64`,
-- and still says nothing if there is none.
pub persist_wrap_ratio_snapshots_best_effort-recorded :
    (db : SnapshotsDb) (responses : List WrapRatioResponse) (share block : ℕ)
    → db.reachable ≡ true
    → recorded share block (persist_wrap_ratio_snapshots_best_effort db responses).rows
      ≡ or_else (recorded share block db.rows) (observed share block responses)
unfolding persist_wrap_ratio_snapshots_best_effort
persist_wrap_ratio_snapshots_best_effort-recorded db responses share block h =
    ap (recorded share block) (persist_prepared-rows db (prepared responses) h)
    ∙ insert_all-recorded share block db.rows (prepared responses)
    ∙ ap (or_else (recorded share block db.rows)) (recorded-prepared share block responses)
