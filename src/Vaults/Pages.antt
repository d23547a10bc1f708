-- ===== src/Vaults/Pages.antt =====
-- The loop over the pages of vaults: it ends, and collects the vaults of all pages.
use st0x_rest_api.Prelude.{
  ℕ, zero, suc, ◌+◌, ◌≡◌, ◌≤◌, ◌<◌, refl, sym, ap, ◌∙◌, inl, inr, true, false, some, List, [], ◌∷◌,
  ◌++◌, ltb, if◌then◌else◌, Result, ok, err, Bool-cases, Option-cases, Result-cases, arith,
}
use st0x_rest_api.ApiError.{ApiError}
use st0x_rest_api.Vaults.{
  VaultRecord, VaultsPage, VaultsDataSource, Accumulators, add_vault, add_page, next_page,
  totals_filters, totals_page_size, totals_loop, VaultTotalResponse, max_pages, default_page,
  process_get_vault_totals,
}

-- The vaults on the pages from one page on, to the first page that has no next one.
pub data Reads (ds : VaultsDataSource) : ℕ → List VaultRecord → Type 0 where
  last_page :
      {page : ℕ} (r : VaultsPage)
      → ds totals_filters page totals_page_size ≡ ok r
      → r.has_more ≡ false
      → Reads ds page r.vaults
  more_pages :
      {page next : ℕ} {vs : List VaultRecord} (r : VaultsPage)
      → ds totals_filters page totals_page_size ≡ ok r
      → r.has_more ≡ true
      → next_page page ≡ some next
      → Reads ds next vs
      → Reads ds page (r.vaults ++ vs)

next_page_lem : (page next : ℕ) → next_page page ≡ some next → (next ≡ page + 1) × (next < 65536)
next_page_lem page next h = ground arith

add_page-append :
    (totals : Accumulators) (xs ys : List VaultRecord)
    → add_page totals (xs ++ ys) ≡ add_page (add_page totals xs) ys
unfolding add_page
add_page-append totals [] ys = refl
add_page-append totals (x ∷ xs) ys =
    add_page-append (if ltb 0 x.balance then add_vault x totals else totals) xs ys

pub totals_loop-Reads :
    (ds : VaultsDataSource) (fuel page : ℕ) (totals : Accumulators) (vs : List VaultRecord)
    → 65536 ≤ fuel + page
    → page < 65536
    → Reads ds page vs
    → totals_loop ds fuel page totals ≡ some (ok (add_page totals vs))
unfolding totals_loop
totals_loop-Reads ds zero page totals vs enough small h = absurd (omega arith)
totals_loop-Reads ds (suc fuel) page totals vs enough small (last_page r e last) =
    rw (totals_loop, e, last) refl
totals_loop-Reads ds (suc fuel) page totals vs enough small
      (more_pages {next} {vs = ws} r e more n h) =
    let (next_is, next_small) = next_page_lem page next n in
    rw (totals_loop, e, more, n)
      (totals_loop-Reads ds fuel next (add_page totals r.vaults) ws (omega arith) next_small h
        ∙ ap (λ t. some (ok t)) (sym (add_page-append totals r.vaults ws)))

totals_loop-ends :
    (ds : VaultsDataSource) (fuel page : ℕ) (totals : Accumulators)
    → 65536 ≤ fuel + page
    → page < 65536
    → (r : Result ApiError Accumulators) × (totals_loop ds fuel page totals ≡ some r)
unfolding totals_loop
totals_loop-ends ds zero page totals enough small = absurd (omega arith)
totals_loop-ends ds (suc fuel) page totals enough small =
    elim (Result-cases (ds totals_filters page totals_page_size)) [
      | inr (e, failed) ↦ rw (totals_loop, failed) (err e, refl)
      | inl (r, read) ↦ elim (Bool-cases r.has_more) [
        | inr last ↦ rw (totals_loop, read, last) (_, refl)
        | inl more ↦ elim (Option-cases (next_page page)) [
          | inl end ↦ rw (totals_loop, read, more, end) (_, refl)
          | inr (next, n) ↦
              let (next_is, next_small) = next_page_lem page next n in
              rw (totals_loop, read, more, n)
                (totals_loop-ends ds fuel next (add_page totals r.vaults) (omega arith) next_small)
        ]
      ]
    ]

-- The fuel is enough: whatever the pages say, the loop ends, with totals or with an error.
pub process_get_vault_totals-ends :
    (ds : VaultsDataSource)
    → (r : Result ApiError (List VaultTotalResponse)) × (process_get_vault_totals ds ≡ some r)
unfolding process_get_vault_totals
process_get_vault_totals-ends ds =
    let (r, e) = totals_loop-ends ds max_pages default_page [] (omega arith) (omega arith) in
    elim (Result-cases r) [
      | inl (totals, o) ↦ rw (process_get_vault_totals, e, o) (_, refl)
      | inr (f, o) ↦ rw (process_get_vault_totals, e, o) (_, refl)
    ]
