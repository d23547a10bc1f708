-- ===== src/Vaults.antt =====
-- src/routes/vaults.rs: the totals of all vaults, token by token, and the pages that both routes
-- read. The number of a balance stands for its text.
pub mod Pages
pub mod Totals
pub mod Positions
mod Tests
use st0x_rest_api.Prelude.{
  ℕ, zero, suc, ◌+◌, ◌%◌, ◌^◌, Bool, true, false, Option, none, some, List, [], ◌∷◌, String, ltb,
  leb, ◌==◌, if◌then◌else◌, map, min, unwrap_or, Result, ok, err, ◌>>=◌, ◌>>◌, guard, not,
  to_option,
}
use st0x_rest_api.ApiError.{ApiError, internal, bad_request}
use st0x_rest_api.Denomination.{concat}

abbrev pub default_page : ℕ
default_page = 1

abbrev pub totals_page_size : ℕ
totals_page_size = 1000

-- src/types/vaults.rs
pub record VaultTokenResponse : Type 0 where
  pub address : ℕ
  pub name : Option String
  pub symbol : Option String
  pub decimals : ℕ

pub record VaultRecord : Type 0 where
  pub id : String
  pub vault_id : String
  pub owner : ℕ
  pub token : VaultTokenResponse
  pub balance : ℕ
  pub orderbook : ℕ
  pub orders_as_input : List ℕ
  pub orders_as_output : List ℕ

pub record VaultsPage : Type 0 where
  pub vaults : List VaultRecord
  pub page : ℕ
  pub page_size : ℕ
  pub total_items : ℕ
  pub has_more : Bool

-- The fields of `GetVaultsFilters` that the routes set.
pub record GetVaultsFilters : Type 0 where
  pub owners : List ℕ
  pub hide_zero_balance : Bool
  pub tokens : Option (List ℕ)

-- The trait `VaultsDataSource`.
abbrev pub VaultsDataSource : Type 0
VaultsDataSource = GetVaultsFilters → ℕ → ℕ → Result ApiError VaultsPage

pub record VaultTotalAccumulator : Type 0 where
  pub token : VaultTokenResponse
  pub total_balance : ℕ
  pub vault_count : ℕ

-- The hash map from addresses, as its entries.
abbrev pub Accumulators : Type 0
Accumulators = List (ℕ × VaultTotalAccumulator)

-- `U256` addition wraps around.
abbrev pub add_u256 : ℕ → ℕ → ℕ
add_u256 a b = (a + b) % 2 ^ 256

unfoldable pub add_to : VaultRecord → VaultTotalAccumulator → VaultTotalAccumulator
add_to vault entry = record {
  token = entry.token;
  total_balance = add_u256 entry.total_balance vault.balance;
  vault_count = entry.vault_count + 1;
}

-- `entry(address).or_insert_with(..)`, and the two updates of the entry.
unfoldable pub add_vault : VaultRecord → Accumulators → Accumulators
add_vault vault [] =
    (
      vault.token.address,
      add_to vault (record { token = vault.token; total_balance = 0; vault_count = 0 }),
    )
    ∷ []
add_vault vault ((a, entry) ∷ totals) =
    let rest = add_vault vault totals in
    if a == vault.token.address then (a, add_to vault entry) ∷ totals else (a, entry) ∷ rest

-- The inner loop over a page's vaults that are not empty.
unfoldable pub add_page : Accumulators → List VaultRecord → Accumulators
add_page totals [] = totals
add_page totals (vault ∷ vaults) =
    add_page (if ltb 0 vault.balance then add_vault vault totals else totals) vaults

-- `page.checked_add(1)` on `u16`
abbrev pub next_page : ℕ → Option ℕ
next_page page = if ltb (page + 1) (2 ^ 16) then some (page + 1) else none

abbrev pub totals_filters : GetVaultsFilters
totals_filters = record { owners = []; hide_zero_balance = true; tokens = none }

-- The loop over the pages, on fuel: `none` if it runs out.
unfoldable pub totals_loop :
    VaultsDataSource → ℕ → ℕ → Accumulators → Option (Result ApiError Accumulators)
totals_loop ds zero page totals = none
totals_loop ds (suc fuel) page totals = elim (ds totals_filters page totals_page_size) [
  | err e ↦ some (err e)
  | ok response ↦ elim response.has_more [
    | false ↦ some (ok (add_page totals response.vaults))
    | true ↦ elim (next_page page) [
      | none ↦ some (err (internal "vault totals pagination exceeded maximum"))
      | some next ↦ totals_loop ds fuel next (add_page totals response.vaults)
    ]
  ]
]

pub record VaultTotalResponse : Type 0 where
  pub address : ℕ
  pub symbol : Option String
  pub decimals : ℕ
  pub total_balance : ℕ
  pub vault_count : ℕ

unfoldable pub total_response : VaultTotalAccumulator → VaultTotalResponse
total_response total = record {
  address = total.token.address;
  symbol = total.token.symbol;
  decimals = total.token.decimals;
  total_balance = total.total_balance;
  vault_count = total.vault_count;
}

-- `sort_by` on the addresses, which keeps the order of equal ones.
unfoldable pub insert_total : VaultTotalResponse → List VaultTotalResponse → List VaultTotalResponse
insert_total t [] = t ∷ []
insert_total t (u ∷ us) =
    let rest = insert_total t us in if leb t.address u.address then t ∷ u ∷ us else u ∷ rest

unfoldable pub sort_totals : List VaultTotalResponse → List VaultTotalResponse
sort_totals [] = []
sort_totals (t ∷ ts) = insert_total t (sort_totals ts)

abbrev pub max_pages : ℕ
max_pages = 65535

-- The page number is at most 65535, so that many turns are enough.
unfoldable pub process_get_vault_totals :
    VaultsDataSource → Option (Result ApiError (List VaultTotalResponse))
process_get_vault_totals ds = elim (totals_loop ds max_pages default_page []) [
  | none ↦ none
  | some (err e) ↦ some (err e)
  | some (ok totals) ↦ some (ok (sort_totals (map (λ t. total_response t.1) totals)))
]
