-- ===== src/Vaults/Tests.antt =====
-- The totals of three vaults on two pages.
use st0x_rest_api.Prelude.{
  ℕ, ◌≡◌, refl, ◌%◌, ◌^◌, Bool, true, false, none, some, List, [], ◌∷◌, Result, ok, zero, suc,
}
use st0x_rest_api.ApiError.{ApiError}
use st0x_rest_api.Vaults.{
  VaultRecord, VaultsPage, VaultsDataSource, VaultTotalResponse, process_get_vault_totals,
}
use st0x_rest_api.Vaults.Pages.{last_page, more_pages, process_get_vault_totals-ends}
use st0x_rest_api.Vaults.Totals.{shown, sum_of, count_of, process_get_vault_totals-sums}

abbrev vault : ℕ → ℕ → VaultRecord
vault token balance = record {
  id = "0x01";
  vault_id = "1";
  owner = 2;
  token = record { address = token; name = none; symbol = some "TKN"; decimals = 18 };
  balance = balance;
  orderbook = 9;
  orders_as_input = [];
  orders_as_output = [];
}

abbrev page_with : List VaultRecord → Bool → VaultsPage
page_with vaults more = record {
  vaults = vaults;
  page = 1;
  page_size = 1000;
  total_items = 3;
  has_more = more;
}

abbrev first_page : VaultsPage
first_page = page_with (vault 5 10 ∷ vault 6 0 ∷ []) true

abbrev second_page : VaultsPage
second_page = page_with (vault 5 32 ∷ []) false

abbrev page_at : ℕ → VaultsPage
page_at zero = second_page
page_at (suc zero) = first_page
page_at (suc (suc n)) = second_page

abbrev two_pages : VaultsDataSource
two_pages filters page page_size = ok (page_at page)

abbrev three_vaults : List VaultRecord
three_vaults = vault 5 10 ∷ vault 6 0 ∷ vault 5 32 ∷ []

process_get_vault_totals-sums_example :
    (ts : List VaultTotalResponse) × (process_get_vault_totals two_pages ≡ some (ok ts))
    × (shown 5 ts ≡ (sum_of 5 three_vaults % 2 ^ 256, count_of 5 three_vaults))
process_get_vault_totals-sums_example =
    process_get_vault_totals-sums two_pages three_vaults 5
      (more_pages first_page refl refl refl (last_page second_page refl refl))

process_get_vault_totals-ends_example :
    (r : Result ApiError (List VaultTotalResponse)) × (process_get_vault_totals two_pages ≡ some r)
process_get_vault_totals-ends_example = process_get_vault_totals-ends two_pages
