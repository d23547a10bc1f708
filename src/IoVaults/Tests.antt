-- ===== src/IoVaults/Tests.antt =====
-- The choice of vaults at an order with three vaults.
use st0x_rest_api.Prelude.{ℕ, ◌≡◌, ◌↔◌, Option, true, none, some, [], ◌∷◌, ok, find}
use st0x_rest_api.Sdk.{VaultType, input, output, input_output, RaindexVault, RaindexOrder}
use st0x_rest_api.IoVaults.{resolve_io_vaults}
use st0x_rest_api.IoVaults.Laws.{takes_input, takes_output, resolve_io_vaults_iff}

abbrev vault : ℕ → Option VaultType → RaindexVault
vault id kind = record {
  vault_id = id;
  vault_type = kind;
  token = record { address = id; name = none; symbol = some "TKN"; decimals = 18 };
  balance = 5;
  formatted_balance = "5";
}

abbrev order : RaindexOrder
order = record {
  chain_id = 8453;
  raindex = 9;
  order_hash = 1;
  owner = 2;
  order_bytes = [];
  active = true;
  timestamp_added = 1700000000;
  timestamp_removed = none;
  rainlang = none;
  dotrain_source = none;
  inputs_list = [];
  outputs_list = [];
  builder_deployments = [];
  vaults_list =
      vault 1 none
      ∷ vault 2 (some output)
      ∷ vault 3 (some input_output)
      ∷ vault 4 (some input)
      ∷ [];
}

resolve_io_vaults_iff_example :
    (resolve_io_vaults order ≡ ok (vault 3 (some input_output), vault 2 (some output))) ↔ (
      (find (λ v. takes_input v.vault_type) order.vaults_list ≡ some (vault 3 (some input_output)))
      × (find (λ v. takes_output v.vault_type) order.vaults_list ≡ some (vault 2 (some output))))
resolve_io_vaults_iff_example =
    resolve_io_vaults_iff order (vault 3 (some input_output)) (vault 2 (some output))
