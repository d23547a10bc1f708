-- ===== src/Order/Tests.antt =====
-- The theorem on cancellations at an order with two vaults that hold something and an empty one.
use st0x_rest_api.Prelude.{
  ℕ, ◌≡◌, refl, ◌==◌, if◌then◌else◌, Bool, true, none, some, [], ◌∷◌, ok, err,
}
use st0x_rest_api.ApiError.{internal}
use st0x_rest_api.Bytes.{bytes}
use st0x_rest_api.Sdk.{RaindexVault, RaindexOrder}
use st0x_rest_api.Order.{OrderDataSource}
use st0x_rest_api.Order.Cancel.{process_cancel_order, process_cancel_order-returns}

abbrev vault : ℕ → RaindexVault
vault balance = record {
  vault_id = 1;
  vault_type = none;
  token = record { address = 5; name = none; symbol = some "TKN"; decimals = 18 };
  balance = balance;
  formatted_balance = if balance == 3 then "3" else if balance == 8 then "8" else "0";
}

abbrev order : RaindexOrder
order = record {
  chain_id = 8453;
  raindex = 70;
  order_hash = 1;
  owner = 8;
  order_bytes = [];
  active = true;
  timestamp_added = 50;
  timestamp_removed = none;
  rainlang = none;
  dotrain_source = none;
  vaults_list = vault 3 ∷ vault 0 ∷ vault 8 ∷ [];
  inputs_list = vault 3 ∷ vault 0 ∷ [];
  outputs_list = vault 8 ∷ [];
  builder_deployments = [];
}

abbrev ds : OrderDataSource
ds = record {
  get_orders_by_hash = λ hash. ok (order ∷ []);
  get_order_quotes = λ o. ok [];
  get_order_trades = λ o. ok [];
  get_remove_calldata = λ o. ok (bytes "calldata");
  get_wrap_ratios_for_tokens = λ addresses. err (internal "not asked");
}

abbrev is_empty_vault : RaindexVault → Bool
is_empty_vault v = v.balance == 0

process_cancel_order-returns_example :
    process_cancel_order (λ v. ok (is_empty_vault v)) ds 1
    ≡ ok (record {
      transactions = record { to = 70; data' = bytes "calldata"; value = 0 } ∷ [];
      summary = record {
        vaults_to_withdraw = 2;
        tokens_returned =
            record { token = 5; symbol = "TKN"; amount = "3" }
            ∷ record { token = 5; symbol = "TKN"; amount = "8" }
            ∷ [];
      };
    })
process_cancel_order-returns_example =
    process_cancel_order-returns (λ v. ok (is_empty_vault v)) is_empty_vault ds 1 order []
      (bytes "calldata") (λ v. refl) refl refl
