-- ===== src/IoVaults.antt =====
-- src/routes/mod.rs: the input and the output vault of an order.
pub mod Laws
mod Tests
use st0x_rest_api.Prelude.{
  ℕ, Bool, true, false, ◌&&◌, not, Option, none, some, List, [], ◌∷◌, is_some, if◌then◌else◌,
  Result, ok, err, ◌>>=◌, ok_or,
}
use st0x_rest_api.Sdk.{VaultType, input, output, input_output, RaindexVault, RaindexOrder}
use st0x_rest_api.ApiError.{ApiError, internal}

abbrev pub Found : Type 0
Found = Option RaindexVault × Option RaindexVault

-- `if x.is_none() { x = Some(v) }`
abbrev or_set : Option RaindexVault → RaindexVault → Option RaindexVault
or_set none v = some v
or_set (some w) v = some w

-- The match on the vault's type.
unfoldable pub pick : Option VaultType → RaindexVault → Found → Found
pick none v found = found
pick (some input) v (i, o) = (or_set i v, o)
pick (some output) v (i, o) = (i, or_set o v)
pick (some input_output) v (i, o) = (or_set i v, or_set o v)

-- The loop, which ends as soon as both are found.
unfoldable pub scan : List RaindexVault → Found → Found
scan [] found = found
scan (v ∷ vs) found =
    let found' = pick v.vault_type v found in
    let rest = scan vs found' in if is_some found'.0 && is_some found'.1 then found' else rest

unfoldable pub resolve_io_vaults : RaindexOrder → Result ApiError (RaindexVault × RaindexVault)
resolve_io_vaults order =
    let found = scan order.vaults_list (none, none) in
    do
      i ← ok_or found.0 (internal "order has no input vaults")
      o ← ok_or found.1 (internal "order has no output vaults")
      ok (i, o)
