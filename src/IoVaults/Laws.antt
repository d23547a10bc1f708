-- ===== src/IoVaults/Laws.antt =====
-- Which vaults are chosen.
use st0x_rest_api.Prelude.{
  ◌≡◌, refl, ◌↔◌, Bool, true, false, Option, none, some, List, [], ◌∷◌, ok, find, arith,
}
use st0x_rest_api.Sdk.{VaultType, input, output, input_output, RaindexVault, RaindexOrder}
use st0x_rest_api.IoVaults.{pick, scan, resolve_io_vaults}

pub takes_input : Option VaultType → Bool
takes_input none = false
takes_input (some input) = true
takes_input (some output) = false
takes_input (some input_output) = true

pub takes_output : Option VaultType → Bool
takes_output none = false
takes_output (some input) = false
takes_output (some output) = true
takes_output (some input_output) = true

-- The first vault of a kind, unless one was found before.
abbrev or_find :
    Option RaindexVault → (Option VaultType → Bool) → List RaindexVault → Option RaindexVault
or_find (some v) kind vs = some v
or_find none kind vs = find (λ v. kind v.vault_type) vs

scan-eq-find :
    (vs : List RaindexVault) (i o : Option RaindexVault)
    → scan vs (i, o) ≡ (or_find i takes_input vs, or_find o takes_output vs)
unfolding scan pick takes_input takes_output
scan-eq-find [] none none = refl
scan-eq-find [] none (some b) = refl
scan-eq-find [] (some a) none = refl
scan-eq-find [] (some a) (some b) = refl
scan-eq-find (v ∷ vs) none none =
    ground (
      arith,
      scan-eq-find vs none none,
      scan-eq-find vs none (some v),
      scan-eq-find vs (some v) none,
    )
scan-eq-find (v ∷ vs) none (some b) = ground (arith, scan-eq-find vs none (some b))
scan-eq-find (v ∷ vs) (some a) none = ground (arith, scan-eq-find vs (some a) none)
scan-eq-find (v ∷ vs) (some a) (some b) = ground arith

-- The input is the first vault whose type is input or both, the output the first whose type is
-- output or both, whatever vaults stand between them: an order resolves to a pair exactly when
-- these two are there and are that pair.
pub resolve_io_vaults_iff :
    (order : RaindexOrder) (i o : RaindexVault)
    → (resolve_io_vaults order ≡ ok (i, o)) ↔ (
        (find (λ v. takes_input v.vault_type) order.vaults_list ≡ some i)
        × (find (λ v. takes_output v.vault_type) order.vaults_list ≡ some o))
unfolding resolve_io_vaults
resolve_io_vaults_iff order i o =
    let e = scan-eq-find order.vaults_list none none in
    (λ h. (ground arith, ground arith), λ (p, q). ground arith)
