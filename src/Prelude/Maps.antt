-- ===== src/Prelude/Maps.antt =====
-- Hash maps: as functions where the program only looks up and writes, and as association lists
-- with one entry for a key where it iterates.
use Prim.Native.Nat.{ℕ}
use mathlib.Core.Bool.{Bool, true, false}
use mathlib.Core.Option.{Option, none, some}
use mathlib.Core.List.{List, [], ◌∷◌}
use st0x_rest_api.Prelude.Tests.{◌==◌, if◌then◌else◌}

abbrev pub FnMap {ℓ} : Type ℓ → Type ℓ
FnMap V = ℕ → Option V

module _ {ℓ} {V : Type ℓ} where
  abbrev pub insert_fn : ℕ → V → FnMap V → FnMap V
  insert_fn k v m j = if k == j then some v else m j

  abbrev pub unwrap_or : Option V → V → V
  unwrap_or none d = d
  unwrap_or (some v) d = v

  abbrev pub is_some : Option V → Bool
  is_some none = false
  is_some (some v) = true

  -- A map that the program iterates over, as its entries.
  abbrev pub lookup : ℕ → List (ℕ × V) → Option V
  lookup key [] = none
  lookup key (entry ∷ entries) =
      let later = lookup key entries in if entry.0 == key then some entry.1 else later
