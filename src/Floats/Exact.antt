-- ===== src/Floats/Exact.antt =====
-- What holds of float operations that never fail and never round.
use st0x_rest_api.Prelude.{◌≡◌, some, List, [], ◌∷◌}
use st0x_rest_api.Floats.{FloatOps}

pub record IsExact (ops : FloatOps) : Type 0 where
  pub nought : ops.Float
  pub plus : ops.Float → ops.Float → ops.Float
  pub negated : ops.Float → ops.Float
  pub zero_is : ops.zero ≡ some nought
  pub add_is : (x y : ops.Float) → ops.add x y ≡ some (plus x y)
  pub sub_is : (x : ops.Float) → ops.sub nought x ≡ some (negated x)
  pub negated-nought : negated nought ≡ nought
  pub negated-plus : (x y : ops.Float) → negated (plus x y) ≡ plus (negated x) (negated y)

-- The sum of a list, from a number on.
abbrev pub sum_from : {ops : FloatOps} → IsExact ops → ops.Float → List ops.Float → ops.Float
sum_from e x [] = x
sum_from e x (y ∷ ys) = sum_from e (e.plus x y) ys
