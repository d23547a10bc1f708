-- ===== src/Floats.antt =====
-- The decimal floats of the package rain_math_float, as the operations that the program calls; each
-- may fail, and the program only logs the error that it then receives.
pub mod Toy
pub mod Exact
pub mod Trits
use st0x_rest_api.Prelude.{ℕ, Bool, Option, String, List}

pub record FloatOps : Type 1 where
  pub Float : Type 0
  pub parse : String → Option Float
  pub format : Float → Option String
  pub mul : Float → Float → Option Float
  pub div : Float → Float → Option Float
  pub add : Float → Float → Option Float
  pub sub : Float → Float → Option Float
  pub eq : Float → Float → Option Bool
  pub zero : Option Float
  pub max_positive_value : Option Float
