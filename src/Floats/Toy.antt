-- ===== src/Floats/Toy.antt =====
-- The smallest floats on which multiplication can be undone, to run the program on: the numbers
-- 1 (`false`) and -1 (`true`), which no sum, difference or comparison needs.
use st0x_rest_api.Prelude.{Bool, true, false, Option, none, some, String, str_eq, if◌then◌else◌}
use st0x_rest_api.Floats.{FloatOps}

abbrev pub times : Bool → Bool → Bool
times true true = false
times true false = true
times false b = b

abbrev pub read : String → Option Bool
read s = if str_eq s "1" then some false else if str_eq s "-1" then some true else none

abbrev pub print : Bool → String
print true = "-1"
print false = "1"

abbrev pub toy_ops : FloatOps
toy_ops = record {
  Float = Bool;
  parse = read;
  format = λ x. some (print x);
  mul = λ x y. some (times x y);
  div = λ x y. some (times x y);
  add = λ x y. none;
  sub = λ x y. none;
  eq = λ x y. none;
  zero = none;
  max_positive_value = some false;
}
