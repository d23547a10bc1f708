-- ===== src/Floats/Trits.antt =====
-- The numbers -1, 0 and 1 with the sums and products of the field of three elements: exact floats
-- to run the totals on.
use st0x_rest_api.Prelude.{
  ◌≡◌, refl, Bool, true, false, Option, none, some, String, str_eq, if◌then◌else◌,
}
use st0x_rest_api.Floats.{FloatOps}
use st0x_rest_api.Floats.Exact.{IsExact}

pub data Trit : Type 0 where
  minus_one nil one : Trit

abbrev pub neg : Trit → Trit
neg minus_one = one
neg nil = nil
neg one = minus_one

abbrev pub sum : Trit → Trit → Trit
sum nil y = y
sum x nil = x
sum one one = minus_one
sum minus_one minus_one = one
sum x y = nil

abbrev pub product : Trit → Trit → Trit
product nil y = nil
product one y = y
product minus_one y = neg y

abbrev pub is_nil : Trit → Bool
is_nil nil = true
is_nil x = false

abbrev pub read_trit : String → Option Trit
read_trit s =
    if str_eq s "0"
    then some nil
    else if str_eq s "1"
    then some one
    else if str_eq s "-1"
    then some minus_one
    else none

abbrev pub print_trit : Trit → String
print_trit minus_one = "-1"
print_trit nil = "0"
print_trit one = "1"

abbrev pub trit_ops : FloatOps
trit_ops = record {
  Float = Trit;
  parse = read_trit;
  format = λ x. some (print_trit x);
  mul = λ x y. some (product x y);
  div = λ x y. if is_nil y then none else some (product x y);
  add = λ x y. some (sum x y);
  sub = λ x y. some (sum x (neg y));
  eq = λ x y. some (is_nil (sum x (neg y)));
  zero = some nil;
  max_positive_value = some one;
}

pub neg-sum : (x y : Trit) → neg (sum x y) ≡ sum (neg x) (neg y)
neg-sum minus_one minus_one = refl
neg-sum minus_one nil = refl
neg-sum minus_one one = refl
neg-sum nil y = refl
neg-sum one minus_one = refl
neg-sum one nil = refl
neg-sum one one = refl

abbrev pub trit_ops-IsExact : IsExact trit_ops
trit_ops-IsExact = record {
  nought = nil;
  plus = sum;
  negated = neg;
  zero_is = refl;
  add_is = λ x y. refl;
  sub_is = λ x. refl;
  negated-nought = refl;
  negated-plus = neg-sum;
}
