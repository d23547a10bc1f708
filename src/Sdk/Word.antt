-- ===== src/Sdk/Word.antt =====
-- Conversions of 256-bit words and machine integers, and the ceiling division of `u64`.
use st0x_rest_api.Prelude.{ℕ, ◌+◌, ◌/◌, ◌%◌, ◌^◌, Option, none, some, ltb, ◌==◌, if◌then◌else◌}

-- `u64::try_from`, `u16::try_from`, `i64::try_from` on a number that is not negative.
abbrev pub to_u64 : ℕ → Option ℕ
to_u64 n = if ltb n (2 ^ 64) then some n else none

abbrev pub to_u16 : ℕ → Option ℕ
to_u16 n = if ltb n (2 ^ 16) then some n else none

abbrev pub to_i64 : ℕ → Option ℕ
to_i64 n = if ltb n (2 ^ 63) then some n else none

-- `div_ceil`: the quotient, and one more if there is a remainder.
abbrev pub div_ceil : ℕ → ℕ → ℕ
div_ceil a b = if a % b == 0 then a / b else a / b + 1
