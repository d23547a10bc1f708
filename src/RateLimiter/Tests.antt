-- ===== src/RateLimiter/Tests.antt =====
-- Runs of the rate limiter on concrete calls, and the theorems at them.
use st0x_rest_api.Prelude.{
  ℕ, ◌+◌, ◌*◌, ◌≤◌, ◌≡◌, refl, Bool, List, [], ◌∷◌, some, length, ok, arith,
}
use st0x_rest_api.RateLimiter.{RateLimitInfo, new, Clock, nanos_per_sec, check_global}
use st0x_rest_api.RateLimiter.Log.{admitted, in_span, sliding_log}
use st0x_rest_api.RateLimiter.Info.{Reports, check_global-Reports}
use st0x_rest_api.RateLimiter.Global.{run_global, instants, run_global-refines, run_global_bound}
use st0x_rest_api.RateLimiter.Keys.{
  Calls, run_per_key, own_instants, run_per_key-refines, run_per_key_bound,
}

-- A call some seconds after the start.
abbrev at : ℕ → Clock
at seconds = record { now = (100 + seconds) * nanos_per_sec; now_unix = 1700000000 + seconds }

abbrev four_clocks : List Clock
four_clocks = at 0 ∷ at 10 ∷ at 20 ∷ at 61 ∷ []

abbrev five_calls : Calls
five_calls = (7, at 0) ∷ (8, at 0) ∷ (7, at 5) ∷ (8, at 6) ∷ (7, at 61) ∷ []

run_global-refines_example :
    run_global (new 2 1) four_clocks ≡ sliding_log 2 [] (instants four_clocks)
run_global-refines_example =
    run_global-refines 2 1 four_clocks (omega arith)
      (omega arith, (omega arith, (omega arith, (omega arith, tt))))

run_global_bound_example :
    length (in_span (at 5).now (admitted (run_global (new 2 1) four_clocks) (instants four_clocks)))
    ≤ 2
run_global_bound_example =
    run_global_bound 2 1 (at 5).now four_clocks (omega arith)
      (omega arith, (omega arith, (omega arith, (omega arith, tt))))

run_per_key-refines_example :
    run_per_key 7 (new 9 1) five_calls ≡ sliding_log 1 [] (own_instants 7 five_calls)
run_per_key-refines_example =
    run_per_key-refines 7 9 1 five_calls (omega arith)
      (omega arith, (omega arith, (omega arith, (omega arith, (omega arith, tt)))))

run_per_key_bound_example :
    length (
      in_span
        (at 0).now
        (admitted (run_per_key 7 (new 9 1) five_calls) (own_instants 7 five_calls)))
    ≤ 1
run_per_key_bound_example =
    run_per_key_bound 7 9 1 (at 0).now five_calls (omega arith)
      (omega arith, (omega arith, (omega arith, (omega arith, (omega arith, tt)))))

check_global-Reports_example :
    (b : Bool) × (info : RateLimitInfo) × ((check_global (new 2 1) (at 0)).1 ≡ ok (b, some info))
    × Reports 2 (check_global (new 2 1) (at 0)).0.global_window (at 0) info
unfolding new
check_global-Reports_example =
    check_global-Reports (new 2 1) 0 (at 0) (omega arith) refl (omega arith) (omega arith)
