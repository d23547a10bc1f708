-- ===== src/RateLimiter/Global.antt =====
-- The limit on all requests: `check_global` against the abstract log. The calls are ordered by the
-- mutex, and each reads the clock under it, so the instants do not fall.
use st0x_rest_api.Prelude.{
  ℕ, ◌-◌, ◌≤◌, ◌<◌, ◌≡◌, refl, List, [], ◌∷◌, map, arith, length, some, false, Bool, ok, ◌==◌,
}
use st0x_rest_api.RateLimiter.{
  RateLimiter, new, prune_window, Clock, cutoff_at, allowed, admit, window_duration, check_global,
}
use st0x_rest_api.RateLimiter.Window.{IsLog}
use st0x_rest_api.RateLimiter.Log.{sliding_log, admitted, in_span, sliding_log-in_span}
use st0x_rest_api.RateLimiter.Tracks.{Tracks, admit-log_step}

-- The decisions on a sequence of calls, each at its clock reading.
unfoldable pub run_global : RateLimiter → List Clock → List Bool
run_global rl [] = []
run_global rl (clock ∷ later) =
    let (rl', verdict) = check_global rl clock in allowed verdict ∷ run_global rl' later

abbrev pub instants : List Clock → List ℕ
instants = map (λ clock. clock.now)

-- The instants do not fall, from `lo` on.
abbrev pub IsOrdered : ℕ → List Clock → Type 0
IsOrdered lo [] = Unit {0}
IsOrdered lo (clock ∷ later) = (lo ≤ clock.now) × IsOrdered clock.now later

check_global_lem :
    (rl : RateLimiter) (clock : Clock)
    → 0 < rl.global_rpm
    → rl.global_poisoned ≡ false
    → check_global rl clock ≡ (
        let a = admit rl.global_rpm (prune_window (cutoff_at clock) rl.global_window) clock in
        (record rl { global_window = a.0 }, ok (a.1, some a.2)))
unfolding check_global
check_global_lem rl clock pos live =
    let e : (rl.global_rpm == 0) ≡ false = ground arith in rw (e, live)

run_global-eq-log :
    (clocks : List Clock) (rl : RateLimiter) (hi : ℕ) (log : List ℕ)
    → 0 < rl.global_rpm
    → rl.global_poisoned ≡ false
    → IsOrdered hi clocks
    → IsLog 0 hi log
    → Tracks (hi - window_duration) rl.global_window log
    → run_global rl clocks ≡ sliding_log rl.global_rpm log (instants clocks)
unfolding run_global sliding_log
run_global-eq-log [] rl hi log pos live o l t = refl
run_global-eq-log (clock ∷ later) rl hi log pos live (here, o) l t =
    let (same, t', l') =
      admit-log_step rl.global_rpm (hi - window_duration) hi rl.global_window log clock
        (omega arith) here l t in
    let rl' : RateLimiter = record rl {
      global_window =
          (admit rl.global_rpm (prune_window (cutoff_at clock) rl.global_window) clock).0;
    } in
    rw (check_global_lem rl clock pos live)
      (cc (same, run_global-eq-log later rl' clock.now _ pos live o l' t'))

-- With a positive limit, a fresh limiter decides every call as the abstract log of all admissions
-- does, at any instants that do not fall: pruning the window forgets nothing that matters.
pub run_global-refines :
    (global_rpm per_key_rpm : ℕ) (clocks : List Clock)
    → 0 < global_rpm
    → IsOrdered 0 clocks
    → run_global (new global_rpm per_key_rpm) clocks ≡ sliding_log global_rpm [] (instants clocks)
unfolding new
run_global-refines g k clocks pos o =
    run_global-eq-log clocks (new g k) 0 [] pos refl o (omega arith) (λ d h. refl)

-- With a positive limit, at any instants that do not fall, no span of 60 seconds (both ends
-- included) holds more admitted calls than the limit.
pub run_global_bound :
    (global_rpm per_key_rpm lo : ℕ) (clocks : List Clock)
    → 0 < global_rpm
    → IsOrdered 0 clocks
    → length
        (in_span lo (admitted (run_global (new global_rpm per_key_rpm) clocks) (instants clocks)))
      ≤ global_rpm
run_global_bound g k lo clocks pos o =
    rw (run_global-refines g k clocks pos o) (sliding_log-in_span g lo (instants clocks))
