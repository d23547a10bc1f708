-- ===== src/RateLimiter/Keys.antt =====
-- The limit for each key: `check_per_key` with calls of many keys interleaved, and with the
-- periodic clean-up. What one key observes depends on its own calls alone.
use st0x_rest_api.Prelude.{
  ℕ, ◌-◌, ◌%◌, ◌≤◌, ◌<◌, ◌≡◌, refl, List, [], ◌∷◌, arith, length, inl, inr, some, none, true, false,
  Bool, Option, ok, if◌then◌else◌, ==_iff, ◌==◌, Bool-cases, FnMap, insert_fn, unwrap_or, is_empty,
}
use st0x_rest_api.RateLimiter.{
  RateLimiter, RateLimitInfo, new, prune_window, Clock, cutoff_at, allowed, admit, window_duration,
  check_per_key, retain_window, cleanup, next_count, per_key_cleanup_every,
}
use st0x_rest_api.RateLimiter.Window.{IsLog, IsLog-mono}
use mathlib.Core.Path.{subst}
use st0x_rest_api.RateLimiter.Log.{log_step, sliding_log, admitted, in_span, sliding_log-in_span}
use st0x_rest_api.RateLimiter.Tracks.{Tracks, Tracks-mono, Tracks-prune, admit-log_step}

abbrev pub Calls : Type 0
Calls = List (ℕ × Clock)

-- The decisions on the calls of one key, while every call of every key is made.
unfoldable pub run_per_key : ℕ → RateLimiter → Calls → List Bool
run_per_key key rl [] = []
run_per_key key rl ((caller, clock) ∷ later) =
    let (rl', verdict) = check_per_key rl caller clock in
    let rest = run_per_key key rl' later in if caller == key then allowed verdict ∷ rest else rest

-- The instants of the key's own calls.
unfoldable pub own_instants : ℕ → Calls → List ℕ
own_instants key [] = []
own_instants key ((caller, clock) ∷ later) =
    if caller == key then clock.now ∷ own_instants key later else own_instants key later

abbrev pub IsOrderedCalls : ℕ → Calls → Type 0
IsOrderedCalls lo [] = Unit {0}
IsOrderedCalls lo ((caller, clock) ∷ later) = (lo ≤ clock.now) × IsOrderedCalls clock.now later

abbrev window_of : FnMap (List ℕ) → ℕ → List ℕ
window_of windows key = unwrap_or (windows key) []

dropped_if_empty : (w : List ℕ) → unwrap_or (if is_empty w then none else some w) [] ≡ w
dropped_if_empty [] = refl
dropped_if_empty (t ∷ w) = refl

retain_window-Tracks :
    (c d : ℕ) (w : Option (List ℕ)) (log : List ℕ)
    → c ≤ d
    → Tracks c (unwrap_or w []) log
    → Tracks d (unwrap_or (retain_window d w) []) log
unfolding retain_window
retain_window-Tracks c d none log h t = Tracks-mono c d [] log h t
retain_window-Tracks c d (some w) log h t =
    rw (dropped_if_empty (prune_window d w)) (Tracks-prune c d w log h t)

cleanup-Tracks :
    (n c d : ℕ) (windows : FnMap (List ℕ)) (key : ℕ) (log : List ℕ)
    → c ≤ d
    → Tracks c (window_of windows key) log
    → Tracks d (window_of (cleanup n d windows) key) log
unfolding cleanup
cleanup-Tracks n c d windows key log h t = elim (Bool-cases (n % per_key_cleanup_every == 0)) [
  | inl due ↦ rw (due, cleanup) (retain_window-Tracks c d (windows key) log h t)
  | inr idle ↦ rw (idle, cleanup) (Tracks-mono c d (window_of windows key) log h t)
]

-- The state after a call, with the part that the call leaves to `admit` in view.
cleaned : RateLimiter → Clock → FnMap (List ℕ)
cleaned rl clock = cleanup (next_count rl.per_key_check_count) (cutoff_at clock) rl.per_key_windows

abbrev admit_for : RateLimiter → ℕ → Clock → List ℕ × Bool × RateLimitInfo
admit_for rl caller clock =
    admit rl.per_key_rpm (prune_window (cutoff_at clock) (window_of (cleaned rl clock) caller))
      clock

after_call : RateLimiter → ℕ → Clock → RateLimiter
after_call rl caller clock = record rl {
  per_key_windows = insert_fn caller (admit_for rl caller clock).0 (cleaned rl clock);
  per_key_check_count = next_count rl.per_key_check_count;
}

check_per_key_lem :
    (rl : RateLimiter) (caller : ℕ) (clock : Clock)
    → 0 < rl.per_key_rpm
    → rl.per_key_poisoned ≡ false
    → check_per_key rl caller clock ≡ (
      after_call rl caller clock,
      ok ((admit_for rl caller clock).1, some (admit_for rl caller clock).2),
    )
unfolding check_per_key after_call cleaned
check_per_key_lem rl caller clock pos live =
    let e : (rl.per_key_rpm == 0) ≡ false = ground arith in rw (e, live)

-- The clean-up of a call by any key keeps this key's window good up to the call's own cutoff.
cleaned-Tracks :
    (rl : RateLimiter) (key hi : ℕ) (clock : Clock) (log : List ℕ)
    → hi ≤ clock.now
    → Tracks (hi - window_duration) (window_of rl.per_key_windows key) log
    → Tracks (cutoff_at clock) (window_of (cleaned rl clock) key) log
unfolding cleaned
cleaned-Tracks rl key hi clock log h t =
    cleanup-Tracks _ (hi - window_duration) (cutoff_at clock) rl.per_key_windows key log
      (omega arith) t

window-after_call_ne :
    (rl : RateLimiter) (caller key : ℕ) (clock : Clock)
    → (caller == key) ≡ false
    → window_of (after_call rl caller clock).per_key_windows key ≡ window_of (cleaned rl clock) key
unfolding after_call
window-after_call_ne rl caller key clock e = rw e

window-after_call_eq :
    (rl : RateLimiter) (caller key : ℕ) (clock : Clock)
    → (caller == key) ≡ true
    → window_of (after_call rl caller clock).per_key_windows key ≡ (admit_for rl caller clock).0
unfolding after_call
window-after_call_eq rl caller key clock e = rw e

run_per_key-eq-log :
    (key : ℕ) (calls : Calls) (rl : RateLimiter) (hi : ℕ) (log : List ℕ)
    → 0 < rl.per_key_rpm
    → rl.per_key_poisoned ≡ false
    → IsOrderedCalls hi calls
    → IsLog 0 hi log
    → Tracks (hi - window_duration) (window_of rl.per_key_windows key) log
    → run_per_key key rl calls ≡ sliding_log rl.per_key_rpm log (own_instants key calls)
unfolding run_per_key own_instants sliding_log after_call
run_per_key-eq-log key [] rl hi log pos live o l t = refl
run_per_key-eq-log key ((caller, clock) ∷ later) rl hi log pos live (here, o) l t =
    elim (Bool-cases (caller == key)) [
      | inr other ↦
          rw (check_per_key_lem rl caller clock pos live, other)
            (run_per_key-eq-log key later (after_call rl caller clock) clock.now log pos live o
              (IsLog-mono 0 hi clock.now log here l)
              (rw (window-after_call_ne rl caller key clock other)
                (cleaned-Tracks rl key hi clock log here t)))
      | inl own ↦
          let e : key ≡ caller = ground (arith, ==_iff caller key) in
          let own_window : Tracks (cutoff_at clock) (window_of (cleaned rl clock) caller) log =
            cleaned-Tracks rl caller hi clock log here (
              subst (λ k. Tracks (hi - window_duration) (window_of rl.per_key_windows k) log) e
                t) in
          let (same, t', l') =
            admit-log_step rl.per_key_rpm (cutoff_at clock) hi (window_of (cleaned rl clock) caller)
              log clock (omega arith) here l own_window in
          rw (check_per_key_lem rl caller clock pos live, own)
            (ground (
              arith,
              same,
              run_per_key-eq-log key later (after_call rl caller clock) clock.now
                  (log_step rl.per_key_rpm log clock.now).0 pos live o l'
                  (rw (window-after_call_eq rl caller key clock own) t'),
            ))
    ]

-- With a positive limit and instants that do not fall, the calls of a key are decided as the
-- abstract log decides that key's calls alone: neither the calls of other keys nor the periodic
-- clean-up of the map of windows can be observed.
pub run_per_key-refines :
    (key global_rpm per_key_rpm : ℕ) (calls : Calls)
    → 0 < per_key_rpm
    → IsOrderedCalls 0 calls
    → run_per_key key (new global_rpm per_key_rpm) calls
      ≡ sliding_log per_key_rpm [] (own_instants key calls)
unfolding new
run_per_key-refines key g k calls pos o =
    run_per_key-eq-log key calls (new g k) 0 [] pos refl o (omega arith) (λ d h. refl)

-- With a positive limit and instants that do not fall, no span of 60 seconds holds more admitted
-- calls of one key than the limit, whatever the other keys do.
pub run_per_key_bound :
    (key global_rpm per_key_rpm lo : ℕ) (calls : Calls)
    → 0 < per_key_rpm
    → IsOrderedCalls 0 calls
    → length (
        in_span lo
          (admitted (run_per_key key (new global_rpm per_key_rpm) calls) (own_instants key calls)))
      ≤ per_key_rpm
run_per_key_bound key g k lo calls pos o =
    rw (run_per_key-refines key g k calls pos o) (sliding_log-in_span k lo (own_instants key calls))
