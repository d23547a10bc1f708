-- ===== src/RateLimiter.antt =====
-- src/fairings/rate_limiter.rs: sliding-window limits, one for all requests and one for each key.
-- An `Instant` is a number of nanoseconds; `now - 60s` stops at 0, below which no instant lies.
-- The system clock's reading (seconds) enters each call beside the instant. A poisoned lock is a
-- flag of the mutex. The map of windows is a function, as it is only looked up and written.
pub mod Window
mod Log
mod Tracks
pub mod Info
pub mod Global
pub mod Keys
mod Tests
use st0x_rest_api.Prelude.{
  ℕ, ◌+◌, ◌-◌, ◌*◌, ◌/◌, ◌%◌, ◌^◌, Bool, true, false, Option, none, some, List, [], ◌∷◌, ◌++◌, ltb,
  ◌==◌, if◌then◌else◌, length, is_empty, FnMap, insert_fn, unwrap_or, Result, ok, err,
}
use st0x_rest_api.ApiError.{ApiError, internal}

abbrev pub nanos_per_sec : ℕ
nanos_per_sec = 1000000000

abbrev pub window_duration : ℕ
window_duration = 60 * nanos_per_sec

abbrev pub per_key_cleanup_every : ℕ
per_key_cleanup_every = 1024

pub record RateLimitInfo : Type 0 where
  pub limit : ℕ
  pub remaining : ℕ
  pub reset : ℕ

pub record RateLimiter : Type 0 where
  pub global_rpm : ℕ
  pub per_key_rpm : ℕ
  pub global_window : List ℕ
  pub global_poisoned : Bool
  pub per_key_windows : FnMap (List ℕ)
  pub per_key_poisoned : Bool
  pub per_key_check_count : ℕ

unfoldable pub new : ℕ → ℕ → RateLimiter
new global_rpm per_key_rpm = record {
  global_rpm = global_rpm;
  per_key_rpm = per_key_rpm;
  global_window = [];
  global_poisoned = false;
  per_key_windows = λ _. none;
  per_key_poisoned = false;
  per_key_check_count = 0;
}

-- The head of the list is the front of the deque.
unfoldable pub prune_window : ℕ → List ℕ → List ℕ
prune_window cutoff [] = []
prune_window cutoff (t ∷ window) = if ltb t cutoff then prune_window cutoff window else t ∷ window

-- The readings of the two clocks in one call.
pub record Clock : Type 0 where
  pub now : ℕ
  pub now_unix : ℕ

abbrev pub cutoff_at : Clock → ℕ
cutoff_at clock = clock.now - window_duration

unfoldable pub compute_reset : List ℕ → Clock → ℕ
compute_reset [] clock = clock.now_unix + window_duration / nanos_per_sec
compute_reset (oldest ∷ _) clock =
    clock.now_unix + (oldest + window_duration - clock.now) / nanos_per_sec

abbrev pub Verdict : Type 0
Verdict = Result ApiError (Bool × Option RateLimitInfo)

-- Whether the call was let through.
abbrev pub allowed : Verdict → Bool
allowed (ok (b, _)) = b
allowed (err e) = false

-- The test and the push, on a window that is pruned already: the new window and the verdict.
unfoldable pub admit : ℕ → List ℕ → Clock → List ℕ × Bool × RateLimitInfo
unfolding compute_reset
admit rpm window clock =
    if ltb (length window) rpm
    then (let pushed = window ++ clock.now ∷ [] in
        (
          pushed,
          true,
          record {
            limit = rpm;
            remaining = rpm - length pushed;
            reset = compute_reset pushed clock;
          },
        ))
    else (window, false, record { limit = rpm; remaining = 0; reset = compute_reset window clock })

unfoldable pub check_global : RateLimiter → Clock → RateLimiter × Verdict
unfolding admit
check_global rl clock =
    if rl.global_rpm == 0
    then (rl, ok (true, none))
    else if rl.global_poisoned
    then (rl, err (internal "rate limiter unavailable"))
    else (let (window, allowed, info) =
          admit rl.global_rpm (prune_window (cutoff_at clock) rl.global_window) clock in
        (record rl { global_window = window }, ok (allowed, some info)))

-- What `retain` does to one entry: prune it, and drop it if nothing is left.
unfoldable pub retain_window : ℕ → Option (List ℕ) → Option (List ℕ)
retain_window cutoff none = none
retain_window cutoff (some window) =
    let pruned = prune_window cutoff window in if is_empty pruned then none else some pruned

-- The counter is a `u64` that wraps.
unfoldable pub next_count : ℕ → ℕ
next_count n = (n + 1) % 2 ^ 64

-- Every 1024th check drops the windows that have run empty.
unfoldable pub cleanup : ℕ → ℕ → FnMap (List ℕ) → FnMap (List ℕ)
unfolding retain_window
cleanup check_count cutoff windows =
    if check_count % per_key_cleanup_every == 0
    then (λ key. retain_window cutoff (windows key))
    else windows

unfoldable pub check_per_key : RateLimiter → ℕ → Clock → RateLimiter × Verdict
unfolding admit cleanup next_count
check_per_key rl key_id clock =
    if rl.per_key_rpm == 0
    then (rl, ok (true, none))
    else if rl.per_key_poisoned
    then (rl, err (internal "rate limiter unavailable"))
    else (let check_count = next_count rl.per_key_check_count in
        let windows = cleanup check_count (cutoff_at clock) rl.per_key_windows in
        let (window, allowed, info) =
          admit rl.per_key_rpm (prune_window (cutoff_at clock) (unwrap_or (windows key_id) []))
            clock in
        (
          record rl {
            per_key_windows = insert_fn key_id window windows;
            per_key_check_count = check_count;
          },
          ok (allowed, some info),
        ))
