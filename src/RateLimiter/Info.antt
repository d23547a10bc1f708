-- ===== src/RateLimiter/Info.antt =====
-- What the limiter reports to the client with each decision.
use st0x_rest_api.Prelude.{
  ℕ, ◌+◌, ◌-◌, ◌≤◌, ◌<◌, ◌≡◌, refl, List, [], ◌∷◌, arith, length, some, false, Bool, ltb, ◌==◌, ok,
  Bool-cases, inl, inr, ◌++◌,
}
use st0x_rest_api.RateLimiter.{
  RateLimiter, RateLimitInfo, prune_window, Clock, cutoff_at, admit, compute_reset, check_global,
}
use st0x_rest_api.RateLimiter.Window.{IsLog, IsLog-prune, IsLog-append, IsLog-le}

compute_reset_bounds :
    (w : List ℕ) (hi : ℕ) (clock : Clock)
    → IsLog 0 hi w
    → hi ≤ clock.now
    → (clock.now_unix ≤ compute_reset w clock) × (compute_reset w clock ≤ clock.now_unix + 60)
unfolding compute_reset
compute_reset_bounds [] hi clock l h = omega arith
compute_reset_bounds (t ∷ w) hi clock l h = omega (arith, IsLog-le t hi w l.1)

-- What one decision reports, given the window that it leaves behind.
abbrev pub Reports : ℕ → List ℕ → Clock → RateLimitInfo → Type 0
Reports rpm left clock info =
    (info.limit ≡ rpm)
    × (info.remaining ≡ rpm - length left)
    × (clock.now_unix ≤ info.reset)
    × (info.reset ≤ clock.now_unix + 60)

admit-Reports :
    (rpm hi : ℕ) (w : List ℕ) (clock : Clock)
    → IsLog 0 hi w
    → hi ≤ clock.now
    → Reports rpm (admit rpm w clock).0 clock (admit rpm w clock).2
unfolding admit
admit-Reports rpm hi w clock l h = elim (Bool-cases (ltb (length w) rpm)) [
  | inl room ↦
      let (low, high) =
        compute_reset_bounds (w ++ clock.now ∷ []) clock.now clock
          (IsLog-append 0 hi clock.now w h l) (omega arith) in
      rw room (refl, refl, low, high)
  | inr full ↦
      let (low, high) = compute_reset_bounds w hi clock l h in
      rw full (refl, ground arith, low, high)
]

-- An admitted or denied call of a limiter with a positive limit, whose lock is sound and whose
-- window holds instants in order and none of the future, reports the limit, the admissions that
-- the new window leaves open, and a reset between the present and 60 seconds later.
pub check_global-Reports :
    (rl : RateLimiter) (hi : ℕ) (clock : Clock)
    → 0 < rl.global_rpm
    → rl.global_poisoned ≡ false
    → IsLog 0 hi rl.global_window
    → hi ≤ clock.now
    → (b : Bool) × (info : RateLimitInfo) × ((check_global rl clock).1 ≡ ok (b, some info))
      × Reports rl.global_rpm (check_global rl clock).0.global_window clock info
unfolding check_global
check_global-Reports rl hi clock pos live l h =
    let e : (rl.global_rpm == 0) ≡ false = ground arith in
    rw (e, live)
      (
        _,
        _,
        refl,
        admit-Reports rl.global_rpm hi (prune_window (cutoff_at clock) rl.global_window) clock
            (IsLog-prune (cutoff_at clock) 0 hi rl.global_window l) h,
      )
