-- ===== src/Guards/Laws.antt =====
-- What the client learns of the global limit.
use st0x_rest_api.Prelude.{
  ℕ, ◌-◌, ◌+◌, ◌≤◌, ◌<◌, ◌≡◌, refl, ap, ◌∙◌, Bool, true, false, some, length, ok,
}
use st0x_rest_api.RateLimiter.{RateLimiter, RateLimitInfo, Clock, Verdict, check_global}
use st0x_rest_api.RateLimiter.Window.{IsLog}
use st0x_rest_api.RateLimiter.Info.{check_global-Reports}
use st0x_rest_api.Guards.{Local, global_outcome, global_from_request, RateLimitHeaders, on_response}

-- The headers that tell of a decision.
abbrev headers_of : RateLimitInfo → RateLimitHeaders
headers_of info = record {
  x_ratelimit_limit = info.limit;
  x_ratelimit_remaining = info.remaining;
  x_ratelimit_reset = info.reset;
}

decision_headers :
    (b : Bool) (info : RateLimitInfo) (l : Local)
    → on_response (global_outcome (ok (b, some info)) l).0 ≡ some (headers_of info)
unfolding on_response global_outcome
decision_headers true info l = refl
decision_headers false info l = refl

guard_is_outcome :
    (rl : RateLimiter) (clock : Clock) (l : Local)
    → (global_from_request (some rl) clock l).1 ≡ (global_outcome (check_global rl clock).1 l).0
unfolding global_from_request
guard_is_outcome rl clock l = refl

-- With a positive global limit, a sound lock, and a window that holds instants in order and none
-- of the future, the guard of the global limit, whether it lets the request pass or not, leaves
-- what the fairing makes three headers of: the limit, what is left of it in the new window, and a
-- reset between the present and 60 seconds later.
pub global_from_request-on_response :
    (rl : RateLimiter) (hi : ℕ) (clock : Clock) (l : Local)
    → 0 < rl.global_rpm
    → rl.global_poisoned ≡ false
    → IsLog 0 hi rl.global_window
    → hi ≤ clock.now
    → (headers : RateLimitHeaders) × (on_response (global_from_request (some rl) clock l).1
        ≡ some headers)
      × (headers.x_ratelimit_limit ≡ rl.global_rpm)
      × (headers.x_ratelimit_remaining
          ≡ rl.global_rpm - length (check_global rl clock).0.global_window)
      × (clock.now_unix ≤ headers.x_ratelimit_reset)
      × (headers.x_ratelimit_reset ≤ clock.now_unix + 60)
global_from_request-on_response rl hi clock l positive sound log future =
    let (b, info, verdict, (limit, remaining, low, high)) =
      check_global-Reports rl hi clock positive sound log future in
    (
      headers_of info,
      ap on_response
            (guard_is_outcome rl clock l ∙ ap (λ (v : Verdict). (global_outcome v l).0) verdict)
          ∙ decision_headers b info l,
      limit,
      remaining,
      low,
      high,
    )
