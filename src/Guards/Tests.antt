-- ===== src/Guards/Tests.antt =====
-- The headers of the first response of a limiter.
use st0x_rest_api.Prelude.{◌-◌, ◌+◌, ◌≤◌, ◌≡◌, refl, none, some, length, arith}
use st0x_rest_api.RateLimiter.{new, Clock, check_global}
use st0x_rest_api.Guards.{Local, global_from_request, RateLimitHeaders, on_response}
use st0x_rest_api.Guards.Laws.{global_from_request-on_response}

abbrev clock : Clock
clock = record { now = 100000000000; now_unix = 1700000000 }

abbrev fresh : Local
fresh = record { auth_key_id = none; rate_limit_info = none }

global_from_request-on_response_example :
    (headers : RateLimitHeaders) × (on_response (global_from_request (some (new 2 1)) clock fresh).1
      ≡ some headers)
    × (headers.x_ratelimit_limit ≡ 2)
    × (headers.x_ratelimit_remaining ≡ 2 - length (check_global (new 2 1) clock).0.global_window)
    × (1700000000 ≤ headers.x_ratelimit_reset)
    × (headers.x_ratelimit_reset ≤ 1700000000 + 60)
unfolding new
global_from_request-on_response_example =
    global_from_request-on_response (new 2 1) 0 clock fresh (omega arith) refl (omega arith)
      (omega arith)
