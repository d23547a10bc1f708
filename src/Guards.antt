-- ===== src/Guards.antt =====
-- What the request guards share: Rocket's outcome of a guard and the request-local caches. The
-- guard of the global limit and the fairing that sends the rate-limit headers
-- (src/fairings/rate_limiter.rs).
pub mod Laws
mod Tests
use st0x_rest_api.Prelude.{ℕ, true, false, Option, none, some, ok, err}
use st0x_rest_api.ApiError.{ApiError, internal, rate_limited}
use st0x_rest_api.RateLimiter.{RateLimiter, RateLimitInfo, Clock, check_global, Verdict}

pub data Outcome {ℓ} (A : Type ℓ) : Type ℓ where
  success : A → Outcome A
  error : ℕ → ApiError → Outcome A
  forward : ℕ → Outcome A
  panicked : Outcome A

-- The request-local caches. `AuthKeyId` is set once; the outer `none` is a cache not yet set.
pub record Local : Type 0 where
  pub auth_key_id : Option (Option ℕ)
  pub rate_limit_info : Option RateLimitInfo

-- `if let Some(info) = info { *guard = Some(info) }`
abbrev pub cache_info : Option RateLimitInfo → Local → Local
cache_info none l = l
cache_info (some info) l = record l { rate_limit_info = some info }

pub data GlobalRateLimit : Type 0 where
  passed : GlobalRateLimit

-- The two arms of the guard: what a verdict of the limiter means for the request.
global_outcome : Verdict → Local → Local × Outcome GlobalRateLimit
global_outcome (ok (true, info)) l = (cache_info info l, success passed)
global_outcome (ok (false, info)) l =
    (cache_info info l, error 429 (rate_limited "Too many requests, please try again later"))
global_outcome (err e) l = (l, error 500 e)

-- `GlobalRateLimit::from_request`; the limiter is `none` if Rocket does not manage one.
pub global_from_request :
    Option RateLimiter → Clock → Local → Option RateLimiter × Local × Outcome GlobalRateLimit
unfolding global_outcome
global_from_request none clock l = (none, l, error 500 (internal "rate limiter unavailable"))
global_from_request (some rl) clock l =
    let (rl', verdict) = check_global rl clock in
    let (l', outcome) = global_outcome verdict l in (some rl', l', outcome)

-- The headers that `on_response` sets, as numbers that it prints.
pub record RateLimitHeaders : Type 0 where
  pub x_ratelimit_limit : ℕ
  pub x_ratelimit_remaining : ℕ
  pub x_ratelimit_reset : ℕ

pub on_response : Local → Option RateLimitHeaders
on_response l = elim l.rate_limit_info [
  | none ↦ none
  | some info ↦ some (record {
    x_ratelimit_limit = info.limit;
    x_ratelimit_remaining = info.remaining;
    x_ratelimit_reset = info.reset;
  })
]
