-- ===== src/Catchers/Tests.antt =====
-- The catcher of the status 429, against the limiter's own error.
use st0x_rest_api.Prelude.{◌≡◌, refl, some, String, arith}
use st0x_rest_api.ApiError.{ErrorResponse, rate_limited, respond_to, parts}
use st0x_rest_api.Catchers.{catchers, catchers-respond_to}

limited_status : (respond_to (rate_limited "slow down") "request-1").status ≡ 429
unfolding respond_to parts
limited_status = refl

catchers-respond_to_example :
    (catcher : String → ErrorResponse) × (catchers
        (respond_to (rate_limited "slow down") "request-1").status
      ≡ some catcher)
    × (record (catcher "request-1") {
      message = (respond_to (rate_limited "slow down") "request-1").message;
    }
        ≡ respond_to (rate_limited "slow down") "request-1")
catchers-respond_to_example =
    catchers-respond_to (rate_limited "slow down") "request-1"
      (λ e. omega (arith, e, limited_status))
