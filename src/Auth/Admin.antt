-- ===== src/Auth/Admin.antt =====
-- The guard `AdminKey`.
use st0x_rest_api.Prelude.{◌≡◌, refl, ◌↔◌, true, false, Option, arith}
use st0x_rest_api.Bytes.{ByteString}
use st0x_rest_api.ApiError.{forbidden}
use st0x_rest_api.RateLimiter.{RateLimiter, Clock}
use st0x_rest_api.ApiKeys.{Db}
use st0x_rest_api.Guards.{Outcome, success, error, forward, panicked, Local}
use st0x_rest_api.Auth.{
  Crypto, AuthenticatedKey, require_admin, key_from_request, admin_from_request,
}

require_admin-success_iff :
    (o : Outcome AuthenticatedKey) (key : AuthenticatedKey)
    → (require_admin o ≡ success (record { key = key }))
      ↔ ((o ≡ success key) × (key.is_admin ≡ true))
unfolding require_admin
require_admin-success_iff (success k) key =
    (λ h. (ground arith, ground arith), λ (e, admin). ground arith)
require_admin-success_iff (error status e) key = (λ h. cc, λ (e, admin). cc)
require_admin-success_iff (forward status) key = (λ h. cc, λ (e, admin). cc)
require_admin-success_iff panicked key = (λ h. cc, λ (e, admin). cc)

-- The administrator's guard accepts exactly the requests that the plain guard accepts with a key
-- marked as an administrator's, and hands on that key; the limiter and the caches are left as the
-- plain guard leaves them.
pub admin_from_request_iff :
    (crypto : Crypto) (db : Option Db) (limiter : Option RateLimiter)
    (authorization : Option ByteString) (clock : Clock) (l : Local) (key : AuthenticatedKey)
    → (((admin_from_request crypto db limiter authorization clock l).2
          ≡ success (record { key = key }))
        ↔ (((key_from_request crypto db limiter authorization clock l).2 ≡ success key)
            × (key.is_admin ≡ true)))
      × ((admin_from_request crypto db limiter authorization clock l).0
          ≡ (key_from_request crypto db limiter authorization clock l).0)
      × ((admin_from_request crypto db limiter authorization clock l).1
          ≡ (key_from_request crypto db limiter authorization clock l).1)
unfolding admin_from_request
admin_from_request_iff crypto db limiter authorization clock l key = (
  require_admin-success_iff (key_from_request crypto db limiter authorization clock l).2 key,
  refl,
  refl,
)

-- A request that authenticates with a key that is no administrator's is answered 403.
pub admin_from_request_forbidden :
    (crypto : Crypto) (db : Option Db) (limiter : Option RateLimiter)
    (authorization : Option ByteString) (clock : Clock) (l : Local) (key : AuthenticatedKey)
    → (key_from_request crypto db limiter authorization clock l).2 ≡ success key
    → key.is_admin ≡ false
    → (admin_from_request crypto db limiter authorization clock l).2
      ≡ error 403 (forbidden "admin access required")
unfolding admin_from_request require_admin
admin_from_request_forbidden crypto db limiter authorization clock l key h plain =
    rw (h, require_admin, plain)
