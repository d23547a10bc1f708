-- ===== src/Auth.antt =====
-- src/auth.rs: the guard `AuthenticatedKey` (basic authentication against the table of keys, then
-- the key's rate limit) and the guard `AdminKey`. Base64 and Argon2 are outside the repository and
-- enter as a record of functions.
pub mod Laws
pub mod Header
pub mod Admin
mod Tests
use st0x_rest_api.Prelude.{
  ℕ, Bool, true, false, ◌||◌, not, Option, none, some, List, [], ◌∷◌, String, ltb, if◌then◌else◌,
  length, take, drop, Result, ok, err, ◌>>=◌, ◌>>◌, guard, ok_or,
}
use st0x_rest_api.Bytes.{
  ByteString, bytes, eq_ignore_ascii_case, is_char_boundary, split_once, is_utf8,
}
use st0x_rest_api.ApiError.{ApiError, internal, unauthorized, forbidden, rate_limited}
use st0x_rest_api.RateLimiter.{RateLimiter, Clock, check_per_key, Verdict}
use st0x_rest_api.ApiKeys.{ApiKeyRow, Db, find_active}
use st0x_rest_api.Guards.{Outcome, success, error, forward, panicked, Local, cache_info}

pub record Crypto : Type 0 where
  pub base64_decode : ByteString → Option ByteString
  pub is_password_hash : ByteString → Bool
  pub verify_password : ByteString → ByteString → Bool

pub record AuthenticatedKey : Type 0 where
  pub id : ℕ
  pub key_id : ByteString
  pub label : String
  pub owner : String
  pub is_admin : Bool

-- A request that ends before the rate limit: the guard's error outcome, or a panic.
pub data Rejection : Type 0 where
  denied : ℕ → ApiError → Rejection
  panics : Rejection

abbrev pub Checked {ℓ} : Type ℓ → Type ℓ
Checked A = Result Rejection A

abbrev basic_prefix : ByteString
basic_prefix = bytes "Basic "

abbrev deny : String → Rejection
deny msg = denied 401 (unauthorized msg)

-- `&header[..6]` and `&header[6..]` panic inside a character.
split_header : ByteString → Checked (ByteString × ByteString)
split_header header =
    if is_char_boundary header 6 then ok (take 6 header, drop 6 header) else err panics

encoded_part : ByteString → Checked ByteString
unfolding split_header
encoded_part header =
    if ltb (length header) 6 then err (deny "invalid Authorization scheme") else (do
      parts ← split_header header
      guard (eq_ignore_ascii_case parts.0 basic_prefix) (deny "invalid Authorization scheme")
      ok parts.1)

decode_credentials : Crypto → ByteString → Checked (ByteString × ByteString)
decode_credentials crypto encoded = do
  credentials ← ok_or (crypto.base64_decode encoded) (deny "invalid base64 encoding")
  guard (is_utf8 credentials) (deny "invalid credentials encoding")
  ok_or (split_once b':' credentials) (deny "invalid credentials format")

pub parse_credentials : Crypto → Option ByteString → Checked (ByteString × ByteString)
parse_credentials crypto authorization = do
  header ← ok_or authorization (deny "missing Authorization header")
  encoded ← encoded_part header
  decode_credentials crypto encoded

-- The row of an active key whose stored hash accepts the secret.
pub verify_credentials : Crypto → Db → ByteString × ByteString → Checked ApiKeyRow
verify_credentials crypto db (key_id, secret) = do
  guard db.reachable (denied 500 (internal "authentication check failed"))
  row ← ok_or (find_active db key_id) (deny "invalid credentials")
  guard (crypto.is_password_hash row.secret_hash)
      (denied 500 (internal "authentication check failed"))
  guard (crypto.verify_password secret row.secret_hash) (deny "invalid credentials")
  ok row

pub authenticate : Crypto → Option Db → Option ByteString → Checked ApiKeyRow
authenticate crypto none authorization = err (denied 500 (internal "database unavailable"))
authenticate crypto (some db) authorization =
    parse_credentials crypto authorization >>= verify_credentials crypto db

-- `req.local_cache(|| AuthKeyId(Some(row.id)))`: the first value stays.
set_auth_key_id : ℕ → Local → Local
set_auth_key_id id l = elim l.auth_key_id [
  | none ↦ record l { auth_key_id = some (some id) }
  | some old ↦ l
]

pub key_of_row : ApiKeyRow → AuthenticatedKey
key_of_row row = record {
  id = row.id;
  key_id = row.key_id;
  label = row.label;
  owner = row.owner;
  is_admin = row.is_admin;
}

key_outcome : ApiKeyRow → Verdict → Local → Local × Outcome AuthenticatedKey
unfolding key_of_row
key_outcome row (ok (true, info)) l = (cache_info info l, success (key_of_row row))
key_outcome row (ok (false, info)) l =
    (cache_info info l, error 429 (rate_limited "Too many requests, please try again later"))
key_outcome row (err e) l = (l, error 500 e)

-- The part after a successful verification.
limit_key :
    Option RateLimiter
    → ApiKeyRow
    → Clock
    → Local
    → Option RateLimiter × Local × Outcome AuthenticatedKey
unfolding key_outcome
limit_key none row clock l = (none, l, error 500 (internal "rate limiter unavailable"))
limit_key (some rl) row clock l =
    let (rl', verdict) = check_per_key rl row.id clock in
    let (l', outcome) = key_outcome row verdict l in (some rl', l', outcome)

-- How the guard ends, given the result of the authentication.
conclude :
    Option RateLimiter
    → Clock
    → Local
    → Checked ApiKeyRow
    → Option RateLimiter × Local × Outcome AuthenticatedKey
unfolding limit_key set_auth_key_id
conclude limiter clock l (err (denied status e)) = (limiter, l, error status e)
conclude limiter clock l (err panics) = (limiter, l, panicked)
conclude limiter clock l (ok row) = limit_key limiter row clock (set_auth_key_id row.id l)

-- `AuthenticatedKey::from_request`.
pub key_from_request :
    Crypto
    → Option Db
    → Option RateLimiter
    → Option ByteString
    → Clock
    → Local
    → Option RateLimiter × Local × Outcome AuthenticatedKey
unfolding conclude
key_from_request crypto db limiter authorization clock l =
    conclude limiter clock l (authenticate crypto db authorization)

pub record AdminKey : Type 0 where
  pub key : AuthenticatedKey

require_admin : Outcome AuthenticatedKey → Outcome AdminKey
require_admin (success key) =
    if key.is_admin
    then success (record { key = key })
    else error 403 (forbidden "admin access required")
require_admin (error status e) = error status e
require_admin (forward status) = forward status
require_admin panicked = panicked

-- `AdminKey::from_request`.
pub admin_from_request :
    Crypto
    → Option Db
    → Option RateLimiter
    → Option ByteString
    → Clock
    → Local
    → Option RateLimiter × Local × Outcome AdminKey
unfolding require_admin
admin_from_request crypto db limiter authorization clock l =
    let (limiter', l', outcome) = key_from_request crypto db limiter authorization clock l in
    (limiter', l', require_admin outcome)
