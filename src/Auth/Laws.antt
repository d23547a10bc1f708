-- ===== src/Auth/Laws.antt =====
-- What the guard `AuthenticatedKey` guarantees to a handler, and what a client has to send.
use st0x_rest_api.Prelude.{
  ◌≡◌, ◌≢◌, refl, ap, ◌⊎◌, true, false, Option, none, some, List, [], ◌∷◌, arith, find, >>=-eq-ok,
  ok, err, String, Bool-cases, inl, inr,
}
use mathlib.Core.List.{Memᴰ}
use st0x_rest_api.Bytes.{ByteString}
use st0x_rest_api.Bytes.Laws.{bytes_eq_sound}
use st0x_rest_api.ApiError.{ApiError}
use st0x_rest_api.RateLimiter.{RateLimiter, Clock, Verdict, check_per_key, allowed}
use st0x_rest_api.ApiKeys.{ApiKeyRow, Db, is_active_key, find_active, revoke_key, delete_key}
use st0x_rest_api.ApiKeys.Laws.{find_active-revoke_key, find_active-delete_key}
use st0x_rest_api.Guards.{success, error, Local}
use st0x_rest_api.Auth.{
  Crypto, AuthenticatedKey, Checked, denied, panics, parse_credentials, verify_credentials,
  authenticate, key_of_row, key_outcome, set_auth_key_id, key_outcome, limit_key, conclude,
  key_from_request,
}

find_is_active :
    (key_id : ByteString) (rows : List ApiKeyRow) (row : ApiKeyRow)
    → find (is_active_key key_id) rows ≡ some row
    → Memᴰ row rows × (row.key_id ≡ key_id) × (row.active ≡ true)
find_is_active key_id [] row h = cc
find_is_active key_id (r ∷ rows) row h = elim (Bool-cases (is_active_key key_id r)) [
  | inl hit ↦
      (Memᴰ.head (ground arith), ground (arith, bytes_eq_sound row.key_id key_id), ground arith)
  | inr miss ↦
      let (stored, same, active) = find_is_active key_id rows row (ground arith) in
      (Memᴰ.tail stored, same, active)
]

-- What stands behind a successful authentication.
pub record IsGenuine (crypto : Crypto) (db : Option Db) (limiter : Option RateLimiter)
    (authorization : Option ByteString) (clock : Clock) (key : AuthenticatedKey) : Type 0 where
  pub database : Db
  pub row : ApiKeyRow
  pub rate_limiter : RateLimiter
  pub key_id : ByteString
  pub secret : ByteString
  pub has_database : db ≡ some database
  pub sent : parse_credentials crypto authorization ≡ ok (key_id, secret)
  pub found : find_active database key_id ≡ some row
  pub stored : Memᴰ row database.api_keys
  pub same_id : row.key_id ≡ key_id
  pub active : row.active ≡ true
  pub verified : crypto.verify_password secret row.secret_hash ≡ true
  pub has_limiter : limiter ≡ some rate_limiter
  pub within_limit : allowed (check_per_key rate_limiter row.id clock).1 ≡ true
  pub handed_on : key ≡ key_of_row row

verify_credentials_ok :
    (crypto : Crypto) (db : Db) (key_id secret : ByteString) (row : ApiKeyRow)
    → verify_credentials crypto db (key_id, secret) ≡ ok row
    → (find_active db key_id ≡ some row) × (crypto.verify_password secret row.secret_hash ≡ true)
unfolding verify_credentials
verify_credentials_ok crypto db key_id secret row h = ground arith

limit_key_success :
    (limiter : Option RateLimiter) (row : ApiKeyRow) (clock : Clock) (l : Local)
    (limiter' : Option RateLimiter) (l' : Local) (key : AuthenticatedKey)
    → limit_key limiter row clock l ≡ (limiter', l', success key)
    → (rl : RateLimiter) × (limiter ≡ some rl)
      × (allowed (check_per_key rl row.id clock).1 ≡ true)
      × (key ≡ key_of_row row)
unfolding limit_key
limit_key_success none row clock l limiter' l' key h = cc
limit_key_success (some rl) row clock l limiter' l' key h = (rl, refl, ground arith, ground arith)

authenticate_ok :
    (crypto : Crypto) (db : Option Db) (authorization : Option ByteString) (row : ApiKeyRow)
    → authenticate crypto db authorization ≡ ok row
    → (d : Db) × (c : ByteString × ByteString) × (db ≡ some d)
      × (parse_credentials crypto authorization ≡ ok c)
      × (verify_credentials crypto d c ≡ ok row)
unfolding authenticate
authenticate_ok crypto none authorization row h = cc
authenticate_ok crypto (some d) authorization row h =
    let (c, parsed, verified) = >>=-eq-ok (parse_credentials crypto authorization) _ h in
    (d, c, refl, parsed, verified)

conclude_success :
    (limiter : Option RateLimiter) (clock : Clock) (l : Local) (c : Checked ApiKeyRow)
    (limiter' : Option RateLimiter) (l' : Local) (key : AuthenticatedKey)
    → conclude limiter clock l c ≡ (limiter', l', success key)
    → (row : ApiKeyRow) × (c ≡ ok row)
      × (rl : RateLimiter) × (limiter ≡ some rl)
      × (allowed (check_per_key rl row.id clock).1 ≡ true)
      × (key ≡ key_of_row row)
unfolding conclude
conclude_success limiter clock l (ok row) limiter' l' key h =
    let (rl, has_rl, within, handed) = limit_key_success limiter row clock _ limiter' l' key h in
    (row, refl, rl, has_rl, within, handed)
conclude_success limiter clock l (err (denied status e)) limiter' l' key h = cc
conclude_success limiter clock l (err panics) limiter' l' key h = cc

key_outcome-ne-401 :
    (row : ApiKeyRow) (v : Verdict) (l : Local) (e : ApiError)
    → (key_outcome row v l).1 ≢ error 401 e
unfolding key_outcome
key_outcome-ne-401 row (ok (true, info)) l e h = cc
key_outcome-ne-401 row (ok (false, info)) l e h = ground arith
key_outcome-ne-401 row (err d) l e h = ground arith

conclude_401 :
    (limiter : Option RateLimiter) (clock : Clock) (l : Local) (c : Checked ApiKeyRow)
    (limiter' : Option RateLimiter) (l' : Local) (e : ApiError)
    → conclude limiter clock l c ≡ (limiter', l', error 401 e)
    → (limiter' ≡ limiter) × (l' ≡ l)
unfolding conclude
conclude_401 none clock l (ok row) limiter' l' e h = ground arith
conclude_401 (some rl) clock l (ok row) limiter' l' e h = absurd (
    key_outcome-ne-401 row (check_per_key rl row.id clock).1 (set_auth_key_id row.id l) e
      (ap (λ t. t.2) h))
conclude_401 limiter clock l (err (denied status d)) limiter' l' e h = (cc, cc)
conclude_401 limiter clock l (err panics) limiter' l' e h = cc

-- Whoever passes the guard has sent the identifier and the secret of a key of the table that is
-- active, its stored hash accepts the secret, the key's rate limit let the request through, and
-- the handler receives that key's own fields.
pub key_from_request-IsGenuine :
    (crypto : Crypto) (db : Option Db) (limiter : Option RateLimiter)
    (authorization : Option ByteString) (clock : Clock) (l : Local) (limiter' : Option RateLimiter)
    (l' : Local) (key : AuthenticatedKey)
    → key_from_request crypto db limiter authorization clock l ≡ (limiter', l', success key)
    → IsGenuine crypto db limiter authorization clock key
unfolding find_active key_from_request
key_from_request-IsGenuine crypto db limiter authorization clock l limiter' l' key h =
    let (row, authentic, rl, has_rl, within, handed) =
      conclude_success limiter clock l _ limiter' l' key h in
    let (d, (key_id, secret), has_db, sent, verified) =
      authenticate_ok crypto db authorization row authentic in
    let (found, accepts) = verify_credentials_ok crypto d key_id secret row verified in
    let (stored, same, active) = find_is_active key_id d.api_keys row found in
    record {
      database = d;
      row = row;
      rate_limiter = rl;
      key_id = key_id;
      secret = secret;
      has_database = has_db;
      sent = sent;
      found = found;
      stored = stored;
      same_id = same;
      active = active;
      verified = accepts;
      has_limiter = has_rl;
      within_limit = within;
      handed_on = handed;
    }

-- A request whose status is 401 has spent nothing of a key's limit and is attributed to no key:
-- the limiter and the request's caches are as they were.
pub unauthorized_unchanged :
    (crypto : Crypto) (db : Option Db) (limiter : Option RateLimiter)
    (authorization : Option ByteString) (clock : Clock) (l : Local) (limiter' : Option RateLimiter)
    (l' : Local) (e : ApiError)
    → key_from_request crypto db limiter authorization clock l ≡ (limiter', l', error 401 e)
    → (limiter' ≡ limiter) × (l' ≡ l)
unfolding key_from_request
unauthorized_unchanged crypto db limiter authorization clock l limiter' l' e h =
    conclude_401 limiter clock l (authenticate crypto db authorization) limiter' l' e h

revoked_absurd :
    (after d : Db) (revoked key_id : ByteString) (row : ApiKeyRow) (key : AuthenticatedKey)
    → some after ≡ some d
    → find_active d key_id ≡ some row
    → row.key_id ≡ key_id
    → key ≡ key_of_row row
    → key.key_id ≡ revoked
    → find_active after revoked ≡ none
    → ⊥
unfolding key_of_row
revoked_absurd after d revoked key_id row key db found same handed e gone = ground arith

-- A key that was revoked or deleted opens no request any more: whoever passes the guard right
-- after the command is authenticated by another identifier.
pub revoked_key-ne :
    (crypto : Crypto) (before after : Db) (revoked : ByteString) (datetime : String)
    (limiter : Option RateLimiter) (authorization : Option ByteString) (clock : Clock) (l : Local)
    (limiter' : Option RateLimiter) (l' : Local) (key : AuthenticatedKey)
    → (revoke_key before revoked datetime ≡ ok after) ⊎ (delete_key before revoked ≡ ok after)
    → key_from_request crypto (some after) limiter authorization clock l
      ≡ (limiter', l', success key)
    → key.key_id ≢ revoked
revoked_key-ne crypto before after revoked datetime limiter authorization clock l limiter' l' key r
      h same =
    let g =
      key_from_request-IsGenuine crypto (some after) limiter authorization clock l limiter' l' key
        h in
    let gone : find_active after revoked ≡ none = elim r [
      | inl e ↦ find_active-revoke_key before after revoked datetime e
      | inr e ↦ find_active-delete_key before after revoked e
    ] in
    revoked_absurd after g.database revoked g.key_id g.row key g.has_database g.found g.same_id
      g.handed_on same gone
