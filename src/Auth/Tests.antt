-- ===== src/Auth/Tests.antt =====
-- The guards at a table with a plain key and an administrator's.
use st0x_rest_api.Prelude.{
  ℕ, ◌≤◌, ◌<◌, ◌≡◌, ◌≢◌, refl, ◌↔◌, inl, Bool, true, false, Option, none, some, [], ◌∷◌, ◌++◌,
  get_elem?, ok, err, arith,
}
use st0x_rest_api.Bytes.{
  ByteString, bytes, bytes_eq, to_lower, eq_ignore_ascii_case, is_char_boundary, split_once, lead,
  utf8_step, is_complete, is_utf8,
}
use st0x_rest_api.ApiError.{unauthorized}
use st0x_rest_api.RateLimiter.{
  RateLimiter, new, Clock, prune_window, compute_reset, admit, retain_window, next_count, cleanup,
  check_per_key,
}
use st0x_rest_api.ApiKeys.{ApiKeyRow, Db, find_active, revoke_key, deactivate}
use st0x_rest_api.Guards.{Outcome, success, error, Local}
use st0x_rest_api.Auth.{
  Crypto, AuthenticatedKey, panics, split_header, encoded_part, decode_credentials,
  parse_credentials, verify_credentials, authenticate, set_auth_key_id, key_of_row, key_outcome,
  limit_key, conclude, key_from_request, admin_from_request,
}
use st0x_rest_api.Auth.Laws.{IsGenuine, key_from_request-IsGenuine, revoked_key-ne}
use st0x_rest_api.Auth.Header.{parse_credentials-panics_iff, parse_credentials-join}
use st0x_rest_api.Auth.Admin.{admin_from_request_iff}

-- Encoding that changes nothing, and hashes that are the secrets.
abbrev plain_crypto : Crypto
plain_crypto = record {
  base64_decode = λ encoded. some encoded;
  is_password_hash = λ hash. true;
  verify_password = λ secret hash. bytes_eq secret hash;
}

abbrev row : ℕ → ByteString → Bool → ApiKeyRow
row id key_id is_admin = record {
  id = id;
  key_id = key_id;
  secret_hash = bytes "s3";
  label = "desk";
  owner = "Alice";
  active = true;
  is_admin = is_admin;
  created_at = "2024-01-01";
  updated_at = "2024-01-01";
}

abbrev db : Db
db = record {
  api_keys = row 1 (bytes "al") false ∷ row 2 (bytes "root") true ∷ [];
  next_id = 3;
  reachable = true;
}

abbrev db_after : Db
db_after = record db {
  api_keys =
      row 1 (bytes "al") false
      ∷ record (row 2 (bytes "root") true) { active = false; updated_at = "2024-02-02" }
      ∷ [];
}

abbrev clock : Clock
clock = record { now = 100000000000; now_unix = 1700000000 }

abbrev fresh : Local
fresh = record { auth_key_id = none; rate_limit_info = none }

abbrev al_sends : Option ByteString
al_sends = some (bytes "Basic al:s3")

abbrev al_key : AuthenticatedKey
al_key = record { id = 1; key_id = bytes "al"; label = "desk"; owner = "Alice"; is_admin = false }

abbrev outcome_of : Db → Option RateLimiter × Local × Outcome AuthenticatedKey
outcome_of database =
    key_from_request plain_crypto (some database) (some (new 5 2)) al_sends clock fresh

al_passes : (outcome_of db).2 ≡ success al_key
unfolding key_from_request conclude authenticate parse_credentials encoded_part split_header
    decode_credentials verify_credentials limit_key set_auth_key_id key_outcome key_of_row bytes_eq
    to_lower eq_ignore_ascii_case is_char_boundary split_once lead utf8_step is_complete is_utf8 new
    prune_window compute_reset admit retain_window next_count cleanup check_per_key find_active
al_passes = refl

al_passes_after : (outcome_of db_after).2 ≡ success al_key
unfolding key_from_request conclude authenticate parse_credentials encoded_part split_header
    decode_credentials verify_credentials limit_key set_auth_key_id key_outcome key_of_row bytes_eq
    to_lower eq_ignore_ascii_case is_char_boundary split_once lead utf8_step is_complete is_utf8 new
    prune_window compute_reset admit retain_window next_count cleanup check_per_key find_active
al_passes_after = refl

whole :
    (r : Option RateLimiter × Local × Outcome AuthenticatedKey) (o : Outcome AuthenticatedKey)
    → r.2 ≡ o
    → r ≡ (r.0, r.1, o)
whole r o h = cc

key_from_request-IsGenuine_example :
    IsGenuine plain_crypto (some db) (some (new 5 2)) al_sends clock al_key
key_from_request-IsGenuine_example =
    key_from_request-IsGenuine plain_crypto (some db) (some (new 5 2)) al_sends clock fresh
      (outcome_of db).0 (outcome_of db).1 al_key (whole (outcome_of db) (success al_key) al_passes)

no_header :
    key_from_request plain_crypto (some db) (some (new 5 2)) none clock fresh
    ≡ (some (new 5 2), fresh, error 401 (unauthorized "missing Authorization header"))
unfolding key_from_request conclude authenticate parse_credentials
no_header = refl

revokes_root : revoke_key db (bytes "root") "2024-02-02" ≡ ok db_after
unfolding revoke_key deactivate bytes_eq
revokes_root = refl

revoked_key-ne_example : al_key.key_id ≢ bytes "root"
revoked_key-ne_example =
    revoked_key-ne plain_crypto db db_after (bytes "root") "2024-02-02" (some (new 5 2)) al_sends
      clock fresh (outcome_of db_after).0 (outcome_of db_after).1 al_key (inl revokes_root)
      (whole (outcome_of db_after) (success al_key) al_passes_after)

admin_from_request_iff_example :
    (((admin_from_request plain_crypto (some db) (some (new 5 2)) al_sends clock fresh).2
        ≡ success (record { key = al_key }))
      ↔ (((outcome_of db).2 ≡ success al_key) × (al_key.is_admin ≡ true)))
    × ((admin_from_request plain_crypto (some db) (some (new 5 2)) al_sends clock fresh).0
        ≡ (outcome_of db).0)
    × ((admin_from_request plain_crypto (some db) (some (new 5 2)) al_sends clock fresh).1
        ≡ (outcome_of db).1)
admin_from_request_iff_example =
    admin_from_request_iff plain_crypto (some db) (some (new 5 2)) al_sends clock fresh al_key

-- `Bearé`: the sixth position lies inside the last character.
abbrev bad_header : ByteString
bad_header = bytes "Beare" ++ 0xc3 ∷ 0xa9 ∷ []

parse_credentials-panics_iff_example :
    (parse_credentials plain_crypto (some bad_header) ≡ err panics)
    ↔ ((c : ℕ) × (get_elem? bad_header 6 ≡ some c) × (0x80 ≤ c) × (c < 0xc0))
parse_credentials-panics_iff_example = parse_credentials-panics_iff plain_crypto bad_header

al_is_utf8 : is_utf8 (bytes "al" ++ b':' ∷ bytes "s3") ≡ true
unfolding is_utf8 lead utf8_step is_complete
al_is_utf8 = refl

parse_credentials-join_example :
    parse_credentials plain_crypto (some (bytes "bAsIc " ++ bytes "al:s3"))
    ≡ ok (bytes "al", bytes "s3")
unfolding eq_ignore_ascii_case to_lower
parse_credentials-join_example =
    parse_credentials-join plain_crypto (bytes "bAsIc ") (bytes "al:s3") (bytes "al") (bytes "s3")
      refl (omega arith, (omega arith, (omega arith, (omega arith, (omega arith, tt))))) refl
      al_is_utf8 ((λ e. absurd (omega arith)), ((λ e. absurd (omega arith)), tt))
