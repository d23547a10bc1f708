-- ===== src/ApiKeys.antt =====
-- The table `api_keys` and the key commands of src/cli.rs. The table is the list of its rows;
-- identifiers and hashes are byte strings. The column `key_id` is unique (migrations/), and `id`
-- is assigned by the database. What is printed is left out.
pub mod Laws
mod Tests
use Prim.Native.Nat.{Ordering}
use Prim.Native.String.{compare}
use st0x_rest_api.Prelude.{
  ℕ, suc, ◌+◌, Bool, true, false, ◌&&◌, not, Option, none, some, List, [], ◌∷◌, ◌++◌, String, ◌==◌,
  if◌then◌else◌, any, keep, find, map, length, Result, ok, err, ◌>>=◌, ◌>>◌, guard, ok_or,
}
use st0x_rest_api.Bytes.{ByteString, bytes_eq}

pub record ApiKeyRow : Type 0 where
  pub id : ℕ
  pub key_id : ByteString
  pub secret_hash : ByteString
  pub label : String
  pub owner : String
  pub active : Bool
  pub is_admin : Bool
  pub created_at : String
  pub updated_at : String

-- The database, which may be out of reach: every query then fails and changes nothing.
pub record Db : Type 0 where
  pub api_keys : List ApiKeyRow
  pub next_id : ℕ
  pub reachable : Bool

-- The errors of the key commands, by their texts' fixed parts.
pub data KeyError : Type 0 where
  failed_to_hash : KeyError
  failed_to_insert : KeyError
  failed_to_query : KeyError
  failed_to_revoke : KeyError
  failed_to_delete : KeyError
  key_not_found : ByteString → KeyError

abbrev pub has_key_id : ByteString → ApiKeyRow → Bool
has_key_id key_id row = bytes_eq row.key_id key_id

abbrev pub is_active_key : ByteString → ApiKeyRow → Bool
is_active_key key_id row = has_key_id key_id row && row.active

-- What `create_key` draws at random or takes from the clock: the identifier, and the hash of the
-- fresh secret, if hashing succeeds.
pub record NewKey : Type 0 where
  pub key_id : ByteString
  pub secret_hash : Option ByteString
  pub label : String
  pub owner : String
  pub admin : Bool
  pub datetime : String

unfoldable pub create_key : Db → NewKey → Result KeyError Db
create_key db key = do
  secret_hash ← ok_or key.secret_hash failed_to_hash
  guard db.reachable failed_to_insert
  guard (not (any (has_key_id key.key_id) db.api_keys)) failed_to_insert
  ok (record db {
    api_keys =
        db.api_keys
        ++ record {
          id = db.next_id;
          key_id = key.key_id;
          secret_hash = secret_hash;
          label = key.label;
          owner = key.owner;
          active = true;
          is_admin = key.admin;
          created_at = key.datetime;
          updated_at = key.datetime;
        }
          ∷ [];
    next_id = suc db.next_id;
  })

-- `ORDER BY created_at DESC`: texts in the order of their bytes, the greatest one first. Of rows with
-- the same text, whose order the query leaves open, the later one of the table comes last.
unfoldable pub insert_latest : ApiKeyRow → List ApiKeyRow → List ApiKeyRow
insert_latest row [] = row ∷ []
insert_latest row (other ∷ rows) =
    let later = insert_latest row rows in
    elim (compare row.created_at other.created_at) [
      | Ordering.lt ↦ other ∷ later
      | _ ↦ row ∷ other ∷ rows
    ]

unfoldable pub latest_first : List ApiKeyRow → List ApiKeyRow
latest_first [] = []
latest_first (row ∷ rows) = insert_latest row (latest_first rows)

unfoldable pub list_keys : Db → Result KeyError (List ApiKeyRow)
list_keys db = if db.reachable then ok (latest_first db.api_keys) else err failed_to_query

-- The row after `UPDATE ... SET active = 0`, with the trigger that stamps `updated_at`.
unfoldable pub deactivate : ByteString → String → ApiKeyRow → ApiKeyRow
deactivate key_id datetime row =
    if has_key_id key_id row then record row { active = false; updated_at = datetime } else row

unfoldable pub revoke_key : Db → ByteString → String → Result KeyError Db
unfolding deactivate
revoke_key db key_id datetime = do
  guard db.reachable failed_to_revoke
  guard (any (has_key_id key_id) db.api_keys) (key_not_found key_id)
  ok (record db { api_keys = map (deactivate key_id datetime) db.api_keys })

unfoldable pub delete_key : Db → ByteString → Result KeyError Db
delete_key db key_id = do
  guard db.reachable failed_to_delete
  guard (any (has_key_id key_id) db.api_keys) (key_not_found key_id)
  ok (record db { api_keys = keep (λ row. not (has_key_id key_id row)) db.api_keys })

-- The lookup of src/auth.rs: `SELECT ... WHERE key_id = ? AND active = 1`.
unfoldable pub find_active : Db → ByteString → Option ApiKeyRow
find_active db key_id = find (is_active_key key_id) db.api_keys
