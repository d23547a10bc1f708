-- ===== src/ApiKeys/Laws.antt =====
-- What the key commands promise to the lookup of the authentication.
use st0x_rest_api.Prelude.{
  ◌≡◌, refl, Bool, true, false, not, none, some, List, [], ◌∷◌, ◌++◌, arith, any, keep, find, map,
  ok, String,
}
use st0x_rest_api.Bytes.{ByteString}
use st0x_rest_api.Bytes.Laws.{bytes_eq_refl}
use st0x_rest_api.ApiKeys.{
  ApiKeyRow, Db, has_key_id, is_active_key, NewKey, create_key, deactivate, revoke_key, delete_key,
  find_active,
}

find-deactivate :
    (key_id : ByteString) (datetime : String) (rows : List ApiKeyRow)
    → find (is_active_key key_id) (map (deactivate key_id datetime) rows) ≡ none
unfolding deactivate
find-deactivate key_id datetime [] = refl
find-deactivate key_id datetime (row ∷ rows) = ground (arith, find-deactivate key_id datetime rows)

find-deleted :
    (key_id : ByteString) (rows : List ApiKeyRow)
    → find (is_active_key key_id) (keep (λ row. not (has_key_id key_id row)) rows) ≡ none
find-deleted key_id [] = refl
find-deleted key_id (row ∷ rows) = ground (arith, find-deleted key_id rows)

-- After a successful `revoke` the key is not found by the authentication's lookup.
pub find_active-revoke_key :
    (db db' : Db) (key_id : ByteString) (datetime : String)
    → revoke_key db key_id datetime ≡ ok db'
    → find_active db' key_id ≡ none
unfolding revoke_key find_active
find_active-revoke_key db db' key_id datetime h =
    ground (arith, find-deactivate key_id datetime db.api_keys)

-- After a successful `delete` the key is not found by the authentication's lookup.
pub find_active-delete_key :
    (db db' : Db) (key_id : ByteString)
    → delete_key db key_id ≡ ok db'
    → find_active db' key_id ≡ none
unfolding delete_key find_active
find_active-delete_key db db' key_id h = ground (arith, find-deleted key_id db.api_keys)

find-append_none :
    (p : ApiKeyRow → Bool) (rows : List ApiKeyRow) (row : ApiKeyRow)
    → find p rows ≡ none
    → find p (rows ++ row ∷ []) ≡ find p (row ∷ [])
find-append_none p [] row h = refl
find-append_none p (r ∷ rows) row h = ground (arith, find-append_none p rows row)

find-none_of_any :
    (key_id : ByteString) (rows : List ApiKeyRow)
    → any (has_key_id key_id) rows ≡ false
    → find (is_active_key key_id) rows ≡ none
find-none_of_any key_id [] h = refl
find-none_of_any key_id (row ∷ rows) h = ground (arith, find-none_of_any key_id rows)

-- A key that was created is found by the lookup, active, under its own identifier, and with the
-- hash, label, owner and administrator flag that it was given.
pub find_active-create_key :
    (db db' : Db) (key : NewKey) (hash : ByteString)
    → key.secret_hash ≡ some hash
    → create_key db key ≡ ok db'
    → find_active db' key.key_id
      ≡ some (record {
        id = db.next_id;
        key_id = key.key_id;
        secret_hash = hash;
        label = key.label;
        owner = key.owner;
        active = true;
        is_admin = key.admin;
        created_at = key.datetime;
        updated_at = key.datetime;
      })
unfolding create_key find_active
find_active-create_key db db' key hash e h =
    let fresh : any (has_key_id key.key_id) db.api_keys ≡ false = ground arith in
    ground (
      arith,
      bytes_eq_refl key.key_id,
      find-append_none (is_active_key key.key_id) db.api_keys
          (record {
            id = db.next_id;
            key_id = key.key_id;
            secret_hash = hash;
            label = key.label;
            owner = key.owner;
            active = true;
            is_admin = key.admin;
            created_at = key.datetime;
            updated_at = key.datetime;
          })
          (find-none_of_any key.key_id db.api_keys fresh),
    )
