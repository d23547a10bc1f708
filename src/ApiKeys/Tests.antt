-- ===== src/ApiKeys/Tests.antt =====
-- The theorems on the key commands at a table of two keys.
use st0x_rest_api.Prelude.{◌≡◌, refl, true, false, some, [], ◌∷◌, ok}
use st0x_rest_api.Bytes.{bytes, bytes_eq}
use st0x_rest_api.ApiKeys.{
  ApiKeyRow, Db, NewKey, list_keys, latest_first, insert_latest, create_key, find_active,
}
use st0x_rest_api.ApiKeys.Laws.{find_active-create_key}

abbrev alice : ApiKeyRow
alice = record {
  id = 1;
  key_id = bytes "alice";
  secret_hash = bytes "hash1";
  label = "desk";
  owner = "Alice";
  active = true;
  is_admin = false;
  created_at = "2024-01-01";
  updated_at = "2024-01-01";
}

abbrev bob : ApiKeyRow
bob = record alice { id = 2; key_id = bytes "bob" }

abbrev two_keys : Db
two_keys = record { api_keys = alice ∷ bob ∷ []; next_id = 3; reachable = true }

abbrev carol : NewKey
carol = record {
  key_id = bytes "carol";
  secret_hash = some (bytes "hash3");
  label = "bot";
  owner = "Carol";
  admin = true;
  datetime = "2024-03-03";
}

abbrev carols_row : ApiKeyRow
carols_row = record {
  id = 3;
  key_id = bytes "carol";
  secret_hash = bytes "hash3";
  label = "bot";
  owner = "Carol";
  active = true;
  is_admin = true;
  created_at = "2024-03-03";
  updated_at = "2024-03-03";
}

abbrev three_keys : Db
three_keys = record { api_keys = alice ∷ bob ∷ carols_row ∷ []; next_id = 4; reachable = true }

creates_carol : create_key two_keys carol ≡ ok three_keys
unfolding create_key bytes_eq
creates_carol = refl

find_active-create_key_example : find_active three_keys (bytes "carol") ≡ some carols_row
find_active-create_key_example =
    find_active-create_key two_keys three_keys carol (bytes "hash3") refl creates_carol

-- The key that was created last is listed first.
listed : list_keys three_keys ≡ ok (carols_row ∷ alice ∷ bob ∷ [])
unfolding list_keys latest_first insert_latest
listed = refl
