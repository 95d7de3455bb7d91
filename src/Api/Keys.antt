-- ===== src/Api/Keys.antt =====
-- `api_keys_create` and `api_keys_delete` of src/api/keys.c, and the keys that are generated.
pub mod Granted
use cyrenus.Http.Hash.{hash_api_key, Digest}
use cyrenus.Http.Database.{database_create_api_key, database_delete_api_key, NewKey, Sqlite}
use cyrenus.Api.Json.{key_body, respond, Response, JsonC}
use cyrenus.Prelude.{
  ◌-◌, not, ◌^◌, ◌*◌, zero, ◌∷◌, ◌+◌, ◌%◌, ◌&&◌, get_elem?, ltb, ◌++◌, if◌then◌else◌, none, suc,
  codes, [], some, some, some, Text, Option, ℕ, take,
}

-- The alphabet of the keys.
abbrev pub charset : Text
charset = codes "abcdefghijklmnopqrstuvwxyzABCDEFGHIJKLMNOPQRSTUVWXYZ0123456789"

abbrev pub char_or_zero : Option ℕ → ℕ
char_or_zero none = 0
char_or_zero (some c) = c

-- The loop of `generate_api_key`: `n` characters, of which the first takes the call `i` of rand().
unfoldable pub random_chars : (ℕ → ℕ) → ℕ → ℕ → Text
random_chars rand i zero = []
random_chars rand i (suc n) =
    char_or_zero (get_elem? charset (rand i % 62)) ∷ random_chars rand (suc i) n

-- In a buffer of 64 bytes: the prefix, and 57 characters.
unfoldable pub generate_api_key : (ℕ → ℕ) → Text
generate_api_key rand = codes "cyr_k_" ++ random_chars rand 0 57

module _ {J : Type 0} (json : JsonC J) where
  abbrev pub text_or : Option J → Text → Text
  text_or none default = default
  text_or (some j) default = json.get_string j

  -- `if (days > 0) expires_at = time(NULL) + (days * 86400);`, as it is bound: NULL where it is not
  -- above 0. The product is one of two ints: beyond 24855 days C leaves it open, and the machine's
  -- keeps its low 32 bits, of which the highest is the sign.
  abbrev pub expiry : ℕ → Option J → Option ℕ
  expiry now none = none
  expiry now (some j_expires) =
      let days = json.get_int j_expires in
      let product = days * 86400 % 2 ^ 32 in
      if not (ltb 0 days && ltb days (2 ^ 31))
      then none
      else if ltb product (2 ^ 31)
      then some (now + product)
      else if ltb (2 ^ 32 - product) now
      then some (now - (2 ^ 32 - product))
      else none

  -- The record as it is bound. The prefix has 8 bytes of the key and no end of its own, so that the
  -- permissions, the next member of the struct, follow it.
  unfoldable pub new_key : Text → Text → ℕ → J → NewKey
  new_key raw_key hash now root =
      let perms = take 63 (text_or (json.get_ex root (codes "permissions")) (codes "read,write")) in
      record {
        name = take 63 (text_or (json.get_ex root (codes "name")) (codes "API Key"));
        key_hash = take 127 hash;
        key_prefix = take 8 raw_key ++ perms;
        permissions = perms;
        expires_at = expiry now (json.get_ex root (codes "expires_in_days"));
      }

  module _ {Db : Type 0} (sql : Sqlite Db) (evp_sha256 : Text → Digest) where
    abbrev pub created_key : Db → Text → Option Db → Response × Db
    created_key db raw_key none = (respond 500 [], db)
    created_key db raw_key (some db') = (record { status = 200; body = key_body raw_key }, db')

    abbrev pub create_key_for : Db → Text → ℕ → Option J → Response × Db
    create_key_for db raw_key now none = (respond 400 [], db)
    create_key_for db raw_key now (some root) = created_key db raw_key (
        database_create_api_key sql db (new_key raw_key (hash_api_key evp_sha256 raw_key) now root))

    unfoldable pub api_keys_create : Db → (ℕ → ℕ) → ℕ → Option Text → Response × Db
    api_keys_create db rand now upload_data =
        create_key_for db (generate_api_key rand) now (json.tokener_parse upload_data)

    abbrev pub delete_key_by : Db → Option J → Db
    delete_key_by db none = db
    delete_key_by db (some j_id) = database_delete_api_key sql db (json.get_int j_id)

    abbrev pub delete_key_of : Db → Option J → Response × Db
    delete_key_of db none = (respond 400 [], db)
    delete_key_of db (some root) = (
      respond 200 (codes "{\"status\":\"deleted\"}"),
      delete_key_by db (json.get_ex root (codes "id")),
    )

    unfoldable pub api_keys_delete : Db → Option Text → Response × Db
    api_keys_delete db upload_data = delete_key_of db (json.tokener_parse upload_data)
