-- ===== src/Http/Guard.antt =====
-- The check of the caller in `handle_request`: a session that has not expired, or an API key.
use cyrenus.Http.Hash.{hash_api_key, Digest}
use cyrenus.Http.Types.{Request, SessionRecord}
use cyrenus.Http.Database.{
  database_get_session, database_update_api_key_last_used, database_validate_api_key, ApiKeyRecord,
  Sqlite,
}
use cyrenus.Prelude.{
  drop, ltb, codes, false, true, none, starts_with, Bool, some, some, if◌then◌else◌, Text, Option,
  ℕ,
}

-- The readings of time(NULL) of one request: at the lookup of the session and after it, at the
-- lookup of the key, and where its last use is stored.
pub record Times : Type 0 where
  pub at_lookup : ℕ
  pub at_check : ℕ
  pub at_key : ℕ
  pub at_use : ℕ

-- if (strncmp(token, "Bearer ", 7) == 0) token += 7;
unfoldable pub skip_bearer : Text → Text
skip_bearer token = if starts_with (codes "Bearer ") token then drop 7 token else token

-- The session that was found has not expired.
abbrev pub is_live : ℕ → Option SessionRecord → Bool
is_live time none = false
is_live time (some session) = ltb time session.expires_at

abbrev pub key_id : Option ApiKeyRecord → Option ℕ
key_id none = none
key_id (some key_rec) = some key_rec.id

module _ {Db : Type 0} (sql : Sqlite Db) (evp_sha256 : Text → Digest) where
  unfoldable pub has_session : Db → Times → Option Text → Bool
  has_session db times none = false
  has_session db times (some auth_header) =
      is_live times.at_check (database_get_session sql db times.at_lookup (skip_bearer auth_header))

  -- The id of the key of a caller that has one.
  unfoldable pub api_key_id : Db → Times → Option Text → Option ℕ
  api_key_id db times none = none
  api_key_id db times (some api_key) =
      key_id (database_validate_api_key sql db times.at_key (hash_api_key evp_sha256 api_key))

  abbrev pub with_key : Db → Times → Option ℕ → Bool × Db
  with_key db times none = (false, db)
  with_key db times (some id) = (true, database_update_api_key_last_used sql db times.at_use id)

  unfoldable pub authenticate : Db → Times → Request → Bool × Db
  authenticate db times r =
      if has_session db times r.authorization
      then (true, db)
      else with_key db times (api_key_id db times r.api_key)
