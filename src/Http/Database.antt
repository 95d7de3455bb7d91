-- ===== src/Http/Database.antt =====
-- The sessions and the keys of src/database.c: what the functions make of the statements that
-- SQLite runs for them.
use cyrenus.Prelude.{take, none, some, [], Option, Text, ℕ}
use cyrenus.Http.Types.{SessionRecord}

-- What sqlite3_prepare_v2 and sqlite3_step come to: no statement, a row, the end, or an error.
pub data Step (A : Type 0) : Type 0 where
  not_prepared : Step A
  row : A → Step A
  done : Step A
  failed : Step A

-- The columns that are read of a key.
pub record ApiKeyRecord : Type 0 where
  pub id : ℕ
  pub name : Option Text
  pub permissions : Option Text

-- The values that are bound for a new key; `none` is NULL.
pub record NewKey : Type 0 where
  pub name : Text
  pub key_hash : Text
  pub key_prefix : Text
  pub permissions : Text
  pub expires_at : Option ℕ

-- The statements, at the values bound to them; the numbers are readings of the clock.
pub record Sqlite (Db : Type 0) : Type 0 where
  pub select_session : Db → Text → ℕ → Step SessionRecord
  pub insert_session : Db → SessionRecord → Step Unit × Db
  pub select_api_key : Db → Text → ℕ → Step ApiKeyRecord
  pub update_api_key : Db → ℕ → ℕ → Step Unit × Db
  pub insert_api_key : Db → NewKey → Step Unit × Db
  pub delete_api_key : Db → ℕ → Step Unit × Db

-- The row that was found, in the arrays of the struct; `none` is -1.
abbrev pub stored_session : Step SessionRecord → Option SessionRecord
stored_session (row r) = some (record {
  user_id = take 36 r.user_id;
  session_id = take 36 r.session_id;
  token = take 64 r.token;
  expires_at = r.expires_at;
})
stored_session _ = none

-- `text ? text : ""`
abbrev pub text_or_empty : Option Text → Text
text_or_empty none = []
text_or_empty (some text) = text

abbrev pub stored_api_key : Step ApiKeyRecord → Option ApiKeyRecord
stored_api_key (row r) = some (record {
  id = r.id;
  name = some (take 63 (text_or_empty r.name));
  permissions = some (take 63 (text_or_empty r.permissions));
})
stored_api_key _ = none

abbrev pub ok_when_done {ℓ} : {A : Type ℓ} → Step Unit → A → Option A
ok_when_done done a = some a
ok_when_done _ a = none

module _ {Db : Type 0} (sql : Sqlite Db) where
  unfoldable pub database_get_session : Db → ℕ → Text → Option SessionRecord
  database_get_session db time token = stored_session (sql.select_session db token time)

  unfoldable pub database_insert_session : Db → SessionRecord → Option Db
  database_insert_session db session = let r = sql.insert_session db session in ok_when_done r.0 r.1

  unfoldable pub database_validate_api_key : Db → ℕ → Text → Option ApiKeyRecord
  database_validate_api_key db time key_hash = stored_api_key (sql.select_api_key db key_hash time)

  -- The callers do not look at the result.
  unfoldable pub database_update_api_key_last_used : Db → ℕ → ℕ → Db
  database_update_api_key_last_used db time id = (sql.update_api_key db time id).1

  -- An expiry of 0 is stored as NULL.
  unfoldable pub database_create_api_key : Db → NewKey → Option Db
  database_create_api_key db key = let r = sql.insert_api_key db key in ok_when_done r.0 r.1

  -- The caller does not look at the result.
  unfoldable pub database_delete_api_key : Db → ℕ → Db
  database_delete_api_key db id = (sql.delete_api_key db id).1
