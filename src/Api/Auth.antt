-- ===== src/Api/Auth.antt =====
-- `create_session` and the handlers of src/api/auth.c.
pub mod Login
pub mod Verify
use cyrenus.Http.Guard.{skip_bearer, Times}
use cyrenus.Http.Types.{SessionRecord}
use cyrenus.Http.Hash.{hex}
use cyrenus.Http.Database.{database_get_session, database_insert_session, Sqlite}
use cyrenus.Api.Json.{session_body, respond, JsonC, Response}
use cyrenus.Prelude.{
  decimal, zero, ◌∷◌, ◌%◌, ◌&&◌, ◌/◌, ◌++◌, ◌+◌, codes, str_eq, ltb, none, [], if◌then◌else◌, suc,
  some, Text, Option, ℕ, drop, take,
}

-- What login and verify are given: uuid_generate and uuid_unparse, twice, time(NULL), and the
-- digest of OpenSSL.
pub record Fresh : Type 0 where
  pub user_id : Text
  pub session_id : Text
  pub now : ℕ

-- The members of the configuration that login reads.
pub record Credentials : Type 0 where
  pub username : Text
  pub password : Text

-- The token: the digest of the name, the id and the time, of which 255 bytes fit in `data`.
unfoldable pub session_token : (Text → Text) → Text → Fresh → Text
session_token sha256 username fresh =
    take 64 (hex (sha256 (take 255 (username ++ (fresh.session_id ++ decimal fresh.now [])))))

abbrev pub new_session : (Text → Text) → Text → Fresh → SessionRecord
new_session sha256 username fresh = record {
  user_id = fresh.user_id;
  session_id = fresh.session_id;
  token = session_token sha256 username fresh;
  expires_at = fresh.now + 3600;
}

abbrev pub is_valid : Response
is_valid = respond 200 (codes "{\"valid\":true}")

abbrev pub is_invalid : Response
is_invalid = respond 401 (codes "{\"valid\":false}")

module _ {Db : Type 0} (sql : Sqlite Db) (sha256 : Text → Text) where
  abbrev pub with_token : Text → Option Db → Option (Text × Db)
  with_token token none = none
  with_token token (some db) = some (token, db)

  unfoldable pub create_session : Db → Text → Fresh → Option (Text × Db)
  create_session db username fresh =
      let s = new_session sha256 username fresh in
      with_token s.token (database_insert_session sql db s)

  abbrev pub logged_in : Db → Option (Text × Db) → Response × Db
  logged_in db none = (respond 500 (codes "{\"error\":\"Session creation failed\"}"), db)
  logged_in db (some (token, db')) = (record { status = 200; body = session_body token 3600 }, db')

  abbrev pub check_credentials : Credentials → Db → Fresh → Text → Text → Response × Db
  check_credentials cfg db fresh username password =
      if str_eq username cfg.username && str_eq password cfg.password
      then logged_in db (create_session db username fresh)
      else (respond 401 (codes "{\"error\":\"Invalid credentials\"}"), db)

  module _ {J : Type 0} (json : JsonC J) where
    abbrev pub login_with : Credentials → Db → Fresh → Option J → Option J → Response × Db
    login_with cfg db fresh (some j_username) (some j_password) =
        check_credentials cfg db fresh (json.get_string j_username) (json.get_string j_password)
    login_with cfg db fresh _ _ = (respond 400 (codes "{\"error\":\"Missing credentials\"}"), db)

    abbrev pub login_body : Credentials → Db → Fresh → Option J → Response × Db
    login_body cfg db fresh none = (respond 400 (codes "{\"error\":\"Invalid JSON\"}"), db)
    login_body cfg db fresh (some root) =
        login_with cfg db fresh (json.get_ex root (codes "username"))
          (json.get_ex root (codes "password"))

    unfoldable pub api_auth_login : Credentials → Db → Fresh → Option Text → Response × Db
    api_auth_login cfg db fresh upload_data =
        login_body cfg db fresh (json.tokener_parse upload_data)

module _ {Db : Type 0} (sql : Sqlite Db) where
  abbrev pub verify_session : ℕ → Option SessionRecord → Response
  verify_session time none = is_invalid
  verify_session time (some s) = if ltb time s.expires_at then is_valid else is_invalid

  unfoldable pub api_auth_verify : Db → Times → Option Text → Response
  api_auth_verify db times none = is_invalid
  api_auth_verify db times (some token) =
      verify_session times.at_check
        (database_get_session sql db times.at_lookup (skip_bearer token))

-- The session is left as it is.
unfoldable pub api_auth_logout : Option Text → Response
api_auth_logout token = respond 200 (codes "{\"status\":\"logged out\"}")
