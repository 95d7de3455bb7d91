-- ===== src/Api/Auth/Login.antt =====
-- What a login gives, and to whom.
use cyrenus.Http.Hash.{Digest}
use cyrenus.Http.Guard.{Times, skip_bearer, is_live, has_session}
use cyrenus.Api.Auth.{
  login_with, login_body, session_token, new_session, create_session, logged_in, Fresh, Credentials,
  api_auth_login,
}
use cyrenus.Api.Json.{session_body, respond, Response, JsonC}
use cyrenus.Http.Types.{SessionRecord}
use cyrenus.Http.Database.{
  database_get_session, stored_session, database_insert_session, row, done, Sqlite,
}
use cyrenus.Prelude.{
  ◌+◌, ◌++◌, false, str_eq→eq, inl, true, str_eq, none, inr, Bool, drop, arith, starts_with, ◌&&◌,
  ◌≢◌, ◌⊎◌, refl, str_eq_refl, codes, ltb, some, if◌then◌else◌, Option, ◌≡◌, Text, ℕ,
}

-- The table of sessions, as SQL documents it: a row that was inserted is selected by its token, if
-- no other has it, as long as it expires later than the time that is asked for.
pub record IsSessionTable {Db : Type 0} (sql : Sqlite Db) : Type 0 where
  pub inserted :
      (db : Db) (s : SessionRecord) (time : ℕ)
      → (sql.insert_session db s).0 ≡ done
      → ((t : ℕ) → sql.select_session db s.token t ≡ done)
      → sql.select_session (sql.insert_session db s).1 s.token time
        ≡ (if ltb time s.expires_at then row s else done)

module _ {J : Type 0} (json : JsonC J) where
  -- The body is JSON with the name and the password of the configuration.
  pub record HasCredentials (cfg : Credentials) (upload_data : Option Text) : Type 0 where
    pub root : J
    pub j_username : J
    pub j_password : J
    pub parsed : json.tokener_parse upload_data ≡ some root
    pub has_username : json.get_ex root (codes "username") ≡ some j_username
    pub has_password : json.get_ex root (codes "password") ≡ some j_password
    pub username_right : json.get_string j_username ≡ cfg.username
    pub password_right : json.get_string j_password ≡ cfg.password

module _ {Db J : Type 0} (sql : Sqlite Db) (sha256 : Text → Text) (json : JsonC J) where
  login-right :
      (cfg : Credentials) (db : Db) (fresh : Fresh) (upload_data : Option Text)
      → HasCredentials json cfg upload_data
      → api_auth_login sql sha256 json cfg db fresh upload_data
        ≡ logged_in sql sha256 db (create_session sql sha256 db cfg.username fresh)
  unfolding api_auth_login
  login-right cfg db fresh upload_data c = rw (c.parsed) (
      rw (c.has_username) (
        rw (c.has_password) (
          rw (c.username_right) (
            rw (c.password_right)
              (rw (str_eq_refl cfg.username) (rw (str_eq_refl cfg.password) refl))))))

  create_session-inserts :
      (db : Db) (username : Text) (fresh : Fresh)
      → (sql.insert_session db (new_session sha256 username fresh)).0 ≡ done
      → create_session sql sha256 db username fresh
        ≡ some (
          session_token sha256 username fresh,
          (sql.insert_session db (new_session sha256 username fresh)).1,
        )
  unfolding create_session database_insert_session
  create_session-inserts db username fresh e = rw e refl

  found_session :
      (time check : ℕ) (s : SessionRecord)
      → is_live check (stored_session (if ltb time s.expires_at then row s else done))
        ≡ (ltb time s.expires_at && ltb check s.expires_at)
  found_session time check s = ground arith

  -- A login with the name and the password of the configuration, where the session can be stored
  -- and its token is not in the table yet, answers with the token; and with the token a caller is
  -- let through, by the database that the login leaves, exactly as long as the clock shows less
  -- than an hour after the login, at the lookup and at the check.
  pub api_auth_login-grants :
      (evp_sha256 : Text → Digest) (cfg : Credentials) (db : Db) (fresh : Fresh)
      (upload_data : Option Text) (times : Times)
      → IsSessionTable sql
      → HasCredentials json cfg upload_data
      → (sql.insert_session db (new_session sha256 cfg.username fresh)).0 ≡ done
      → ((t : ℕ) → sql.select_session db (session_token sha256 cfg.username fresh) t ≡ done)
      → let token = session_token sha256 cfg.username fresh in
        let login = api_auth_login sql sha256 json cfg db fresh upload_data in
        (login.0 ≡ record { status = 200; body = session_body token 3600 })
        × (has_session sql evp_sha256 login.1 times (some (codes "Bearer " ++ token))
            ≡ (ltb times.at_lookup (fresh.now + 3600) && ltb times.at_check (fresh.now + 3600)))
  unfolding has_session skip_bearer database_get_session codes starts_with drop
  api_auth_login-grants evp_sha256 cfg db fresh upload_data times t c e n =
      rw (login-right cfg db fresh upload_data c) (
        rw (create_session-inserts db cfg.username fresh e) (
          refl,
          rw (t.inserted db (new_session sha256 cfg.username fresh) times.at_lookup e n) (
              found_session times.at_lookup times.at_check (new_session sha256 cfg.username fresh)),
        ))

  -- What a login comes to: 200 with a proof of `P`, or another answer and no change.
  abbrev pub Outcome : Type 0 → Db → Response × Db → Type 0
  Outcome P db login = ((login.0.status ≡ 200) × P) ⊎ ((login.0.status ≢ 200) × (login.1 ≡ db))

  logged_in-Outcome :
      {P : Type 0} (db : Db) (o : Option (Text × Db)) → P → Outcome P db (logged_in sql sha256 db o)
  logged_in-Outcome db none p = inr (λ e. absurd (omega (arith, e)), refl)
  logged_in-Outcome db (some s) p = inl (refl, p)

  checked-Outcome :
      {P : Type 0} (db : Db) (b c : Bool) (o : Option (Text × Db))
      → (b ≡ true → c ≡ true → P)
      → Outcome P db (
          if b && c
          then logged_in sql sha256 db o
          else (respond 401 (codes "{\"error\":\"Invalid credentials\"}"), db))
  checked-Outcome db true true o p = logged_in-Outcome db o (p refl refl)
  checked-Outcome db true false o p = inr (λ e. absurd (omega (arith, e)), refl)
  checked-Outcome db false c o p = inr (λ e. absurd (omega (arith, e)), refl)

  login_with-Outcome :
      (cfg : Credentials) (db : Db) (fresh : Fresh) (upload_data : Option Text) (root : J)
      (u p : Option J)
      → json.tokener_parse upload_data ≡ some root
      → json.get_ex root (codes "username") ≡ u
      → json.get_ex root (codes "password") ≡ p
      → Outcome
          (HasCredentials json cfg upload_data)
          db
          (login_with sql sha256 json cfg db fresh u p)
  login_with-Outcome cfg db fresh d root none p e f g = inr (λ x. absurd (omega (arith, x)), refl)
  login_with-Outcome cfg db fresh d root (some u) none e f g =
      inr (λ x. absurd (omega (arith, x)), refl)
  login_with-Outcome cfg db fresh d root (some u) (some p) e f g =
      checked-Outcome db (str_eq (json.get_string u) cfg.username)
        (str_eq (json.get_string p) cfg.password) _
        λ x y. record {
          root = root;
          j_username = u;
          j_password = p;
          parsed = e;
          has_username = f;
          has_password = g;
          username_right = str_eq→eq (json.get_string u) cfg.username x;
          password_right = str_eq→eq (json.get_string p) cfg.password y;
        }

  login_body-Outcome :
      (cfg : Credentials) (db : Db) (fresh : Fresh) (upload_data : Option Text) (o : Option J)
      → json.tokener_parse upload_data ≡ o
      → Outcome (HasCredentials json cfg upload_data) db (login_body sql sha256 json cfg db fresh o)
  login_body-Outcome cfg db fresh d none e = inr (λ x. absurd (omega (arith, x)), refl)
  login_body-Outcome cfg db fresh d (some root) e =
      login_with-Outcome cfg db fresh d root _ _ e refl refl

  -- Only the user of the configuration logs in: an answer with 200 means that the body is JSON with
  -- its name and its password, and with any other answer the database is as it was.
  pub api_auth_login-credentials :
      (cfg : Credentials) (db : Db) (fresh : Fresh) (upload_data : Option Text)
      → let login = api_auth_login sql sha256 json cfg db fresh upload_data in
        ((login.0.status ≡ 200) × HasCredentials json cfg upload_data)
        ⊎ ((login.0.status ≢ 200) × (login.1 ≡ db))
  unfolding api_auth_login
  api_auth_login-credentials cfg db fresh upload_data =
      login_body-Outcome cfg db fresh upload_data _ refl
