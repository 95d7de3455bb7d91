-- ===== src/Http/Access.antt =====
-- Who gets through to the handlers behind the check.
use cyrenus.Http.Guard.{
  is_live, key_id, with_key, api_key_id, skip_bearer, has_session, authenticate, Times,
}
use cyrenus.Http.Hash.{hash_api_key, Digest}
use cyrenus.Http.Database.{database_get_session, database_validate_api_key, ApiKeyRecord, Sqlite}
use cyrenus.Http.Types.{
  SessionRecord, system_health, Request, undefined, auth_verify, auth_login, call, Handler, Reply,
}
use cyrenus.Prelude.{
  inr, none, refl, inr, inl, Option, if◌then◌else◌, ◌<◌, some, ◌⊎◌, ◌≡◌, false, true, Bool, Text, ℕ,
  arith,
}

-- The handlers that anyone may call.
abbrev pub is_open_handler : Handler → Bool
is_open_handler system_health = true
is_open_handler (auth_login body size) = true
is_open_handler (auth_verify token) = true
is_open_handler _ = false

-- A reply that tells nothing and does nothing that a caller needs leave for.
abbrev pub is_open : Reply → Bool
is_open (call handler) = is_open_handler handler
is_open undefined = false
is_open _ = true

is_live-true :
    (time : ℕ) (found : Option SessionRecord)
    → is_live time found ≡ true
    → (session : SessionRecord) × (found ≡ some session) × (time < session.expires_at)
is_live-true time none h = absurd (cc)
is_live-true time (some session) h = (session, refl, ground arith)

key_id-some :
    (found : Option ApiKeyRecord) (id : ℕ)
    → key_id found ≡ some id
    → (key_rec : ApiKeyRecord) × (found ≡ some key_rec)
key_id-some none id h = absurd (cc)
key_id-some (some key_rec) id h = (key_rec, refl)

module _ {Db : Type 0} (sql : Sqlite Db) (evp_sha256 : Text → Digest) where
  -- The database has a session for the token of the header, and it has not expired.
  pub record HasSession (db : Db) (times : Times) (r : Request) : Type 0 where
    pub auth_header : Text
    pub session : SessionRecord
    pub given : r.authorization ≡ some auth_header
    pub found : database_get_session sql db times.at_lookup (skip_bearer auth_header) ≡ some session
    pub live : times.at_check < session.expires_at

  -- The database has a key with the hash of the one in the header.
  pub record HasKey (db : Db) (times : Times) (r : Request) : Type 0 where
    pub key : Text
    pub key_rec : ApiKeyRecord
    pub given : r.api_key ≡ some key
    pub found :
        database_validate_api_key sql db times.at_key (hash_api_key evp_sha256 key) ≡ some key_rec

  given-live :
      (db : Db) (times : Times) (header : Option Text)
      → has_session sql evp_sha256 db times header ≡ true
      → (auth_header : Text) × (header ≡ some auth_header)
        × (is_live times.at_check
              (database_get_session sql db times.at_lookup (skip_bearer auth_header))
            ≡ true)
  unfolding has_session
  given-live db times none h = absurd (cc)
  given-live db times (some auth_header) h = (auth_header, refl, h)

  pub has_session-HasSession :
      (db : Db) (times : Times) (r : Request)
      → has_session sql evp_sha256 db times r.authorization ≡ true
      → HasSession db times r
  has_session-HasSession db times r h =
      let (auth_header, given, l) = given-live db times r.authorization h in
      let (session, found, live) =
        is_live-true times.at_check
          (database_get_session sql db times.at_lookup (skip_bearer auth_header)) l in
      record {
        auth_header = auth_header;
        session = session;
        given = given;
        found = found;
        live = live;
      }

  given-key :
      (db : Db) (times : Times) (header : Option Text) (id : ℕ)
      → api_key_id sql evp_sha256 db times header ≡ some id
      → (key : Text) × (header ≡ some key)
        × (key_id (database_validate_api_key sql db times.at_key (hash_api_key evp_sha256 key))
            ≡ some id)
  unfolding api_key_id
  given-key db times none id h = absurd (cc)
  given-key db times (some key) id h = (key, refl, h)

  api_key_id-HasKey :
      (db : Db) (times : Times) (r : Request) (id : ℕ)
      → api_key_id sql evp_sha256 db times r.api_key ≡ some id
      → HasKey db times r
  api_key_id-HasKey db times r id h =
      let (key, given, l) = given-key db times r.api_key id h in
      let (key_rec, found) =
        key_id-some (database_validate_api_key sql db times.at_key (hash_api_key evp_sha256 key)) id
          l in
      record { key = key; key_rec = key_rec; given = given; found = found }

  with_key-true :
      (db : Db) (times : Times) (b : Bool) (o : Option ℕ)
      → (if b then (true, db) else with_key sql evp_sha256 db times o).0 ≡ true
      → (b ≡ true) ⊎ ((id : ℕ) × (o ≡ some id))
  with_key-true db times true o h = inl refl
  with_key-true db times false (some id) h = inr (id, refl)
  with_key-true db times false none h = absurd (cc)

  pub authenticate-true :
      (db : Db) (times : Times) (r : Request)
      → (authenticate sql evp_sha256 db times r).0 ≡ true
      → HasSession db times r ⊎ HasKey db times r
  unfolding authenticate
  authenticate-true db times r h =
      elim (with_key-true db times (has_session sql evp_sha256 db times r.authorization)
        (api_key_id sql evp_sha256 db times r.api_key) h) [
          | inl e ↦ inl (has_session-HasSession db times r e)
          | inr k ↦ inr (api_key_id-HasKey db times r k.0 k.1)
        ]

  pub HasSession-has_session :
      (db : Db) (times : Times) (r : Request)
      → HasSession db times r
      → has_session sql evp_sha256 db times r.authorization ≡ true
  unfolding has_session
  HasSession-has_session db times r s = rw (s.given) (rw (s.found) (ground (arith, s.live)))
