-- ===== src/Http/Run.antt =====
-- A request of `handle_request` with the call of its handler: what is left of the database.
use cyrenus.Http.Dispatch.{handle_request}
use cyrenus.Api.Keys.{api_keys_delete, api_keys_create}
use cyrenus.Http.Guard.{Times}
use cyrenus.Http.Types.{
  keys_delete, ConnectionContext, keys_create, Request, auth_login, call, Handler, Reply,
}
use cyrenus.Http.Hash.{Digest}
use cyrenus.Api.Auth.{api_auth_login, Fresh, Credentials}
use cyrenus.Http.Database.{Sqlite}
use cyrenus.Api.Json.{JsonC}
use cyrenus.Prelude.{Bool, Option, ℕ, Text}

-- What the handlers are given beside the request: json-c, the digest, the configuration, the ids and
-- times of a login, and the random numbers and the time of a new key.
pub record Given (J : Type 0) : Type 0 where
  pub json : JsonC J
  pub sha256 : Text → Text
  pub credentials : Credentials
  pub fresh : Fresh
  pub rand : ℕ → ℕ
  pub now : ℕ

module _ {Db J : Type 0} (sql : Sqlite Db) (evp_sha256 : Text → Digest) (given : Given J) where
  -- The handlers that write the database of sessions and keys; the others only read it, or do not
  -- use it.
  abbrev pub run_handler : Handler → Db → Db
  run_handler (auth_login data_ptr size) db =
      (api_auth_login sql given.sha256 given.json given.credentials db given.fresh data_ptr).1
  run_handler (keys_create data_ptr size) db =
      (api_keys_create given.json sql evp_sha256 db given.rand given.now data_ptr).1
  run_handler (keys_delete data_ptr size) db =
      (api_keys_delete given.json sql evp_sha256 db data_ptr).1
  run_handler _ db = db

  abbrev pub run_reply : Reply → Db → Db
  run_reply (call handler) db = run_handler handler db
  run_reply _ db = db

  -- One call of `handle_request`, up to the return of the handler that it calls.
  unfoldable pub run_request :
      Db
      → Times
      → Request
      → Option ConnectionContext
      → Bool
      → Text
      → Reply × Option ConnectionContext × Db
  run_request db times r con_cls allocated chunk =
      let p = handle_request sql evp_sha256 db times r con_cls allocated chunk in
      (p.0, p.1, run_reply p.0 p.2)
