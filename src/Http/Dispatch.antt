-- ===== src/Http/Dispatch.antt =====
-- `handle_request` and `request_completed` of src/http_server.c.
use cyrenus.Http.Upload.{receive, new_context}
use cyrenus.Http.Guard.{authenticate, Times}
use cyrenus.Http.Hash.{Digest}
use cyrenus.Http.Routes.{protected_route, is_get, public_route, at_url}
use cyrenus.Http.Database.{Sqlite}
use cyrenus.Http.Types.{more, auth_verify, refused, call, error, ConnectionContext, Request, Reply}
use cyrenus.Prelude.{length, ltb, not, if◌then◌else◌, ◌&&◌, some, codes, none, Bool, Text, Option}

-- The verification of a session comes between the pages and the check.
unfoldable pub is_verify : Request → Bool
is_verify r = at_url r (codes "/api/v1/auth/verify") && is_get r

abbrev pub unauthorized : Reply
unauthorized = error 401 (codes "Unauthorized")

module _ {Db : Type 0} (sql : Sqlite Db) (evp_sha256 : Text → Digest) where
  abbrev pub checked_route : Db → Times → Request → ConnectionContext → Reply × Db
  checked_route db times r ctx =
      if is_verify r
      then (call (auth_verify r.authorization), db)
      else let c = authenticate sql evp_sha256 db times r in
        if not c.0 then (unauthorized, c.1) else (protected_route r ctx, c.1)

  abbrev pub or_checked : Option Reply → Reply × Db → Db → Reply × Db
  or_checked (some reply) rest db = (reply, db)
  or_checked none rest db = rest

  -- The third stage, of a request whose body has arrived, up to the call of the handler.
  unfoldable pub process_request : Db → Times → Request → ConnectionContext → Reply × Db
  process_request db times r ctx = or_checked (public_route r ctx) (checked_route db times r ctx) db

  -- One call of `handle_request`, up to that of the handler it selects, with the database that this
  -- one is given: `con_cls`, what the allocations answer, and the chunk, empty at the last call.
  unfoldable pub handle_request :
      Db
      → Times
      → Request
      → Option ConnectionContext
      → Bool
      → Text
      → Reply × Option ConnectionContext × Db
  handle_request db times r none allocated chunk =
      if not allocated then (refused, none, db) else (more, some new_context, db)
  handle_request db times r (some ctx) allocated chunk =
      if ltb 0 (length chunk)
      then (let u = receive allocated ctx chunk in (u.0, some u.1, db))
      else (let p = process_request db times r ctx in (p.0, some ctx, p.1))

-- `request_completed` frees the context, also where there is none.
unfoldable pub request_completed : Option ConnectionContext → Option ConnectionContext
request_completed con_cls = none
