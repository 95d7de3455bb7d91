-- ===== src/Http/Gate.antt =====
-- The caller that the check of `handle_request` turns away, and the one that it lets through.
use cyrenus.Http.Access.{authenticate-true, HasKey, is_open, HasSession}
use cyrenus.Http.Types.{Request, Reply, ConnectionContext}
use cyrenus.Http.Upload.{receive}
use cyrenus.Http.Guard.{api_key_id, has_session, with_key, Times, authenticate}
use cyrenus.Http.Dispatch.{is_verify, or_checked, process_request, handle_request}
use cyrenus.Http.Routes.{public_route}
use cyrenus.Http.Hash.{Digest}
use cyrenus.Http.Database.{Sqlite}
use cyrenus.Prelude.{
  inr, inr, length, ltb, refl, inl, inl, not, ◌⊎◌, Bool-cases, none, some, false, ◌≡◌, true,
  if◌then◌else◌, Option, Bool, Text, ℕ, arith,
}

module _ {Db : Type 0} (sql : Sqlite Db) (evp_sha256 : Text → Digest) where
  public_route-open :
      (r : Request) (ctx : ConnectionContext) (reply : Reply)
      → public_route r ctx ≡ some reply
      → is_open reply ≡ true
  unfolding public_route
  public_route-open r ctx reply e = ground arith

  or_checked-open :
      (o : Option Reply) (rest : Reply × Db) (db : Db)
      → ((reply : Reply) → o ≡ some reply → is_open reply ≡ true)
      → is_open rest.0 ≡ true
      → is_open (or_checked sql evp_sha256 o rest db).0 ≡ true
  or_checked-open (some reply) rest db h k = h reply refl
  or_checked-open none rest db h k = k

  if-open :
      (b : Bool) (x y : Reply × Db)
      → is_open x.0 ≡ true
      → is_open y.0 ≡ true
      → is_open (if b then x else y).0 ≡ true
  if-open true x y h k = h
  if-open false x y h k = k

  process_request-open :
      (db : Db) (times : Times) (r : Request) (ctx : ConnectionContext)
      → (authenticate sql evp_sha256 db times r).0 ≡ false
      → is_open (process_request sql evp_sha256 db times r ctx).0 ≡ true
  unfolding process_request
  process_request-open db times r ctx e =
      or_checked-open (public_route r ctx) _ db (public_route-open r ctx)
        (if-open (is_verify r) _ _ refl (rw e refl))

  with_key-keeps :
      (db : Db) (times : Times) (b : Bool) (o : Option ℕ)
      → (if b then (true, db) else with_key sql evp_sha256 db times o).0 ≡ false
      → (if b then (true, db) else with_key sql evp_sha256 db times o).1 ≡ db
  with_key-keeps db times true o h = refl
  with_key-keeps db times false (some id) h = absurd (cc)
  with_key-keeps db times false none h = refl

  authenticate-keeps :
      (db : Db) (times : Times) (r : Request)
      → (authenticate sql evp_sha256 db times r).0 ≡ false
      → (authenticate sql evp_sha256 db times r).1 ≡ db
  unfolding authenticate
  authenticate-keeps db times r h =
      with_key-keeps db times (has_session sql evp_sha256 db times r.authorization)
        (api_key_id sql evp_sha256 db times r.api_key) h

  or_checked-keeps :
      (o : Option Reply) (rest : Reply × Db) (db : Db)
      → rest.1 ≡ db
      → (or_checked sql evp_sha256 o rest db).1 ≡ db
  or_checked-keeps (some reply) rest db e = refl
  or_checked-keeps none rest db e = e

  if-keeps :
      (b : Bool) (x y : Reply × Db) (db : Db) → x.1 ≡ db → y.1 ≡ db → (if b then x else y).1 ≡ db
  if-keeps true x y db h k = h
  if-keeps false x y db h k = k

  process_request-keeps :
      (db : Db) (times : Times) (r : Request) (ctx : ConnectionContext)
      → (authenticate sql evp_sha256 db times r).0 ≡ false
      → (process_request sql evp_sha256 db times r ctx).1 ≡ db
  unfolding process_request
  process_request-keeps db times r ctx e =
      or_checked-keeps (public_route r ctx) _ db
        (if-keeps (is_verify r) _ _ db refl (rw e (authenticate-keeps db times r e)))

  receive-open :
      (allocated : Bool) (ctx : ConnectionContext) (chunk : Text)
      → is_open (receive allocated ctx chunk).0 ≡ true
  unfolding receive
  receive-open allocated ctx chunk = ground arith

  if-denied :
      (b : Bool) (x y : Reply × Option ConnectionContext × Db) (db : Db)
      → (is_open x.0 ≡ true) × (x.2 ≡ db)
      → (is_open y.0 ≡ true) × (y.2 ≡ db)
      → (is_open (if b then x else y).0 ≡ true) × ((if b then x else y).2 ≡ db)
  if-denied true x y db h k = h
  if-denied false x y db h k = k

  handle_request-denied :
      (db : Db) (times : Times) (r : Request) (con_cls : Option ConnectionContext)
      (allocated : Bool) (chunk : Text)
      → (authenticate sql evp_sha256 db times r).0 ≡ false
      → (is_open (handle_request sql evp_sha256 db times r con_cls allocated chunk).0 ≡ true)
        × ((handle_request sql evp_sha256 db times r con_cls allocated chunk).2 ≡ db)
  unfolding handle_request
  handle_request-denied db times r none allocated chunk e =
      if-denied (not allocated) _ _ db (refl, refl) (refl, refl)
  handle_request-denied db times r (some ctx) allocated chunk e =
      if-denied (ltb 0 (length chunk)) _ _ db (receive-open allocated ctx chunk, refl)
        (process_request-open db times r ctx e, process_request-keeps db times r ctx e)

  -- A call of a handler behind the check is made only for a caller who sends the token of a
  -- session that the database has and that has not expired, or a key whose hash the database has:
  -- at every stage of the request, and whatever its method and its path are.
  pub handle_request-guarded :
      (db : Db) (times : Times) (r : Request) (con_cls : Option ConnectionContext)
      (allocated : Bool) (chunk : Text)
      → is_open (handle_request sql evp_sha256 db times r con_cls allocated chunk).0 ≡ false
      → HasSession sql evp_sha256 db times r ⊎ HasKey sql evp_sha256 db times r
  handle_request-guarded db times r con_cls allocated chunk h =
      elim (Bool-cases (authenticate sql evp_sha256 db times r).0) [
        | inl e ↦ authenticate-true sql evp_sha256 db times r e
        | inr e ↦
            let d = (handle_request-denied db times r con_cls allocated chunk e).0 in absurd (cc)
      ]

  -- For such a caller the dispatcher does not touch the database before the handler, if any.
  pub handle_request-closed :
      (db : Db) (times : Times) (r : Request) (con_cls : Option ConnectionContext)
      (allocated : Bool) (chunk : Text)
      → ¬ (HasSession sql evp_sha256 db times r)
      → ¬ (HasKey sql evp_sha256 db times r)
      → (is_open (handle_request sql evp_sha256 db times r con_cls allocated chunk).0 ≡ true)
        × ((handle_request sql evp_sha256 db times r con_cls allocated chunk).2 ≡ db)
  handle_request-closed db times r con_cls allocated chunk h k =
      elim (Bool-cases (authenticate sql evp_sha256 db times r).0) [
        | inl e ↦ elim (authenticate-true sql evp_sha256 db times r e) [
          | inl s ↦ absurd (h s)
          | inr s ↦ absurd (k s)
        ]
        | inr e ↦ handle_request-denied db times r con_cls allocated chunk e
      ]
