-- ===== src/Api/Auth/Verify.antt =====
-- The answer of `api_auth_verify` and the check of `handle_request` are the same.
use cyrenus.Http.Access.{HasSession-has_session, has_session-HasSession, HasSession}
use cyrenus.Http.Types.{Request}
use cyrenus.Http.Guard.{skip_bearer, has_session, Times}
use cyrenus.Api.Auth.{is_invalid, is_valid, api_auth_verify}
use cyrenus.Http.Hash.{Digest}
use cyrenus.Http.Database.{database_get_session, Sqlite}
use cyrenus.Prelude.{
  ◌∙◌, sym, ap, none, inr, inl, refl, Option-cases, false, true, some, ◌↔◌, Option, ◌≡◌,
  if◌then◌else◌, Bool, Text, arith,
}

module _ {Db : Type 0} (sql : Sqlite Db) (evp_sha256 : Text → Digest) where
  verify-has_session :
      (db : Db) (times : Times) (header : Option Text)
      → api_auth_verify sql db times header
        ≡ (if has_session sql evp_sha256 db times header then is_valid else is_invalid)
  unfolding api_auth_verify has_session
  verify-has_session db times none = refl
  verify-has_session db times (some token) =
      elim (Option-cases (database_get_session sql db times.at_lookup (skip_bearer token))) [
        | inl e ↦ rw e refl
        | inr s ↦ rw (s.1) refl
      ]

  status-true : (b : Bool) → (if b then is_valid else is_invalid).status ≡ 200 → b ≡ true
  status-true true h = refl
  status-true false h = absurd (omega arith)

  -- The verification of a session answers with 200 exactly for the callers with a live session
  -- whom the dispatcher lets through.
  pub api_auth_verify-HasSession :
      (db : Db) (times : Times) (r : Request)
      → ((api_auth_verify sql db times r.authorization).status ≡ 200)
        ↔ HasSession sql evp_sha256 db times r
  api_auth_verify-HasSession db times r = (
    λ h. has_session-HasSession sql evp_sha256 db times r (
        status-true (has_session sql evp_sha256 db times r.authorization)
          (ap (λ x. x.status) (sym (verify-has_session db times r.authorization)) ∙ h)),
    λ s.
        ap (λ x. x.status) (verify-has_session db times r.authorization)
        ∙ ap (λ b. (if b then is_valid else is_invalid).status)
            (HasSession-has_session sql evp_sha256 db times r s),
  )
