-- ===== src/Http/Outcome.antt =====
-- What a request leaves of the database, with the handler that it calls.
use cyrenus.Http.Types.{undefined, options}
use cyrenus.Http.Dispatch.{handle_request}
use cyrenus.Http.Serve.{handle_request-calls, request_of}
use cyrenus.Http.Gate.{handle_request-closed}
use cyrenus.Http.Access.{is_open}
use cyrenus.Http.Endpoint.{handler_of, IsServed}
use cyrenus.Http.Types.{
  security_config_get, security_logs, security_policies_list, security_stats, security_events_list,
  keys_list, geoip_list_rules, rules_list, traffic_stats, attacks_list, system_get_settings,
  system_health, security_config_save, more, security_policy_delete, refused, security_policy_save,
  security_policy_get, error, security_policy_deploy, page, keys_delete, keys_create,
}
use cyrenus.Api.Auth.Login.{api_auth_login-credentials, HasCredentials}
use cyrenus.Http.Endpoint.{Endpoint}
use cyrenus.Http.Guard.{Times}
use cyrenus.Http.Access.{HasKey, HasSession, is_open_handler}
use cyrenus.Http.Types.{
  keys_create, geoip_lookup, geoip_delete_rule, geoip_add_rule, iplists_add, iplists_delete,
  iplists_get, rules_delete, rules_create, attacks_get, system_update_settings, auth_logout,
  auth_verify, auth_login, call, ConnectionContext, Request, Reply, Handler,
}
use cyrenus.Http.Run.{run_reply, run_handler, run_request, Given}
use cyrenus.Http.Hash.{Digest}
use cyrenus.Http.Database.{Sqlite}
use cyrenus.Prelude.{refl, [], some, inr, inl, ◌⊎◌, Bool, true, ℕ, ◌≡◌, Option, Text}

module _ {Db J : Type 0} (sql : Sqlite Db) (evp_sha256 : Text → Digest) (given : Given J) where
  -- The reply calls the login with the credentials of the configuration.
  pub record IsLogin (reply : Reply) : Type 0 where
    pub data_ptr : Option Text
    pub size : ℕ
    pub called : reply ≡ call (auth_login data_ptr size)
    pub right : HasCredentials given.json given.credentials data_ptr

  open_handler-keeps :
      (db : Db) (handler : Handler)
      → is_open_handler handler ≡ true
      → (run_handler sql evp_sha256 given handler db ≡ db) ⊎ IsLogin (call handler)
  open_handler-keeps db system_health h = inl refl
  open_handler-keeps db (auth_login body size) h =
      elim (api_auth_login-credentials sql given.sha256 given.json given.credentials db given.fresh
        body) [
          | inl c ↦ inr (record { data_ptr = body; size = size; called = refl; right = c.1 })
          | inr k ↦ inl k.1
        ]
  open_handler-keeps db (auth_verify x) h = inl refl
  open_handler-keeps db (auth_logout x) h = absurd (cc h)
  open_handler-keeps db system_get_settings h = absurd (cc h)
  open_handler-keeps db (system_update_settings x y) h = absurd (cc h)
  open_handler-keeps db attacks_list h = absurd (cc h)
  open_handler-keeps db (attacks_get x) h = absurd (cc h)
  open_handler-keeps db traffic_stats h = absurd (cc h)
  open_handler-keeps db rules_list h = absurd (cc h)
  open_handler-keeps db (rules_create x y) h = absurd (cc h)
  open_handler-keeps db (rules_delete x) h = absurd (cc h)
  open_handler-keeps db (iplists_get x) h = absurd (cc h)
  open_handler-keeps db (iplists_delete x) h = absurd (cc h)
  open_handler-keeps db (iplists_add x y) h = absurd (cc h)
  open_handler-keeps db geoip_list_rules h = absurd (cc h)
  open_handler-keeps db (geoip_add_rule x y) h = absurd (cc h)
  open_handler-keeps db (geoip_delete_rule x) h = absurd (cc h)
  open_handler-keeps db (geoip_lookup x) h = absurd (cc h)
  open_handler-keeps db keys_list h = absurd (cc h)
  open_handler-keeps db (keys_create x y) h = absurd (cc h)
  open_handler-keeps db (keys_delete x y) h = absurd (cc h)
  open_handler-keeps db security_events_list h = absurd (cc h)
  open_handler-keeps db security_stats h = absurd (cc h)
  open_handler-keeps db security_policies_list h = absurd (cc h)
  open_handler-keeps db (security_policy_deploy x) h = absurd (cc h)
  open_handler-keeps db (security_policy_get x) h = absurd (cc h)
  open_handler-keeps db (security_policy_save x y z) h = absurd (cc h)
  open_handler-keeps db (security_policy_delete x) h = absurd (cc h)
  open_handler-keeps db security_logs h = absurd (cc h)
  open_handler-keeps db security_config_get h = absurd (cc h)
  open_handler-keeps db (security_config_save x y) h = absurd (cc h)

  open_reply-keeps :
      (db : Db) (reply : Reply)
      → is_open reply ≡ true
      → (run_reply sql evp_sha256 given reply db ≡ db) ⊎ IsLogin reply
  open_reply-keeps db refused h = inl refl
  open_reply-keeps db more h = inl refl
  open_reply-keeps db options h = inl refl
  open_reply-keeps db (page p) h = inl refl
  open_reply-keeps db (error status t) h = inl refl
  open_reply-keeps db (call handler) h = open_handler-keeps db handler h
  open_reply-keeps db undefined h = absurd (cc h)

  -- A caller without the token of a live session and without a key that the database has gets a
  -- reply that is open to all; and after the handler that it calls, if any, the database is as it
  -- was, unless that is the login and the body has the name and the password of the configuration.
  pub run_request-refused :
      (db : Db) (times : Times) (r : Request) (con_cls : Option ConnectionContext)
      (allocated : Bool) (chunk : Text)
      → ¬ (HasSession sql evp_sha256 db times r)
      → ¬ (HasKey sql evp_sha256 db times r)
      → let result = run_request sql evp_sha256 given db times r con_cls allocated chunk in
        (is_open result.0 ≡ true) × ((result.2 ≡ db) ⊎ IsLogin result.0)
  unfolding run_request
  run_request-refused db times r con_cls allocated chunk h k =
      let d = handle_request-closed sql evp_sha256 db times r con_cls allocated chunk h k in
      (
        d.0,
        rw (d.1) (
            open_reply-keeps db (handle_request sql evp_sha256 db times r con_cls allocated chunk).0
              d.0),
      )

  -- With a live session every endpoint of the table, a method and a path, is served by its handler,
  -- which gets the rest of the path and the body; and the database is afterwards what that handler
  -- makes of the one that the request found. The name of a policy has no slash, and at most 248 bytes
  -- where it is deployed.
  pub run_request-serves :
      (db : Db) (times : Times) (e : Endpoint) (authorization api_key : Option Text)
      (ctx : ConnectionContext) (allocated : Bool)
      → IsServed e
      → HasSession sql evp_sha256 db times (request_of e authorization api_key)
      → let handler = handler_of e (request_of e authorization api_key) ctx in
        run_request sql evp_sha256 given db times
          (request_of e authorization api_key)
          (some ctx)
          allocated
          []
        ≡ (call handler, some ctx, run_handler sql evp_sha256 given handler db)
  unfolding run_request
  run_request-serves db times e a k ctx allocated h s =
      rw (handle_request-calls sql evp_sha256 db times e a k ctx allocated h s) refl
