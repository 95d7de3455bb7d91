-- ===== src/Http/Serve.antt =====
-- Every endpoint of the table is served by its handler.
use cyrenus.Http.Access.{HasSession-has_session, HasSession}
use cyrenus.Http.Guard.{Times, authenticate}
use cyrenus.Http.Dispatch.{process_request, is_verify, handle_request}
use cyrenus.Http.Hash.{Digest}
use cyrenus.Http.Database.{Sqlite}
use cyrenus.Http.Routes.{
  copied_name, frontend_route, public_route, policy_found, not_found, deploy_route,
  security_log_routes, security_routes, keys_routes, geoip_routes, iplists_routes, rules_routes,
  traffic_routes, account_routes, protected_route, is_post, policy_route,
}
use cyrenus.Http.Types.{undefined, security_policy_deploy, call, Reply, ConnectionContext, Request}
use cyrenus.Http.Endpoint.{
  write_config, read_config, read_logs, list_policies, read_security_stats, list_events, delete_key,
  create_key, list_keys, block_country, list_countries, add_list_entry, create_rule, list_rules,
  read_stats, list_attacks, write_settings, read_settings, logout, delete_policy, save_policy,
  read_policy, look_up, unblock_country, delete_list_entry, read_list, delete_rule, read_attack,
  handler_of, deploy_policy, IsServed, path_of, NoSlash, method_of, Endpoint,
}
use cyrenus.Prelude.{
  take_short, zero, length-append, ◌+◌, suc, ℕ, Bool, false, ◌<◌, true, ◌∙◌, ◌≤◌, drop, str_eq, ap,
  [], ◌∷◌, some, refl, none, ◌++◌, length, ◌≡◌, Text, codes, Option, starts_with, str_find, arith,
  take,
}

abbrev pub request_of : Endpoint → Option Text → Option Text → Request
request_of e authorization api_key = record {
  method = method_of e;
  url = path_of e;
  authorization = authorization;
  api_key = api_key;
}

str_find-none : (name : Text) → NoSlash name → str_find (codes "/deploy") name ≡ none
unfolding str_find starts_with codes
str_find-none [] h = refl
str_find-none (c ∷ cs) (h, hs) = ground (arith, str_find-none cs hs)

str_find-deploy :
    (name : Text)
    → NoSlash name
    → str_find (codes "/deploy") (name ++ codes "/deploy") ≡ some (length name)
unfolding str_find starts_with codes
str_find-deploy [] h = refl
str_find-deploy (c ∷ cs) (h, hs) = ground (arith, str_find-deploy cs hs)

take-append : (name rest : Text) → take (length name) (name ++ rest) ≡ name
unfolding take
take-append [] rest = refl
take-append (c ∷ cs) rest = ap (λ cs'. c ∷ cs') (take-append cs rest)

policy_route-none :
    (r : Request) (ctx : ConnectionContext) (name : Text) (next : Reply)
    → NoSlash name
    → policy_route r ctx name next ≡ policy_found r ctx name none next
unfolding policy_route
policy_route-none r ctx name next h =
    ap (λ o. policy_found r ctx name o next) (str_find-none name h)

-- A name of at most 248 bytes is copied with its mark.
copied_name-short :
    (name : Text)
    → length name ≤ 248
    → copied_name (name ++ codes "/deploy") ≡ name ++ codes "/deploy"
unfolding codes
copied_name-short name l =
    take_short 255 (name ++ (47 ∷ 100 ∷ 101 ∷ 112 ∷ 108 ∷ 111 ∷ 121 ∷ []))
      (omega (arith, length-append name (47 ∷ 100 ∷ 101 ∷ 112 ∷ 108 ∷ 111 ∷ 121 ∷ [])))

deploy_route-deploys :
    (r : Request) (name : Text) (next : Reply)
    → is_post r ≡ true
    → NoSlash name
    → length name ≤ 248
    → deploy_route r
        (copied_name (name ++ codes "/deploy"))
        (str_find (codes "/deploy") (copied_name (name ++ codes "/deploy")))
        next
      ≡ call (security_policy_deploy name)
deploy_route-deploys r name next p h l =
    rw (copied_name-short name l)
      (rw (str_find-deploy name h) (rw p (rw (take-append name (codes "/deploy")) refl)))

policy_route-deploys :
    (r : Request) (ctx : ConnectionContext) (name : Text) (next : Reply)
    → is_post r ≡ true
    → NoSlash name
    → length name ≤ 248
    → policy_route r ctx (name ++ codes "/deploy") next ≡ call (security_policy_deploy name)
unfolding policy_route policy_found
policy_route-deploys r ctx name next p h l =
    ap (λ o. policy_found r ctx (name ++ codes "/deploy") o next) (str_find-deploy name h)
    ∙ deploy_route-deploys r name next p h l

-- A part of the mark is not the mark.
str_find-part : (n : ℕ) → n < 7 → str_find (codes "/deploy") (take n (codes "/deploy")) ≡ none
unfolding str_find starts_with codes take
str_find-part zero h = refl
str_find-part (suc zero) h = refl
str_find-part (suc (suc zero)) h = refl
str_find-part (suc (suc (suc zero))) h = refl
str_find-part (suc (suc (suc (suc zero)))) h = refl
str_find-part (suc (suc (suc (suc (suc zero))))) h = refl
str_find-part (suc (suc (suc (suc (suc (suc zero)))))) h = refl
str_find-part (suc (suc (suc (suc (suc (suc (suc n))))))) h = absurd (omega arith)

-- A copy that ends before the mark does has no mark.
str_find-cut :
    (n : ℕ) (name : Text)
    → NoSlash name
    → n < length name + 7
    → str_find (codes "/deploy") (take n (name ++ codes "/deploy")) ≡ none
unfolding str_find starts_with codes take
str_find-cut n [] h l = str_find-part n (omega arith)
str_find-cut zero (c ∷ cs) h l = refl
str_find-cut (suc n) (c ∷ cs) (h, hs) l = ground (arith, str_find-cut n cs hs (omega arith))

module _ (a k : Option Text) (ctx : ConnectionContext) where
  protected_route-endpoint :
      (e : Endpoint)
      → IsServed e
      → protected_route (request_of e a k) ctx ≡ call (handler_of e (request_of e a k) ctx)
  unfolding policy_found protected_route account_routes traffic_routes rules_routes iplists_routes
      geoip_routes keys_routes security_routes security_log_routes codes str_eq starts_with drop
  protected_route-endpoint logout h = refl
  protected_route-endpoint read_settings h = refl
  protected_route-endpoint write_settings h = refl
  protected_route-endpoint list_attacks h = refl
  protected_route-endpoint (read_attack id) h = refl
  protected_route-endpoint read_stats h = refl
  protected_route-endpoint list_rules h = refl
  protected_route-endpoint create_rule h = refl
  protected_route-endpoint (delete_rule id) h = refl
  protected_route-endpoint (read_list list) h = refl
  protected_route-endpoint (delete_list_entry id) h = refl
  protected_route-endpoint add_list_entry h = refl
  protected_route-endpoint list_countries h = refl
  protected_route-endpoint block_country h = refl
  protected_route-endpoint (unblock_country country) h = refl
  protected_route-endpoint (look_up ip) h = refl
  protected_route-endpoint list_keys h = refl
  protected_route-endpoint create_key h = refl
  protected_route-endpoint delete_key h = refl
  protected_route-endpoint list_events h = refl
  protected_route-endpoint read_security_stats h = refl
  protected_route-endpoint list_policies h = refl
  protected_route-endpoint (deploy_policy name) (h, l) =
      policy_route-deploys (request_of (deploy_policy name) a k) ctx name not_found refl h l
  protected_route-endpoint (read_policy name) h =
      policy_route-none (request_of (read_policy name) a k) ctx name not_found h
  protected_route-endpoint (save_policy name) h =
      policy_route-none (request_of (save_policy name) a k) ctx name not_found h
  protected_route-endpoint (delete_policy name) h =
      policy_route-none (request_of (delete_policy name) a k) ctx name not_found h
  protected_route-endpoint read_logs h = refl
  protected_route-endpoint read_config h = refl
  protected_route-endpoint write_config h = refl

  checked-endpoint :
      (e : Endpoint)
      → (public_route (request_of e a k) ctx ≡ none) × (is_verify (request_of e a k) ≡ false)
  unfolding public_route frontend_route is_verify codes str_eq
  checked-endpoint logout = (refl, refl)
  checked-endpoint read_settings = (refl, refl)
  checked-endpoint write_settings = (refl, refl)
  checked-endpoint list_attacks = (refl, refl)
  checked-endpoint (read_attack id) = (refl, refl)
  checked-endpoint read_stats = (refl, refl)
  checked-endpoint list_rules = (refl, refl)
  checked-endpoint create_rule = (refl, refl)
  checked-endpoint (delete_rule id) = (refl, refl)
  checked-endpoint (read_list list) = (refl, refl)
  checked-endpoint (delete_list_entry id) = (refl, refl)
  checked-endpoint add_list_entry = (refl, refl)
  checked-endpoint list_countries = (refl, refl)
  checked-endpoint block_country = (refl, refl)
  checked-endpoint (unblock_country country) = (refl, refl)
  checked-endpoint (look_up ip) = (refl, refl)
  checked-endpoint list_keys = (refl, refl)
  checked-endpoint create_key = (refl, refl)
  checked-endpoint delete_key = (refl, refl)
  checked-endpoint list_events = (refl, refl)
  checked-endpoint read_security_stats = (refl, refl)
  checked-endpoint list_policies = (refl, refl)
  checked-endpoint (deploy_policy name) = (refl, refl)
  checked-endpoint (read_policy name) = (refl, refl)
  checked-endpoint (save_policy name) = (refl, refl)
  checked-endpoint (delete_policy name) = (refl, refl)
  checked-endpoint read_logs = (refl, refl)
  checked-endpoint read_config = (refl, refl)
  checked-endpoint write_config = (refl, refl)

module _ {Db : Type 0} (sql : Sqlite Db) (evp_sha256 : Text → Digest) where
  -- The dispatcher with a live session: the handler that is called for an endpoint, and the database
  -- that it is given.
  pub handle_request-calls :
      (db : Db) (times : Times) (e : Endpoint) (authorization api_key : Option Text)
      (ctx : ConnectionContext) (allocated : Bool)
      → IsServed e
      → HasSession sql evp_sha256 db times (request_of e authorization api_key)
      → handle_request sql evp_sha256 db times
          (request_of e authorization api_key)
          (some ctx)
          allocated
          []
        ≡ (call (handler_of e (request_of e authorization api_key) ctx), some ctx, db)
  unfolding handle_request process_request authenticate
  handle_request-calls db times e a k ctx allocated h s =
      let c = checked-endpoint a k ctx e in
      rw (c.0) (
        rw (c.1) (
          rw (HasSession-has_session sql evp_sha256 db times (request_of e a k) s)
            (rw (protected_route-endpoint a k ctx e h) refl)))

-- A name without a slash and of more than 248 bytes that is deployed: "/deploy" stands in the path
-- behind the name, and the copy of 255 bytes does not have it, so that the search for its place in
-- the copy, and the write there, are undefined behaviour, by whatever method.
pub policy_route-long :
    (r : Request) (ctx : ConnectionContext) (name : Text) (next : Reply)
    → NoSlash name
    → 248 < length name
    → (str_find (codes "/deploy") (name ++ codes "/deploy") ≡ some (length name))
      × (str_find (codes "/deploy") (copied_name (name ++ codes "/deploy")) ≡ none)
      × (policy_route r ctx (name ++ codes "/deploy") next ≡ undefined)
unfolding policy_route policy_found
policy_route-long r ctx name next h l =
    let cut = str_find-cut 255 name h (omega arith) in
    (
      str_find-deploy name h,
      cut,
      ap (λ o. policy_found r ctx (name ++ codes "/deploy") o next) (str_find-deploy name h)
          ∙ ap (λ o. deploy_route r (copied_name (name ++ codes "/deploy")) o next) cut,
    )
