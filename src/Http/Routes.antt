-- ===== src/Http/Routes.antt =====
-- The routes of `handle_request`: those open to all, and those behind the check of the caller.
use cyrenus.Prelude.{
  atoi, ℕ, Bool, ◌&&◌, ◌||◌, Option, none, some, if◌then◌else◌, Text, codes, str_eq, starts_with,
  drop, take, str_find,
}
use cyrenus.Http.Types.{
  geoip_lookup, styles_css, auth_login, system_update_settings, traffic_stats, rules_delete,
  iplists_add, geoip_delete_rule, keys_delete, security_policy_delete, security_policies_list,
  security_config_save, app_js, system_health, system_get_settings, rules_create, iplists_delete,
  geoip_add_rule, keys_create, security_policy_deploy, security_policy_save, security_stats,
  security_config_get, login_html, options, auth_logout, attacks_get, rules_list, iplists_get,
  geoip_list_rules, keys_list, undefined, security_policy_get, security_events_list, security_logs,
  index_html, page, ConnectionContext, error, call, attacks_list, Request, Page, Reply, Handler,
}

abbrev pub is_get : Request → Bool
is_get r = str_eq r.method (codes "GET")

abbrev pub is_post : Request → Bool
is_post r = str_eq r.method (codes "POST")

abbrev pub is_delete : Request → Bool
is_delete r = str_eq r.method (codes "DELETE")

abbrev pub at_url : Request → Text → Bool
at_url r path = str_eq r.url path

abbrev pub under_url : Request → Text → Bool
under_url r path = starts_with path r.url

-- The pages of the frontend.
unfoldable pub frontend_route : Request → Option Page
frontend_route r =
    if at_url r (codes "/") || at_url r (codes "/index.html")
    then some index_html
    else if at_url r (codes "/login.html")
    then some login_html
    else if at_url r (codes "/app.js")
    then some app_js
    else if at_url r (codes "/styles.css")
    then some styles_css
    else none

abbrev pub paged : Option Page → Option Reply
paged none = none
paged (some p) = some (page p)

-- What is served before the caller is checked.
unfoldable pub public_route : Request → ConnectionContext → Option Reply
public_route r ctx =
    if str_eq r.method (codes "OPTIONS")
    then some options
    else if at_url r (codes "/api/v1/system/health")
    then some (call system_health)
    else if at_url r (codes "/api/v1/auth/login") && is_post r
    then some (call (auth_login ctx.data_ptr ctx.size))
    else paged (if is_get r then frontend_route r else none)

abbrev pub not_found : Reply
not_found = error 404 (codes "Not Found")

-- A row of the dispatcher: the call, if the test holds, and the rows that follow if not.
abbrev pub route : Bool → Handler → Reply → Reply
route b handler next = if b then call handler else next

unfoldable pub account_routes : Request → ConnectionContext → Reply → Reply
account_routes r ctx next =
    route (at_url r (codes "/api/v1/auth/logout") && is_post r) (auth_logout r.authorization) (
      route (at_url r (codes "/api/v1/system/settings") && is_get r) system_get_settings (
        route (at_url r (codes "/api/v1/system/settings") && is_post r)
          (system_update_settings ctx.data_ptr ctx.size) next))

unfoldable pub traffic_routes : Request → Reply → Reply
traffic_routes r next = route (at_url r (codes "/api/v1/attacks") && is_get r) attacks_list (
    route (under_url r (codes "/api/v1/attacks/") && is_get r) (attacks_get (atoi (drop 16 r.url)))
      (route (at_url r (codes "/api/v1/traffic/stats") && is_get r) traffic_stats next))

unfoldable pub rules_routes : Request → ConnectionContext → Reply → Reply
rules_routes r ctx next = route (at_url r (codes "/api/v1/rules") && is_get r) rules_list (
    route (at_url r (codes "/api/v1/rules") && is_post r) (rules_create ctx.data_ptr ctx.size) (
      route (under_url r (codes "/api/v1/rules/") && is_delete r) (rules_delete (drop 14 r.url))
        next))

unfoldable pub iplists_routes : Request → ConnectionContext → Reply → Reply
iplists_routes r ctx next =
    route (under_url r (codes "/api/v1/iplists/") && is_get r) (iplists_get (drop 16 r.url)) (
      route (under_url r (codes "/api/v1/iplists/") && is_delete r)
        (iplists_delete (atoi (drop 16 r.url)))
        (route (at_url r (codes "/api/v1/iplists") && is_post r) (iplists_add ctx.data_ptr ctx.size)
          next))

-- The first two rows test a prefix only, without the end or the slash behind it.
unfoldable pub geoip_routes : Request → ConnectionContext → Reply → Reply
geoip_routes r ctx next =
    route (under_url r (codes "/api/v1/geoip/rules") && is_get r) geoip_list_rules (
      route (under_url r (codes "/api/v1/geoip/rules") && is_post r)
        (geoip_add_rule ctx.data_ptr ctx.size)
        (route (under_url r (codes "/api/v1/geoip/rules/") && is_delete r)
          (geoip_delete_rule (drop 20 r.url))
          (route (under_url r (codes "/api/v1/geoip/lookup/") && is_get r)
            (geoip_lookup (drop 21 r.url)) next)))

unfoldable pub keys_routes : Request → ConnectionContext → Reply → Reply
keys_routes r ctx next = route (at_url r (codes "/api/v1/keys") && is_get r) keys_list (
    route (at_url r (codes "/api/v1/keys") && is_post r) (keys_create ctx.data_ptr ctx.size) (
      route (at_url r (codes "/api/v1/keys") && is_delete r) (keys_delete ctx.data_ptr ctx.size)
        next))

-- strncpy into `name`: at most 255 bytes, behind which a longer text has no end.
abbrev pub copied_name : Text → Text
copied_name policy_name = take 255 policy_name

-- The name is cut where the second strstr finds "/deploy" in the copy. Where it does not, it returns
-- NULL, or reads past the array, and the write that follows is undefined, whatever the method is.
abbrev pub deploy_route : Request → Text → Option ℕ → Reply → Reply
deploy_route r name none next = undefined
deploy_route r name (some at) next = route (is_post r) (security_policy_deploy (take at name)) next

-- The branches on whether the rest of the path has "/deploy" in it, and where.
unfoldable pub policy_found : Request → ConnectionContext → Text → Option ℕ → Reply → Reply
policy_found r ctx policy_name (some at) next =
    let name = copied_name policy_name in deploy_route r name (str_find (codes "/deploy") name) next
policy_found r ctx policy_name none next = route (is_get r) (security_policy_get policy_name) (
    route (is_post r) (security_policy_save policy_name ctx.data_ptr ctx.size)
      (route (is_delete r) (security_policy_delete policy_name) next))

unfoldable pub policy_route : Request → ConnectionContext → Text → Reply → Reply
policy_route r ctx policy_name next =
    policy_found r ctx policy_name (str_find (codes "/deploy") policy_name) next

unfoldable pub security_routes : Request → ConnectionContext → Reply → Reply
security_routes r ctx next =
    route (at_url r (codes "/api/v1/security/events") && is_get r) security_events_list (
      route (at_url r (codes "/api/v1/security/stats") && is_get r) security_stats (
        route (at_url r (codes "/api/v1/security/policies") && is_get r) security_policies_list (
          if under_url r (codes "/api/v1/security/policy/")
          then policy_route r ctx (drop 24 r.url) next
          else next)))

unfoldable pub security_log_routes : Request → ConnectionContext → Reply → Reply
security_log_routes r ctx next =
    route (at_url r (codes "/api/v1/security/logs") && is_get r) security_logs (
      route (at_url r (codes "/api/v1/security/config") && is_get r) security_config_get (
        route (at_url r (codes "/api/v1/security/config") && is_post r)
          (security_config_save ctx.data_ptr ctx.size) next))

-- The protected routes.
unfoldable pub protected_route : Request → ConnectionContext → Reply
protected_route r ctx = account_routes r ctx (
    traffic_routes r (
      rules_routes r ctx (
        iplists_routes r ctx (
          geoip_routes r ctx
            (keys_routes r ctx (security_routes r ctx (security_log_routes r ctx not_found)))))))
