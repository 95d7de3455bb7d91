-- ===== src/Http/Endpoint.antt =====
-- The API that the dispatcher of src/http_server.c serves behind the check, as a table: a method
-- and a path for each handler.
use cyrenus.Http.Types.{
  security_config_save, security_config_get, security_logs, security_policy_delete,
  security_policy_save, security_policy_get, security_policy_deploy, security_policies_list,
  security_stats, security_events_list, keys_delete, keys_create, keys_list, geoip_lookup,
  geoip_delete_rule, geoip_add_rule, geoip_list_rules, iplists_add, iplists_delete, iplists_get,
  rules_delete, rules_create, rules_list, traffic_stats, attacks_get, attacks_list,
  system_update_settings, system_get_settings, auth_logout, Handler, ConnectionContext, Request,
}
use cyrenus.Prelude.{atoi, [], ◌++◌, ◌≢◌, codes, ◌∷◌, ◌≤◌, Text, length}

pub data Endpoint : Type 0 where
  logout read_settings write_settings list_attacks read_stats list_rules create_rule : Endpoint
  delete_rule : Text → Endpoint
  read_list : Text → Endpoint
  delete_list_entry : Text → Endpoint
  read_attack : Text → Endpoint
  add_list_entry list_countries block_country : Endpoint
  unblock_country : Text → Endpoint
  look_up : Text → Endpoint
  list_keys create_key delete_key list_events read_security_stats list_policies : Endpoint
  deploy_policy : Text → Endpoint
  read_policy : Text → Endpoint
  save_policy : Text → Endpoint
  delete_policy : Text → Endpoint
  read_logs read_config write_config : Endpoint

abbrev pub method_of : Endpoint → Text
method_of logout = codes "POST"
method_of write_settings = codes "POST"
method_of create_rule = codes "POST"
method_of add_list_entry = codes "POST"
method_of block_country = codes "POST"
method_of create_key = codes "POST"
method_of (deploy_policy name) = codes "POST"
method_of (save_policy name) = codes "POST"
method_of write_config = codes "POST"
method_of (delete_rule id) = codes "DELETE"
method_of (delete_list_entry id) = codes "DELETE"
method_of (unblock_country country) = codes "DELETE"
method_of delete_key = codes "DELETE"
method_of (delete_policy name) = codes "DELETE"
method_of _ = codes "GET"

abbrev pub path_of : Endpoint → Text
path_of logout = codes "/api/v1/auth/logout"
path_of read_settings = codes "/api/v1/system/settings"
path_of write_settings = codes "/api/v1/system/settings"
path_of list_attacks = codes "/api/v1/attacks"
path_of (read_attack id) = codes "/api/v1/attacks/" ++ id
path_of read_stats = codes "/api/v1/traffic/stats"
path_of list_rules = codes "/api/v1/rules"
path_of create_rule = codes "/api/v1/rules"
path_of (delete_rule id) = codes "/api/v1/rules/" ++ id
path_of (read_list list) = codes "/api/v1/iplists/" ++ list
path_of (delete_list_entry id) = codes "/api/v1/iplists/" ++ id
path_of add_list_entry = codes "/api/v1/iplists"
path_of list_countries = codes "/api/v1/geoip/rules"
path_of block_country = codes "/api/v1/geoip/rules"
path_of (unblock_country country) = codes "/api/v1/geoip/rules/" ++ country
path_of (look_up ip) = codes "/api/v1/geoip/lookup/" ++ ip
path_of list_keys = codes "/api/v1/keys"
path_of create_key = codes "/api/v1/keys"
path_of delete_key = codes "/api/v1/keys"
path_of list_events = codes "/api/v1/security/events"
path_of read_security_stats = codes "/api/v1/security/stats"
path_of list_policies = codes "/api/v1/security/policies"
path_of (deploy_policy name) = codes "/api/v1/security/policy/" ++ (name ++ codes "/deploy")
path_of (read_policy name) = codes "/api/v1/security/policy/" ++ name
path_of (save_policy name) = codes "/api/v1/security/policy/" ++ name
path_of (delete_policy name) = codes "/api/v1/security/policy/" ++ name
path_of read_logs = codes "/api/v1/security/logs"
path_of read_config = codes "/api/v1/security/config"
path_of write_config = codes "/api/v1/security/config"

-- The handler, with what it is given of the request.
abbrev pub handler_of : Endpoint → Request → ConnectionContext → Handler
handler_of logout r ctx = auth_logout r.authorization
handler_of read_settings r ctx = system_get_settings
handler_of write_settings r ctx = system_update_settings ctx.data_ptr ctx.size
handler_of list_attacks r ctx = attacks_list
handler_of (read_attack id) r ctx = attacks_get (atoi id)
handler_of read_stats r ctx = traffic_stats
handler_of list_rules r ctx = rules_list
handler_of create_rule r ctx = rules_create ctx.data_ptr ctx.size
handler_of (delete_rule id) r ctx = rules_delete id
handler_of (read_list list) r ctx = iplists_get list
handler_of (delete_list_entry id) r ctx = iplists_delete (atoi id)
handler_of add_list_entry r ctx = iplists_add ctx.data_ptr ctx.size
handler_of list_countries r ctx = geoip_list_rules
handler_of block_country r ctx = geoip_add_rule ctx.data_ptr ctx.size
handler_of (unblock_country country) r ctx = geoip_delete_rule country
handler_of (look_up ip) r ctx = geoip_lookup ip
handler_of list_keys r ctx = keys_list
handler_of create_key r ctx = keys_create ctx.data_ptr ctx.size
handler_of delete_key r ctx = keys_delete ctx.data_ptr ctx.size
handler_of list_events r ctx = security_events_list
handler_of read_security_stats r ctx = security_stats
handler_of list_policies r ctx = security_policies_list
handler_of (deploy_policy name) r ctx = security_policy_deploy name
handler_of (read_policy name) r ctx = security_policy_get name
handler_of (save_policy name) r ctx = security_policy_save name ctx.data_ptr ctx.size
handler_of (delete_policy name) r ctx = security_policy_delete name
handler_of read_logs r ctx = security_logs
handler_of read_config r ctx = security_config_get
handler_of write_config r ctx = security_config_save ctx.data_ptr ctx.size

-- A name of a policy: without a slash, and short enough for the copy where it is deployed.
abbrev pub NoSlash : Text → Type 0
NoSlash [] = Unit
NoSlash (c ∷ cs) = (c ≢ 47) × NoSlash cs

abbrev pub IsServed : Endpoint → Type 0
IsServed (deploy_policy name) = NoSlash name × (length name ≤ 248)
IsServed (read_policy name) = NoSlash name
IsServed (save_policy name) = NoSlash name
IsServed (delete_policy name) = NoSlash name
IsServed _ = Unit
