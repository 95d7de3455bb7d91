-- ===== src/Http/Types.antt =====
-- The requests, their context and the handlers of src/http_server.c and include/http_server.h.
use cyrenus.Prelude.{ℕ, Option, Text}

pub record SessionRecord : Type 0 where
  pub user_id : Text
  pub session_id : Text
  pub token : Text
  pub expires_at : ℕ

-- The pointer `data` and the `size`; `none` is the null pointer.
pub record ConnectionContext : Type 0 where
  pub data_ptr : Option Text
  pub size : ℕ

-- The request line and the two headers that the dispatcher reads.
pub record Request : Type 0 where
  pub method : Text
  pub url : Text
  pub authorization : Option Text
  pub api_key : Option Text

pub data Page : Type 0 where
  index_html : Page
  login_html : Page
  app_js : Page
  styles_css : Page

-- A call of a handler, with those of its arguments that are taken from the request.
pub data Handler : Type 0 where
  system_health : Handler
  auth_login : Option Text → ℕ → Handler
  auth_verify : Option Text → Handler
  auth_logout : Option Text → Handler
  system_get_settings : Handler
  system_update_settings : Option Text → ℕ → Handler
  attacks_list : Handler
  attacks_get : ℕ → Handler
  traffic_stats : Handler
  rules_list : Handler
  rules_create : Option Text → ℕ → Handler
  rules_delete : Text → Handler
  iplists_get : Text → Handler
  iplists_delete : ℕ → Handler
  iplists_add : Option Text → ℕ → Handler
  geoip_list_rules : Handler
  geoip_add_rule : Option Text → ℕ → Handler
  geoip_delete_rule : Text → Handler
  geoip_lookup : Text → Handler
  keys_list : Handler
  keys_create : Option Text → ℕ → Handler
  keys_delete : Option Text → ℕ → Handler
  security_events_list : Handler
  security_stats : Handler
  security_policies_list : Handler
  security_policy_deploy : Text → Handler
  security_policy_get : Text → Handler
  security_policy_save : Text → Option Text → ℕ → Handler
  security_policy_delete : Text → Handler
  security_logs : Handler
  security_config_get : Handler
  security_config_save : Option Text → ℕ → Handler

-- What one call of `handle_request` ends in: MHD_NO, MHD_YES with nothing queued, or a response.
pub data Reply : Type 0 where
  refused : Reply
  more : Reply
  options : Reply
  page : Page → Reply
  error : ℕ → Text → Reply
  call : Handler → Reply
  undefined : Reply
