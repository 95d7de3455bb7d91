-- ===== src/Api/Settings.antt =====
-- The handlers of src/api/system.c: the thresholds of the configuration and of the packet filter.
pub mod Effect
use cyrenus.Startup.{RuntimeConfig}
use cyrenus.Xdp.Types.{AttacksConfig}
use cyrenus.Api.Maps.{Syscalls}
use cyrenus.Api.Json.{respond, Response, JsonC}
use cyrenus.Xdp.State.{State}
use cyrenus.Prelude.{true, if◌then◌else◌, codes, Text, none, Bool, some, Option, ℕ}

-- What the map update leaves; its result is not looked at.
abbrev pub config_set : State → Option (ℕ → Option AttacksConfig) → State
config_set s none = s
config_set s (some m) = record s { config_map = m }

module _ {J : Type 0} (json : JsonC J) (bpf : Syscalls) where
  abbrev pub int_or : Option J → ℕ → ℕ
  int_or none old = old
  int_or (some j) old = json.get_int j

  unfoldable pub new_settings : AttacksConfig → J → AttacksConfig
  new_settings config root = record {
    syn_flood_rate = int_or (json.get_ex root (codes "syn_flood_rate")) config.syn_flood_rate;
    udp_flood_rate = int_or (json.get_ex root (codes "udp_flood_rate")) config.udp_flood_rate;
    icmp_flood_rate = int_or (json.get_ex root (codes "icmp_flood_rate")) config.icmp_flood_rate;
    dns_amp_rate = int_or (json.get_ex root (codes "dns_amp_rate")) config.dns_amp_rate;
    max_frags = int_or (json.get_ex root (codes "max_frags")) config.max_frags;
  }

  abbrev pub update_body :
      Bool → AttacksConfig → State → Option J → Response × AttacksConfig × State
  update_body has_fd config s none = (respond 400 (codes "{\"error\":\"Invalid JSON\"}"), config, s)
  update_body has_fd config s (some root) =
      let cfg = new_settings config root in
      (
        respond 200 (codes "{\"status\":\"settings updated\"}"),
        cfg,
        if has_fd then config_set s (bpf.config_map.update s.config_map 0 cfg) else s,
      )

  -- `has_fd` is `ctx->fds && ctx->fds->config_map_fd > 0`; `config` the thresholds of ctx->config.
  unfoldable pub api_system_update_settings :
      Bool → AttacksConfig → State → Option Text → Response × AttacksConfig × State
  api_system_update_settings has_fd config s upload_data =
      update_body has_fd config s (json.tokener_parse upload_data)

abbrev pub api_system_health : Response
api_system_health = respond 200 (codes "{\"status\":\"healthy\",\"version\":\"2.0.0\"}")

-- The object of the answer; an `int` is the number of its 32 bits.
pub record ShownSettings : Type 0 where
  pub interface : Text
  pub log_level : ℕ
  pub geoip_enabled : Bool
  pub syn_flood_rate : ℕ
  pub udp_flood_rate : ℕ
  pub icmp_flood_rate : ℕ
  pub dns_amp_rate : ℕ
  pub max_frags : ℕ

-- The answer is a 200; without a configuration the object is empty. The path of the database is an
-- array, so it is never NULL.
unfoldable pub api_system_get_settings : Option RuntimeConfig → Option ShownSettings
api_system_get_settings none = none
api_system_get_settings (some config) = some (record {
  interface = config.interface;
  log_level = config.log_level;
  geoip_enabled = true;
  syn_flood_rate = config.thresholds.syn_flood_rate;
  udp_flood_rate = config.thresholds.udp_flood_rate;
  icmp_flood_rate = config.thresholds.icmp_flood_rate;
  dns_amp_rate = config.thresholds.dns_amp_rate;
  max_frags = config.thresholds.max_frags;
})
