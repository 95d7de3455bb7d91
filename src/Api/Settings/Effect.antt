-- ===== src/Api/Settings/Effect.antt =====
-- The settings that are stored are the ones that the packet filter reads.
use cyrenus.Startup.{RuntimeConfig}
use cyrenus.Xdp.Config.{get_config}
use cyrenus.Xdp.State.{State}
use cyrenus.Xdp.Types.{AttacksConfig}
use cyrenus.Api.Settings.{api_system_get_settings, int_or, new_settings, api_system_update_settings}
use cyrenus.Api.Maps.{IsHash, Syscalls}
use cyrenus.Api.Json.{JsonC}
use cyrenus.Prelude.{refl, codes, true, some, ◌≡◌, Text, Option, ℕ}

module _ {J : Type 0} (json : JsonC J) (bpf : Syscalls) where
  -- A request with settings, where the map of the filter is open and the kernel stores the entry:
  -- the filter then reads the thresholds that the configuration has after the request, which are
  -- those of the body, and the old one for each that the body does not name; and the settings that
  -- are shown next are the thresholds that the filter reads, with the interface and the level of the
  -- log of the configuration, and GeoIP as enabled, whatever its database is.
  pub api_system_update_settings-effect :
      (config : RuntimeConfig) (s : State) (upload_data : Option Text) (root : J)
      (m : ℕ → Option AttacksConfig)
      → IsHash bpf.config_map
      → json.tokener_parse upload_data ≡ some root
      → bpf.config_map.update s.config_map 0 (new_settings json bpf config.thresholds root) ≡ some m
      → let updated = api_system_update_settings json bpf true config.thresholds s upload_data in
        let read = get_config updated.2 in
        (read ≡ updated.1)
        × (updated.1 ≡ record {
          syn_flood_rate =
              int_or json bpf
                (json.get_ex root (codes "syn_flood_rate"))
                config.thresholds.syn_flood_rate;
          udp_flood_rate =
              int_or json bpf
                (json.get_ex root (codes "udp_flood_rate"))
                config.thresholds.udp_flood_rate;
          icmp_flood_rate =
              int_or json bpf
                (json.get_ex root (codes "icmp_flood_rate"))
                config.thresholds.icmp_flood_rate;
          dns_amp_rate =
              int_or json bpf
                (json.get_ex root (codes "dns_amp_rate"))
                config.thresholds.dns_amp_rate;
          max_frags =
              int_or json bpf (json.get_ex root (codes "max_frags")) config.thresholds.max_frags;
        })
        × (api_system_get_settings (some (record config { thresholds = updated.1 }))
            ≡ some (record {
              interface = config.interface;
              log_level = config.log_level;
              geoip_enabled = true;
              syn_flood_rate = read.syn_flood_rate;
              udp_flood_rate = read.udp_flood_rate;
              icmp_flood_rate = read.icmp_flood_rate;
              dns_amp_rate = read.dns_amp_rate;
              max_frags = read.max_frags;
            }))
  unfolding api_system_update_settings new_settings api_system_get_settings
  api_system_update_settings-effect config s upload_data root m h e f = rw e (
      rw f (
        rw (h.updated s.config_map m 0 (new_settings json bpf config.thresholds root) f)
          (refl, refl, refl)))
