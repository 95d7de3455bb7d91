-- ===== src/Xdp/Config.antt =====
-- `get_config`: the thresholds of the config map, or the built-in ones.
use cyrenus.Prelude.{Option, none, some}
use cyrenus.Xdp.Types.{AttacksConfig}
use cyrenus.Xdp.State.{State}

abbrev pub default_config : AttacksConfig
default_config = record {
  syn_flood_rate = 1000;
  udp_flood_rate = 50000;
  icmp_flood_rate = 100;
  dns_amp_rate = 200;
  max_frags = 15;
}

abbrev pub config_or_default : Option AttacksConfig → AttacksConfig
config_or_default none = default_config
config_or_default (some cfg) = cfg

abbrev pub get_config : State → AttacksConfig
get_config s = config_or_default (s.config_map 0)
