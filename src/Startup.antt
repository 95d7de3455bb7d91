-- ===== src/Startup.antt =====
-- The runtime configuration of src/runtime_config.c: the struct, its defaults, and what the other
-- modules read it from.
pub mod Args
pub mod Env
pub mod File
pub mod Main
pub mod Fits
pub mod Valid
pub mod Port
pub mod Precedence
pub mod Complete
pub mod Keeps
pub mod Tests
use cyrenus.Xdp.Types.{AttacksConfig}
use cyrenus.Prelude.{false, Bool, take, [], Text, codes, ℕ}

-- struct runtime_config
pub record RuntimeConfig : Type 0 where
  pub config_file_path : Text
  pub interface : Text
  pub http_port : ℕ
  pub backend_url : Text
  pub api_key : Text
  pub app_secret : Text
  pub username : Text
  pub password : Text
  pub database_path : Text
  pub geoip_db_path : Text
  pub master_key_path : Text
  pub dry_run : Bool
  pub verbose : Bool
  pub debug : Bool
  pub no_geoip : Bool
  pub no_notifications : Bool
  pub daemon_mode : Bool
  pub log_file : Text
  pub log_level : ℕ
  pub environment : Text
  pub thresholds : AttacksConfig

-- strncpy of at most n bytes into an array of n + 1 bytes whose last one is zero.
abbrev pub strncpy : ℕ → Text → Text
strncpy n text = take n text

-- runtime_config_init, after which the last byte of each array is zero.
abbrev pub runtime_config_init : RuntimeConfig
runtime_config_init = record {
  config_file_path = codes "/etc/cyrenus/cyrenus.conf";
  interface = [];
  http_port = 8181;
  backend_url = [];
  api_key = [];
  app_secret = [];
  username = codes "admin";
  password = codes "admin";
  database_path = codes "/var/lib/cyrenus/cyrenus.db";
  geoip_db_path = codes "/var/lib/cyrenus/GeoLite2-Country.mmdb";
  master_key_path = codes "/etc/cyrenus/master.key";
  dry_run = false;
  verbose = false;
  debug = false;
  no_geoip = false;
  no_notifications = false;
  daemon_mode = false;
  log_file = [];
  log_level = 2;
  environment = codes "production";
  thresholds = record {
    syn_flood_rate = 1000;
    udp_flood_rate = 100000;
    icmp_flood_rate = 100;
    dns_amp_rate = 200;
    max_frags = 15;
  };
}
