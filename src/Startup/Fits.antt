-- ===== src/Startup/Fits.antt =====
-- The arrays of the configuration, and what the start makes sure of before the program goes on.
use cyrenus.Startup.Args.{
  opt_unknown, opt_version, opt_help, opt_dry_run, opt_no_notifications, opt_no_geoip, opt_debug,
  opt_verbose, opt_daemon, opt_log_file, opt_log_level, opt_environment, opt_password, opt_username,
  opt_key, opt_geoip, opt_database, opt_config, with_port, with_level, opt_port, Opt,
}
use cyrenus.Startup.Keeps.{ParsedHolds}
use cyrenus.Startup.Args.{opt_interface, parse_opt, Opt}
use cyrenus.Startup.File.{copy_set, path_or, port_set}
use cyrenus.Startup.Env.{runtime_config_load_env, env_text, env_port}
use cyrenus.Startup.{strncpy, runtime_config_init, RuntimeConfig}
use cyrenus.Prelude.{
  inr, inr, inl, inl, ◌==◌, ltb, atoi, Bool-cases, u16, ◌∷◌, length-take, none, refl, [], suc, some,
  length, ◌≡◌, Text, Option, ◌<◌, codes, ℕ, arith,
}

-- Each text leaves the last byte of its array free, and the port is a uint16_t.
pub record FitsConfig (rc : RuntimeConfig) : Type 0 where
  pub config_file_path : length rc.config_file_path < 512
  pub interface : length rc.interface < 16
  pub http_port : rc.http_port < 65536
  pub backend_url : length rc.backend_url < 256
  pub api_key : length rc.api_key < 64
  pub app_secret : rc.app_secret ≡ []
  pub username : length rc.username < 128
  pub password : length rc.password < 128
  pub database_path : length rc.database_path < 512
  pub geoip_db_path : length rc.geoip_db_path < 512
  pub master_key_path : length rc.master_key_path < 512
  pub log_file : length rc.log_file < 512
  pub environment : length rc.environment < 32

strncpy-lt : (n : ℕ) (text : Text) → length (strncpy n text) < suc n
strncpy-lt n text = omega (arith, length-take n text)

env_text-lt :
    (n : ℕ) (v : Option Text) (old : Text) → length old < suc n → length (env_text n v old) < suc n
env_text-lt n none old h = h
env_text-lt n (some v) old h = strncpy-lt n v

pub copy_set-lt :
    (n : ℕ) (text old : Text) → length old < suc n → length (copy_set n text old) < suc n
copy_set-lt n [] old h = h
copy_set-lt n (c ∷ cs) old h = strncpy-lt n (c ∷ cs)

pub path_or-lt : (p : Option Text) (old : Text) → length old < 512 → length (path_or p old) < 512
path_or-lt none old h = h
path_or-lt (some p) old h = strncpy-lt 511 p

env_port-lt : (v : Option Text) (old : ℕ) → old < 65536 → env_port v old < 65536
env_port-lt none old h = h
env_port-lt (some v) old h = omega arith

pub port_set-lt : (port old : ℕ) → old < 65536 → port_set port old < 65536
port_set-lt port old h = ground arith

pub init-FitsConfig : FitsConfig runtime_config_init
unfolding codes
init-FitsConfig = record {
  config_file_path = omega arith;
  interface = omega arith;
  http_port = omega arith;
  backend_url = omega arith;
  api_key = omega arith;
  app_secret = refl;
  username = omega arith;
  password = omega arith;
  database_path = omega arith;
  geoip_db_path = omega arith;
  master_key_path = omega arith;
  log_file = omega arith;
  environment = omega arith;
}

port-FitsConfig :
    (rc : RuntimeConfig) (port : ℕ)
    → port < 65536
    → FitsConfig rc
    → ParsedHolds FitsConfig (with_port rc port)
port-FitsConfig rc port h f = elim (Bool-cases (port == 0)) [
  | inl e ↦ rw e (ground arith)
  | inr e ↦ rw e (ground arith)
]

level-FitsConfig :
    (rc : RuntimeConfig) (level : ℕ) → FitsConfig rc → ParsedHolds FitsConfig (with_level rc level)
level-FitsConfig rc level f = elim (Bool-cases (ltb 3 level)) [
  | inl e ↦ rw e (ground arith)
  | inr e ↦ rw e (ground arith)
]

pub opt-FitsConfig :
    (rc : RuntimeConfig) (o : Opt) → FitsConfig rc → ParsedHolds FitsConfig (parse_opt rc o)
opt-FitsConfig rc (opt_interface arg) f = ground (arith, strncpy-lt 15 arg)
opt-FitsConfig rc (opt_port arg) f = port-FitsConfig rc (u16 (atoi arg)) (omega arith) f
opt-FitsConfig rc (opt_config arg) f = ground (arith, strncpy-lt 511 arg)
opt-FitsConfig rc (opt_database arg) f = ground (arith, strncpy-lt 511 arg)
opt-FitsConfig rc (opt_geoip arg) f = ground (arith, strncpy-lt 511 arg)
opt-FitsConfig rc (opt_key arg) f = ground (arith, strncpy-lt 511 arg)
opt-FitsConfig rc (opt_username arg) f = ground (arith, strncpy-lt 127 arg)
opt-FitsConfig rc (opt_password arg) f = ground (arith, strncpy-lt 127 arg)
opt-FitsConfig rc opt_daemon f = ground arith
opt-FitsConfig rc opt_verbose f = ground arith
opt-FitsConfig rc opt_debug f = ground arith
opt-FitsConfig rc (opt_environment arg) f = ground (arith, strncpy-lt 31 arg)
opt-FitsConfig rc (opt_log_level arg) f = level-FitsConfig rc (atoi arg) f
opt-FitsConfig rc (opt_log_file arg) f = ground (arith, strncpy-lt 511 arg)
opt-FitsConfig rc opt_no_geoip f = ground arith
opt-FitsConfig rc opt_no_notifications f = ground arith
opt-FitsConfig rc opt_dry_run f = ground arith
opt-FitsConfig rc opt_help f = tt
opt-FitsConfig rc opt_version f = tt
opt-FitsConfig rc opt_unknown f = f

pub env-FitsConfig :
    (getenv : Text → Option Text) (rc : RuntimeConfig)
    → FitsConfig rc
    → FitsConfig (runtime_config_load_env getenv rc)
unfolding runtime_config_load_env
env-FitsConfig getenv rc f = record {
  config_file_path = env_text-lt 511 (getenv (codes "CYRENUS_CONFIG")) _ (f.config_file_path);
  interface = env_text-lt 15 (getenv (codes "CYRENUS_INTERFACE")) _ (f.interface);
  http_port = env_port-lt (getenv (codes "CYRENUS_HTTP_PORT")) _ (f.http_port);
  backend_url = f.backend_url;
  api_key = f.api_key;
  app_secret = f.app_secret;
  username = f.username;
  password = f.password;
  database_path = env_text-lt 511 (getenv (codes "CYRENUS_DB_PATH")) _ (f.database_path);
  geoip_db_path = env_text-lt 511 (getenv (codes "CYRENUS_GEOIP_DB")) _ (f.geoip_db_path);
  master_key_path = env_text-lt 511 (getenv (codes "CYRENUS_MASTER_KEY")) _ (f.master_key_path);
  log_file = env_text-lt 511 (getenv (codes "CYRENUS_LOG_FILE")) _ (f.log_file);
  environment = env_text-lt 31 (getenv (codes "CYRENUS_ENV")) _ (f.environment);
}
