-- ===== src/Startup/Env.antt =====
-- `runtime_config_load_env` and `runtime_config_validate` of src/runtime_config.c.
use cyrenus.Startup.{strncpy, RuntimeConfig}
use cyrenus.Prelude.{
  is_empty, ltb, ◌||◌, ◌==◌, false, none, u16, atoi, true, if◌then◌else◌, codes, Bool, some, some,
  some, Option, Text, ℕ,
}

-- A variable that is set, into an array of n + 1 bytes.
abbrev pub env_text : ℕ → Option Text → Text → Text
env_text n none old = old
env_text n (some env_val) old = strncpy n env_val

abbrev pub env_port : Option Text → ℕ → ℕ
env_port none old = old
env_port (some env_val) old = u16 (atoi env_val)

abbrev pub env_int : Option Text → ℕ → ℕ
env_int none old = old
env_int (some env_val) old = atoi env_val

unfoldable pub runtime_config_load_env : (Text → Option Text) → RuntimeConfig → RuntimeConfig
runtime_config_load_env getenv rc = record rc {
  interface = env_text 15 (getenv (codes "CYRENUS_INTERFACE")) rc.interface;
  http_port = env_port (getenv (codes "CYRENUS_HTTP_PORT")) rc.http_port;
  config_file_path = env_text 511 (getenv (codes "CYRENUS_CONFIG")) rc.config_file_path;
  database_path = env_text 511 (getenv (codes "CYRENUS_DB_PATH")) rc.database_path;
  geoip_db_path = env_text 511 (getenv (codes "CYRENUS_GEOIP_DB")) rc.geoip_db_path;
  master_key_path = env_text 511 (getenv (codes "CYRENUS_MASTER_KEY")) rc.master_key_path;
  environment = env_text 31 (getenv (codes "CYRENUS_ENV")) rc.environment;
  log_level = env_int (getenv (codes "CYRENUS_LOG_LEVEL")) rc.log_level;
  log_file = env_text 511 (getenv (codes "CYRENUS_LOG_FILE")) rc.log_file;
}

-- Whether it returns 0; the files and the name of the environment only make it print warnings.
unfoldable pub runtime_config_validate : RuntimeConfig → Bool
runtime_config_validate rc =
    if is_empty rc.interface
    then false
    else if rc.http_port == 0 || ltb 65535 rc.http_port
    then false
    else true
