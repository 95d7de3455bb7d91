-- ===== src/Startup/File.antt =====
-- `load_config` of src/config_handler.c and `runtime_config_load_file` of src/runtime_config.c.
use cyrenus.Startup.{strncpy, RuntimeConfig}
use cyrenus.Prelude.{
  ◌>>=◌, u16, [], ◌&&◌, codes, none, ◌∷◌, ltb, some, some, some, Text, if◌then◌else◌, Option, ℕ,
}

-- libconfig: config_read_file, config_lookup_string, config_lookup_int, config_lookup and
-- config_setting_lookup_string; an `int` is the number of its 32 bits.
pub record LibConfig (Conf Setting : Type 0) : Type 0 where
  pub read_file : Text → Option Conf
  pub lookup_string : Conf → Text → Option Text
  pub lookup_int : Conf → Text → Option ℕ
  pub lookup : Conf → Text → Option Setting
  pub setting_lookup_string : Setting → Text → Option Text

-- struct config with its struct backend_config.
pub record FileConfig : Type 0 where
  pub app_secret : Text
  pub interface : Text
  pub http_port : ℕ
  pub url : Text
  pub api_key : Text
  pub api_secret : Text
  pub username : Text
  pub password : Text

-- A text that is not empty, into an array of n + 1 bytes.
abbrev pub copy_set : ℕ → Text → Text → Text
copy_set n [] old = old
copy_set n (c ∷ cs) old = strncpy n (c ∷ cs)

-- A port above 0 as an `int`, into a uint16_t.
abbrev pub port_set : ℕ → ℕ → ℕ
port_set port old = if ltb 0 port && ltb port 2147483648 then u16 port else old

-- The settings of the file that load_config reads, into `rc`.
abbrev pub copy_file : FileConfig → RuntimeConfig → RuntimeConfig
copy_file cfg rc = record rc {
  interface = copy_set 15 cfg.interface rc.interface;
  http_port = port_set cfg.http_port rc.http_port;
  backend_url = copy_set 255 cfg.url rc.backend_url;
  api_key = copy_set 63 cfg.api_key rc.api_key;
  app_secret = copy_set 63 cfg.app_secret rc.app_secret;
  username = copy_set 127 cfg.username rc.username;
  password = copy_set 127 cfg.password rc.password;
}

abbrev pub path_or : Option Text → Text → Text
path_or none old = old
path_or (some path) old = strncpy 511 path

module _ {Conf Setting : Type 0} (lib : LibConfig Conf Setting) where
  -- The texts of the struct; `app_secret` keeps the zeros of the memset.
  abbrev pub lookup_settings : Conf → Option FileConfig
  lookup_settings conf = do
    interface' ← lib.lookup_string conf (codes "interface")
    port ← lib.lookup_int conf (codes "http_port")
    backend ← lib.lookup conf (codes "backend")
    url' ← lib.setting_lookup_string backend (codes "url")
    api_key' ← lib.setting_lookup_string backend (codes "api_key")
    api_secret' ← lib.setting_lookup_string backend (codes "api_secret")
    username' ← lib.lookup_string conf (codes "username")
    password' ← lib.lookup_string conf (codes "password")
    some (record {
      app_secret = [];
      interface = strncpy 15 interface';
      http_port = port;
      url = strncpy 255 url';
      api_key = strncpy 63 api_key';
      api_secret = strncpy 63 api_secret';
      username = strncpy 63 username';
      password = strncpy 63 password';
    })

  -- `none` where it returns 1.
  unfoldable pub load_config : Text → Option FileConfig
  load_config filename = do conf ← lib.read_file filename; lookup_settings conf

  abbrev pub setting_path : Option Setting → Text → Option Text
  setting_path none name = none
  setting_path (some setting) name = lib.setting_lookup_string setting name

  abbrev pub copy_paths : Option Conf → RuntimeConfig → RuntimeConfig
  copy_paths none rc = rc
  copy_paths (some conf) rc = record rc {
    database_path =
        path_or (setting_path (lib.lookup conf (codes "database")) (codes "path")) rc.database_path;
    geoip_db_path =
        path_or (setting_path (lib.lookup conf (codes "geoip")) (codes "database_path"))
          rc.geoip_db_path;
  }

  -- `none` where it returns -1. The file is read a second time for the paths.
  unfoldable pub runtime_config_load_file : RuntimeConfig → Option RuntimeConfig
  runtime_config_load_file rc = do
    cfg ← load_config rc.config_file_path
    some (copy_paths (lib.read_file rc.config_file_path) (copy_file cfg rc))
