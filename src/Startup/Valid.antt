-- ===== src/Startup/Valid.antt =====
-- What the start makes sure of before the program goes on: the arrays of the configuration, its
-- interface and its port.
use cyrenus.Startup.Main.{started, configure}
use cyrenus.Startup.Keeps.{configure-keeps, OptionHolds, Keeps}
use cyrenus.Startup.Args.{opt_config, Argv}
use cyrenus.Startup.Fits.{
  port_set-lt, opt-FitsConfig, copy_set-lt, env-FitsConfig, path_or-lt, init-FitsConfig, FitsConfig,
}
use cyrenus.Startup.{RuntimeConfig}
use cyrenus.Startup.Env.{runtime_config_validate}
use cyrenus.Startup.File.{
  setting_path, copy_file, copy_paths, runtime_config_load_file, load_config, FileConfig, LibConfig,
  lookup_settings,
}
use cyrenus.Prelude.{
  is_empty, ◌∷◌, ltb, codes, ◌||◌, length, ◌==◌, ◌≤◌, [], false, true, ◌≡◌, none, refl,
  if◌then◌else◌, ◌>>=◌, Bool, some, Text, Option, ℕ, arith,
}

copy_file-FitsConfig :
    (cfg : FileConfig) (rc : RuntimeConfig)
    → cfg.app_secret ≡ []
    → FitsConfig rc
    → FitsConfig (copy_file cfg rc)
copy_file-FitsConfig cfg rc s f = record {
  config_file_path = f.config_file_path;
  interface = copy_set-lt 15 cfg.interface _ (f.interface);
  http_port = port_set-lt cfg.http_port _ (f.http_port);
  backend_url = copy_set-lt 255 cfg.url _ (f.backend_url);
  api_key = copy_set-lt 63 cfg.api_key _ (f.api_key);
  app_secret = rw s (f.app_secret);
  username = copy_set-lt 127 cfg.username _ (f.username);
  password = copy_set-lt 127 cfg.password _ (f.password);
  database_path = f.database_path;
  geoip_db_path = f.geoip_db_path;
  master_key_path = f.master_key_path;
  log_file = f.log_file;
  environment = f.environment;
}

valid_parts :
    (interface : Text) (port : ℕ)
    → (if is_empty interface then false else if port == 0 || ltb 65535 port then false else true)
      ≡ true
    → (1 ≤ length interface) × (1 ≤ port)
valid_parts [] port e = absurd (cc)
valid_parts (c ∷ cs) port e = (omega arith, ground arith)

validate-lem :
    (rc : RuntimeConfig)
    → runtime_config_validate rc ≡ true
    → (1 ≤ length rc.interface) × (1 ≤ rc.http_port)
unfolding runtime_config_validate
validate-lem rc e = valid_parts rc.interface rc.http_port e

-- No secret comes with the settings of a file.
abbrev NoSecret : Option FileConfig → Type 0
NoSecret none = Unit
NoSecret (some cfg) = cfg.app_secret ≡ []

bind-NoSecret :
    {A : Type 0} (o : Option A) (f : A → Option FileConfig)
    → ((a : A) → NoSecret (f a))
    → NoSecret (o >>= f)
bind-NoSecret none f h = tt
bind-NoSecret (some a) f h = h a

module _ {Conf Setting : Type 0} (lib : LibConfig Conf Setting) where
  lookup_settings-NoSecret : (conf : Conf) → NoSecret (lookup_settings lib conf)
  lookup_settings-NoSecret conf =
      bind-NoSecret (lib.lookup_string conf (codes "interface")) _ (λ interface'.
        bind-NoSecret (lib.lookup_int conf (codes "http_port")) _ (λ port.
          bind-NoSecret (lib.lookup conf (codes "backend")) _ (λ backend.
            bind-NoSecret (lib.setting_lookup_string backend (codes "url")) _ (λ url'.
              bind-NoSecret (lib.setting_lookup_string backend (codes "api_key")) _ (λ api_key'.
                bind-NoSecret (lib.setting_lookup_string backend (codes "api_secret")) _ (λ s.
                  bind-NoSecret (lib.lookup_string conf (codes "username")) _ (λ username'.
                    bind-NoSecret (lib.lookup_string conf (codes "password")) _ (λ p. refl))))))))

  load_config-NoSecret : (filename : Text) → NoSecret (load_config lib filename)
  unfolding load_config
  load_config-NoSecret filename = bind-NoSecret (lib.read_file filename) _ lookup_settings-NoSecret

  copy_paths-FitsConfig :
      (conf : Option Conf) (rc : RuntimeConfig)
      → FitsConfig rc
      → FitsConfig (copy_paths lib conf rc)
  copy_paths-FitsConfig none rc f = f
  copy_paths-FitsConfig (some conf) rc f = record {
    config_file_path = f.config_file_path;
    interface = f.interface;
    http_port = f.http_port;
    backend_url = f.backend_url;
    api_key = f.api_key;
    app_secret = f.app_secret;
    username = f.username;
    password = f.password;
    database_path =
        path_or-lt (setting_path lib (lib.lookup conf (codes "database")) (codes "path")) _
          (f.database_path);
    geoip_db_path =
        path_or-lt (setting_path lib (lib.lookup conf (codes "geoip")) (codes "database_path")) _
          (f.geoip_db_path);
    master_key_path = f.master_key_path;
    log_file = f.log_file;
    environment = f.environment;
  }

  file-OptionHolds :
      (o : Option FileConfig) (conf : Option Conf) (rc : RuntimeConfig)
      → NoSecret o
      → FitsConfig rc
      → OptionHolds FitsConfig (o >>= (λ cfg. some (copy_paths lib conf (copy_file cfg rc))))
  file-OptionHolds none conf rc s f = tt
  file-OptionHolds (some cfg) conf rc s f =
      copy_paths-FitsConfig conf (copy_file cfg rc) (copy_file-FitsConfig cfg rc s f)

  module _ (getenv : Text → Option Text) (access : Text → Bool) where
    FitsConfig-Keeps : Keeps lib getenv access FitsConfig
    unfolding runtime_config_load_file
    FitsConfig-Keeps = record {
      init = init-FitsConfig;
      env = env-FitsConfig getenv;
      opt = opt-FitsConfig;
      positional = λ rc arg f. opt-FitsConfig rc (opt_config arg) f;
      file = λ rc f.
          file-OptionHolds (load_config lib rc.config_file_path) (lib.read_file rc.config_file_path)
            rc (load_config-NoSecret rc.config_file_path) f;
    }

    -- Whatever the arguments, the environment and the file hold: if the program goes on, each text
    -- of its configuration fits its array, the secret is empty, there is an interface, and the port
    -- is between 1 and 65535.
    pub configure-FitsConfig :
        (argv : Argv) (rc : RuntimeConfig)
        → configure lib getenv access argv ≡ started rc
        → FitsConfig rc × (1 ≤ length rc.interface) × (1 ≤ rc.http_port) × (rc.http_port ≤ 65535)
    configure-FitsConfig argv rc e =
        let r = configure-keeps lib getenv access FitsConfig-Keeps argv rc e in
        let v = validate-lem rc r.1 in (r.0, v.0, v.1, omega (arith, r.0.http_port))
