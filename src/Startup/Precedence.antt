-- ===== src/Startup/Precedence.antt =====
-- Which source of the port wins: the environment, the file, the arguments and the default.
use cyrenus.Startup.Keeps.{StartHolds}
use mathlib.Core.Path.{subst}
use cyrenus.Startup.Port.{
  second-port, parse_args-AfterParse, checked-port, AfterParse, read_AfterParse, last_port,
}
use cyrenus.Startup.Main.{started, configure}
use cyrenus.Startup.{runtime_config_init, RuntimeConfig}
use cyrenus.Startup.Env.{env_port, runtime_config_load_env}
use cyrenus.Startup.Args.{runtime_config_parse_args, parsed_to, Parsed, Argv}
use cyrenus.Startup.File.{
  copy_file, port_set, load_config, copy_paths, FileConfig, runtime_config_load_file, LibConfig,
}
use cyrenus.Prelude.{ap, ◌∙◌, [], true, false, none, refl, some, ◌≡◌, codes, Bool, Option, Text}

module _ {Conf Setting : Type 0} (lib : LibConfig Conf Setting) (getenv : Text → Option Text)
    (access : Text → Bool) where
  -- What main parses the arguments into first.
  abbrev pub first_parse : Argv → Parsed × Argv
  first_parse argv =
      runtime_config_parse_args argv (runtime_config_load_env getenv runtime_config_init)

  abbrev pub port_variable : Option Text
  port_variable = getenv (codes "CYRENUS_HTTP_PORT")

  load_env-port :
      (rc : RuntimeConfig)
      → (runtime_config_load_env getenv rc).http_port ≡ env_port port_variable rc.http_port
  unfolding runtime_config_load_env
  load_env-port rc = refl

  -- The port after the first parse, and that it has read every option.
  first_parse-port :
      (argv : Argv) (rc1 : RuntimeConfig)
      → (first_parse argv).0 ≡ parsed_to rc1
      → (rc1.http_port ≡ last_port argv.options (env_port port_variable 8181))
        × ((first_parse argv).1.options ≡ [])
  first_parse-port argv rc1 e =
      read_AfterParse _ (first_parse argv) rc1
        (subst (λ q. AfterParse (last_port argv.options q) (first_parse argv))
          (load_env-port runtime_config_init)
          (parse_args-AfterParse argv (runtime_config_load_env getenv runtime_config_init)))
        e

  copy_paths-port :
      (conf : Option Conf) (rc : RuntimeConfig) → (copy_paths lib conf rc).http_port ≡ rc.http_port
  copy_paths-port none rc = refl
  copy_paths-port (some conf) rc = refl

  load_file-port :
      (rc : RuntimeConfig) (cfg : FileConfig)
      → load_config lib rc.config_file_path ≡ some cfg
      → (rc' : RuntimeConfig) × (runtime_config_load_file lib rc ≡ some rc')
        × (rc'.http_port ≡ port_set cfg.http_port rc.http_port)
  unfolding runtime_config_load_file
  load_file-port rc cfg l = (
    copy_paths lib (lib.read_file rc.config_file_path) (copy_file cfg rc),
    rw l refl,
    copy_paths-port (lib.read_file rc.config_file_path) (copy_file cfg rc),
  )

  -- Where the configuration file can be read and loaded, the port of a program that goes on is, in
  -- this order, the environment's, the file's, that of the last -p, or 8181: the arguments do not
  -- override the file.
  pub configure-file_port :
      (argv : Argv) (rc1 rc : RuntimeConfig) (cfg : FileConfig)
      → (first_parse argv).0 ≡ parsed_to rc1
      → access rc1.config_file_path ≡ true
      → load_config lib rc1.config_file_path ≡ some cfg
      → configure lib getenv access argv ≡ started rc
      → rc.http_port
        ≡ env_port port_variable
            (port_set cfg.http_port (last_port argv.options (env_port port_variable 8181)))
  unfolding configure
  configure-file_port argv rc1 rc cfg p a l e =
      let f = first_parse-port argv rc1 p in
      let r = load_file-port rc1 cfg l in
      let h =
        load_env-port r.0
        ∙ ap (λ q. env_port port_variable q) (r.2 ∙ ap (λ q. port_set cfg.http_port q) f.0) in
      subst
        (StartHolds (λ rc'.
          rc'.http_port
          ≡ env_port port_variable
              (port_set cfg.http_port (last_port argv.options (env_port port_variable 8181)))))
        e
        (rw (p, a, r.1)
          (second-port lib getenv access (first_parse argv).1 (runtime_config_load_env getenv r.0) _
            f.1 h))

  -- Where the configuration file cannot be read, the port of a program that goes on is, in this
  -- order, that of the last -p, the environment's, or 8181.
  pub configure-no_file_port :
      (argv : Argv) (rc1 rc : RuntimeConfig)
      → (first_parse argv).0 ≡ parsed_to rc1
      → access rc1.config_file_path ≡ false
      → configure lib getenv access argv ≡ started rc
      → rc.http_port ≡ last_port argv.options (env_port port_variable 8181)
  unfolding configure
  configure-no_file_port argv rc1 rc p a e =
      let f = first_parse-port argv rc1 p in
      subst
        (StartHolds (λ rc'. rc'.http_port ≡ last_port argv.options (env_port port_variable 8181))) e
        (rw (p, a) (checked-port lib getenv access rc1 _ f.0))
