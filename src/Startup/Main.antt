-- ===== src/Startup/Main.antt =====
-- How `main` of src/main.c comes to its configuration.
use cyrenus.Startup.Args.{exited, parsed_to}
use cyrenus.Startup.Env.{runtime_config_load_env, runtime_config_validate}
use cyrenus.Startup.Args.{runtime_config_parse_args, rejected, Parsed, Argv}
use cyrenus.Startup.File.{runtime_config_load_file, LibConfig}
use cyrenus.Startup.{runtime_config_init, RuntimeConfig}
use cyrenus.Prelude.{none, some, if◌then◌else◌, Bool, Option, Text}

-- The program goes on with a configuration, or ends.
pub data Start : Type 0 where
  started : RuntimeConfig → Start
  failure : Start
  success : Start

module _ {Conf Setting : Type 0} (lib : LibConfig Conf Setting) (getenv : Text → Option Text)
    (access : Text → Bool) where
  abbrev pub checked : RuntimeConfig → Start
  checked rc = if runtime_config_validate rc then started rc else failure

  -- What a second parse leaves, its result being ignored; exit ends the program.
  abbrev pub after_second : Parsed → Start
  after_second (parsed_to rc) = checked rc
  after_second (rejected rc) = checked rc
  after_second exited = success

  -- After the file: the environment and the arguments once more.
  abbrev pub after_file : Argv → Option RuntimeConfig → Start
  after_file argv none = failure
  after_file argv (some rc) =
      after_second (runtime_config_parse_args argv (runtime_config_load_env getenv rc)).0

  abbrev pub after_first : Parsed → Argv → Start
  after_first (rejected rc) argv = failure
  after_first exited argv = success
  after_first (parsed_to rc) argv =
      if access rc.config_file_path
      then after_file argv (runtime_config_load_file lib rc)
      else checked rc

  -- The first part of main. getopt_long goes on where it stands: `optind` is not reset between the
  -- two parses.
  unfoldable pub configure : Argv → Start
  configure argv =
      let r = runtime_config_parse_args argv (runtime_config_load_env getenv runtime_config_init) in
      after_first r.0 r.1
