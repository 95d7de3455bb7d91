-- ===== src/Startup/Tests.antt =====
-- Tests of the start, and its theorems at concrete inputs.
use cyrenus.Startup.Valid.{configure-FitsConfig}
use cyrenus.Startup.Complete.{configure-incomplete}
use cyrenus.Startup.Precedence.{configure-file_port, port_variable}
use cyrenus.Startup.Port.{last_port}
use cyrenus.Startup.Env.{runtime_config_validate, runtime_config_load_env, env_port}
use cyrenus.Startup.Fits.{FitsConfig}
use cyrenus.Startup.Main.{started, failure, configure}
use cyrenus.Startup.{runtime_config_init, RuntimeConfig}
use cyrenus.Startup.Args.{
  parsed_to, opt_port, opt_interface, parse_opts, Argv, runtime_config_parse_args,
}
use cyrenus.Startup.File.{runtime_config_load_file, port_set, LibConfig, FileConfig, load_config}
use cyrenus.Prelude.{
  digits, signed, skip_space, atoi, refl, none, true, false, ◌∷◌, take, length, some, Option, Bool,
  codes, [], ◌≤◌, Text, ◌≡◌, ℕ,
}

-- A file with every setting, on port 9000, and one without its backend.
abbrev full_file : LibConfig ℕ ℕ
full_file = record {
  read_file = λ filename. some 0;
  lookup_string = λ conf key. some (codes "eth1");
  lookup_int = λ conf key. some 9000;
  lookup = λ conf key. some 0;
  setting_lookup_string = λ setting key. some (codes "text");
}

abbrev no_backend : LibConfig ℕ ℕ
no_backend = record {
  read_file = λ filename. some 0;
  lookup_string = λ conf key. some (codes "eth1");
  lookup_int = λ conf key. some 9000;
  lookup = λ conf key. none;
  setting_lookup_string = λ setting key. none;
}

abbrev no_env : Text → Option Text
no_env name = none

abbrev readable : Text → Bool
readable path = true

abbrev missing : Text → Bool
missing path = false

-- -i eth0 -p 8080
abbrev two_options : Argv
two_options = record {
  options = opt_interface (codes "eth0") ∷ opt_port (codes "8080") ∷ [];
  positional = none;
}

abbrev from_options : RuntimeConfig
from_options = record runtime_config_init { interface = codes "eth0"; http_port = 8080 }

first-options :
    (runtime_config_parse_args two_options (runtime_config_load_env no_env runtime_config_init)).0
    ≡ parsed_to from_options
unfolding runtime_config_parse_args parse_opts runtime_config_load_env codes take atoi skip_space
    signed digits
first-options = refl

start-options : configure full_file no_env missing two_options ≡ started from_options
unfolding configure runtime_config_parse_args parse_opts runtime_config_load_env codes take atoi
    skip_space signed digits runtime_config_validate
start-options = refl

abbrev from_file : RuntimeConfig
from_file = record from_options {
  interface = codes "eth1";
  http_port = 9000;
  backend_url = codes "text";
  api_key = codes "text";
  username = codes "eth1";
  password = codes "eth1";
  database_path = codes "text";
  geoip_db_path = codes "text";
}

start-file : configure full_file no_env readable two_options ≡ started from_file
unfolding configure runtime_config_parse_args parse_opts runtime_config_load_env codes take atoi
    skip_space signed digits runtime_config_validate runtime_config_load_file load_config
start-file = refl

abbrev file_settings : FileConfig
file_settings = record {
  app_secret = [];
  interface = codes "eth1";
  http_port = 9000;
  url = codes "text";
  api_key = codes "text";
  api_secret = codes "text";
  username = codes "eth1";
  password = codes "eth1";
}

full_file-loads : load_config full_file from_options.config_file_path ≡ some file_settings
unfolding load_config codes take
full_file-loads = refl

configure-FitsConfig_example :
    FitsConfig from_file × (1 ≤ length from_file.interface) × (1 ≤ 9000) × (9000 ≤ 65535)
configure-FitsConfig_example =
    configure-FitsConfig full_file no_env readable two_options from_file start-file

configure-file_port_example :
    9000
    ≡ env_port (port_variable full_file no_env readable) (
        port_set 9000
          (last_port two_options.options (env_port (port_variable full_file no_env readable) 8181)))
configure-file_port_example =
    configure-file_port full_file no_env readable two_options from_options from_file file_settings
      first-options refl full_file-loads start-file

configure-incomplete_example : configure no_backend no_env readable two_options ≡ failure
configure-incomplete_example =
    configure-incomplete no_backend no_env readable two_options from_options 0 first-options refl
      refl refl
