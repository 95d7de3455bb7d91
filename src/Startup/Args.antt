-- ===== src/Startup/Args.antt =====
-- `runtime_config_parse_args` of src/runtime_config.c. What getopt_long reads of the arguments is
-- given: its options in order, each with its optarg, and the argument behind them.
use cyrenus.Startup.{strncpy, RuntimeConfig}
use cyrenus.Prelude.{
  true, atoi, ◌==◌, ltb, u16, none, [], if◌then◌else◌, ◌∷◌, some, Text, List, Option, ℕ,
}

-- The cases of the switch.
pub data Opt : Type 0 where
  opt_interface : Text → Opt
  opt_port : Text → Opt
  opt_config : Text → Opt
  opt_database : Text → Opt
  opt_geoip : Text → Opt
  opt_key : Text → Opt
  opt_username : Text → Opt
  opt_password : Text → Opt
  opt_daemon : Opt
  opt_verbose : Opt
  opt_debug : Opt
  opt_environment : Text → Opt
  opt_log_level : Text → Opt
  opt_log_file : Text → Opt
  opt_no_geoip : Opt
  opt_no_notifications : Opt
  opt_dry_run : Opt
  opt_help : Opt
  opt_version : Opt
  opt_unknown : Opt

-- What one option comes to: the loop goes on, the function returns -1, or the program exits with 0.
pub data Parsed : Type 0 where
  parsed_to : RuntimeConfig → Parsed
  rejected : RuntimeConfig → Parsed
  exited : Parsed

abbrev pub with_port : RuntimeConfig → ℕ → Parsed
with_port rc port =
    if port == 0
    then rejected (record rc { http_port = port })
    else parsed_to (record rc { http_port = port })

-- A level below 0 has the top bit of the 32 set.
abbrev pub with_level : RuntimeConfig → ℕ → Parsed
with_level rc level =
    if ltb 3 level
    then rejected (record rc { log_level = level })
    else parsed_to (record rc { log_level = level })

abbrev pub parse_opt : RuntimeConfig → Opt → Parsed
parse_opt rc (opt_interface optarg) = parsed_to (record rc { interface = strncpy 15 optarg })
parse_opt rc (opt_port optarg) = with_port rc (u16 (atoi optarg))
parse_opt rc (opt_config optarg) = parsed_to (record rc { config_file_path = strncpy 511 optarg })
parse_opt rc (opt_database optarg) = parsed_to (record rc { database_path = strncpy 511 optarg })
parse_opt rc (opt_geoip optarg) = parsed_to (record rc { geoip_db_path = strncpy 511 optarg })
parse_opt rc (opt_key optarg) = parsed_to (record rc { master_key_path = strncpy 511 optarg })
parse_opt rc (opt_username optarg) = parsed_to (record rc { username = strncpy 127 optarg })
parse_opt rc (opt_password optarg) = parsed_to (record rc { password = strncpy 127 optarg })
parse_opt rc opt_daemon = parsed_to (record rc { daemon_mode = true })
parse_opt rc opt_verbose = parsed_to (record rc { verbose = true; log_level = 2 })
parse_opt rc opt_debug = parsed_to (record rc { debug = true; log_level = 3 })
parse_opt rc (opt_environment optarg) = parsed_to (record rc { environment = strncpy 31 optarg })
parse_opt rc (opt_log_level optarg) = with_level rc (atoi optarg)
parse_opt rc (opt_log_file optarg) = parsed_to (record rc { log_file = strncpy 511 optarg })
parse_opt rc opt_no_geoip = parsed_to (record rc { no_geoip = true })
parse_opt rc opt_no_notifications = parsed_to (record rc { no_notifications = true })
parse_opt rc opt_dry_run = parsed_to (record rc { dry_run = true })
parse_opt rc opt_help = exited
parse_opt rc opt_version = exited
parse_opt rc opt_unknown = rejected rc

-- The arguments as getopt_long stands in them: the options that it has not read yet, and the first
-- argument that is no option.
pub record Argv : Type 0 where
  pub options : List Opt
  pub positional : Option Text

abbrev pub with_positional : Option Text → RuntimeConfig → RuntimeConfig
with_positional none rc = rc
with_positional (some arg) rc = record rc { config_file_path = strncpy 511 arg }

-- After one option, with `opts` behind it: the rest of the loop, or the end.
abbrev pub go_on : (RuntimeConfig → Parsed × List Opt) → List Opt → Parsed → Parsed × List Opt
go_on rest opts (parsed_to rc) = rest rc
go_on rest opts (rejected rc) = (rejected rc, opts)
go_on rest opts exited = (exited, opts)

-- The loop: what it comes to, and the options that are left.
unfoldable pub parse_opts : List Opt → RuntimeConfig → Parsed × List Opt
parse_opts [] rc = (parsed_to rc, [])
parse_opts (opt ∷ opts) rc = go_on (λ rc'. parse_opts opts rc') opts (parse_opt rc opt)

-- The positional argument is copied twice.
abbrev pub end_of_args : Option Text → Parsed → Parsed
end_of_args arg (parsed_to rc) = parsed_to (with_positional arg (with_positional arg rc))
end_of_args arg (rejected rc) = rejected rc
end_of_args arg exited = exited

-- The result, and where getopt_long stands after it.
unfoldable pub runtime_config_parse_args : Argv → RuntimeConfig → Parsed × Argv
runtime_config_parse_args argv rc =
    let r = parse_opts argv.options rc in
    (end_of_args argv.positional r.0, record argv { options = r.1 })
