-- ===== src/Startup/Port.antt =====
-- The port that the program listens on: which of the sources of its configuration decides it.
use mathlib.Core.Path.{subst}
use cyrenus.Startup.Env.{runtime_config_validate}
use cyrenus.Startup.Main.{checked, after_second}
use cyrenus.Startup.Keeps.{StartHolds}
use cyrenus.Startup.File.{LibConfig}
use cyrenus.Startup.{RuntimeConfig}
use cyrenus.Startup.Args.{
  opt_unknown, opt_version, opt_help, opt_dry_run, opt_no_notifications, opt_no_geoip, opt_debug,
  opt_verbose, opt_daemon, opt_log_file, opt_log_level, opt_environment, opt_password, opt_username,
  opt_key, opt_geoip, opt_database, opt_config, exited, go_on, end_of_args, rejected, opt_interface,
  with_port, with_level, parse_opt, Argv, opt_port, parsed_to, parsed_to, Opt, Parsed, parse_opts,
  runtime_config_parse_args,
}
use cyrenus.Prelude.{
  inr, inr, none, inl, inl, atoi, ◌==◌, ltb, refl, some, u16, [], Bool-cases, Bool, ◌∷◌, ◌≡◌, Text,
  List, Option, ℕ,
}

-- The port after an option, and after a list of them: the last -p.
abbrev pub new_port : Opt → ℕ → ℕ
new_port (opt_port optarg) old = u16 (atoi optarg)
new_port _ old = old

abbrev pub last_port : List Opt → ℕ → ℕ
last_port [] old = old
last_port (o ∷ os) old = last_port os (new_port o old)

-- A loop that ended with a configuration has this port, and has read every option.
abbrev EndsWith : ℕ → Parsed × List Opt → Type 0
EndsWith n (parsed_to rc, rest) = (rc.http_port ≡ n) × (rest ≡ [])
EndsWith n (rejected rc, rest) = Unit
EndsWith n (exited, rest) = Unit

abbrev PortIs : ℕ → Parsed → Type 0
PortIs n (parsed_to rc) = rc.http_port ≡ n
PortIs n (rejected rc) = Unit
PortIs n exited = Unit

with_port-PortIs : (rc : RuntimeConfig) (port : ℕ) → PortIs port (with_port rc port)
with_port-PortIs rc port = elim (Bool-cases (port == 0)) [ inl e ↦ rw e tt | inr e ↦ rw e refl ]

with_level-PortIs : (rc : RuntimeConfig) (level : ℕ) → PortIs rc.http_port (with_level rc level)
with_level-PortIs rc level = elim (Bool-cases (ltb 3 level)) [ inl e ↦ rw e tt | inr e ↦ rw e refl ]

parse_opt-PortIs :
    (rc : RuntimeConfig) (o : Opt) → PortIs (new_port o rc.http_port) (parse_opt rc o)
parse_opt-PortIs rc (opt_interface arg) = refl
parse_opt-PortIs rc (opt_port arg) = with_port-PortIs rc (u16 (atoi arg))
parse_opt-PortIs rc (opt_config arg) = refl
parse_opt-PortIs rc (opt_database arg) = refl
parse_opt-PortIs rc (opt_geoip arg) = refl
parse_opt-PortIs rc (opt_key arg) = refl
parse_opt-PortIs rc (opt_username arg) = refl
parse_opt-PortIs rc (opt_password arg) = refl
parse_opt-PortIs rc opt_daemon = refl
parse_opt-PortIs rc opt_verbose = refl
parse_opt-PortIs rc opt_debug = refl
parse_opt-PortIs rc (opt_environment arg) = refl
parse_opt-PortIs rc (opt_log_level arg) = with_level-PortIs rc (atoi arg)
parse_opt-PortIs rc (opt_log_file arg) = refl
parse_opt-PortIs rc opt_no_geoip = refl
parse_opt-PortIs rc opt_no_notifications = refl
parse_opt-PortIs rc opt_dry_run = refl
parse_opt-PortIs rc opt_help = tt
parse_opt-PortIs rc opt_version = tt
parse_opt-PortIs rc opt_unknown = tt

go_on-EndsWith :
    (rest : RuntimeConfig → Parsed × List Opt) (opts : List Opt) (p : Parsed) (n m : ℕ)
    → ((rc : RuntimeConfig) → rc.http_port ≡ m → EndsWith n (rest rc))
    → PortIs m p
    → EndsWith n (go_on rest opts p)
go_on-EndsWith rest opts (parsed_to rc) n m r h = r rc h
go_on-EndsWith rest opts (rejected rc) n m r h = tt
go_on-EndsWith rest opts exited n m r h = tt

parse_opts-EndsWith :
    (opts : List Opt) (rc : RuntimeConfig) (old : ℕ)
    → rc.http_port ≡ old
    → EndsWith (last_port opts old) (parse_opts opts rc)
unfolding parse_opts
parse_opts-EndsWith [] rc old h = (h, refl)
parse_opts-EndsWith (o ∷ opts) rc old h =
    go_on-EndsWith (λ rc'. parse_opts opts rc') opts (parse_opt rc o) _ (new_port o old)
      (λ rc' h'. parse_opts-EndsWith opts rc' (new_port o old) h')
      (subst (λ q. PortIs (new_port o q) (parse_opt rc o)) h (parse_opt-PortIs rc o))

-- What a parse that went well leaves: the port, and no option to read.
abbrev pub AfterParse : ℕ → Parsed × Argv → Type 0
AfterParse n (parsed_to rc, argv) = (rc.http_port ≡ n) × (argv.options ≡ [])
AfterParse n (rejected rc, argv) = Unit
AfterParse n (exited, argv) = Unit

end-AfterParse :
    (n : ℕ) (arg : Option Text) (p : Parsed) (rest : List Opt)
    → EndsWith n (p, rest)
    → AfterParse n (end_of_args arg p, record { options = rest; positional = arg })
end-AfterParse n none (parsed_to rc) rest h = h
end-AfterParse n (some arg) (parsed_to rc) rest h = h
end-AfterParse n arg (rejected rc) rest h = h
end-AfterParse n arg exited rest h = h

pub parse_args-AfterParse :
    (argv : Argv) (rc : RuntimeConfig)
    → AfterParse (last_port argv.options rc.http_port) (runtime_config_parse_args argv rc)
unfolding runtime_config_parse_args
parse_args-AfterParse argv rc =
    end-AfterParse _ argv.positional (parse_opts argv.options rc).0 (parse_opts argv.options rc).1
      (parse_opts-EndsWith argv.options rc rc.http_port refl)

pub read_AfterParse :
    (n : ℕ) (r : Parsed × Argv) (rc : RuntimeConfig)
    → AfterParse n r
    → r.0 ≡ parsed_to rc
    → (rc.http_port ≡ n) × (r.1.options ≡ [])
read_AfterParse n (p, argv) rc h e = subst (λ p'. AfterParse n (p', argv)) e h

module _ {Conf Setting : Type 0} (lib : LibConfig Conf Setting) (getenv : Text → Option Text)
    (access : Text → Bool) where
  pub checked-port :
      (rc : RuntimeConfig) (n : ℕ)
      → rc.http_port ≡ n
      → StartHolds (λ rc'. rc'.http_port ≡ n) (checked lib getenv access rc)
  checked-port rc n h = elim (Bool-cases (runtime_config_validate rc)) [
    | inl e ↦ rw e h
    | inr e ↦ rw e tt
  ]

  positional-port :
      (arg : Option Text) (rc : RuntimeConfig) (n : ℕ)
      → rc.http_port ≡ n
      → StartHolds
          (λ rc'. rc'.http_port ≡ n)
          (after_second lib getenv access (end_of_args arg (parsed_to rc)))
  positional-port none rc n h = checked-port rc n h
  positional-port (some arg) rc n h = checked-port _ n h

  -- The second parse finds no option.
  pub second-port :
      (argv : Argv) (rc : RuntimeConfig) (n : ℕ)
      → argv.options ≡ []
      → rc.http_port ≡ n
      → StartHolds
          (λ rc'. rc'.http_port ≡ n)
          (after_second lib getenv access (runtime_config_parse_args argv rc).0)
  unfolding runtime_config_parse_args parse_opts
  second-port argv rc n e h = rw e (positional-port argv.positional rc n h)
