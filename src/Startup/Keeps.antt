-- ===== src/Startup/Keeps.antt =====
-- What each step of the start keeps holds of the configuration that the program goes on with.
use cyrenus.Startup.Env.{runtime_config_load_env, runtime_config_validate}
use cyrenus.Startup.Main.{
  after_file, after_first, success, checked, after_second, configure, failure, started, Start,
}
use cyrenus.Startup.Args.{
  parse_opt, go_on, Opt, exited, parse_opts, end_of_args, runtime_config_parse_args, Argv, rejected,
  parsed_to, Parsed,
}
use cyrenus.Startup.File.{runtime_config_load_file, LibConfig}
use cyrenus.Startup.{strncpy, runtime_config_init, RuntimeConfig}
use mathlib.Core.Path.{subst}
use cyrenus.Prelude.{
  [], false, inr, ◌∷◌, true, inl, ◌≡◌, Bool-cases, List, if◌then◌else◌, none, Bool, some, Option,
  Text,
}

abbrev pub ParsedHolds : (RuntimeConfig → Type 0) → Parsed → Type 0
ParsedHolds P (parsed_to rc) = P rc
ParsedHolds P (rejected rc) = P rc
ParsedHolds P exited = Unit

abbrev pub OptionHolds : (RuntimeConfig → Type 0) → Option RuntimeConfig → Type 0
OptionHolds P none = Unit
OptionHolds P (some rc) = P rc

abbrev pub StartHolds : (RuntimeConfig → Type 0) → Start → Type 0
StartHolds P (started rc) = P rc
StartHolds P failure = Unit
StartHolds P success = Unit

module _ {Conf Setting : Type 0} (lib : LibConfig Conf Setting) (getenv : Text → Option Text)
    (access : Text → Bool) where
  -- A property of configurations that every step keeps.
  pub record Keeps (P : RuntimeConfig → Type 0) : Type 0 where
    pub init : P runtime_config_init
    pub env : (rc : RuntimeConfig) → P rc → P (runtime_config_load_env getenv rc)
    pub opt : (rc : RuntimeConfig) (o : Opt) → P rc → ParsedHolds P (parse_opt rc o)
    pub positional :
        (rc : RuntimeConfig) (arg : Text)
        → P rc
        → P (record rc { config_file_path = strncpy 511 arg })
    pub file : (rc : RuntimeConfig) → P rc → OptionHolds P (runtime_config_load_file lib rc)

  module _ {P : RuntimeConfig → Type 0} (k : Keeps P) where
    go_on-Holds :
        (rest : RuntimeConfig → Parsed × List Opt) (opts : List Opt) (p : Parsed)
        → ((rc : RuntimeConfig) → P rc → ParsedHolds P (rest rc).0)
        → ParsedHolds P p
        → ParsedHolds P (go_on rest opts p).0
    go_on-Holds rest opts (parsed_to rc) r h = r rc h
    go_on-Holds rest opts (rejected rc) r h = h
    go_on-Holds rest opts exited r h = h

    parse_opts-Holds :
        (opts : List Opt) (rc : RuntimeConfig) → P rc → ParsedHolds P (parse_opts opts rc).0
    unfolding parse_opts
    parse_opts-Holds [] rc h = h
    parse_opts-Holds (o ∷ opts) rc h =
        go_on-Holds (λ rc'. parse_opts opts rc') opts (parse_opt rc o)
          (λ rc' h'. parse_opts-Holds opts rc' h') (k.opt rc o h)

    end_of_args-Holds :
        (arg : Option Text) (p : Parsed) → ParsedHolds P p → ParsedHolds P (end_of_args arg p)
    end_of_args-Holds none (parsed_to rc) h = h
    end_of_args-Holds (some arg) (parsed_to rc) h =
        k.positional (record rc { config_file_path = strncpy 511 arg }) arg (k.positional rc arg h)
    end_of_args-Holds arg (rejected rc) h = h
    end_of_args-Holds arg exited h = h

    parse_args-Holds :
        (argv : Argv) (rc : RuntimeConfig)
        → P rc
        → ParsedHolds P (runtime_config_parse_args argv rc).0
    unfolding runtime_config_parse_args
    parse_args-Holds argv rc h =
        end_of_args-Holds argv.positional (parse_opts argv.options rc).0
          (parse_opts-Holds argv.options rc h)

    abbrev Good : RuntimeConfig → Type 0
    Good rc = P rc × (runtime_config_validate rc ≡ true)

    checked-Holds : (rc : RuntimeConfig) → P rc → StartHolds Good (checked lib getenv access rc)
    checked-Holds rc h = elim (Bool-cases (runtime_config_validate rc)) [
      | inl e ↦ rw e (h, e)
      | inr e ↦ rw e tt
    ]

    second-Holds :
        (p : Parsed) → ParsedHolds P p → StartHolds Good (after_second lib getenv access p)
    second-Holds (parsed_to rc) h = checked-Holds rc h
    second-Holds (rejected rc) h = checked-Holds rc h
    second-Holds exited h = tt

    after_file-Holds :
        (argv : Argv) (o : Option RuntimeConfig)
        → OptionHolds P o
        → StartHolds Good (after_file lib getenv access argv o)
    after_file-Holds argv none h = tt
    after_file-Holds argv (some rc) h =
        second-Holds (runtime_config_parse_args argv (runtime_config_load_env getenv rc)).0
          (parse_args-Holds argv (runtime_config_load_env getenv rc) (k.env rc h))

    if-Holds :
        (b : Bool) (x y : Start)
        → StartHolds Good x
        → StartHolds Good y
        → StartHolds Good (if b then x else y)
    if-Holds true x y h h' = h
    if-Holds false x y h h' = h'

    first-Holds :
        (p : Parsed) (argv : Argv)
        → ParsedHolds P p
        → StartHolds Good (after_first lib getenv access p argv)
    first-Holds (rejected rc) argv h = tt
    first-Holds exited argv h = tt
    first-Holds (parsed_to rc) argv h =
        if-Holds (access rc.config_file_path) _ _
          (after_file-Holds argv (runtime_config_load_file lib rc) (k.file rc h))
          (checked-Holds rc h)

    configure-Holds : (argv : Argv) → StartHolds Good (configure lib getenv access argv)
    unfolding configure
    configure-Holds argv =
        first-Holds _ _ (parse_args-Holds argv _ (k.env runtime_config_init (k.init)))

    -- What every step keeps holds of a configuration that the program goes on with, and that one
    -- was validated.
    pub configure-keeps :
        (argv : Argv) (rc : RuntimeConfig)
        → configure lib getenv access argv ≡ started rc
        → P rc × (runtime_config_validate rc ≡ true)
    configure-keeps argv rc e = subst (StartHolds Good) e (configure-Holds argv)
