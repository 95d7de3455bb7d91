-- ===== src/Startup/Complete.antt =====
-- The settings that a configuration file must have.
use cyrenus.Startup.Precedence.{first_parse}
use cyrenus.Startup.Args.{parsed_to, Argv}
use cyrenus.Startup.Main.{failure, configure}
use cyrenus.Startup.{RuntimeConfig, strncpy}
use cyrenus.Startup.File.{
  FileConfig, runtime_config_load_file, setting_path, load_config, LibConfig,
}
use cyrenus.Prelude.{
  ◌∙◌, ◌>>=◌, none, refl, Option, false, [], ◌&&◌, some, ◌∷◌, codes, ◌≡◌, true, is_some, Text, Bool,
  List,
}

-- Every one of the tests.
abbrev pub all_of : List Bool → Bool
all_of [] = true
all_of (b ∷ bs) = b && all_of bs

bind-is_some :
    {A B : Type 0} (o : Option A) (f : A → Option B) (c : Bool)
    → ((a : A) → is_some (f a) ≡ c)
    → is_some (o >>= f) ≡ (is_some o && c)
bind-is_some none f c h = refl
bind-is_some (some a) f c h = h a

and_true : (b : Bool) → b ≡ (b && true)
and_true true = refl
and_true false = refl

module _ {Conf Setting : Type 0} (lib : LibConfig Conf Setting) where
  -- Which of the settings are there.
  abbrev pub present : Conf → List Bool
  present conf =
      is_some (lib.lookup_string conf (codes "interface"))
      ∷ is_some (lib.lookup_int conf (codes "http_port"))
      ∷ is_some (setting_path lib (lib.lookup conf (codes "backend")) (codes "url"))
      ∷ is_some (setting_path lib (lib.lookup conf (codes "backend")) (codes "api_key"))
      ∷ is_some (setting_path lib (lib.lookup conf (codes "backend")) (codes "api_secret"))
      ∷ is_some (lib.lookup_string conf (codes "username"))
      ∷ is_some (lib.lookup_string conf (codes "password"))
      ∷ []

  credentials :
      (conf : Conf) (cfg : Text → Text → FileConfig)
      → is_some (do
        username' ← lib.lookup_string conf (codes "username")
        password' ← lib.lookup_string conf (codes "password")
        some (cfg username' password'))
        ≡ (is_some (lib.lookup_string conf (codes "username"))
            && (is_some (lib.lookup_string conf (codes "password")) && true))
  credentials conf cfg = bind-is_some (lib.lookup_string conf (codes "username")) _ _ (λ username'.
      bind-is_some (lib.lookup_string conf (codes "password")) _ true (λ password'. refl))

  -- The part of load_config behind the port, for any way to put its texts together.
  backend_part :
      (conf : Conf) (backend : Option Setting) (cfg : Text → Text → Text → Text → Text → FileConfig)
      → is_some (do
        setting ← backend
        url' ← lib.setting_lookup_string setting (codes "url")
        api_key' ← lib.setting_lookup_string setting (codes "api_key")
        api_secret' ← lib.setting_lookup_string setting (codes "api_secret")
        username' ← lib.lookup_string conf (codes "username")
        password' ← lib.lookup_string conf (codes "password")
        some (cfg url' api_key' api_secret' username' password'))
        ≡ all_of (
            is_some (setting_path lib backend (codes "url"))
            ∷ is_some (setting_path lib backend (codes "api_key"))
            ∷ is_some (setting_path lib backend (codes "api_secret"))
            ∷ is_some (lib.lookup_string conf (codes "username"))
            ∷ is_some (lib.lookup_string conf (codes "password"))
            ∷ [])
  backend_part conf none cfg = refl
  backend_part conf (some setting) cfg =
      bind-is_some (lib.setting_lookup_string setting (codes "url")) _ _ (λ url'.
        bind-is_some (lib.setting_lookup_string setting (codes "api_key")) _ _ (λ api_key'.
          bind-is_some (lib.setting_lookup_string setting (codes "api_secret")) _ _
            (λ api_secret'. credentials conf (cfg url' api_key' api_secret'))))

  -- A file is loaded exactly when it has all seven settings that load_config asks for.
  pub load_config-present :
      (filename : Text) (conf : Conf)
      → lib.read_file filename ≡ some conf
      → is_some (load_config lib filename) ≡ all_of (present conf)
  unfolding load_config
  load_config-present filename conf e = rw e (
      bind-is_some (lib.lookup_string conf (codes "interface")) _ _ (λ interface'.
        bind-is_some (lib.lookup_int conf (codes "http_port")) _ _ (λ port.
          backend_part conf (lib.lookup conf (codes "backend"))
            (λ url' api_key' api_secret' username' password'. record {
              app_secret = [];
              interface = strncpy 15 interface';
              http_port = port;
              url = strncpy 255 url';
              api_key = strncpy 63 api_key';
              api_secret = strncpy 63 api_secret';
              username = strncpy 63 username';
              password = strncpy 63 password';
            }))))

  none_of : (o : Option FileConfig) → is_some o ≡ false → o ≡ none
  none_of none h = refl
  none_of (some cfg) h = absurd (cc)

  load_file-none :
      (rc : RuntimeConfig)
      → load_config lib rc.config_file_path ≡ none
      → runtime_config_load_file lib rc ≡ none
  unfolding runtime_config_load_file
  load_file-none rc h = rw h refl

  -- A configuration file that lacks one of the seven settings ends the program, whatever the
  -- environment and the arguments give for them.
  pub configure-incomplete :
      (getenv : Text → Option Text) (access : Text → Bool) (argv : Argv) (rc : RuntimeConfig)
      (conf : Conf)
      → (first_parse lib getenv access argv).0 ≡ parsed_to rc
      → access rc.config_file_path ≡ true
      → lib.read_file rc.config_file_path ≡ some conf
      → all_of (present conf) ≡ false
      → configure lib getenv access argv ≡ failure
  unfolding configure
  configure-incomplete getenv access argv rc conf p a r m =
      let l = none_of _ (load_config-present rc.config_file_path conf r ∙ m) in
      rw (p, a, load_file-none rc l) refl
