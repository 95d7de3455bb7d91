-- ===== src/Api/Tests.antt =====
-- Tests of the handlers, and their theorems at concrete inputs.
use cyrenus.Startup.{runtime_config_init, RuntimeConfig}
use cyrenus.Api.Keys.{generate_api_key, api_keys_create}
use cyrenus.Http.Hash.{digest, Digest}
use cyrenus.Api.Keys.Granted.{
  asked_days, asked_expiry, api_keys_create-grants, is_unexpired, IsKeyTable,
}
use cyrenus.Http.Database.{row, ApiKeyRecord, Step, done, NewKey, Sqlite}
use cyrenus.Api.Settings.Effect.{api_system_update_settings-effect}
use cyrenus.Xdp.Config.{get_config}
use cyrenus.Api.Settings.{api_system_get_settings, new_settings, api_system_update_settings}
use cyrenus.Xdp.State.{State}
use cyrenus.Api.Auth.Verify.{api_auth_verify-HasSession}
use cyrenus.Http.Access.{HasSession}
use cyrenus.Http.Guard.{api_key_id, has_session}
use cyrenus.Api.Rules.Enforced.{api_rules_create-enforced, asked_verdict}
use cyrenus.Xdp.Samples.{boot}
use cyrenus.Api.Rules.Undone.{api_rules_delete-undoes, rule_id, NoUnderscore}
use cyrenus.Http.Samples.{find_session, delete_request, plain_digest, times, rows, table}
use cyrenus.Xdp.Rules.{rule_key, apply_rule}
use cyrenus.Api.Rules.{
  api_rules_delete, parsed_rule, proto_member, parsed_key, port_member, ip_member, api_rules_create,
  RuleId,
}
use cyrenus.Xdp.Types.{Rule, RuleKey}
use cyrenus.Api.Json.{key_body, session_body, JsonC}
use cyrenus.Api.Auth.Login.{
  api_auth_login-grants, api_auth_login-credentials, IsSessionTable, HasCredentials,
}
use cyrenus.Api.Auth.{Credentials, Fresh, session_token, api_auth_login, api_auth_verify}
use cyrenus.Api.Samples.{
  numbers-IsHash, number_eq, member, rules-IsHash, rule_key_eq, kernel, always, one_address, Object,
}
use cyrenus.Prelude.{
  inl, zero, length, suc, List, ℕ, true, digits, signed, swap16, skip_space, atoi, str_eq_refl,
  str_eq, ◌==◌, ◌&&◌, ltb, ◌++◌, refl, ◌≢◌, ◌↔◌, ◌⊎◌, some, ◌≡◌, if◌then◌else◌, none, ◌∷◌, Option,
  [], Text, codes, arith,
}

abbrev login_object : Object
login_object = (codes "username", codes "admin") ∷ (codes "password", codes "pw") ∷ []

abbrev cfg : Credentials
cfg = record { username = codes "admin"; password = codes "pw" }

abbrev fresh : Fresh
fresh = record { user_id = codes "u"; session_id = codes "s"; now = 1000 }

abbrev identity_digest : Text → Text
identity_digest text = text

table-IsSessionTable : IsSessionTable table
unfolding find_session
table-IsSessionTable = record { inserted = λ db s time e n. rw (str_eq_refl s.token) refl }

right : HasCredentials (always login_object) cfg none
unfolding codes member str_eq
right = record {
  root = login_object;
  j_username = ([], codes "admin") ∷ [];
  j_password = ([], codes "pw") ∷ [];
  parsed = refl;
  has_username = refl;
  has_password = refl;
  username_right = refl;
  password_right = refl;
}

api_auth_login-grants_example :
    let token = session_token identity_digest (codes "admin") fresh in
    let login = api_auth_login table identity_digest (always login_object) cfg [] fresh none in
    (login.0 ≡ record { status = 200; body = session_body token 3600 })
    × (has_session table plain_digest login.1 times (some (codes "Bearer " ++ token))
        ≡ (ltb 10 4600 && ltb 11 4600))
unfolding find_session
api_auth_login-grants_example =
    api_auth_login-grants table identity_digest (always login_object) plain_digest cfg [] fresh none
      times table-IsSessionTable right refl λ t. refl

api_auth_login-credentials_example :
    let login = api_auth_login table identity_digest (always login_object) cfg [] fresh none in
    ((login.0.status ≡ 200) × HasCredentials (always login_object) cfg none)
    ⊎ ((login.0.status ≢ 200) × (login.1 ≡ []))
api_auth_login-credentials_example =
    api_auth_login-credentials table identity_digest (always login_object) cfg [] fresh none

api_auth_verify-HasSession_example :
    ((api_auth_verify table rows times (some (codes "t"))).status ≡ 200)
    ↔ HasSession table plain_digest rows times (delete_request (some (codes "t")) none)
api_auth_verify-HasSession_example =
    api_auth_verify-HasSession table plain_digest rows times
      (delete_request (some (codes "t")) none)

abbrev rule_object : Object
rule_object =
    (codes "ip", codes "10.0.0.1") ∷ (codes "port", codes "80") ∷ (codes "proto", codes "TCP") ∷ []

abbrev rule_json : JsonC Object
rule_json = always rule_object

-- The map after the rule of the object is stored.
abbrev one_rule : RuleKey → Option Rule
one_rule j =
    if rule_key_eq (parsed_key rule_json one_address rule_object) j
    then some (parsed_rule rule_json one_address rule_object)
    else none

api_rules_create-enforced_example :
    let created = api_rules_create rule_json one_address kernel (boot 0) none in
    (created.0.status ≡ 200)
    × (apply_rule created.1
          (ip_member rule_json one_address (rule_json.get_ex rule_object (codes "ip")))
          (port_member rule_json one_address (rule_json.get_ex rule_object (codes "port")))
          (proto_member rule_json one_address (rule_json.get_ex rule_object (codes "proto")))
        ≡ asked_verdict rule_json one_address kernel
            (rule_json.get_ex rule_object (codes "action")))
api_rules_create-enforced_example =
    api_rules_create-enforced rule_json one_address kernel (boot 0) none rule_object one_rule
      rules-IsHash refl refl

junk : RuleId
junk = record { ip_str = []; port = 1; proto = 2 }

ten-NoUnderscore : NoUnderscore (codes "10.0.0.1")
unfolding codes
ten-NoUnderscore = (
  λ e. absurd (omega arith),
  (
    λ e. absurd (omega arith),
    (
      λ e. absurd (omega arith),
      (
        λ e. absurd (omega arith),
        (
          λ e. absurd (omega arith),
          (λ e. absurd (omega arith), (λ e. absurd (omega arith), (λ e. absurd (omega arith), tt))),
        ),
      ),
    ),
  ),
)

api_rules_delete-undoes_example :
    let deleted =
      (api_rules_delete one_address kernel junk (boot 0) (rule_id (codes "10.0.0.1") 80 6)).1 in
    (apply_rule deleted 0x0100_000a 80 6 ≡ apply_rule (boot 0) 0x0100_000a 0 6)
    × (apply_rule deleted 5 53 17 ≡ apply_rule (boot 0) 5 53 17)
unfolding codes
api_rules_delete-undoes_example =
    api_rules_delete-undoes one_address kernel junk (boot 0) (codes "10.0.0.1") 0x0100_000a 80 6
      (λ j. if rule_key_eq (rule_key 0x0100_000a (swap16 80) 6) j then none else none) 5 53 17
      rules-IsHash ten-NoUnderscore (omega arith) (omega arith) (omega arith) (omega arith)
      (omega arith) refl refl (λ e. absurd (omega arith))

-- The addresses 1 and 3 are under another number: that of RU, and the one of ISO 3166-1 for FR.
abbrev located : State
located = record (boot 0) {
  geoip_map = λ k. some (if k.ip == 1 then 21077 else if k.ip == 3 then 250 else 18002);
}

abbrev country_object : Object
country_object = (codes "country_code", codes "FR") ∷ []

-- The configuration that the program starts from.
abbrev initial : RuntimeConfig
initial = runtime_config_init

abbrev settings_object : Object
settings_object = (codes "syn_flood_rate", codes "500") ∷ []

api_system_update_settings-effect_example :
    let updated =
      api_system_update_settings
        (always settings_object)
        kernel
        true
        (initial.thresholds)
        (boot 0)
        none in
    let read = get_config updated.2 in
    (read ≡ updated.1)
    × (updated.1 ≡ record (initial.thresholds) { syn_flood_rate = 500 })
    × (api_system_get_settings (some (record initial { thresholds = updated.1 }))
        ≡ some (record {
          interface = initial.interface;
          log_level = initial.log_level;
          geoip_enabled = true;
          syn_flood_rate = read.syn_flood_rate;
          udp_flood_rate = read.udp_flood_rate;
          icmp_flood_rate = read.icmp_flood_rate;
          dns_amp_rate = read.dns_amp_rate;
          max_frags = read.max_frags;
        }))
unfolding member str_eq codes atoi skip_space signed digits
api_system_update_settings-effect_example =
    api_system_update_settings-effect (always settings_object) kernel initial (boot 0) none
      settings_object
      (λ j.
        if number_eq 0 j
        then some
            (new_settings (always settings_object) kernel (initial.thresholds) settings_object)
        else (boot 0).config_map j)
      numbers-IsHash refl refl

-- A table of keys only, each with its place as its id.
unfoldable find_row : List NewKey → Text → ℕ → Step ApiKeyRecord
find_row [] hash time = done
find_row (k ∷ keys) hash time =
    let rest = find_row keys hash time in
    if str_eq k.key_hash hash
    then (if is_unexpired time k.expires_at
        then row (record { id = length keys; name = some k.name; permissions = some k.permissions })
        else done)
    else rest

abbrev key_table : Sqlite (List NewKey)
key_table = record {
  select_session = λ keys token time. done;
  insert_session = λ keys s. (done, keys);
  select_api_key = find_row;
  update_api_key = λ keys time id. (done, keys);
  insert_api_key = λ keys key. (done, key ∷ keys);
  delete_api_key = λ keys id. (done, keys);
}

key_table-IsKeyTable : IsKeyTable key_table
unfolding find_row
key_table-IsKeyTable = record {
  new_id = length;
  inserted = λ db key time e n. rw (str_eq_refl key.key_hash) refl;
}

-- A digest of 32 bytes.
abbrev zero_bytes : ℕ → Text
zero_bytes zero = []
zero_bytes (suc n) = 0 ∷ zero_bytes n

abbrev zero_digest : Text → Digest
zero_digest key = digest (zero_bytes 32)

abbrev first_letters : ℕ → ℕ
first_letters i = i

abbrev days_object : Object
days_object = (codes "expires_in_days", codes "2") ∷ []

api_keys_create-grants_example :
    let created =
      api_keys_create (always days_object) key_table zero_digest [] first_letters 1000 none in
    (created.0 ≡ record { status = 200; body = key_body (generate_api_key first_letters) })
    × (api_key_id key_table zero_digest created.1 times (some (generate_api_key first_letters)) ≡ (
        if is_unexpired times.at_key
          (asked_expiry 1000 (asked_days key_table zero_digest (always days_object) days_object))
        then some (key_table-IsKeyTable.new_id [])
        else none))
unfolding find_row member str_eq codes atoi
api_keys_create-grants_example =
    api_keys_create-grants key_table zero_digest (always days_object) [] first_letters 1000 none
      days_object (zero_bytes 32) times key_table-IsKeyTable refl refl refl refl (λ t. refl)
      (inl (omega arith))
