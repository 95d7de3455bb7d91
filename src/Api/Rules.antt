-- ===== src/Api/Rules.antt =====
-- `api_rules_create` and `api_rules_delete` of src/api/rules.c.
pub mod Enforced
pub mod Undone
use cyrenus.Api.Maps.{Syscalls}
use cyrenus.Xdp.Types.{RuleKey, Rule}
use cyrenus.Xdp.State.{State}
use cyrenus.Api.Json.{respond, Response, JsonC}
use cyrenus.Prelude.{
  ◌^◌, zero, str_case_eq, ◌%◌, codes, ◌==◌, scan_int, swap16, suc, if◌then◌else◌, [], none, ◌∷◌,
  some, some, some, some, some, some, some, some, some, Option, Text, ℕ, drop, take,
}

-- inet_pton into a key that is 0: the key keeps its 0 where the text is no address.
abbrev pub address_or_zero : Option ℕ → ℕ
address_or_zero none = 0
address_or_zero (some ip) = ip

abbrev pub proto_number : Text → ℕ
proto_number proto =
    if str_case_eq proto (codes "tcp")
    then 6
    else if str_case_eq proto (codes "udp")
    then 17
    else if str_case_eq proto (codes "icmp")
    then 1
    else 0

module _ {J : Type 0} (json : JsonC J) (inet_pton : Text → Option ℕ) where
  abbrev pub ip_member : Option J → ℕ
  ip_member none = 0
  ip_member (some j_ip) = address_or_zero (inet_pton (json.get_string j_ip))

  -- htons takes the low 16 bits of the `int`.
  abbrev pub port_member : Option J → ℕ
  port_member none = 0
  port_member (some j_port) = json.get_int j_port % 2 ^ 16

  abbrev pub proto_member : Option J → ℕ
  proto_member none = 0
  proto_member (some j_proto) = proto_number (json.get_string j_proto)

  abbrev pub action_member : Option J → ℕ
  action_member none = 1
  action_member (some j_action) =
      if str_case_eq (json.get_string j_action) (codes "pass") then 2 else 1

  abbrev pub parsed_key : J → RuleKey
  parsed_key root = record {
    ip = ip_member (json.get_ex root (codes "ip"));
    port = swap16 (port_member (json.get_ex root (codes "port")));
    proto = proto_member (json.get_ex root (codes "proto"));
  }

  abbrev pub parsed_rule : J → Rule
  parsed_rule root = record {
    port_start = (parsed_key root).port;
    port_end = (parsed_key root).port;
    proto = (parsed_key root).proto;
    action = action_member (json.get_ex root (codes "action"));
  }

  abbrev pub rule_added : State → Option (RuleKey → Option Rule) → Response × State
  rule_added s none = (respond 500 (codes "{\"error\":\"Failed to update BPF map\"}"), s)
  rule_added s (some rules) =
      (respond 200 (codes "{\"status\":\"Rule added\"}"), record s { rules = rules })

  abbrev pub create_rule : Syscalls → State → Option J → Response × State
  create_rule bpf s none = (respond 400 (codes "{\"error\":\"Invalid JSON\"}"), s)
  create_rule bpf s (some root) =
      rule_added s (bpf.rules.update s.rules (parsed_key root) (parsed_rule root))

  unfoldable pub api_rules_create : Syscalls → State → Option Text → Response × State
  api_rules_create bpf s upload_data = create_rule bpf s (json.tokener_parse upload_data)

-- The locals of `api_rules_delete`, which the scan may leave as they were.
pub record RuleId : Type 0 where
  pub ip_str : Text
  pub port : ℕ
  pub proto : ℕ

-- "%15[^_]": the bytes up to an underscore, `width` at most, and the text behind them.
unfoldable pub scan_set : ℕ → Text → Text × Text
scan_set zero text = ([], text)
scan_set (suc width) [] = ([], [])
scan_set (suc width) (c ∷ cs) =
    let rest = scan_set width cs in if c == 95 then ([], c ∷ cs) else (c ∷ rest.0, rest.1)

-- A literal underscore.
unfoldable pub scan_underscore : Text → Option Text
scan_underscore [] = none
scan_underscore (c ∷ cs) = if c == 95 then some cs else none

abbrev pub proto_scanned : RuleId → Option (ℕ × Text) → RuleId
proto_scanned id none = id
proto_scanned id (some (proto, rest)) = record id { proto = proto }

unfoldable pub scan_proto : RuleId → Option Text → RuleId
scan_proto id none = id
scan_proto id (some text) = proto_scanned id (scan_int text)

abbrev pub port_scanned : RuleId → Option (ℕ × Text) → RuleId
port_scanned id none = id
port_scanned id (some (port, rest)) = scan_proto (record id { port = port }) (scan_underscore rest)

unfoldable pub scan_port : RuleId → Option Text → RuleId
scan_port id none = id
scan_port id (some text) = port_scanned id (scan_int text)

abbrev pub ip_scanned : RuleId → Text × Text → RuleId
ip_scanned id ([], rest) = id
ip_scanned id (c ∷ cs, rest) = scan_port (record id { ip_str = c ∷ cs }) (scan_underscore rest)

-- sscanf(id_str, "%15[^_]_%d_%d", ip_str, &port, &proto)
unfoldable pub scan_rule_id : RuleId → Text → RuleId
scan_rule_id id id_str = ip_scanned id (scan_set 15 id_str)

abbrev pub scanned_key : (Text → Option ℕ) → RuleId → RuleKey
scanned_key inet_pton id = record {
  ip = address_or_zero (inet_pton id.ip_str);
  port = swap16 (id.port % 2 ^ 16);
  proto = id.proto % 2 ^ 8;
}

abbrev pub rule_removed : State → Option (RuleKey → Option Rule) → State
rule_removed s none = s
rule_removed s (some rules) = record s { rules = rules }

-- `locals` is what the variables hold before the scan, which nothing sets. The response is the same
-- whatever the scan and the delete answer.
unfoldable pub api_rules_delete :
    (Text → Option ℕ) → Syscalls → RuleId → State → Text → Response × State
api_rules_delete inet_pton bpf locals s id_str = (
  respond 200 (codes "{\"status\":\"Rule deleted\"}"),
  rule_removed s (bpf.rules.delete s.rules (scanned_key inet_pton (scan_rule_id locals id_str))),
)
