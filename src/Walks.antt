-- ===== src/Walks.antt =====
-- The walks of the hash maps by `api_rules_list` of src/api/rules.c and `api_traffic_stats` of
-- src/api/traffic.c.
pub mod Order
pub mod Listed
pub mod Tests
use cyrenus.Xdp.State.{State}
use cyrenus.Xdp.Types.{FlowKey, Rule, RuleKey, TrafficInfo}
use cyrenus.Prelude.{
  ◌+◌, leb, zero, ◌∷◌, codes, none, suc, [], ◌==◌, some, Bool, List, if◌then◌else◌, Option, Text, ℕ,
  swap16,
}

-- get_proto_name of rules.c
abbrev pub rule_proto_name : ℕ → Text
rule_proto_name proto =
    if proto == 6
    then codes "TCP"
    else if proto == 17
    then codes "UDP"
    else if proto == 1
    then codes "ICMP"
    else codes "UNKNOWN"

-- An object of the answer to the request for the rules.
pub record RuleItem : Type 0 where
  pub ip : Text
  pub port : ℕ
  pub proto : Text
  pub port_start : ℕ
  pub port_end : ℕ
  pub action : ℕ

-- An object of the answer to the request for the traffic; `packets` is the number of its 32 bits,
-- `bytes` that of its 64.
pub record TrafficItem : Type 0 where
  pub src_ip : Text
  pub dst_ip : Text
  pub src_port : ℕ
  pub dst_port : ℕ
  pub proto : ℕ
  pub bytes : ℕ
  pub packets : ℕ

module _ (inet_ntop : ℕ → Text) where
  abbrev pub rule_item : RuleKey → Rule → RuleItem
  rule_item next_key rule = record {
    ip = inet_ntop next_key.ip;
    port = swap16 next_key.port;
    proto = rule_proto_name next_key.proto;
    port_start = swap16 rule.port_start;
    port_end = swap16 rule.port_end;
    action = rule.action;
  }

  abbrev pub traffic_item : TrafficInfo → TrafficItem
  traffic_item info = record {
    src_ip = inet_ntop info.src_ip;
    dst_ip = inet_ntop info.dst_ip;
    src_port = info.src_port;
    dst_port = info.dst_port;
    proto = info.proto;
    bytes = info.bytes;
    packets = info.packets;
  }

-- An item in front of those that a walk goes on to find.
abbrev pub put {ℓ} : {A : Type ℓ} → A → Option (List A) → Option (List A)
put item none = none
put item (some items) = some (item ∷ items)

-- The body of the loop over the rules, at the key that was found.
abbrev pub list_rule :
    (ℕ → Text) → RuleKey → Option Rule → Option (List RuleItem) → Option (List RuleItem)
list_rule inet_ntop next_key none rest = rest
list_rule inet_ntop next_key (some rule) rest = put (rule_item inet_ntop next_key rule) rest

abbrev pub at_rule :
    (ℕ → Text)
    → (RuleKey → Option Rule)
    → Option RuleKey
    → (RuleKey → Option (List RuleItem))
    → Option (List RuleItem)
at_rule inet_ntop rules none rest = some []
at_rule inet_ntop rules (some next_key) rest =
    list_rule inet_ntop next_key (rules next_key) (rest next_key)

-- The loop over the rules: `get_next_key` is bpf_map_get_next_key. It is `none` where `fuel` calls
-- of it are too few.
unfoldable pub rules_loop :
    ℕ
    → (ℕ → Text)
    → (RuleKey → Option RuleKey)
    → (RuleKey → Option Rule)
    → RuleKey
    → Option (List RuleItem)
rules_loop zero inet_ntop get_next_key rules key = none
rules_loop (suc fuel) inet_ntop get_next_key rules key =
    at_rule inet_ntop rules (get_next_key key)
      (λ next_key. rules_loop fuel inet_ntop get_next_key rules next_key)

abbrev pub zero_rule_key : RuleKey
zero_rule_key = record { ip = 0; port = 0; proto = 0 }

-- `rules_fd >= 0` is `opened`; the map has room for 10240 rules. The answer is a 200.
unfoldable pub api_rules_list :
    (ℕ → Text) → (RuleKey → Option RuleKey) → Bool → State → Option (List RuleItem)
api_rules_list inet_ntop get_next_key opened s =
    if opened then rules_loop 10241 inet_ntop get_next_key s.rules zero_rule_key else some []

-- The body of the loop over the flows, after `count` of them; `rest` goes on from a count.
abbrev pub list_flow :
    (ℕ → Text)
    → Option TrafficInfo
    → ℕ
    → (ℕ → Option (List TrafficItem))
    → Option (List TrafficItem)
list_flow inet_ntop none count rest = rest count
list_flow inet_ntop (some info) count rest =
    put (traffic_item inet_ntop info) (if leb 100 (count + 1) then some [] else rest (count + 1))

abbrev pub at_flow :
    (ℕ → Text)
    → (FlowKey → Option TrafficInfo)
    → Option FlowKey
    → ℕ
    → (FlowKey → ℕ → Option (List TrafficItem))
    → Option (List TrafficItem)
at_flow inet_ntop flows none count rest = some []
at_flow inet_ntop flows (some next_key) count rest =
    list_flow inet_ntop (flows next_key) count (λ count'. rest next_key count')

unfoldable pub traffic_loop :
    ℕ
    → (ℕ → Text)
    → (FlowKey → Option FlowKey)
    → (FlowKey → Option TrafficInfo)
    → FlowKey
    → ℕ
    → Option (List TrafficItem)
traffic_loop zero inet_ntop get_next_key flows key count = none
traffic_loop (suc fuel) inet_ntop get_next_key flows key count =
    at_flow inet_ntop flows (get_next_key key) count
      (λ next_key count'. traffic_loop fuel inet_ntop get_next_key flows next_key count')

abbrev pub zero_flow_key : FlowKey
zero_flow_key = record { src_ip = 0; dst_ip = 0; src_port = 0; dst_port = 0; proto = 0 }

-- `traffic_fd >= 0` is `opened`; the map has room for 10240 flows.
unfoldable pub api_traffic_stats :
    (ℕ → Text) → (FlowKey → Option FlowKey) → Bool → State → Option (List TrafficItem)
api_traffic_stats inet_ntop get_next_key opened s =
    if opened
    then traffic_loop 10241 inet_ntop get_next_key s.active_traffic zero_flow_key 0
    else some []
