-- ===== src/Api/Rules/Enforced.antt =====
-- A rule that is created is the one that the packet filter applies.
use cyrenus.Xdp.Types.{drop, pass}
use cyrenus.Xdp.Rules.{rule_key, rule_action, apply_rule}
use cyrenus.Api.Rules.{
  proto_member, port_member, ip_member, parsed_rule, parsed_key, action_member, api_rules_create,
}
use cyrenus.Xdp.State.{State}
use cyrenus.Xdp.Types.{RuleKey, Action, Rule}
use cyrenus.Api.Maps.{IsHash, Syscalls}
use cyrenus.Api.Json.{respond, JsonC}
use cyrenus.Prelude.{
  str_case_eq, if◌then◌else◌, ap, swap16, ◌≢◌, codes, refl, none, some, ◌≡◌, Option, Text, ℕ, arith,
}

module _ {J : Type 0} (json : JsonC J) (inet_pton : Text → Option ℕ) (bpf : Syscalls) where
  -- The verdict that the body of the request asks for.
  abbrev pub asked_verdict : Option J → Action
  asked_verdict none = drop
  asked_verdict (some j_action) =
      if str_case_eq (json.get_string j_action) (codes "pass") then pass else drop

  -- The state after the rule is stored.
  stored : State → (RuleKey → Option Rule) → State
  stored s m = record s { rules = m }

  rule_action-asked :
      (o : Option J) (rule : Rule)
      → rule.action ≡ action_member json inet_pton o
      → rule_action rule ≡ asked_verdict o
  rule_action-asked none rule e = rw e refl
  rule_action-asked (some j_action) rule e = ground arith

  create-stores :
      (s : State) (upload_data : Option Text) (root : J) (m : RuleKey → Option Rule)
      → json.tokener_parse upload_data ≡ some root
      → bpf.rules.update s.rules (parsed_key json inet_pton root) (parsed_rule json inet_pton root)
        ≡ some m
      → api_rules_create json inet_pton bpf s upload_data
        ≡ (respond 200 (codes "{\"status\":\"Rule added\"}"), record s { rules = m })
  unfolding api_rules_create
  create-stores s upload_data root m e f = rw e (rw f refl)

  -- Where the map takes the rule, the answer is 200, and the rules give the packets of the address,
  -- the port and the protocol of the body the verdict that the body asks for: a drop, or a pass if
  -- its action is "pass".
  pub api_rules_create-enforced :
      (s : State) (upload_data : Option Text) (root : J) (m : RuleKey → Option Rule)
      → IsHash bpf.rules
      → json.tokener_parse upload_data ≡ some root
      → bpf.rules.update s.rules (parsed_key json inet_pton root) (parsed_rule json inet_pton root)
        ≡ some m
      → let created = api_rules_create json inet_pton bpf s upload_data in
        (created.0.status ≡ 200)
        × (apply_rule created.1
              (ip_member json inet_pton (json.get_ex root (codes "ip")))
              (port_member json inet_pton (json.get_ex root (codes "port")))
              (proto_member json inet_pton (json.get_ex root (codes "proto")))
            ≡ asked_verdict (json.get_ex root (codes "action")))
  unfolding apply_rule
  api_rules_create-enforced s upload_data root m h e f =
      rw (create-stores s upload_data root m e f) (
        refl,
        rw
            (h.updated s.rules m (parsed_key json inet_pton root) (parsed_rule json inet_pton root)
              f)
            (rule_action-asked (json.get_ex root (codes "action")) (parsed_rule json inet_pton root)
              refl),
      )

  -- Where the map takes a rule that is created, the rules treat the packets of every other address
  -- as before.
  pub api_rules_create-others :
      (s : State) (upload_data : Option Text) (root : J) (m : RuleKey → Option Rule)
      (ip port proto : ℕ)
      → IsHash bpf.rules
      → json.tokener_parse upload_data ≡ some root
      → bpf.rules.update s.rules (parsed_key json inet_pton root) (parsed_rule json inet_pton root)
        ≡ some m
      → ip_member json inet_pton (json.get_ex root (codes "ip")) ≢ ip
      → apply_rule (api_rules_create json inet_pton bpf s upload_data).1 ip port proto
        ≡ apply_rule s ip port proto
  unfolding apply_rule
  api_rules_create-others s upload_data root m ip port proto h e f n =
      rw (create-stores s upload_data root m e f) (
        rw
          (h.update_other s.rules m (parsed_key json inet_pton root)
            (rule_key ip (swap16 port) proto) (parsed_rule json inet_pton root) f
            (λ k. n (ap (λ k'. k'.ip) k)))
          (rw
            (h.update_other s.rules m (parsed_key json inet_pton root) (rule_key ip 0 proto)
              (parsed_rule json inet_pton root) f (λ k. n (ap (λ k'. k'.ip) k)))
            refl))
