-- ===== src/Walks/Tests.antt =====
-- Tests of the walks of the hash maps, and their theorems at concrete inputs.
use cyrenus.Xdp.Account.Flows.{flow_eq→eq}
use cyrenus.Walks.Listed.{api_traffic_stats-front, api_rules_list-items}
use cyrenus.Walks.Order.{IsHashWalk, NotIn}
use cyrenus.Xdp.Account.{zero_info, flow_eq}
use cyrenus.Walks.{
  zero_flow_key, rule_item, traffic_item, zero_rule_key, api_rules_list, rules_loop,
  api_traffic_stats,
}
use cyrenus.Xdp.State.{State}
use cyrenus.Xdp.Types.{RuleKey, Rule, FlowKey}
use cyrenus.Api.Samples.{rule_key_eq, rule_key_eq→eq}
use cyrenus.Xdp.Samples.{boot}
use cyrenus.Prelude.{
  zero, some-injective, ap, sym, inr, arith, inl, Bool-cases, suc, ◌||◌, none, false, ◌==◌, ◌≢◌,
  refl, if◌then◌else◌, true, some, [], Option, ◌≡◌, codes, ◌∷◌, Bool, Text, get_elem?, ℕ,
}

-- The walk of a map that has two keys.
abbrev pair_next : {K : Type 0} → (K → K → Bool) → K → K → K → Option K
pair_next eq a b k = if eq k a then some b else if eq k b then none else some a

step-absent :
    {K : Type 0}
    → (eq : K → K → Bool) (a b k : K) → ((x y : K) → eq x y ≡ true → x ≡ y)
    → NotIn k (a ∷ b ∷ [])
    → pair_next eq a b k ≡ some a
step-absent eq a b k sound h = elim (Bool-cases (eq k a)) [
  | inl e ↦ absurd (h 0 (ap (λ x. some x) (sym (sound k a e))))
  | inr e ↦ elim (Bool-cases (eq k b)) [
    | inl d ↦ absurd (h 1 (ap (λ x. some x) (sym (sound k b d))))
    | inr d ↦ rw e (rw d refl)
  ]
]

step-present :
    {K : Type 0}
    → (eq : K → K → Bool) (a b : K) → eq a a ≡ true
    → eq b b ≡ true
    → eq b a ≡ false
    → (i : ℕ) (k : K) → get_elem? (a ∷ b ∷ []) i ≡ some k
    → pair_next eq a b k ≡ get_elem? (a ∷ b ∷ []) (suc i)
step-present eq a b ra rb ne zero k h = rw (sym (some-injective _ _ h)) (rw ra refl)
step-present eq a b ra rb ne (suc zero) k h = rw (sym (some-injective _ _ h)) (rw ne (rw rb refl))
step-present eq a b ra rb ne (suc (suc i)) k h = absurd (cc h)

-- A rule for the key of zeros, and one for port 80 of 10.0.0.1.
abbrev web_key : RuleKey
web_key = record { ip = 16777226; port = 20480; proto = 6 }

abbrev web_rule : Rule
web_rule = record { port_start = 20480; port_end = 20480; proto = 6; action = 1 }

abbrev two_rules : RuleKey → Option Rule
two_rules k = if k.ip == 0 || k.ip == 16777226 then some web_rule else none

abbrev rules_state : State
rules_state = record (boot 0) { rules = two_rules }

abbrev ntop : ℕ → Text
ntop ip = codes "10.0.0.1"

rules_walk-IsHashWalk :
    (a b : RuleKey)
    → rule_key_eq a a ≡ true
    → rule_key_eq b b ≡ true
    → rule_key_eq b a ≡ false
    → IsHashWalk (a ∷ b ∷ []) (pair_next rule_key_eq a b)
rules_walk-IsHashWalk a b ra rb ne = record {
  present = step-present rule_key_eq a b ra rb ne;
  absent = λ k. step-absent rule_key_eq a b k rule_key_eq→eq;
}

-- The rule of the key of zeros is not listed, the one behind it is.
api_rules_list-items_example :
    api_rules_list ntop (pair_next rule_key_eq zero_rule_key web_key) true rules_state
    ≡ some (rule_item ntop web_key web_rule ∷ [])
api_rules_list-items_example =
    api_rules_list-items ntop (pair_next rule_key_eq zero_rule_key web_key) rules_state
      (zero_rule_key ∷ web_key ∷ []) (inr (0, refl))
      (rules_walk-IsHashWalk zero_rule_key web_key refl refl refl) (omega arith)

-- Ahead of the key of zeros, neither is.
hidden-test :
    rules_loop 3 ntop (pair_next rule_key_eq web_key zero_rule_key) two_rules zero_rule_key
    ≡ some []
unfolding rules_loop
hidden-test = refl

abbrev flow_a : FlowKey
flow_a = record { src_ip = 1; dst_ip = 2; src_port = 3; dst_port = 4; proto = 6 }

abbrev flow_b : FlowKey
flow_b = record { src_ip = 5; dst_ip = 2; src_port = 3; dst_port = 4; proto = 6 }

abbrev flows_state : State
flows_state = record (boot 0) {
  active_traffic = λ k. some (record zero_info { src_ip = k.src_ip });
}

no_zero_flow : (i : ℕ) → get_elem? (flow_a ∷ flow_b ∷ []) i ≢ some zero_flow_key
no_zero_flow zero h = absurd (ground (arith, ap (λ k. k.src_ip) (some-injective _ _ h)))
no_zero_flow (suc zero) h = absurd (ground (arith, ap (λ k. k.src_ip) (some-injective _ _ h)))
no_zero_flow (suc (suc i)) h = absurd (cc h)

api_traffic_stats-front_example :
    api_traffic_stats ntop (pair_next flow_eq flow_a flow_b) true flows_state
    ≡ some (
        traffic_item ntop (record zero_info { src_ip = 1 })
        ∷ traffic_item ntop (record zero_info { src_ip = 5 })
        ∷ [])
api_traffic_stats-front_example =
    api_traffic_stats-front ntop (pair_next flow_eq flow_a flow_b) flows_state
      (flow_a ∷ flow_b ∷ []) (inl no_zero_flow)
      (record {
        present = step-present flow_eq flow_a flow_b refl refl refl;
        absent = λ k. step-absent flow_eq flow_a flow_b k flow_eq→eq;
      })
      (omega arith)
