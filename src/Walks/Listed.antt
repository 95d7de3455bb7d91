-- ===== src/Walks/Listed.antt =====
-- What the walks of the rules and of the traffic find.
use cyrenus.Xdp.State.{State}
use cyrenus.Xdp.Types.{FlowKey, Rule, RuleKey, TrafficInfo}
use cyrenus.Walks.Order.{IsHashWalk, IsFollowed, Start, walked, walked-IsFollowed}
use cyrenus.Walks.{
  RuleItem, TrafficItem, rule_item, traffic_item, rules_loop, traffic_loop, api_rules_list,
  api_traffic_stats, zero_rule_key, zero_flow_key, list_rule, list_flow,
}
use cyrenus.Prelude.{
  false, refl, ◌+◌, ◌≡◌, ◌≤◌, ◌<◌, List, Option, [], get_elem?, length, none, some, suc, zero, ◌∷◌,
  ℕ, arith, Text, true, leb,
}

-- The objects of the keys, in their order.
abbrev pub rule_items : (ℕ → Text) → (RuleKey → Option Rule) → List RuleKey → List RuleItem
rule_items inet_ntop rules [] = []
rule_items inet_ntop rules (k ∷ ks) = elim (rules k) [
  | none ↦ rule_items inet_ntop rules ks
  | some rule ↦ rule_item inet_ntop k rule ∷ rule_items inet_ntop rules ks
]

list_rule-items :
    (inet_ntop : ℕ → Text) (rules : RuleKey → Option Rule) (k : RuleKey) (ks : List RuleKey)
    → list_rule inet_ntop k (rules k) (some (rule_items inet_ntop rules ks))
      ≡ some (rule_items inet_ntop rules (k ∷ ks))
list_rule-items inet_ntop rules k ks = go (rules k)
  where
    go :
        (o : Option Rule)
        → list_rule inet_ntop k o (some (rule_items inet_ntop rules ks))
          ≡ some (elim o [
            | none ↦ rule_items inet_ntop rules ks
            | some rule ↦ rule_item inet_ntop k rule ∷ rule_items inet_ntop rules ks
          ])
    go none = refl
    go (some rule) = refl

-- From a key on, the loop finds the objects of the keys behind it.
rules_loop-items :
    (inet_ntop : ℕ → Text) (get_next_key : RuleKey → Option RuleKey) (rules : RuleKey → Option Rule)
    (fuel : ℕ) (ks : List RuleKey) (key : RuleKey)
    → get_next_key key ≡ get_elem? ks zero
    → IsFollowed ks get_next_key
    → length ks < fuel
    → rules_loop fuel inet_ntop get_next_key rules key ≡ some (rule_items inet_ntop rules ks)
unfolding rules_loop
rules_loop-items inet_ntop get_next_key rules zero ks key n h f = absurd (omega arith)
rules_loop-items inet_ntop get_next_key rules (suc fuel) [] key n h f = rw n refl
rules_loop-items inet_ntop get_next_key rules (suc fuel) (k ∷ ks) key n h f = rw n (
    rw
      (rules_loop-items inet_ntop get_next_key rules fuel ks k (h zero k refl) (λ i. h (suc i))
        (omega arith))
      (list_rule-items inet_ntop rules k ks))

-- The map of the rules is open, it is walked as a hash is, and it has 10240 keys at most; the walk
-- starts with a key of zeros. Where that key is not among the keys, the answer lists the rules of
-- all the keys, in the order of the walk; where it is, only those of the keys behind it.
pub api_rules_list-items :
    (inet_ntop : ℕ → Text) (get_next_key : RuleKey → Option RuleKey) (s : State)
    (keys : List RuleKey) (start : Start zero_rule_key keys)
    → IsHashWalk keys get_next_key
    → length keys ≤ 10240
    → api_rules_list inet_ntop get_next_key true s
      ≡ some (rule_items inet_ntop s.rules (walked zero_rule_key keys start))
unfolding api_rules_list
api_rules_list-items inet_ntop get_next_key s keys start w l =
    let f = walked-IsFollowed zero_rule_key keys get_next_key start w in
    rules_loop-items inet_ntop get_next_key s.rules 10241 (walked zero_rule_key keys start)
      zero_rule_key f.0 f.1 (omega (arith, l, f.2))

-- The objects of the flows, in the order of their keys.
abbrev pub traffic_items :
    (ℕ → Text) → (FlowKey → Option TrafficInfo) → List FlowKey → List TrafficItem
traffic_items inet_ntop flows [] = []
traffic_items inet_ntop flows (k ∷ ks) = elim (flows k) [
  | none ↦ traffic_items inet_ntop flows ks
  | some info ↦ traffic_item inet_ntop info ∷ traffic_items inet_ntop flows ks
]

-- The first n elements.
abbrev pub front : {A : Type 0} → ℕ → List A → List A
front zero xs = []
front (suc n) [] = []
front (suc n) (x ∷ xs) = x ∷ front n xs

list_flow-front :
    (inet_ntop : ℕ → Text) (o : Option TrafficInfo) (items : List TrafficItem) (left count : ℕ)
    (rest : ℕ → Option (List TrafficItem))
    → ((n c : ℕ) → suc n + c ≡ 100 → rest c ≡ some (front (suc n) items))
    → suc left + count ≡ 100
    → list_flow inet_ntop o count rest
      ≡ some (
          front
            (suc left)
            (elim o [ none ↦ items | some info ↦ traffic_item inet_ntop info ∷ items ]))
list_flow-front inet_ntop none items left count rest h e = h left count e
list_flow-front inet_ntop (some info) items zero count rest h e =
    let full : leb 100 (count + 1) ≡ true = ground arith in rw full refl
list_flow-front inet_ntop (some info) items (suc left) count rest h e =
    let room : leb 100 (count + 1) ≡ false = ground arith in
    rw room (rw (h left (count + 1) (omega arith)) refl)

traffic_loop-front :
    (inet_ntop : ℕ → Text) (get_next_key : FlowKey → Option FlowKey)
    (flows : FlowKey → Option TrafficInfo) (fuel : ℕ) (ks : List FlowKey) (key : FlowKey)
    (left count : ℕ)
    → get_next_key key ≡ get_elem? ks zero
    → IsFollowed ks get_next_key
    → length ks < fuel
    → suc left + count ≡ 100
    → traffic_loop fuel inet_ntop get_next_key flows key count
      ≡ some (front (suc left) (traffic_items inet_ntop flows ks))
unfolding traffic_loop
traffic_loop-front inet_ntop get_next_key flows zero ks key left count n h f e =
    absurd (omega arith)
traffic_loop-front inet_ntop get_next_key flows (suc fuel) [] key left count n h f e = rw n refl
traffic_loop-front inet_ntop get_next_key flows (suc fuel) (k ∷ ks) key left count n h f e = rw n (
    list_flow-front inet_ntop (flows k) (traffic_items inet_ntop flows ks) left count
      (λ c. traffic_loop fuel inet_ntop get_next_key flows k c)
      (λ left' c.
        traffic_loop-front inet_ntop get_next_key flows fuel ks k left' c (h zero k refl)
          (λ i. h (suc i)) (omega arith))
      e)

-- The map of the flows is open, it is walked as a hash is, and it has 10240 keys at most; the walk
-- starts with a key of zeros. The answer is the first hundred flows of all the keys, in the order of
-- the walk, or, where the key of zeros is among them, of the keys behind it.
pub api_traffic_stats-front :
    (inet_ntop : ℕ → Text) (get_next_key : FlowKey → Option FlowKey) (s : State)
    (keys : List FlowKey) (start : Start zero_flow_key keys)
    → IsHashWalk keys get_next_key
    → length keys ≤ 10240
    → api_traffic_stats inet_ntop get_next_key true s
      ≡ some
          (front 100 (traffic_items inet_ntop s.active_traffic (walked zero_flow_key keys start)))
unfolding api_traffic_stats
api_traffic_stats-front inet_ntop get_next_key s keys start w l =
    let f = walked-IsFollowed zero_flow_key keys get_next_key start w in
    traffic_loop-front inet_ntop get_next_key s.active_traffic 10241
      (walked zero_flow_key keys start) zero_flow_key 99 0 f.0 f.1 (omega (arith, l, f.2))
      (omega arith)
