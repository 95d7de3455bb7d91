-- ===== src/Xdp/Rules.antt =====
-- `apply_rule`: the firewall rules, an exact port first and then the rule for every port. It
-- changes no state. And `check_geoip`: the countries that are blocked.
use cyrenus.Prelude.{ℕ, Option, none, some, ◌==◌, if◌then◌else◌, swap16}
use cyrenus.Xdp.Types.{Action, drop, pass, tx, RuleKey, Rule, GeoipKey}
use cyrenus.Xdp.State.{State}

-- What the action of a rule that matches means.
abbrev pub rule_action : Rule → Action
rule_action rule =
    if rule.action == 1
    then drop
    else if rule.action == 2
    then pass
    else if rule.action == 3
    then tx
    else pass

abbrev pub rule_key : ℕ → ℕ → ℕ → RuleKey
rule_key ip port proto = record { ip = ip; port = port; proto = proto }

wildcard_rule : Option Rule → Action
wildcard_rule none = pass
wildcard_rule (some rule) = rule_action rule

exact_rule : Option Rule → Option Rule → Action
unfolding wildcard_rule
exact_rule (some rule) wildcard = rule_action rule
exact_rule none wildcard = wildcard_rule wildcard

unfoldable pub apply_rule : State → ℕ → ℕ → ℕ → Action
unfolding exact_rule
apply_rule s ip port proto =
    exact_rule (s.rules (rule_key ip (swap16 port) proto)) (s.rules (rule_key ip 0 proto))

blocked_action : Option ℕ → Action
blocked_action none = pass
blocked_action (some action) = if action == 1 then drop else pass

country_action : State → Option ℕ → Action
unfolding blocked_action
country_action s none = pass
country_action s (some country_code) = blocked_action (s.blocked_countries country_code)

abbrev pub geoip_key : ℕ → GeoipKey
geoip_key ip = record { prefixlen = 32; ip = ip }

unfoldable pub check_geoip : State → ℕ → Action
unfolding country_action
check_geoip s src_ip = country_action s (s.geoip_map (geoip_key src_ip))
