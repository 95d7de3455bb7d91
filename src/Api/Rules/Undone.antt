-- ===== src/Api/Rules/Undone.antt =====
-- The id of a rule is read as it is written, and its delete takes the rule back.
use cyrenus.Xdp.Rules.{rule_key, apply_rule}
use cyrenus.Api.Maps.{IsHash, Syscalls}
use cyrenus.Xdp.Types.{Rule, RuleKey}
use cyrenus.Xdp.State.{State}
use cyrenus.Api.Rules.{
  rule_removed, api_rules_delete, RuleId, scan_underscore, scan_proto, scan_port, scan_set,
  scan_rule_id,
}
use cyrenus.Prelude.{
  inr, inl, Option-cases, ap, some, ◌%◌, swap16, Option, scan_int-decimal, refl, ◌<◌, zero, suc, [],
  ◌≡◌, ◌≢◌, decimal, ◌≤◌, ◌∷◌, ◌++◌, length, Text, ℕ, arith,
}

abbrev pub NoUnderscore : Text → Type 0
NoUnderscore [] = Unit
NoUnderscore (c ∷ cs) = (c ≢ 95) × NoUnderscore cs

-- IP_PORT_PROTO
abbrev pub rule_id : Text → ℕ → ℕ → Text
rule_id ip_str port proto = ip_str ++ (95 ∷ decimal port (95 ∷ decimal proto []))

scan_set-underscore :
    (width : ℕ) (text rest : Text)
    → NoUnderscore text
    → length text ≤ width
    → scan_set width (text ++ (95 ∷ rest)) ≡ (text, 95 ∷ rest)
unfolding scan_set
scan_set-underscore zero [] rest h l = refl
scan_set-underscore zero (c ∷ cs) rest h l = absurd (omega arith)
scan_set-underscore (suc width) [] rest h l = refl
scan_set-underscore (suc width) (c ∷ cs) rest (h, hs) l =
    ground (arith, scan_set-underscore width cs rest hs)

-- The id of an address of at most 15 bytes without an underscore, of a port and a protocol, is
-- scanned to what it was written from, whatever the variables held before.
pub scan_rule_id-rule_id :
    (locals : RuleId) (ip_str : Text) (port proto : ℕ)
    → NoUnderscore ip_str
    → 1 ≤ length ip_str
    → length ip_str ≤ 15
    → port < 65536
    → proto < 256
    → scan_rule_id locals (rule_id ip_str port proto)
      ≡ record { ip_str = ip_str; port = port; proto = proto }
unfolding scan_rule_id scan_port scan_proto scan_underscore
scan_rule_id-rule_id locals [] port proto n f l p q = absurd (omega arith)
scan_rule_id-rule_id locals (c ∷ cs) port proto n f l p q =
    rw (scan_set-underscore 15 (c ∷ cs) (decimal port (95 ∷ decimal proto [])) n l) (
      rw (scan_int-decimal port (95 ∷ decimal proto []) (omega arith) (omega arith))
        (rw (scan_int-decimal proto [] (omega arith) tt) refl))

low16 : (n : ℕ) → n < 65536 → n % 65536 ≡ n
low16 n h = omega arith

low8 : (n : ℕ) → n < 256 → n % 256 ≡ n
low8 n h = omega arith

-- A key of the rules differs from another where the ports do.
nonzero_port : (port : ℕ) → port < 65536 → 1 ≤ port → swap16 port ≢ 0
nonzero_port port h k e = absurd (omega arith)

rule_removed-some :
    (s : State) (o : Option (RuleKey → Option Rule)) (m : RuleKey → Option Rule)
    → o ≡ some m
    → rule_removed s o ≡ record s { rules = m }
rule_removed-some s o m e = rw e refl

module _ (inet_pton : Text → Option ℕ) (bpf : Syscalls) where
  deletes :
      (locals : RuleId) (s : State) (ip_str : Text) (ip port proto : ℕ) (m : RuleKey → Option Rule)
      → NoUnderscore ip_str
      → 1 ≤ length ip_str
      → length ip_str ≤ 15
      → port < 65536
      → proto < 256
      → inet_pton ip_str ≡ some ip
      → bpf.rules.delete s.rules (rule_key ip (swap16 port) proto) ≡ some m
      → (api_rules_delete inet_pton bpf locals s (rule_id ip_str port proto)).1
        ≡ record s { rules = m }
  unfolding api_rules_delete
  deletes locals s ip_str ip port proto m n f l p q a d = rule_removed-some s _ m (
      rw (scan_rule_id-rule_id locals ip_str port proto n f l p q)
        (rw a (rw (low16 port p) (rw (low8 proto q) d))))

  -- The delete of a rule for one port, by the id that its address, port and protocol make, where
  -- the address has at most 15 bytes and no underscore, and the kernel removes the entry: the rules
  -- then treat the packets of that address, port and protocol by the rule for every port, and those
  -- of every other address as before, whatever their port and protocol are.
  pub api_rules_delete-undoes :
      (locals : RuleId) (s : State) (ip_str : Text) (ip port proto : ℕ) (m : RuleKey → Option Rule)
      (other other_port other_proto : ℕ)
      → IsHash bpf.rules
      → NoUnderscore ip_str
      → 1 ≤ length ip_str
      → length ip_str ≤ 15
      → port < 65536
      → 1 ≤ port
      → proto < 256
      → inet_pton ip_str ≡ some ip
      → bpf.rules.delete s.rules (rule_key ip (swap16 port) proto) ≡ some m
      → ip ≢ other
      → let deleted = (api_rules_delete inet_pton bpf locals s (rule_id ip_str port proto)).1 in
        (apply_rule deleted ip port proto ≡ apply_rule s ip 0 proto)
        × (apply_rule deleted other other_port other_proto
            ≡ apply_rule s other other_port other_proto)
  unfolding apply_rule
  api_rules_delete-undoes locals s ip_str ip port proto m other other_port other_proto h n f l p q r
        a d o =
      rw (deletes locals s ip_str ip port proto m n f l p r a d) (
        rw (h.deleted s.rules m (rule_key ip (swap16 port) proto) d) (
          rw
              (h.delete_other s.rules m (rule_key ip (swap16 port) proto) (rule_key ip 0 proto) d
                (λ k. nonzero_port port p q (ap (λ k'. k'.port) k)))
              (elim (Option-cases (s.rules (rule_key ip 0 proto))) [
                | inl e ↦ rw e refl
                | inr e ↦ rw (e.1) refl
              ]),
          rw
              (h.delete_other s.rules m (rule_key ip (swap16 port) proto)
                (rule_key other (swap16 other_port) other_proto) d (λ k. o (ap (λ k'. k'.ip) k)))
              (rw
                (h.delete_other s.rules m (rule_key ip (swap16 port) proto)
                  (rule_key other 0 other_proto) d (λ k. o (ap (λ k'. k'.ip) k)))
                refl),
        ))
