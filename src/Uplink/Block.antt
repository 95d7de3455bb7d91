-- ===== src/Uplink/Block.antt =====
-- What a global block does to the packets of its address.
use cyrenus.Xdp.Prog.{xdp_prog}
use cyrenus.Xdp.Prog.Drops.{IsBanned, xdp_prog_banned, HasHeader}
use cyrenus.Xdp.Packet.{Packet}
use cyrenus.Xdp.Rules.{rule_key, apply_rule}
use cyrenus.Xdp.State.{State, Helpers}
use cyrenus.Uplink.{global_rule, global_key, apply_global_block}
use cyrenus.Api.Maps.{IsHash, Syscalls}
use mathlib.Core.Path.{subst}
use cyrenus.Xdp.Types.{Action, IpHdr, RuleKey, Rule, drop}
use cyrenus.Prelude.{
  inr, ◌∙◌, some-injective, length, sym, ◌≤◌, ap, ◌*◌, ◌+◌, swap16, inl, ◌≢◌, Bool-cases, refl,
  false, true, ◌==◌, some, ◌≡◌, Option, Text, ℕ, arith,
}

not_zero : (port : ℕ) → (0 == port) ≡ false → 0 ≢ port
not_zero port h e = ground arith

zero_eq : (port : ℕ) → (0 == port) ≡ true → 0 ≡ port
zero_eq port h = ground arith

-- The rules of an address and a protocol drop, where there are any.
unfoldable pub AllDrop : State → ℕ → ℕ → Type 0
AllDrop s ip proto =
    (port : ℕ) (r : Rule) → s.rules (rule_key ip port proto) ≡ some r → r.action ≡ 1

module _ (inet_pton : Text → Option ℕ) (bpf : Syscalls) where
  block-stores :
      (s : State) (ip_str : Text) (ip : ℕ) (m : RuleKey → Option Rule)
      → inet_pton ip_str ≡ some ip
      → bpf.rules.update s.rules (global_key ip) global_rule ≡ some m
      → apply_global_block inet_pton bpf true s ip_str ≡ record s { rules = m }
  unfolding apply_global_block
  block-stores s ip_str ip m a e = rw a (rw e refl)

  still_drops :
      (s : State) (ip port : ℕ) (m : RuleKey → Option Rule) (r : Rule)
      → IsHash bpf.rules
      → bpf.rules.update s.rules (global_key ip) global_rule ≡ some m
      → AllDrop s ip 6
      → m (rule_key ip port 6) ≡ some r
      → r.action ≡ 1
  unfolding AllDrop
  still_drops s ip port m r h e d f = elim (Bool-cases (0 == port)) [
    | inl z ↦
        ap (λ r'. r'.action)
          (sym (
            some-injective global_rule r (
              sym (h.updated s.rules m (global_key ip) global_rule e)
              ∙ (ap (λ q. m (rule_key ip q 6)) (zero_eq port z) ∙ f))))
    | inr z ↦ d port r (
        sym (
          h.update_other s.rules m (global_key ip) (rule_key ip port 6) global_rule e
            (λ k. not_zero port z (ap (λ k'. k'.port) k)))
        ∙ f)
  ]

  -- A global block, where the kernel stores the rule and no rule of the address lets TCP pass: the
  -- filter drops every TCP frame from the address with 20 bytes behind its IP header.
  pub apply_global_block-drops :
      (h : Helpers) (s : State) (ip_str : Text) (m : RuleKey → Option Rule) (p : Packet)
      (ip : IpHdr)
      → IsHash bpf.rules
      → inet_pton ip_str ≡ some ip.saddr
      → bpf.rules.update s.rules (global_key ip.saddr) global_rule ≡ some m
      → AllDrop s ip.saddr 6
      → HasHeader p ip
      → ip.protocol ≡ 6
      → 14 + ip.ihl * 4 + 20 ≤ length p
      → (r : Action × State) × (xdp_prog h (apply_global_block inet_pton bpf true s ip_str) p
          ≡ some r)
        × (r.0 ≡ drop)
  apply_global_block-drops h s ip_str m p ip hash a e d f t l =
      rw (block-stores s ip_str ip.saddr m a e) (
        xdp_prog_banned h (record s { rules = m }) p ip f (inl t, l)
          (subst (IsBanned (record s { rules = m }) ip.saddr) (sym t) (record {
            rule = global_rule;
            wildcard = hash.updated s.rules m (global_key ip.saddr) global_rule e;
            drops = λ port r g. still_drops s ip.saddr port m r hash e d g;
          })))

  -- After a global block of an address, where the kernel stores the rule, the rules treat the
  -- packets of the address that are not TCP as before.
  pub apply_global_block-others :
      (s : State) (ip_str : Text) (ip port proto : ℕ) (m : RuleKey → Option Rule)
      → IsHash bpf.rules
      → inet_pton ip_str ≡ some ip
      → bpf.rules.update s.rules (global_key ip) global_rule ≡ some m
      → 6 ≢ proto
      → apply_rule (apply_global_block inet_pton bpf true s ip_str) ip port proto
        ≡ apply_rule s ip port proto
  unfolding apply_rule
  apply_global_block-others s ip_str ip port proto m h a e n = rw (block-stores s ip_str ip m a e) (
      rw
        (h.update_other s.rules m (global_key ip) (rule_key ip (swap16 port) proto) global_rule e
          (λ k. n (ap (λ k'. k'.proto) k)))
        (rw
          (h.update_other s.rules m (global_key ip) (rule_key ip 0 proto) global_rule e
            (λ k. n (ap (λ k'. k'.proto) k)))
          refl))
