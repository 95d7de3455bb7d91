-- ===== src/Xdp/Prog/Drops.antt =====
-- Frames that never pass: those of a blocked country, and those of a source that the rules drop.
use cyrenus.Xdp.Udp.{check_udp_flood}
use cyrenus.Xdp.Dns.{check_dns_amplification}
use cyrenus.Xdp.Bucket.{early_filter}
use cyrenus.Xdp.Syn.{check_syn_flood}
use cyrenus.Xdp.Fragment.{handle_fragment}
use cyrenus.Xdp.Prog.Total.{xdp_prog-Returns}
use cyrenus.Xdp.Prog.Ensures.{>>=-Ensures, if-Ensures, then_check-Ensures, Ensures-holds, Ensures}
use cyrenus.Xdp.Untouched.{
  check_udp_flood-IsCheck, check_dns_amplification-IsCheck, check_syn_flood-IsCheck,
  early_filter-IsCheck, check_geoip-IsCheck, handle_fragment-IsCheck, Untouched,
}
use cyrenus.Xdp.Account.{Transport, account}
use cyrenus.Xdp.Rules.{rule_key, geoip_key, check_geoip, apply_rule}
use cyrenus.Xdp.Prog.{
  icmp_transport, udp_transport, after_dns, tcp_transport, icmp_case, udp_case, tcp_case,
  tcp_checks, udp_checks, switch_proto, after_geoip, after_fragment, eth_p_ip, ip_stage, ip_frame,
  update_global_stats, xdp_prog,
}
use cyrenus.Xdp.State.{Helpers, State}
use cyrenus.Xdp.Packet.{read_icmphdr, read_udphdr, read_tcphdr, read_iphdr, half, Packet}
use cyrenus.Xdp.Types.{
  dns_port, TcpHdr, UdpHdr, ipproto_icmp, ipproto_udp, drop, ipproto_tcp, IpHdr, Rule, Action,
}
use cyrenus.Prelude.{
  ltb, ◌==◌, refl, inr, inl, Option-cases, ◌*◌, ◌+◌, sym, length, ◌⊎◌, ◌∙◌, swap16, ◌≤◌, some,
  arith, ap, ◌≡◌, ℕ,
}

abbrev Dropped : Action × State → Type 0
Dropped r = r.0 ≡ drop

-- The frame is IPv4 with a whole header, which is `ip`.
pub record HasHeader (p : Packet) (ip : IpHdr) : Type 0 where
  pub size : 34 ≤ length p
  pub type : half p 12 ≡ some (swap16 eth_p_ip)
  pub header : read_iphdr p 14 ≡ some ip

-- The address lies in a country that is blocked.
pub record InBlockedCountry (s : State) (ip : ℕ) : Type 0 where
  pub country : ℕ
  pub known : s.geoip_map (geoip_key ip) ≡ some country
  pub blocked : s.blocked_countries country ≡ some 1

-- The rule for every port drops the address, and so does any rule for one port.
pub record IsBanned (s : State) (ip proto : ℕ) : Type 0 where
  pub rule : Rule
  pub wildcard : s.rules (rule_key ip 0 proto) ≡ some rule
  pub drops : (port : ℕ) (r : Rule) → s.rules (rule_key ip port proto) ≡ some r → r.action ≡ 1

-- A protocol that the program looks into, with a header that is there.
abbrev pub HasTransport : Packet → IpHdr → Type 0
HasTransport p ip =
    ((ip.protocol ≡ ipproto_tcp) ⊎ (ip.protocol ≡ ipproto_udp) ⊎ (ip.protocol ≡ ipproto_icmp))
    × (14 + ip.ihl * 4 + 20 ≤ length p)

update_global_stats-keeps :
    (s : State) (size : ℕ)
    → let s' = update_global_stats s size in
      (s'.rules ≡ s.rules)
      × (s'.geoip_map ≡ s.geoip_map)
      × (s'.blocked_countries ≡ s.blocked_countries)
unfolding update_global_stats
update_global_stats-keeps s size = ground arith

check_geoip_blocked : (s : State) (ip : ℕ) → InBlockedCountry s ip → check_geoip s ip ≡ drop
unfolding check_geoip
check_geoip_blocked s ip b = ground arith

InBlockedCountry-Untouched :
    (s s' : State) (ip : ℕ) → InBlockedCountry s ip → Untouched s s' → InBlockedCountry s' ip
InBlockedCountry-Untouched s s' ip b u = record {
  country = b.country;
  known = ap (λ m. m (geoip_key ip)) u.geoip_map ∙ b.known;
  blocked = ap (λ m. m b.country) u.blocked_countries ∙ b.blocked;
}

apply_rule_banned :
    (s : State) (ip proto port : ℕ) → IsBanned s ip proto → apply_rule s ip port proto ≡ drop
unfolding apply_rule
apply_rule_banned s ip proto port b =
    elim (Option-cases (s.rules (rule_key ip (swap16 port) proto))) [
      | inl e ↦ ground (arith, b.drops 0 b.rule b.wildcard)
      | inr (r, e) ↦ ground (arith, b.drops (swap16 port) r e)
    ]

IsBanned-same :
    (s s' : State) (ip proto : ℕ) → IsBanned s ip proto → s'.rules ≡ s.rules → IsBanned s' ip proto
IsBanned-same s s' ip proto b e = record {
  rule = b.rule;
  wildcard = ap (λ m. m (rule_key ip 0 proto)) e ∙ b.wildcard;
  drops = λ port r f. b.drops port r (sym (ap (λ m. m (rule_key ip port proto)) e) ∙ f);
}

account_banned :
    (h : Helpers) (s : State) (ip : IpHdr) (l4 : Transport)
    → IsBanned s ip.saddr ip.protocol
    → (account h s ip l4).0 ≡ drop
unfolding account
account_banned h s ip l4 b = rw (apply_rule_banned s ip.saddr ip.protocol l4.src_port b)

-- A frame with a header goes to the IP stage.
enters :
    (h : Helpers) (s : State) (p : Packet) (ip : IpHdr)
    → HasHeader p ip
    → xdp_prog h s p ≡ ip_stage h (update_global_stats s (length p)) p ip
unfolding xdp_prog ip_frame
enters h s p ip f = ground arith

-- The verdict of a frame with a header, given what the IP stage ensures.
from_header :
    (h : Helpers) (s : State) (p : Packet) (ip : IpHdr)
    → HasHeader p ip
    → Ensures Dropped (ip_stage h (update_global_stats s (length p)) p ip)
    → (r : Action × State) × (xdp_prog h s p ≡ some r) × (r.0 ≡ drop)
from_header h s p ip f d =
    Ensures-holds Dropped (xdp_prog h s p) (xdp_prog-Returns h s p) (rw (enters h s p ip f) d)

ip_stage_blocked :
    (h : Helpers) (s : State) (p : Packet) (ip : IpHdr)
    → InBlockedCountry s ip.saddr
    → Ensures Dropped (ip_stage h s p ip)
unfolding ip_stage
ip_stage_blocked h s p ip b =
    then_check-Ensures Dropped s (handle_fragment h s ip) (after_fragment h p ip)
      (handle_fragment-IsCheck h s ip) (λ e. refl)
      λ s' u e q.
        let b' = InBlockedCountry-Untouched s s' ip.saddr b u in
        rw (check_geoip_blocked s' ip.saddr b') refl

-- A frame from a blocked country is dropped, whatever it holds behind its IPv4 header and whatever
-- the other maps hold.
pub xdp_prog_blocked :
    (h : Helpers) (s : State) (p : Packet) (ip : IpHdr)
    → HasHeader p ip
    → InBlockedCountry s ip.saddr
    → (r : Action × State) × (xdp_prog h s p ≡ some r) × (r.0 ≡ drop)
xdp_prog_blocked h s p ip f b =
    let kept = update_global_stats-keeps s (length p) in
    from_header h s p ip f (
      ip_stage_blocked h (update_global_stats s (length p)) p ip (record {
        country = b.country;
        known = ap (λ m. m (geoip_key ip.saddr)) kept.1 ∙ b.known;
        blocked = ap (λ m. m b.country) kept.2 ∙ b.blocked;
      }))

abbrev Banned : State → IpHdr → Type 0
Banned s ip = IsBanned s ip.saddr ip.protocol

Banned-Untouched : (s s' : State) (ip : IpHdr) → Banned s ip → Untouched s s' → Banned s' ip
Banned-Untouched s s' ip b u = IsBanned-same s s' ip.saddr ip.protocol b u.rules

module _ (h : Helpers) (ip : IpHdr) where
  tcp_checks-Banned :
      (s : State) (tcp : TcpHdr) → Banned s ip → Ensures Dropped (tcp_checks h s ip tcp)
  unfolding tcp_checks
  tcp_checks-Banned s tcp b =
      then_check-Ensures Dropped s (check_syn_flood h s ip tcp)
        (λ s'. some (account h s' ip (tcp_transport tcp))) (check_syn_flood-IsCheck h s ip tcp)
        (λ e. refl)
        λ s' u e q. account_banned h s' ip (tcp_transport tcp) (Banned-Untouched s s' ip b u)

  udp_checks-Banned :
      (s : State) (udp : UdpHdr) → Banned s ip → Ensures Dropped (udp_checks h s ip udp)
  unfolding udp_checks
  udp_checks-Banned s udp b =
      let response = udp.source == swap16 dns_port in
      then_check-Ensures Dropped s (check_dns_amplification h s ip udp response)
        (after_dns h ip udp) (check_dns_amplification-IsCheck h s ip udp response) (λ e. refl)
        λ s' u e q.
          let b' = Banned-Untouched s s' ip b u in
          then_check-Ensures Dropped s' (check_udp_flood h s' ip udp)
            (λ s''. some (account h s'' ip (udp_transport udp)))
            (check_udp_flood-IsCheck h s' ip udp) (λ e. refl)
            λ s'' v e q.
              account_banned h s'' ip (udp_transport udp) (Banned-Untouched s' s'' ip b' v)

  switch_proto-Banned :
      (s : State) (p : Packet)
      → HasTransport p ip
      → Banned s ip
      → Ensures Dropped (switch_proto h s p ip)
  unfolding switch_proto tcp_case udp_case icmp_case
  switch_proto-Banned s p t b =
      let P = Dropped in
      let l4 = 14 + ip.ihl * 4 in
      if-Ensures P (ip.protocol == ipproto_tcp) _ _
        (λ e.
          if-Ensures P (ltb (length p) (l4 + 20)) _ _ (λ f. absurd (ground arith))
            λ f. >>=-Ensures P (read_tcphdr p l4) _ (λ tcp. tcp_checks-Banned s tcp b))
        λ e.
          if-Ensures P (ip.protocol == ipproto_udp) _ _
            (λ e.
              if-Ensures P (ltb (length p) (l4 + 8)) _ _ (λ f. absurd (ground arith))
                λ f. >>=-Ensures P (read_udphdr p l4) _ (λ udp. udp_checks-Banned s udp b))
            λ g.
              if-Ensures P (ip.protocol == ipproto_icmp) _ _
                (λ e.
                  if-Ensures P (ltb (length p) (l4 + 8)) _ _ (λ f. absurd (ground arith))
                    λ f.
                      >>=-Ensures P (read_icmphdr p l4) _
                        λ icmp. account_banned h s ip (icmp_transport icmp) b)
                λ k. absurd (ground arith)

  ip_stage-Banned :
      (s : State) (p : Packet)
      → HasTransport p ip
      → Banned s ip
      → Ensures Dropped (ip_stage h s p ip)
  unfolding ip_stage
  ip_stage-Banned s p t b =
      then_check-Ensures Dropped s (handle_fragment h s ip) (after_fragment h p ip)
        (handle_fragment-IsCheck h s ip) (λ e. refl)
        λ s' u e q.
          then_check-Ensures Dropped s' (check_geoip s' ip.saddr, s') (after_geoip h p ip)
            (check_geoip-IsCheck h s' ip) (λ e. refl)
            λ s'' v e q.
              then_check-Ensures Dropped s'' (early_filter h s'' ip ip.protocol)
                (λ s'''. switch_proto h s''' p ip) (early_filter-IsCheck h s'' ip ip.protocol)
                (λ e. refl)
                λ s''' w e q. switch_proto-Banned s''' p t (
                  Banned-Untouched s'' s''' ip
                    (Banned-Untouched s' s'' ip (Banned-Untouched s s' ip b u) v) w)

-- A frame from an address whose rules all drop, the rule for every port among them, is dropped if
-- it is TCP, UDP or ICMP with 20 bytes behind the IP header: no check before the rules lets it pass.
pub xdp_prog_banned :
    (h : Helpers) (s : State) (p : Packet) (ip : IpHdr)
    → HasHeader p ip
    → HasTransport p ip
    → IsBanned s ip.saddr ip.protocol
    → (r : Action × State) × (xdp_prog h s p ≡ some r) × (r.0 ≡ drop)
xdp_prog_banned h s p ip f t b =
    let s' = update_global_stats s (length p) in
    from_header h s p ip f (
      ip_stage-Banned h ip s' p t
        (IsBanned-same s s' ip.saddr ip.protocol b (update_global_stats-keeps s (length p)).0))
