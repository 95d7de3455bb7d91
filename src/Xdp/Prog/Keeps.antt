-- ===== src/Xdp/Prog/Keeps.antt =====
-- The maps that user space writes are not changed by a frame, and every IPv4 frame is counted.
use cyrenus.Xdp.Prog.Total.{xdp_prog-Returns}
use cyrenus.Xdp.Bucket.{early_filter}
use cyrenus.Xdp.Udp.{check_udp_flood}
use cyrenus.Xdp.Dns.{check_dns_amplification}
use cyrenus.Xdp.Rules.{check_geoip}
use cyrenus.Xdp.Fragment.{handle_fragment}
use cyrenus.Xdp.Syn.{check_syn_flood}
use cyrenus.Xdp.Prog.Ensures.{
  Ensures-map, >>=-Ensures_eq, Ensures-holds, >>=-Ensures, if-Ensures, then_check-Ensures, Ensures,
}
use cyrenus.Xdp.Packet.{read_iphdr, half, read_icmphdr, read_udphdr, read_tcphdr, Packet}
use cyrenus.Xdp.Untouched.{
  Untouched-refl, check_udp_flood-IsCheck, early_filter-IsCheck, check_geoip-IsCheck,
  check_dns_amplification-IsCheck, check_syn_flood-IsCheck, Untouched-trans,
  handle_fragment-IsCheck, Untouched,
}
use cyrenus.Xdp.Prog.{
  eth_p_ip, ip_frame, xdp_prog, update_global_stats, after_geoip, after_dns, after_fragment,
  icmp_transport, udp_transport, tcp_transport, icmp_case, udp_case, tcp_case, tcp_checks,
  udp_checks, switch_proto, ip_stage,
}
use cyrenus.Xdp.Types.{
  GlobalStats, ipproto_icmp, ipproto_udp, ipproto_tcp, dns_port, TcpHdr, UdpHdr, IpHdr, Action,
}
use cyrenus.Xdp.Account.{Transport, track_flow, account}
use cyrenus.Xdp.State.{State, Helpers}
use cyrenus.Prelude.{
  not, none, false, add64, true, if◌then◌else◌, ℕ, ◌≡◌, Bool, some, length, ltb, ◌*◌, swap16, ◌+◌,
  arith, ◌==◌,
}

abbrev Keeps : State → Action × State → Type 0
Keeps s r = Untouched s r.1

account-Untouched :
    (h : Helpers) (s : State) (ip : IpHdr) (l4 : Transport) → Untouched s (account h s ip l4).1
unfolding account track_flow
account-Untouched h s ip l4 = ground arith

module _ (h : Helpers) (s0 : State) where
  tcp_checks-Keeps :
      (s : State) (ip : IpHdr) (tcp : TcpHdr)
      → Untouched s0 s
      → Ensures (Keeps s0) (tcp_checks h s ip tcp)
  unfolding tcp_checks
  tcp_checks-Keeps s ip tcp u =
      then_check-Ensures (Keeps s0) s (check_syn_flood h s ip tcp)
        (λ s'. some (account h s' ip (tcp_transport tcp))) (check_syn_flood-IsCheck h s ip tcp)
        (λ e. Untouched-trans s0 s _ u (check_syn_flood-IsCheck h s ip tcp).untouched)
        λ s' v e q.
          Untouched-trans s0 s' _ (Untouched-trans s0 s s' u v)
            (account-Untouched h s' ip (tcp_transport tcp))

  udp_checks-Keeps :
      (s : State) (ip : IpHdr) (udp : UdpHdr)
      → Untouched s0 s
      → Ensures (Keeps s0) (udp_checks h s ip udp)
  unfolding udp_checks
  udp_checks-Keeps s ip udp u =
      let response = udp.source == swap16 dns_port in
      let dns = check_dns_amplification-IsCheck h s ip udp response in
      then_check-Ensures (Keeps s0) s (check_dns_amplification h s ip udp response)
        (after_dns h ip udp) dns (λ e. Untouched-trans s0 s _ u dns.untouched)
        λ s' v e q.
          let u' = Untouched-trans s0 s s' u v in
          let flood = check_udp_flood-IsCheck h s' ip udp in
          then_check-Ensures (Keeps s0) s' (check_udp_flood h s' ip udp)
            (λ s''. some (account h s'' ip (udp_transport udp))) flood
            (λ e. Untouched-trans s0 s' _ u' flood.untouched)
            λ s'' w e q.
              Untouched-trans s0 s'' _ (Untouched-trans s0 s' s'' u' w)
                (account-Untouched h s'' ip (udp_transport udp))

  switch_proto-Keeps :
      (s : State) (p : Packet) (ip : IpHdr)
      → Untouched s0 s
      → Ensures (Keeps s0) (switch_proto h s p ip)
  unfolding switch_proto tcp_case udp_case icmp_case
  switch_proto-Keeps s p ip u =
      let P = Keeps s0 in
      let l4 = 14 + ip.ihl * 4 in
      if-Ensures P (ip.protocol == ipproto_tcp) _ _
        (λ e.
          if-Ensures P (ltb (length p) (l4 + 20)) _ _ (λ f. u)
            λ f. >>=-Ensures P (read_tcphdr p l4) _ (λ tcp. tcp_checks-Keeps s ip tcp u))
        λ e.
          if-Ensures P (ip.protocol == ipproto_udp) _ _
            (λ e.
              if-Ensures P (ltb (length p) (l4 + 8)) _ _ (λ f. u)
                λ f. >>=-Ensures P (read_udphdr p l4) _ (λ udp. udp_checks-Keeps s ip udp u))
            λ e.
              if-Ensures P (ip.protocol == ipproto_icmp) _ _
                (λ e.
                  if-Ensures P (ltb (length p) (l4 + 8)) _ _ (λ f. u)
                    λ f. >>=-Ensures P (read_icmphdr p l4) _ λ icmp.
                      Untouched-trans s0 s _ u (account-Untouched h s ip (icmp_transport icmp)))
                λ e. u

  ip_stage-Keeps :
      (s : State) (p : Packet) (ip : IpHdr)
      → Untouched s0 s
      → Ensures (Keeps s0) (ip_stage h s p ip)
  unfolding ip_stage
  ip_stage-Keeps s p ip u =
      let P = Keeps s0 in
      let frag = handle_fragment-IsCheck h s ip in
      then_check-Ensures P s (handle_fragment h s ip) (after_fragment h p ip) frag
        (λ e. Untouched-trans s0 s _ u frag.untouched)
        λ s' v e q.
          let u' = Untouched-trans s0 s s' u v in
          then_check-Ensures P s' (check_geoip s' ip.saddr, s') (after_geoip h p ip)
            (check_geoip-IsCheck h s' ip) (λ e. u')
            λ s'' v e q.
              let u'' = Untouched-trans s0 s' s'' u' v in
              let early = early_filter-IsCheck h s'' ip ip.protocol in
              then_check-Ensures P s'' (early_filter h s'' ip ip.protocol)
                (λ s'''. switch_proto h s''' p ip) early
                (λ e. Untouched-trans s0 s'' _ u'' early.untouched)
                λ s''' w e q. switch_proto-Keeps s''' p ip (Untouched-trans s0 s'' s''' u'' w)

-- A frame of at least an Ethernet header whose type is IPv4.
unfoldable pub is_ipv4 : Packet → Bool
is_ipv4 p =
    if ltb (length p) 14
    then false
    else elim (half p 12) [ none ↦ false | some h_proto ↦ h_proto == swap16 eth_p_ip ]

is_ipv4_short : (p : Packet) → ltb (length p) 14 ≡ true → is_ipv4 p ≡ false
unfolding is_ipv4
is_ipv4_short p e = rw e

is_ipv4-eq :
    (p : Packet) (t : ℕ)
    → ltb (length p) 14 ≡ false
    → half p 12 ≡ some t
    → is_ipv4 p ≡ (t == swap16 eth_p_ip)
unfolding is_ipv4
is_ipv4-eq p t e f = rw (e, f)

-- The counters with one more frame of the given size.
abbrev pub one_more : GlobalStats → ℕ → GlobalStats
one_more stats size = record {
  total_packets = add64 stats.total_packets 1;
  total_bytes = add64 stats.total_bytes size;
}

-- Where the frame is counted, and what stays.
pub record Counted (s : State) (p : Packet) (stats : GlobalStats) (s' : State) : Type 0 where
  pub global_stats :
      s'.global_stats 0 ≡ some (if is_ipv4 p then one_more stats (length p) else stats)
  pub rules : s'.rules ≡ s.rules
  pub geoip_map : s'.geoip_map ≡ s.geoip_map
  pub blocked_countries : s'.blocked_countries ≡ s.blocked_countries
  pub config_map : s'.config_map ≡ s.config_map
  pub host_ip : s'.host_ip ≡ s.host_ip

update_global_stats-lem :
    (s : State) (size : ℕ) (stats : GlobalStats)
    → s.global_stats 0 ≡ some stats
    → let s' = update_global_stats s size in
      (s'.global_stats 0 ≡ some (one_more stats size))
      × (s'.rules ≡ s.rules)
      × (s'.geoip_map ≡ s.geoip_map)
      × (s'.blocked_countries ≡ s.blocked_countries)
      × (s'.config_map ≡ s.config_map)
      × (s'.host_ip ≡ s.host_ip)
unfolding update_global_stats
update_global_stats-lem s size stats e = ground arith

module _ (h : Helpers) (s : State) (p : Packet) (stats : GlobalStats)
    (known : s.global_stats 0 ≡ some stats) where
  abbrev Counts : Action × State → Type 0
  Counts r = Counted s p stats r.1

  Counted-Untouched :
      (s' : State)
      → is_ipv4 p ≡ true
      → Untouched (update_global_stats s (length p)) s'
      → Counted s p stats s'
  Counted-Untouched s' e u = ground (arith, update_global_stats-lem s (length p) stats known)

  Counted-same : is_ipv4 p ≡ false → Counted s p stats s
  Counted-same e = ground arith

  ip_frame-Counts : is_ipv4 p ≡ true → Ensures Counts (ip_frame h s p)
  unfolding ip_frame
  ip_frame-Counts e =
      let s' = update_global_stats s (length p) in
      if-Ensures Counts (ltb (length p) 34) _ _ (λ f. Counted-Untouched s' e (Untouched-refl s'))
        λ f. >>=-Ensures Counts (read_iphdr p 14) _ λ ip.
          Ensures-map (Keeps s') Counts _ (λ r. Counted-Untouched r.1 e)
            (ip_stage-Keeps h s' s' p ip (Untouched-refl s'))

  xdp_prog-Counts : Ensures Counts (xdp_prog h s p)
  unfolding xdp_prog
  xdp_prog-Counts =
      if-Ensures Counts (ltb (length p) 14) _ _ (λ e. Counted-same (is_ipv4_short p e))
        λ e. >>=-Ensures_eq Counts (half p 12) _ λ t f.
          let type = is_ipv4-eq p t e f in
          if-Ensures Counts (not (t == swap16 eth_p_ip)) _ _
            (λ g. Counted-same (ground (arith, type))) λ g. ip_frame-Counts (ground (arith, type))

  -- Every frame has a verdict; an IPv4 frame is counted once, whatever its verdict, and any other
  -- is not; and the rules, the countries, the configuration and the host's address stay as they are.
  pub xdp_prog-Counted : (r : Action × State) × (xdp_prog h s p ≡ some r) × Counted s p stats r.1
  xdp_prog-Counted = Ensures-holds Counts (xdp_prog h s p) (xdp_prog-Returns h s p) xdp_prog-Counts
