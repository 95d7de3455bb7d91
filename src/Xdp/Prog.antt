-- ===== src/Xdp/Prog.antt =====
-- `xdp_prog`: the checks in the order in which a frame meets them. A result of `none` is a read
-- outside the frame.
pub mod Total
pub mod Ensures
pub mod Keeps
pub mod Drops
use cyrenus.Prelude.{
  ◌>>=◌, ℕ, ◌+◌, ◌*◌, not, Option, none, some, length, ltb, ◌==◌, if◌then◌else◌, add64, swap16,
}
use cyrenus.Xdp.Types.{
  Action, pass, GlobalStats, IpHdr, TcpHdr, UdpHdr, IcmpHdr, ipproto_icmp, ipproto_tcp, ipproto_udp,
  dns_port,
}
use cyrenus.Xdp.State.{State, Helpers, write}
use cyrenus.Xdp.Packet.{Packet, half, read_iphdr, read_tcphdr, read_udphdr, read_icmphdr}
use cyrenus.Xdp.Fragment.{handle_fragment}
use cyrenus.Xdp.Rules.{check_geoip}
use cyrenus.Xdp.Bucket.{early_filter}
use cyrenus.Xdp.Syn.{check_syn_flood}
use cyrenus.Xdp.Dns.{check_dns_amplification}
use cyrenus.Xdp.Udp.{check_udp_flood}
use cyrenus.Xdp.Account.{Transport, account, on_pass}

abbrev pub Verdict : Type 0
Verdict = Option (Action × State)

-- `int action = check(…); if (action != XDP_PASS) return action;`, and then `next`.
abbrev pub then_check : Action × State → (State → Verdict) → Verdict
then_check r next = on_pass r.0 (some r) (next r.1)

abbrev pub eth_p_ip : ℕ
eth_p_ip = 0x0800

counted_stats : State → Option GlobalStats → ℕ → State
counted_stats s none size = s
counted_stats s (some stats) size = record s {
  global_stats = write s.global_stats 0 (record {
    total_packets = add64 stats.total_packets 1;
    total_bytes = add64 stats.total_bytes size;
  });
}

unfoldable pub update_global_stats : State → ℕ → State
unfolding counted_stats
update_global_stats s size = counted_stats s (s.global_stats 0) size

-- What a case of the switch leaves for the accounting.
abbrev pub tcp_transport : TcpHdr → Transport
tcp_transport tcp = record {
  src_port = swap16 tcp.source;
  dst_port = swap16 tcp.dest;
  l4_header_length = tcp.doff * 4;
  tcp_flags = tcp.flags;
}

abbrev pub udp_transport : UdpHdr → Transport
udp_transport udp = record {
  src_port = swap16 udp.source;
  dst_port = swap16 udp.dest;
  l4_header_length = 8;
  tcp_flags = 0;
}

abbrev pub icmp_transport : IcmpHdr → Transport
icmp_transport icmp = record {
  src_port = icmp.type;
  dst_port = icmp.code;
  l4_header_length = 8;
  tcp_flags = 0;
}

-- The cases of the switch, from the header on, with the accounting that follows them.
unfoldable pub tcp_checks : Helpers → State → IpHdr → TcpHdr → Verdict
tcp_checks h s ip tcp =
    then_check (check_syn_flood h s ip tcp) λ s'. some (account h s' ip (tcp_transport tcp))

-- What follows the DNS check of a UDP packet.
abbrev pub after_dns : Helpers → IpHdr → UdpHdr → State → Verdict
after_dns h ip udp s =
    then_check (check_udp_flood h s ip udp) λ s'. some (account h s' ip (udp_transport udp))

unfoldable pub udp_checks : Helpers → State → IpHdr → UdpHdr → Verdict
udp_checks h s ip udp =
    then_check (check_dns_amplification h s ip udp (udp.source == swap16 dns_port))
      (after_dns h ip udp)

-- `l4` is the offset `ip_header_length` behind the IP header.
unfoldable pub tcp_case : Helpers → State → Packet → IpHdr → ℕ → Verdict
tcp_case h s p ip l4 =
    if ltb (length p) (l4 + 20)
    then some (pass, s)
    else do tcp ← read_tcphdr p l4; tcp_checks h s ip tcp

unfoldable pub udp_case : Helpers → State → Packet → IpHdr → ℕ → Verdict
udp_case h s p ip l4 =
    if ltb (length p) (l4 + 8)
    then some (pass, s)
    else do udp ← read_udphdr p l4; udp_checks h s ip udp

unfoldable pub icmp_case : Helpers → State → Packet → IpHdr → ℕ → Verdict
icmp_case h s p ip l4 =
    if ltb (length p) (l4 + 8)
    then some (pass, s)
    else do icmp ← read_icmphdr p l4; some (account h s ip (icmp_transport icmp))

unfoldable pub switch_proto : Helpers → State → Packet → IpHdr → Verdict
switch_proto h s p ip =
    let l4 = 14 + ip.ihl * 4 in
    if ip.protocol == ipproto_tcp
    then tcp_case h s p ip l4
    else if ip.protocol == ipproto_udp
    then udp_case h s p ip l4
    else if ip.protocol == ipproto_icmp
    then icmp_case h s p ip l4
    else some (pass, s)

-- The checks on the IP header: the fragments, the country, the early filter, and the protocol.
abbrev pub after_geoip : Helpers → Packet → IpHdr → State → Verdict
after_geoip h p ip s = then_check (early_filter h s ip ip.protocol) λ s'. switch_proto h s' p ip

abbrev pub after_fragment : Helpers → Packet → IpHdr → State → Verdict
after_fragment h p ip s = then_check (check_geoip s ip.saddr, s) (after_geoip h p ip)

unfoldable pub ip_stage : Helpers → State → Packet → IpHdr → Verdict
ip_stage h s p ip = then_check (handle_fragment h s ip) (after_fragment h p ip)

-- What follows the test of the Ethernet header.
unfoldable pub ip_frame : Helpers → State → Packet → Verdict
ip_frame h s p =
    let counted = update_global_stats s (length p) in
    if ltb (length p) 34
    then some (pass, counted)
    else do ip ← read_iphdr p 14; ip_stage h counted p ip

unfoldable pub xdp_prog : Helpers → State → Packet → Verdict
xdp_prog h s p = if ltb (length p) 14 then some (pass, s) else do
  h_proto ← half p 12
  if not (h_proto == swap16 eth_p_ip) then some (pass, s) else ip_frame h s p
