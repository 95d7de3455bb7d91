-- ===== src/Xdp/Tests.antt =====
-- Tests of the packet filter, and its theorems at concrete inputs.
use cyrenus.Xdp.Bucket.Patience.{icmp_run-passes}
use cyrenus.Xdp.Prog.Keeps.{xdp_prog-Counted, Counted}
use cyrenus.Xdp.Bucket.{early_filter}
use cyrenus.Xdp.Udp.Window.{udp_run-never_flooded, udp_run}
use cyrenus.Xdp.Fragment.Window.{fragment_run-verdict, fragment_run}
use cyrenus.Xdp.Dns.Window.{dns_run-verdict, dns_run}
use cyrenus.Xdp.Prog.Total.{xdp_prog-Returns}
use cyrenus.Xdp.Rules.{apply_rule, check_geoip}
use cyrenus.Xdp.Clock.{at}
use cyrenus.Xdp.Syn.{check_syn_flood}
use cyrenus.Xdp.Account.Established.{is_established_flow-exact, track_run}
use cyrenus.Xdp.Account.{account, write_flow, track_flow}
use cyrenus.Xdp.Dns.{check_dns_amplification}
use cyrenus.Xdp.Samples.{syn_frame, write-IsArrayUpdate, boot, plain}
use cyrenus.Xdp.Account.Flows.{write_flow_ne, flow_eq_refl, AllFlows}
use cyrenus.Xdp.Attack.Log.{LogUpdates, Attack}
use cyrenus.Xdp.Udp.{udp_flow, check_udp_flood, udp_size_check}
use cyrenus.Xdp.Fragment.{handle_fragment}
use cyrenus.Xdp.Flow.{is_established_flow}
use cyrenus.Xdp.Syn.Window.{syn_run-verdict, syn_run, synacks, syns}
use cyrenus.Xdp.Bucket.Limit.{icmp_run-le, icmp_run}
use cyrenus.Xdp.Prog.Drops.{xdp_prog_blocked, xdp_prog_banned, HasHeader, IsBanned}
use cyrenus.Xdp.State.{State, IsLruUpdate}
use cyrenus.Xdp.Prog.{
  update_global_stats, tcp_checks, tcp_case, switch_proto, udp_transport, ip_stage, ip_frame,
  xdp_prog,
}
use cyrenus.Xdp.Packet.{read_tcphdr, read_iphdr, word, half, Returns}
use cyrenus.Xdp.Types.{drop, pass, IpHdr, UdpHdr, TcpHdr, Action, Rule, GlobalStats}
use cyrenus.Xdp.Dns.Window as DnsWindow
use cyrenus.Xdp.Udp.Window as UdpWindow
use cyrenus.Prelude.{◌++◌, ◌-◌, ◌+◌, ◌≤◌, true, arith, ◌*◌, false, ◌≡◌, [], inl, some, ◌∷◌, refl}

-- The IPv4 header of the sample frame.
abbrev syn_ip : IpHdr
syn_ip = record {
  ihl = 5;
  tot_len = 10240;
  frag_off = 0;
  ttl = 64;
  protocol = 6;
  saddr = 0x0100_000a;
  daddr = 0x0200_000a;
}

abbrev udp_ip : IpHdr
udp_ip = record syn_ip { protocol = 17 }

-- A query to port 53, and a datagram to port 4096.
abbrev dns_udp : UdpHdr
dns_udp = record { source = 258; dest = 13568 }

abbrev plain_udp : UdpHdr
plain_udp = record { source = 258; dest = 16 }

abbrev syn_tcp : TcpHdr
syn_tcp = record { source = 513; dest = 20480; doff = 5; flags = 2 }

abbrev synack_tcp : TcpHdr
synack_tcp = record syn_tcp { flags = 18 }

syn_frame-HasHeader : HasHeader syn_frame syn_ip
unfolding half word read_iphdr
syn_frame-HasHeader = record { size = omega arith; type = refl; header = refl }

passes_syn : (r : Action × State) × (xdp_prog plain (boot 5) syn_frame ≡ some r) × (r.0 ≡ pass)
unfolding xdp_prog ip_frame ip_stage handle_fragment check_geoip early_filter switch_proto tcp_case
    tcp_checks check_syn_flood account half word read_iphdr read_tcphdr apply_rule
    update_global_stats
passes_syn = (_, refl, refl)

abbrev blocking : State
blocking = record (boot 5) { geoip_map = λ k. some 0x5553; blocked_countries = λ c. some 1 }

xdp_prog_blocked_example :
    (r : Action × State) × (xdp_prog plain blocking syn_frame ≡ some r) × (r.0 ≡ drop)
xdp_prog_blocked_example =
    xdp_prog_blocked plain blocking syn_frame syn_ip syn_frame-HasHeader
      (record { country = 0x5553; known = refl; blocked = refl })

abbrev drop_all : Rule
drop_all = record { port_start = 0; port_end = 0; proto = 6; action = 1 }

abbrev banning : State
banning = record (boot 5) { rules = λ k. some drop_all }

banning-IsBanned : IsBanned banning 0x0100_000a 6
banning-IsBanned = record { rule = drop_all; wildcard = refl; drops = λ port r e. cc e }

xdp_prog_banned_example :
    (r : Action × State) × (xdp_prog plain banning syn_frame ≡ some r) × (r.0 ≡ drop)
xdp_prog_banned_example =
    xdp_prog_banned plain banning syn_frame syn_ip syn_frame-HasHeader (inl refl, omega arith)
      banning-IsBanned

xdp_prog-Returns_example : Returns (xdp_prog plain (boot 5) syn_frame)
xdp_prog-Returns_example = xdp_prog-Returns plain (boot 5) syn_frame

abbrev no_stats : GlobalStats
no_stats = record { total_packets = 0; total_bytes = 0 }

xdp_prog-Counted_example :
    (r : Action × State) × (xdp_prog plain (boot 5) syn_frame ≡ some r)
    × Counted (boot 5) syn_frame no_stats r.1
xdp_prog-Counted_example = xdp_prog-Counted plain (boot 5) syn_frame no_stats refl

abbrev with_bucket : State
with_bucket = record (boot 0) { token_buckets = λ i. some (record { last_update = 0; tokens = 1 }) }

icmp_run-le_example :
    (icmp_run plain with_bucket 9 (1 ∷ 2 ∷ 500000000 ∷ [])).0 * 1000000000
    ≤ 1 * 1000000000 + (500000000 - 0) * 2
icmp_run-le_example =
    icmp_run-le plain with_bucket 9 (1 ∷ 2 ∷ 500000000 ∷ []) 500000000
      (record { last_update = 0; tokens = 1 }) refl (omega arith) (omega arith)

icmp_run-passes_example : 1 ≤ (icmp_run plain with_bucket 9 ((1 ∷ 2 ∷ []) ++ (500000000 ∷ []))).0
icmp_run-passes_example =
    icmp_run-passes plain with_bucket 9 (1 ∷ 2 ∷ []) 500000000
      (record { last_update = 0; tokens = 1 }) refl (omega arith, (omega arith, omega arith))
      (omega arith) (omega arith) (omega arith) (omega arith) (omega arith)

abbrev with_syn : State
with_syn = record (boot 0) {
  syn_flood_map = λ i. some (record { last_update = 0; syn_count = 1; synack_count = 0 });
}

syn_run-verdict_example :
    (check_syn_flood plain
      (at (syn_run plain with_syn syn_ip ((10, syn_tcp) ∷ (20, synack_tcp) ∷ [])) 30)
      syn_ip
      syn_tcp).0
    ≡ pass
unfolding syns synacks
syn_run-verdict_example =
    syn_run-verdict plain with_syn syn_ip ((10, syn_tcp) ∷ (20, synack_tcp) ∷ [])
      (record { last_update = 0; syn_count = 1; synack_count = 0 }) 30 syn_tcp refl
      (refl, (refl, tt)) refl (omega arith) (omega arith) (omega arith) (omega arith) (omega arith)
      (omega arith)

abbrev query : DnsWindow.Datagram
query = record { ip = udp_ip; udp = dns_udp; is_response = false }

abbrev with_dns : State
with_dns = record (boot 0) {
  dns_track_map = λ i. some (record { last_update = 0; packet_count = 1; total_size = 40 });
}

dns_run-verdict_example :
    (check_dns_amplification plain
      (at (dns_run plain with_dns ((10, query) ∷ [])) 20)
      udp_ip
      dns_udp
      false).0
    ≡ drop
unfolding is_established_flow
dns_run-verdict_example =
    dns_run-verdict plain with_dns 0x0100_000a ((10, query) ∷ [])
      (record { last_update = 0; packet_count = 1; total_size = 40 }) 20 query refl (refl, refl, tt)
      (omega arith) refl refl (omega arith) (omega arith) (omega arith) (omega arith) (omega arith)

-- A fragment with the flag for more.
abbrev fragment : IpHdr
fragment = record syn_ip { frag_off = 32 }

abbrev with_frag : State
with_frag = record (boot 0) {
  frag_track_map = λ i. some (record { last_update = 0; frag_count = 1 });
}

fragment_run-verdict_example :
    (handle_fragment plain (at (fragment_run plain with_frag ((10, fragment) ∷ [])) 20) fragment).0
    ≡ drop
fragment_run-verdict_example =
    fragment_run-verdict plain with_frag 0x0100_000a ((10, fragment) ∷ [])
      (record { last_update = 0; frag_count = 1 }) 20 fragment refl (refl, refl, tt) (omega arith)
      refl refl (omega arith) (omega arith) (omega arith) (omega arith)

abbrev datagram : UdpWindow.Datagram
datagram = record { ip = udp_ip; udp = plain_udp }

abbrev with_udp : State
with_udp = record (boot 0) {
  udp_flood_map = λ i. some (record { last_update = 0; packet_count = 4000000; byte_count = 0 });
}

udp_run-never_flooded_example :
    (check_udp_flood plain
      (at (udp_run plain with_udp ((10, datagram) ∷ [])) 20)
      udp_ip
      plain_udp).0
    ≡ pass
unfolding udp_size_check
udp_run-never_flooded_example =
    udp_run-never_flooded plain with_udp 0x0100_000a ((10, datagram) ∷ [])
      (record { last_update = 0; packet_count = 4000000; byte_count = 0 }) 20 datagram refl
      (refl, tt) (omega arith) refl (omega arith) (omega arith) (omega arith) (omega arith)

plain-LogUpdates : LogUpdates plain
plain-LogUpdates = record { entries = write-IsArrayUpdate 1000; count = write-IsArrayUpdate 1 }

abbrev attack : Attack
attack = record { src_ip = 9; protocol = 17; packets = 1; bytes = 40 }

-- A full log, whose entries are absent.
abbrev full_log : State
full_log = record (boot 0) { attack_count = λ i. some 1000 }

write_flow-IsLruUpdate : IsLruUpdate write_flow
write_flow-IsLruUpdate = record {
  self = λ m k v. rw (flow_eq_refl k);
  other = λ m k v j ne. inl (write_flow_ne m k v j ne);
}

no_flows : AllFlows (boot 5)
unfolding AllFlows
no_flows key info e = absurd (cc)

is_established_flow-exact_example :
    is_established_flow
      (track_run plain (track_flow plain (at (boot 0) 7) udp_ip (udp_transport plain_udp)) [])
      (udp_flow udp_ip plain_udp)
      5000000008
    ≡ true
is_established_flow-exact_example =
    is_established_flow-exact plain write_flow-IsLruUpdate (boot 0) 7 udp_ip plain_udp [] 5000000008
      refl refl tt (omega arith) (omega arith)
