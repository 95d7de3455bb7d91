-- ===== src/Xdp/Account.antt =====
-- The end of `xdp_prog`: the rules of both addresses, and the flow that the packet counts to.
pub mod Flows
pub mod Established
use cyrenus.Prelude.{
  ℕ, ◌+◌, ◌*◌, Bool, ◌&&◌, Option, none, some, ◌==◌, if◌then◌else◌, add32, add64, sub32, bit,
  swap16,
}
use cyrenus.Xdp.Types.{Action, drop, pass, tx, IpHdr, FlowKey, TrafficInfo, ipproto_tcp}
use cyrenus.Xdp.State.{State, Helpers, now, tick}
use cyrenus.Xdp.Attack.{count_or_zero}
use cyrenus.Xdp.Flow.{update_packet_length_stats, update_iat_stats}
use cyrenus.Xdp.Rules.{apply_rule}

-- What the switch on the protocol leaves in the locals of `xdp_prog`.
pub record Transport : Type 0 where
  pub src_port : ℕ
  pub dst_port : ℕ
  pub l4_header_length : ℕ
  pub tcp_flags : ℕ

abbrev pub flow_eq : FlowKey → FlowKey → Bool
flow_eq a b =
    a.src_ip == b.src_ip
    && (a.dst_ip == b.dst_ip
        && (a.src_port == b.src_port && (a.dst_port == b.dst_port && a.proto == b.proto)))

-- A store through the pointer that the lookup of a flow has returned.
abbrev pub write_flow :
    (FlowKey → Option TrafficInfo) → FlowKey → TrafficInfo → FlowKey → Option TrafficInfo
write_flow m k v j = if flow_eq k j then some v else m j

abbrev pub flow_key : IpHdr → Transport → FlowKey
flow_key ip l4 = record {
  src_ip = ip.saddr;
  dst_ip = ip.daddr;
  src_port = l4.src_port;
  dst_port = l4.dst_port;
  proto = ip.protocol;
}

abbrev pub header_length : IpHdr → Transport → ℕ
header_length ip l4 = ip.ihl * 4 + l4.l4_header_length

-- In 32 bits, also where the headers are longer than the packet says that it is.
abbrev pub payload_length : IpHdr → Transport → ℕ
payload_length ip l4 = sub32 (sub32 (swap16 ip.tot_len) (ip.ihl * 4)) l4.l4_header_length

abbrev pub current_host_ip : State → ℕ
current_host_ip s = count_or_zero (s.host_ip 0)

abbrev pub direction_of : State → IpHdr → ℕ
direction_of s ip = if current_host_ip s == ip.daddr then 0 else 1

-- The struct after `= {0}`.
abbrev pub zero_info : TrafficInfo
zero_info = record {
  src_ip = 0;
  dst_ip = 0;
  src_port = 0;
  dst_port = 0;
  timestamp = 0;
  direction = 0;
  host_ip = 0;
  proto = 0;
  bytes = 0;
  packets = 0;
  flow_start_time = 0;
  flow_end_time = 0;
  fwd_packets = 0;
  bwd_packets = 0;
  fwd_bytes = 0;
  bwd_bytes = 0;
  fwd_header_length = 0;
  bwd_header_length = 0;
  min_packet_length = 0;
  max_packet_length = 0;
  fwd_packet_length_max = 0;
  fwd_packet_length_min = 0;
  fwd_packet_length_sum = 0;
  bwd_packet_length_max = 0;
  bwd_packet_length_min = 0;
  bwd_packet_length_sum = 0;
  iat_sum = 0;
  fwd_iat_sum = 0;
  bwd_iat_sum = 0;
  fin_count = 0;
  syn_count = 0;
  rst_count = 0;
  psh_count = 0;
  ack_count = 0;
  urg_count = 0;
  cwe_count = 0;
  ece_count = 0;
}

unfoldable pub set_flags : TrafficInfo → ℕ → TrafficInfo
set_flags info flags = record info {
  fin_count = bit flags 0;
  syn_count = bit flags 1;
  rst_count = bit flags 2;
  psh_count = bit flags 3;
  ack_count = bit flags 4;
  urg_count = bit flags 5;
  cwe_count = bit flags 6;
  ece_count = bit flags 7;
}

unfoldable pub add_flags : TrafficInfo → ℕ → TrafficInfo
add_flags info flags = record info {
  fin_count = add32 info.fin_count (bit flags 0);
  syn_count = add32 info.syn_count (bit flags 1);
  rst_count = add32 info.rst_count (bit flags 2);
  psh_count = add32 info.psh_count (bit flags 3);
  ack_count = add32 info.ack_count (bit flags 4);
  urg_count = add32 info.urg_count (bit flags 5);
  cwe_count = add32 info.cwe_count (bit flags 6);
  ece_count = add32 info.ece_count (bit flags 7);
}

-- The first packet of a flow: it counts as forward, whatever its direction.
unfoldable pub new_flow : ℕ → ℕ → ℕ → IpHdr → Transport → TrafficInfo
new_flow time direction host ip l4 =
    let info : TrafficInfo = record zero_info {
      src_ip = ip.saddr;
      dst_ip = ip.daddr;
      src_port = l4.src_port;
      dst_port = l4.dst_port;
      timestamp = time;
      direction = direction;
      host_ip = host;
      proto = ip.protocol;
      bytes = payload_length ip l4;
      packets = 1;
      flow_start_time = time;
      flow_end_time = time;
      fwd_packets = 1;
      fwd_bytes = payload_length ip l4;
      fwd_header_length = header_length ip l4;
    } in
    let info' = update_packet_length_stats info (payload_length ip l4) 0 in
    if ip.protocol == ipproto_tcp then set_flags info' l4.tcp_flags else info'

-- The counters of a later packet.
unfoldable pub count_packet : TrafficInfo → ℕ → ℕ → ℕ → ℕ → TrafficInfo
count_packet info time direction payload header =
    if direction == 0
    then record info {
      flow_end_time = time;
      packets = add32 info.packets 1;
      bytes = add64 info.bytes payload;
      fwd_packets = add32 info.fwd_packets 1;
      fwd_bytes = add64 info.fwd_bytes payload;
      fwd_header_length = add32 info.fwd_header_length header;
    }
    else record info {
      flow_end_time = time;
      packets = add32 info.packets 1;
      bytes = add64 info.bytes payload;
      bwd_packets = add32 info.bwd_packets 1;
      bwd_bytes = add64 info.bwd_bytes payload;
      bwd_header_length = add32 info.bwd_header_length header;
    }

unfoldable pub later_packet : TrafficInfo → ℕ → ℕ → IpHdr → Transport → TrafficInfo
later_packet info time direction ip l4 =
    let payload = payload_length ip l4 in
    let counted = count_packet info time direction payload (header_length ip l4) in
    let measured = update_packet_length_stats counted payload direction in
    let timed = update_iat_stats measured time direction in
    let flagged = if ip.protocol == ipproto_tcp then add_flags timed l4.tcp_flags else timed in
    record flagged { timestamp = time }

flow_entry : Helpers → State → ℕ → IpHdr → Transport → Option TrafficInfo → State
flow_entry h s time ip l4 none = record s {
  active_traffic =
      h.update_active_traffic s.active_traffic (flow_key ip l4)
        (new_flow time (direction_of s ip) (current_host_ip s) ip l4);
}
flow_entry h s time ip l4 (some info) =
    let info' = later_packet info time (direction_of s ip) ip l4 in
    record s {
      active_traffic =
          h.update_active_traffic (write_flow s.active_traffic (flow_key ip l4) info')
            (flow_key ip l4) info';
    }

unfoldable pub track_flow : Helpers → State → IpHdr → Transport → State
unfolding flow_entry
track_flow h s ip l4 = flow_entry h (tick s) (now s) ip l4 (s.active_traffic (flow_key ip l4))

-- `if (action != XDP_PASS) return action;`, with what follows it.
abbrev pub on_pass {ℓ} : {A : Type ℓ} → Action → A → A → A
on_pass pass stop go = go
on_pass drop stop go = stop
on_pass tx stop go = stop

unfoldable pub account : Helpers → State → IpHdr → Transport → Action × State
account h s ip l4 =
    let source = apply_rule s ip.saddr l4.src_port ip.protocol in
    let target = apply_rule s ip.daddr l4.dst_port ip.protocol in
    on_pass source (source, s) (on_pass target (target, s) (pass, track_flow h s ip l4))
