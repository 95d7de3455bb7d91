-- ===== src/Xdp/Udp.antt =====
-- `check_udp_flood`: the rate of UDP packets of a source, and the limits on DNS and NTP sizes.
pub mod Window
use cyrenus.Prelude.{
  ℕ, ◌/◌, Bool, Option, ◌&&◌, ◌||◌, none, some, ltb, leb, ◌==◌, if◌then◌else◌, add32, mul32, sub64,
  mul64, swap16,
}
use cyrenus.Xdp.Types.{
  FlowKey, Action, drop, pass, UdpFloodInfo, IpHdr, UdpHdr, AttacksConfig, ipproto_udp,
  udp_flood_burst,
}
use cyrenus.Xdp.State.{State, Helpers, now, tick, write}
use cyrenus.Xdp.Config.{get_config}
use cyrenus.Xdp.Attack.{update_attack_info}
use cyrenus.Xdp.Flow.{is_established_flow}

abbrev pub fresh_udp : ℕ → ℕ → UdpFloodInfo
fresh_udp time pkt_size = record { last_update = time; packet_count = 1; byte_count = pkt_size }

-- The entry after the two atomic additions.
abbrev pub counted_udp : UdpFloodInfo → ℕ → UdpFloodInfo
counted_udp info pkt_size = record info {
  packet_count = add32 info.packet_count 1;
  byte_count = add32 info.byte_count pkt_size;
}

-- The threshold: ten times as much for an established flow, in 32 bits.
abbrev pub udp_threshold : AttacksConfig → Bool → ℕ
udp_threshold cfg is_established =
    if is_established then mul32 cfg.udp_flood_rate 10 else cfg.udp_flood_rate

-- The test that ends in "UDP flood detected", for the time since the last update and the count.
unfoldable pub is_udp_flood : ℕ → ℕ → ℕ → Bool
is_udp_flood time_diff packet_count threshold =
    ltb threshold (mul64 packet_count 1000000000 / time_diff) && ltb udp_flood_burst packet_count

-- The size limits on ports 53 and 123.
unfoldable pub udp_size_check : ℕ → ℕ → ℕ → Action
udp_size_check src_port dst_port pkt_size =
    if dst_port == 53 && ltb 512 pkt_size
    then drop
    else if (dst_port == 123 || src_port == 123) && ltb 1024 pkt_size
    then drop
    else pass

-- The flow that a UDP packet belongs to, ports in host order.
abbrev pub udp_flow : IpHdr → UdpHdr → FlowKey
udp_flow ip udp = record {
  src_ip = ip.saddr;
  dst_ip = ip.daddr;
  src_port = swap16 udp.source;
  dst_port = swap16 udp.dest;
  proto = ipproto_udp;
}

abbrev set_udp : State → ℕ → UdpFloodInfo → State
set_udp s src_ip info = record s { udp_flood_map = write s.udp_flood_map src_ip info }

-- The part of the function inside a window of one second, at an entry that is there.
unfoldable pub udp_in_window :
    Helpers → State → AttacksConfig → ℕ → ℕ → UdpFloodInfo → IpHdr → UdpHdr → Action × State
unfolding is_established_flow is_udp_flood udp_size_check
udp_in_window h s cfg time time_diff info ip udp =
    let pkt_size = swap16 ip.tot_len in
    let counted = counted_udp info pkt_size in
    let s' = set_udp s ip.saddr counted in
    let threshold = udp_threshold cfg (is_established_flow s' (udp_flow ip udp) time) in
    let flooded : Action × State =
      (drop, update_attack_info h s' ip.saddr ipproto_udp 1 pkt_size) in
    let passed : Action × State = (
      udp_size_check (swap16 udp.source) (swap16 udp.dest) pkt_size,
      set_udp s' ip.saddr (record counted { last_update = time }),
    ) in
    if ltb 100000000 time_diff
    then if time_diff == 0
      then (pass, s')
      else if is_udp_flood time_diff counted.packet_count threshold
      then flooded
      else passed
    else passed

udp_entry : Helpers → State → ℕ → IpHdr → UdpHdr → Option UdpFloodInfo → Action × State
unfolding udp_in_window
udp_entry h s time ip udp none = (
  pass,
  record s {
    udp_flood_map =
        h.update_udp_flood s.udp_flood_map ip.saddr (fresh_udp time (swap16 ip.tot_len));
  },
)
udp_entry h s time ip udp (some info) =
    let time_diff = sub64 time info.last_update in
    if leb 1000000000 time_diff
    then (pass, set_udp s ip.saddr (fresh_udp time (swap16 ip.tot_len)))
    else udp_in_window h s (get_config s) time time_diff info ip udp

unfoldable pub check_udp_flood : Helpers → State → IpHdr → UdpHdr → Action × State
unfolding udp_entry
check_udp_flood h s ip udp = udp_entry h (tick s) (now s) ip udp (s.udp_flood_map ip.saddr)
