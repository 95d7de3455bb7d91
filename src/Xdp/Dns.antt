-- ===== src/Xdp/Dns.antt =====
-- `check_dns_amplification`: the rate of DNS packets of a source, and the size of its responses.
pub mod Window
use cyrenus.Prelude.{
  ℕ, Bool, not, ◌&&◌, Option, none, some, ltb, ◌==◌, if◌then◌else◌, add32, mul32, sub64, swap16,
}
use cyrenus.Xdp.Types.{
  Action, drop, pass, DnsInfo, IpHdr, UdpHdr, AttacksConfig, dns_port, max_dns_response_size,
}
use cyrenus.Xdp.State.{State, Helpers, now, tick, write}
use cyrenus.Xdp.Config.{get_config}
use cyrenus.Xdp.Flow.{is_established_flow}
use cyrenus.Xdp.Udp.{udp_flow}

abbrev pub fresh_dns : ℕ → ℕ → DnsInfo
fresh_dns time size = record { last_update = time; packet_count = 1; total_size = size }

abbrev pub counted_dns : DnsInfo → ℕ → DnsInfo
counted_dns info size = record info {
  packet_count = add32 info.packet_count 1;
  total_size = add32 info.total_size size;
}

-- The threshold: five times as much for an established flow, in 32 bits.
abbrev pub dns_threshold : AttacksConfig → Bool → ℕ
dns_threshold cfg is_established =
    if is_established then mul32 cfg.dns_amp_rate 5 else cfg.dns_amp_rate

abbrev pub set_dns : State → ℕ → DnsInfo → State
set_dns s src_ip info = record s { dns_track_map = write s.dns_track_map src_ip info }

-- The verdict within a window, by the count that includes this packet.
unfoldable pub dns_verdict : ℕ → ℕ → ℕ → Bool → Action
dns_verdict packet_count threshold size is_response =
    if ltb threshold packet_count
    then drop
    else if is_response && ltb max_dns_response_size size
    then drop
    else pass

dns_entry : Helpers → State → ℕ → IpHdr → UdpHdr → Bool → Option DnsInfo → Action × State
unfolding dns_verdict is_established_flow
dns_entry h s time ip udp is_response none = (
  pass,
  record s {
    dns_track_map =
        h.update_dns_track s.dns_track_map ip.saddr (fresh_dns time (swap16 ip.tot_len));
  },
)
dns_entry h s time ip udp is_response (some info) =
    let size = swap16 ip.tot_len in
    if ltb (sub64 time info.last_update) 1000000000
    then (let counted = counted_dns info size in
        let s' = set_dns s ip.saddr counted in
        let threshold =
          dns_threshold (get_config s) (is_established_flow s' (udp_flow ip udp) time) in
        (dns_verdict counted.packet_count threshold size is_response, s'))
    else (pass, set_dns s ip.saddr (fresh_dns time size))

abbrev pub is_dns : UdpHdr → Bool
is_dns udp = not (not (swap16 udp.source == dns_port) && not (swap16 udp.dest == dns_port))

unfoldable pub check_dns_amplification : Helpers → State → IpHdr → UdpHdr → Bool → Action × State
unfolding dns_entry
check_dns_amplification h s ip udp is_response =
    if not (swap16 udp.source == dns_port) && not (swap16 udp.dest == dns_port)
    then (pass, s)
    else dns_entry h (tick s) (now s) ip udp is_response (s.dns_track_map ip.saddr)
