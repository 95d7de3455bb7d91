-- ===== src/Xdp/Account/Established.antt =====
-- The age of a flow, which `is_established_flow` reads and `track_flow` writes.
use cyrenus.Xdp.Prog.{udp_transport}
use cyrenus.Xdp.Udp.{udp_flow}
use cyrenus.Xdp.Clock.{sub64-eq_sub, at}
use cyrenus.Xdp.Account.Flows.{track_flow_self, tracked}
use cyrenus.Xdp.Flow.{
  older, established_after, update_iat_stats, is_established_flow, update_packet_length_stats,
}
use cyrenus.Xdp.Account.{
  current_host_ip, direction_of, add_flags, flow_key, track_flow, count_packet, set_flags,
  Transport, later_packet, new_flow,
}
use cyrenus.Xdp.State.{IsLruUpdate, Helpers, State}
use cyrenus.Xdp.Types.{ipproto_udp, UdpHdr, TrafficInfo, IpHdr, FlowKey}
use cyrenus.Prelude.{◌∙◌, ◌-◌, ltb, ◌^◌, ◌<◌, ◌≤◌, none, some, arith, ◌≡◌, [], ◌∷◌, List, ℕ}

-- A packet as the accounting takes it.
pub record Tracked : Type 0 where
  pub ip : IpHdr
  pub l4 : Transport

abbrev pub OfFlow : FlowKey → List (ℕ × Tracked) → Type 0
OfFlow key [] = Unit {0}
OfFlow key ((time, p) ∷ rest) = (flow_key p.ip p.l4 ≡ key) × OfFlow key rest

pub track_run : Helpers → State → List (ℕ × Tracked) → State
track_run h s [] = s
track_run h s ((time, p) ∷ rest) = track_run h (track_flow h (at s time) p.ip p.l4) rest

-- The key is known since the given time.
pub Since : State → FlowKey → ℕ → Type 0
Since s key start =
    (info : TrafficInfo) × (s.active_traffic key ≡ some info) × (info.flow_start_time ≡ start)

later_packet-start :
    (info : TrafficInfo) (time direction : ℕ) (ip : IpHdr) (l4 : Transport)
    → (later_packet info time direction ip l4).flow_start_time ≡ info.flow_start_time
unfolding later_packet update_packet_length_stats update_iat_stats count_packet add_flags
later_packet-start info time direction ip l4 = ground arith

new_flow-start :
    (time direction host : ℕ) (ip : IpHdr) (l4 : Transport)
    → (new_flow time direction host ip l4).flow_start_time ≡ time
unfolding new_flow update_packet_length_stats set_flags
new_flow-start time direction host ip l4 = ground arith

module _ (h : Helpers) (lru : IsLruUpdate h.update_active_traffic) where
  first-Since :
      (s : State) (time : ℕ) (ip : IpHdr) (l4 : Transport)
      → s.active_traffic (flow_key ip l4) ≡ none
      → Since (track_flow h (at s time) ip l4) (flow_key ip l4) time
  unfolding Since tracked
  first-Since s time ip l4 e =
      let info = new_flow time (direction_of s ip) (current_host_ip s) ip l4 in
      (
        info,
        track_flow_self h lru (at s time) ip l4 ∙ rw (e, tracked),
        new_flow-start time (direction_of s ip) (current_host_ip s) ip l4,
      )

  later-Since :
      (s : State) (time start : ℕ) (ip : IpHdr) (l4 : Transport)
      → Since s (flow_key ip l4) start
      → Since (track_flow h (at s time) ip l4) (flow_key ip l4) start
  unfolding Since tracked
  later-Since s time start ip l4 (info, e, f) =
      let info' = later_packet info time (direction_of s ip) ip l4 in
      (
        info',
        track_flow_self h lru (at s time) ip l4 ∙ rw (e, tracked),
        later_packet-start info time (direction_of s ip) ip l4 ∙ f,
      )

  track_run-Since :
      (s : State) (key : FlowKey) (start : ℕ) (pkts : List (ℕ × Tracked))
      → OfFlow key pkts
      → Since s key start
      → Since (track_run h s pkts) key start
  unfolding track_run
  track_run-Since s key start [] o f = f
  track_run-Since s key start ((time, p) ∷ rest) o f =
      let next = later-Since s time start p.ip p.l4 (rw o.0 f) in
      track_run-Since (track_flow h (at s time) p.ip p.l4) key start rest o.1 (rw o.0 at next)

  older-eq :
      (s : State) (key : FlowKey) (start time : ℕ)
      → Since s key start
      → start ≤ time
      → time < 2 ^ 64
      → is_established_flow s key time ≡ ltb established_after (time - start)
  unfolding is_established_flow Since
  older-eq s key start time (info, e, f) a b = rw (e, older, f, sub64-eq_sub time start a b)

  -- A flow that the program did not know becomes established exactly five seconds after its first
  -- packet, whatever packets of it follow: the key that the accounting of a UDP packet stores is
  -- the one that the flood checks look up.
  pub is_established_flow-exact :
      (s : State) (first : ℕ) (ip : IpHdr) (udp : UdpHdr) (pkts : List (ℕ × Tracked)) (time : ℕ)
      → ip.protocol ≡ ipproto_udp
      → s.active_traffic (udp_flow ip udp) ≡ none
      → OfFlow (udp_flow ip udp) pkts
      → first ≤ time
      → time < 2 ^ 64
      → let s' = track_run h (track_flow h (at s first) ip (udp_transport udp)) pkts in
        is_established_flow s' (udp_flow ip udp) time ≡ ltb established_after (time - first)
  is_established_flow-exact s first ip udp pkts time proto e o a b =
      let same : flow_key ip (udp_transport udp) ≡ udp_flow ip udp = ground arith in
      let new = first-Since s first ip (udp_transport udp) (rw same e) in
      let s' = track_run h (track_flow h (at s first) ip (udp_transport udp)) pkts in
      let known =
        track_run-Since (track_flow h (at s first) ip (udp_transport udp)) (udp_flow ip udp) first
          pkts o (rw same at new) in
      older-eq s' (udp_flow ip udp) first time known a b
