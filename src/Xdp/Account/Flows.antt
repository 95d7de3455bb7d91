-- ===== src/Xdp/Account/Flows.antt =====
-- What holds of every flow record that `xdp_prog` stores.
use cyrenus.Xdp.State.{now, IsLruUpdate, Helpers, State}
use cyrenus.Xdp.Flow.{update_packet_length_stats, update_iat_stats}
use cyrenus.Xdp.Account.{
  write_flow, current_host_ip, direction_of, track_flow, header_length, flow_key, flow_eq,
  later_packet, payload_length, Transport, set_flags, new_flow, count_packet, add_flags,
}
use cyrenus.Xdp.Types.{FlowKey, TrafficInfo, IpHdr}
use mathlib.Core.Path.{subst}
use cyrenus.Prelude.{
  ◌∙◌, sym, ap, Option, Bool-cases, ◌⊎◌, ◌≢◌, inr, inl, none, true, some, Option-cases, ◌≤◌, ◌^◌,
  add64, ◌<◌, add32, ◌≡◌, arith, ℕ,
}

-- The totals are the sums over both directions, in the width of the totals, and the lengths of each
-- direction lie between its bounds.
pub record IsFlow (info : TrafficInfo) : Type 0 where
  pub packets : info.packets ≡ add32 info.fwd_packets info.bwd_packets
  pub bytes : info.bytes ≡ add64 info.fwd_bytes info.bwd_bytes
  pub iat : info.iat_sum ≡ add32 info.fwd_iat_sum info.bwd_iat_sum
  pub fwd : info.fwd_packet_length_min ≤ info.fwd_packet_length_max
  pub bwd : info.bwd_packet_length_min ≤ info.bwd_packet_length_max

payload_length-lt : (ip : IpHdr) (l4 : Transport) → payload_length ip l4 < 2 ^ 32
payload_length-lt ip l4 = omega arith

-- The first packet of a flow makes such a record.
pub new_flow-IsFlow :
    (time direction host : ℕ) (ip : IpHdr) (l4 : Transport)
    → IsFlow (new_flow time direction host ip l4)
unfolding new_flow update_packet_length_stats set_flags
new_flow-IsFlow time direction host ip l4 = ground arith

lengths-IsFlow :
    (info : TrafficInfo) (length direction : ℕ)
    → IsFlow info
    → IsFlow (update_packet_length_stats info length direction)
unfolding update_packet_length_stats
lengths-IsFlow info length direction f = ground arith

iat-IsFlow :
    (info : TrafficInfo) (time direction : ℕ)
    → IsFlow info
    → IsFlow (update_iat_stats info time direction)
unfolding update_iat_stats
iat-IsFlow info time direction f = ground arith

count_packet-IsFlow :
    (info : TrafficInfo) (time direction payload header : ℕ)
    → IsFlow info
    → IsFlow (count_packet info time direction payload header)
unfolding count_packet
count_packet-IsFlow info time direction payload header f = ground arith

flags-IsFlow : (info : TrafficInfo) (flags : ℕ) → IsFlow info → IsFlow (add_flags info flags)
unfolding add_flags
flags-IsFlow info flags f = ground arith

-- A later packet keeps it so, in either direction.
pub later_packet-IsFlow :
    (info : TrafficInfo) (time direction : ℕ) (ip : IpHdr) (l4 : Transport)
    → IsFlow info
    → IsFlow (later_packet info time direction ip l4)
unfolding later_packet
later_packet-IsFlow info time direction ip l4 f =
    let payload = payload_length ip l4 in
    let counted = count_packet info time direction payload (header_length ip l4) in
    let measured = update_packet_length_stats counted payload direction in
    let timed = update_iat_stats measured time direction in
    ground (
      arith,
      flags-IsFlow timed l4.tcp_flags,
      iat-IsFlow measured time direction,
      lengths-IsFlow counted payload direction,
      count_packet-IsFlow info time direction payload (header_length ip l4) f,
    )

-- The record that `track_flow` stores for the flow of a packet.
unfoldable pub tracked : State → IpHdr → Transport → TrafficInfo
tracked s ip l4 = elim (s.active_traffic (flow_key ip l4)) [
  | none ↦ new_flow (now s) (direction_of s ip) (current_host_ip s) ip l4
  | some info ↦ later_packet info (now s) (direction_of s ip) ip l4
]

unfoldable pub AllFlows : State → Type 0
AllFlows s = (key : FlowKey) (info : TrafficInfo) → s.active_traffic key ≡ some info → IsFlow info

tracked-IsFlow : (s : State) (ip : IpHdr) (l4 : Transport) → AllFlows s → IsFlow (tracked s ip l4)
unfolding tracked AllFlows
tracked-IsFlow s ip l4 all = elim (Option-cases (s.active_traffic (flow_key ip l4))) [
  | inl e ↦ rw (e, tracked) (new_flow-IsFlow (now s) (direction_of s ip) (current_host_ip s) ip l4)
  | inr (info, e) ↦
      rw (e, tracked)
        (later_packet-IsFlow info (now s) (direction_of s ip) ip l4 (all (flow_key ip l4) info e))
]

pub flow_eq→eq : (a b : FlowKey) → flow_eq a b ≡ true → a ≡ b
flow_eq→eq a b h = ground arith

pub flow_eq_refl : (a : FlowKey) → flow_eq a a ≡ true
flow_eq_refl a = ground arith

pub write_flow_ne :
    (m : FlowKey → Option TrafficInfo) (key : FlowKey) (info : TrafficInfo) (other : FlowKey)
    → key ≢ other
    → write_flow m key info other ≡ m other
write_flow_ne m key info other ne = elim (Bool-cases (flow_eq key other)) [
  | inl e ↦ absurd (ne (flow_eq→eq key other e))
  | inr e ↦ rw e
]

module _ (h : Helpers) (lru : IsLruUpdate h.update_active_traffic) where
  other_written :
      (key : FlowKey) (info : TrafficInfo) (other : FlowKey) (m : FlowKey → Option TrafficInfo)
      → key ≢ other
      → let m' = h.update_active_traffic (write_flow m key info) key info in
        (m' other ≡ m other) ⊎ (m' other ≡ none)
  other_written key info other m ne =
      ground
        (arith, lru.other (write_flow m key info) key info other, write_flow_ne m key info other ne)

  -- The flow of a packet is stored under its key.
  pub track_flow_self :
      (s : State) (ip : IpHdr) (l4 : Transport)
      → (track_flow h s ip l4).active_traffic (flow_key ip l4) ≡ some (tracked s ip l4)
  unfolding track_flow tracked
  track_flow_self s ip l4 = elim (Option-cases (s.active_traffic (flow_key ip l4))) [
    | inl e ↦ rw (e, tracked) (lru.self _ _ _)
    | inr (info, e) ↦ rw (e, tracked) (lru.self _ _ _)
  ]

  -- Any other flow stays as it is, or is evicted.
  pub track_flow-other :
      (s : State) (ip : IpHdr) (l4 : Transport) (key : FlowKey)
      → flow_key ip l4 ≢ key
      → let s' = track_flow h s ip l4 in
        (s'.active_traffic key ≡ s.active_traffic key) ⊎ (s'.active_traffic key ≡ none)
  unfolding track_flow
  track_flow-other s ip l4 key ne = elim (Option-cases (s.active_traffic (flow_key ip l4))) [
    | inl e ↦ rw (e, track_flow) (lru.other _ _ _ _ ne)
    | inr (info, e) ↦
        rw (e, track_flow)
          (other_written (flow_key ip l4) (later_packet info (now s) (direction_of s ip) ip l4) key
            s.active_traffic ne)
  ]

  -- If in every flow of the map the packets, the bytes and the times between packets are the sums
  -- over both directions, in their width, and the shortest packet of each direction is no longer
  -- than its longest, it is so after the accounting of any packet, whatever the map evicts.
  pub track_flow-AllFlows :
      (s : State) (ip : IpHdr) (l4 : Transport) → AllFlows s → AllFlows (track_flow h s ip l4)
  unfolding AllFlows
  track_flow-AllFlows s ip l4 all key info e = elim (Bool-cases (flow_eq (flow_key ip l4) key)) [
    | inl same ↦
        let at_key =
          ap (track_flow h s ip l4).active_traffic (flow_eq→eq (flow_key ip l4) key same) in
        let stored : tracked s ip l4 ≡ info = cc (sym (track_flow_self s ip l4) ∙ at_key ∙ e) in
        subst IsFlow stored (tracked-IsFlow s ip l4 all)
    | inr differs ↦
        let ne : flow_key ip l4 ≢ key =
          λ q. cc (flow_eq_refl (flow_key ip l4), ap (flow_eq (flow_key ip l4)) q, differs) in
        elim (track_flow-other s ip l4 key ne) [
          | inl kept ↦ all key info (sym kept ∙ e)
          | inr gone ↦ absurd (cc)
        ]
  ]
