-- ===== src/Xdp/Fragment.antt =====
-- `handle_fragment`: the number of fragments of a source, and fragments too small to be real.
pub mod Window
use cyrenus.Prelude.{
  ℕ, ◌+◌, ◌-◌, ◌*◌, ◌%◌, ◌^◌, Bool, ◌&&◌, ◌||◌, Option, none, some, ltb, ◌==◌, if◌then◌else◌, u16,
  add32, sub64, has_bit, swap16,
}
use cyrenus.Xdp.Types.{Action, drop, pass, FragInfo, IpHdr, frag_timeout}
use cyrenus.Xdp.State.{State, Helpers, now, tick, write}
use cyrenus.Xdp.Config.{get_config}

-- `frag_flags & IP_MF` and `frag_off & IP_OFFSET`, of the field in host order.
abbrev pub more_fragments : IpHdr → Bool
more_fragments ip = has_bit (swap16 ip.frag_off) 13

abbrev pub frag_offset : IpHdr → ℕ
frag_offset ip = swap16 ip.frag_off % 2 ^ 13

abbrev pub is_fragment : IpHdr → Bool
is_fragment ip = more_fragments ip || ltb 0 (frag_offset ip)

abbrev pub ip_payload_len : IpHdr → ℕ
ip_payload_len ip = u16 (swap16 ip.tot_len + 2 ^ 16 - ip.ihl * 4)

-- The checks on the packet itself, which come after the count.
unfoldable pub fragment_shape : IpHdr → Action
fragment_shape ip =
    if frag_offset ip == 1
    then drop
    else if more_fragments ip && ltb (ip_payload_len ip) 16
    then drop
    else pass

abbrev pub counted_frag : FragInfo → ℕ → FragInfo
counted_frag info time = record {
  last_update = time;
  frag_count =
      if ltb frag_timeout (sub64 time info.last_update) then 1 else add32 info.frag_count 1;
}

fragment_entry : Helpers → State → ℕ → IpHdr → Option FragInfo → Action × State
unfolding fragment_shape
fragment_entry h s time ip none = (
  fragment_shape ip,
  record s {
    frag_track_map =
        h.update_frag_track s.frag_track_map ip.saddr
          (record { last_update = time; frag_count = 1 });
  },
)
fragment_entry h s time ip (some info) =
    let counted = counted_frag info time in
    let s' = record s { frag_track_map = write s.frag_track_map ip.saddr counted } in
    if ltb (get_config s).max_frags counted.frag_count then (drop, s') else (fragment_shape ip, s')

unfoldable pub handle_fragment : Helpers → State → IpHdr → Action × State
unfolding fragment_entry
handle_fragment h s ip =
    if is_fragment ip
    then fragment_entry h (tick s) (now s) ip (s.frag_track_map ip.saddr)
    else (pass, s)
