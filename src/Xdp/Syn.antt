-- ===== src/Xdp/Syn.antt =====
-- `check_syn_flood`: the SYN and SYN-ACK packets of a source in a window of one second.
pub mod Window
use cyrenus.Prelude.{
  ℕ, Bool, ◌&&◌, Option, none, some, ltb, if◌then◌else◌, add32, mul32, sub64, has_bit,
}
use cyrenus.Xdp.Types.{Action, drop, pass, SynFloodInfo, IpHdr, TcpHdr}
use cyrenus.Xdp.State.{State, Helpers, now, tick, write}
use cyrenus.Xdp.Config.{get_config}

abbrev pub syn_flag : TcpHdr → Bool
syn_flag tcp = has_bit tcp.flags 1

abbrev pub ack_flag : TcpHdr → Bool
ack_flag tcp = has_bit tcp.flags 4

abbrev pub fresh_syn : ℕ → Bool → SynFloodInfo
fresh_syn time ack = record {
  last_update = time;
  syn_count = if ack then 0 else 1;
  synack_count = if ack then 1 else 0;
}

abbrev pub counted_syn : SynFloodInfo → Bool → SynFloodInfo
counted_syn info ack = record info {
  syn_count = if ack then info.syn_count else add32 info.syn_count 1;
  synack_count = if ack then add32 info.synack_count 1 else info.synack_count;
}

-- Too many SYN, and more than ten (in 32 bits) for each SYN-ACK.
unfoldable pub is_syn_flood : ℕ → SynFloodInfo → Bool
is_syn_flood rate info = ltb rate info.syn_count && ltb (mul32 info.synack_count 10) info.syn_count

abbrev pub set_syn : State → ℕ → SynFloodInfo → State
set_syn s src_ip info = record s { syn_flood_map = write s.syn_flood_map src_ip info }

syn_entry : Helpers → State → ℕ → IpHdr → Bool → Option SynFloodInfo → Action × State
unfolding is_syn_flood
syn_entry h s time ip ack none = (
  pass,
  record s { syn_flood_map = h.update_syn_flood s.syn_flood_map ip.saddr (fresh_syn time ack) },
)
syn_entry h s time ip ack (some info) =
    if ltb (sub64 time info.last_update) 1000000000
    then (let counted = counted_syn info ack in
        let verdict =
          if ack
          then pass
          else if is_syn_flood (get_config s).syn_flood_rate counted
          then drop
          else pass in
        (verdict, set_syn s ip.saddr counted))
    else (pass, set_syn s ip.saddr (fresh_syn time ack))

unfoldable pub check_syn_flood : Helpers → State → IpHdr → TcpHdr → Action × State
unfolding syn_entry
check_syn_flood h s ip tcp =
    if syn_flag tcp
    then syn_entry h (tick s) (now s) ip (ack_flag tcp) (s.syn_flood_map ip.saddr)
    else (pass, s)
