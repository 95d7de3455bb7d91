-- ===== src/Xdp/Syn/Window.antt =====
-- The SYN packets of a source in one window, counted by `check_syn_flood`.
use cyrenus.Prelude.{
  ◌&&◌, ltb, ◌*◌, u32, ℕ, ◌+◌, ◌^◌, ◌<◌, ◌≤◌, ◌≡◌, true, some, List, [], ◌∷◌, if◌then◌else◌, arith,
}
use cyrenus.Xdp.Types.{drop, pass, SynFloodInfo, IpHdr, TcpHdr}
use cyrenus.Xdp.State.{State, Helpers}
use cyrenus.Xdp.Clock.{InWindow, at, sub64-eq_sub}
use cyrenus.Xdp.Config.{get_config}
use cyrenus.Xdp.Syn.{check_syn_flood, is_syn_flood, syn_flag, ack_flag, counted_syn}

abbrev pub second : ℕ
second = 1000000000

-- SYN packets without ACK, and with it.
unfoldable pub syns : List (ℕ × TcpHdr) → ℕ
syns [] = 0
syns ((time, tcp) ∷ rest) = (if ack_flag tcp then 0 else 1) + syns rest

unfoldable pub synacks : List (ℕ × TcpHdr) → ℕ
synacks [] = 0
synacks ((time, tcp) ∷ rest) = (if ack_flag tcp then 1 else 0) + synacks rest

-- Every packet has the SYN flag.
abbrev pub AllSyn : List (ℕ × TcpHdr) → Type 0
AllSyn [] = Unit {0}
AllSyn ((time, tcp) ∷ rest) = (syn_flag tcp ≡ true) × AllSyn rest

pub syn_run : Helpers → State → IpHdr → List (ℕ × TcpHdr) → State
syn_run h s ip [] = s
syn_run h s ip ((time, tcp) ∷ rest) = syn_run h (check_syn_flood h (at s time) ip tcp).1 ip rest

-- One SYN inside the window of an entry.
check_syn_flood-step :
    (h : Helpers) (s : State) (ip : IpHdr) (time : ℕ) (tcp : TcpHdr) (info : SynFloodInfo)
    → s.syn_flood_map ip.saddr ≡ some info
    → syn_flag tcp ≡ true
    → info.last_update ≤ time
    → time < info.last_update + second
    → time < 2 ^ 64
    → let (verdict, s') = check_syn_flood h (at s time) ip tcp in
      let counted = counted_syn info (ack_flag tcp) in
      (verdict ≡ (
        if ack_flag tcp
        then pass
        else if is_syn_flood (get_config s).syn_flood_rate counted
        then drop
        else pass))
      × (s'.syn_flood_map ip.saddr ≡ some counted)
      × (s'.config_map ≡ s.config_map)
unfolding check_syn_flood
check_syn_flood-step h s ip time tcp info e f a b c =
    ground (arith, sub64-eq_sub time info.last_update)

-- The entry of a source after packets of its window: the window starts where it did, and the
-- counters have grown by the number of packets, in 32 bits.
syn_run-counts :
    (h : Helpers) (s : State) (ip : IpHdr) (pkts : List (ℕ × TcpHdr)) (info : SynFloodInfo)
    → s.syn_flood_map ip.saddr ≡ some info
    → AllSyn pkts
    → InWindow info.last_update second pkts
    → info.last_update + second ≤ 2 ^ 64
    → info.syn_count < 2 ^ 32
    → info.synack_count < 2 ^ 32
    → ((syn_run h s ip pkts).syn_flood_map ip.saddr
        ≡ some (record {
          last_update = info.last_update;
          syn_count = u32 (info.syn_count + syns pkts);
          synack_count = u32 (info.synack_count + synacks pkts);
        }))
      × ((syn_run h s ip pkts).config_map ≡ s.config_map)
unfolding syn_run syns synacks
syn_run-counts h s ip [] info e f w k a b = ground arith
syn_run-counts h s ip ((time, tcp) ∷ rest) info e f w k a b =
    let s' = (check_syn_flood h (at s time) ip tcp).1 in
    let counted = counted_syn info (ack_flag tcp) in
    ground (
      arith,
      check_syn_flood-step h s ip time tcp info e f.0 w.0 w.1 (omega arith),
      syn_run-counts h s' ip rest counted,
    )

-- A SYN packet within the window of its source's entry, after any SYN packets of that window, is
-- dropped exactly if it has no ACK, and the SYN without ACK that were counted, it among them, are
-- more than the configured rate and more than ten for each SYN-ACK. This holds while the counters
-- do not wrap.
pub syn_run-verdict :
    (h : Helpers) (s : State) (ip : IpHdr) (pkts : List (ℕ × TcpHdr)) (info : SynFloodInfo)
    (time : ℕ) (tcp : TcpHdr)
    → s.syn_flood_map ip.saddr ≡ some info
    → AllSyn pkts
    → syn_flag tcp ≡ true
    → InWindow info.last_update second pkts
    → info.last_update ≤ time
    → time < info.last_update + second
    → info.last_update + second ≤ 2 ^ 64
    → info.syn_count + syns pkts + 1 < 2 ^ 32
    → (info.synack_count + synacks pkts) * 10 < 2 ^ 32
    → let counted = info.syn_count + syns pkts + 1 in
      let answered = info.synack_count + synacks pkts in
      (check_syn_flood h (at (syn_run h s ip pkts) time) ip tcp).0 ≡ (
        if ack_flag tcp
        then pass
        else if ltb (get_config s).syn_flood_rate counted && ltb (answered * 10) counted
        then drop
        else pass)
unfolding is_syn_flood
syn_run-verdict h s ip pkts info time tcp e f g w a b k m n =
    let counts = syn_run-counts h s ip pkts info e f w k (omega arith) (omega arith) in
    let entry : SynFloodInfo = record {
      last_update = info.last_update;
      syn_count = u32 (info.syn_count + syns pkts);
      synack_count = u32 (info.synack_count + synacks pkts);
    } in
    let step =
      check_syn_flood-step h (syn_run h s ip pkts) ip time tcp entry counts.0 g a b (omega arith) in
    rw (step.0, counts.1) (ground arith)
