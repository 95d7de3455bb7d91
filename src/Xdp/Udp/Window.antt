-- ===== src/Xdp/Udp/Window.antt =====
-- The UDP packets of a source that follow one another closely, as `check_udp_flood` counts them.
use cyrenus.Xdp.Clock.{last_time, Gaps, sub64-eq_sub, at}
use cyrenus.Xdp.Udp.{udp_size_check, check_udp_flood}
use cyrenus.Xdp.State.{State, Helpers}
use cyrenus.Xdp.Types.{UdpFloodInfo, UdpHdr, IpHdr, Action}
use cyrenus.Prelude.{
  refl, ap, ◌∙◌, length, u32, arith, add32, ◌^◌, ◌<◌, ◌+◌, [], ◌∷◌, ◌≤◌, some, ◌≡◌, swap16, List, ℕ,
}

pub record Datagram : Type 0 where
  pub ip : IpHdr
  pub udp : UdpHdr

-- 100 ms: the time after which the rate is looked at.
abbrev pub tenth : ℕ
tenth = 100000000

abbrev pub FromSource : ℕ → List (ℕ × Datagram) → Type 0
FromSource src [] = Unit {0}
FromSource src ((time, d) ∷ rest) = (d.ip.saddr ≡ src) × FromSource src rest

pub udp_run : Helpers → State → List (ℕ × Datagram) → State
udp_run h s [] = s
udp_run h s ((time, d) ∷ rest) = udp_run h (check_udp_flood h (at s time) d.ip d.udp).1 rest

-- The verdict by size alone.
abbrev pub size_verdict : Datagram → Action
size_verdict d = udp_size_check (swap16 d.udp.source) (swap16 d.udp.dest) (swap16 d.ip.tot_len)

check_udp_flood-step :
    (h : Helpers) (s : State) (time src : ℕ) (d : Datagram) (info : UdpFloodInfo)
    → s.udp_flood_map src ≡ some info
    → d.ip.saddr ≡ src
    → info.last_update ≤ time
    → time ≤ info.last_update + tenth
    → time < 2 ^ 64
    → let (verdict, s') = check_udp_flood h (at s time) d.ip d.udp in
      (verdict ≡ size_verdict d)
      × (s'.udp_flood_map src
          ≡ some (record {
            last_update = time;
            packet_count = add32 info.packet_count 1;
            byte_count = add32 info.byte_count (swap16 d.ip.tot_len);
          }))
      × (s'.config_map ≡ s.config_map)
      × (s'.active_traffic ≡ s.active_traffic)
unfolding check_udp_flood
check_udp_flood-step h s time src d info e i a b c =
    ground (arith, sub64-eq_sub time info.last_update)

-- The entry of a source after packets in close order: its last update is that of the last packet.
udp_run-entry :
    (h : Helpers) (s : State) (src : ℕ) (pkts : List (ℕ × Datagram)) (info : UdpFloodInfo)
    → s.udp_flood_map src ≡ some info
    → FromSource src pkts
    → Gaps tenth info.last_update pkts
    → info.packet_count < 2 ^ 32
    → ((n : ℕ) × ((udp_run h s pkts).udp_flood_map src
          ≡ some (record {
            last_update = last_time info.last_update pkts;
            packet_count = u32 (info.packet_count + length pkts);
            byte_count = n;
          })))
      × ((udp_run h s pkts).config_map ≡ s.config_map)
      × ((udp_run h s pkts).active_traffic ≡ s.active_traffic)
unfolding udp_run
udp_run-entry h s src [] info e f w a = ((info.byte_count, ground arith), refl, refl)
udp_run-entry h s src ((time, d) ∷ rest) info e f w a =
    let s' = (check_udp_flood h (at s time) d.ip d.udp).1 in
    let step = check_udp_flood-step h s time src d info e f.0 w.0 w.1 w.2 in
    let counted : UdpFloodInfo = record {
      last_update = time;
      packet_count = add32 info.packet_count 1;
      byte_count = add32 info.byte_count (swap16 d.ip.tot_len);
    } in
    let more = udp_run-entry h s' src rest counted step.1 f.1 w.3 (omega arith) in
    (
      (
        more.0.0,
        more.0.1
            ∙ ap
                (λ c. some (record {
                  last_update = last_time time rest;
                  packet_count = c;
                  byte_count = more.0.0;
                }))
                (omega arith),
      ),
      more.1 ∙ step.2,
      more.2 ∙ step.3,
    )

-- Packets of a source that follow one another by 100 ms at most are never dropped for their rate,
-- however many they are and whatever the configured rate: only the size limits of DNS and NTP drop
-- any of them, since each packet moves the time that the next is measured from.
pub udp_run-never_flooded :
    (h : Helpers) (s : State) (src : ℕ) (pkts : List (ℕ × Datagram)) (info : UdpFloodInfo)
    (time : ℕ) (d : Datagram)
    → s.udp_flood_map src ≡ some info
    → FromSource src pkts
    → Gaps tenth info.last_update pkts
    → d.ip.saddr ≡ src
    → last_time info.last_update pkts ≤ time
    → time ≤ last_time info.last_update pkts + tenth
    → time < 2 ^ 64
    → info.packet_count < 2 ^ 32
    → (check_udp_flood h (at (udp_run h s pkts) time) d.ip d.udp).0 ≡ size_verdict d
udp_run-never_flooded h s src pkts info time d e f w i a b k m =
    let ran = udp_run-entry h s src pkts info e f w m in
    let entry : UdpFloodInfo = record {
      last_update = last_time info.last_update pkts;
      packet_count = u32 (info.packet_count + length pkts);
      byte_count = ran.0.0;
    } in
    (check_udp_flood-step h (udp_run h s pkts) time src d entry ran.0.1 i a b k).0
