-- ===== src/Xdp/Dns/Window.antt =====
-- The DNS packets of a source in one window, counted by `check_dns_amplification`.
use cyrenus.Xdp.Udp.{udp_flow}
use cyrenus.Xdp.Flow.{is_established_flow}
use cyrenus.Xdp.Config.{get_config}
use cyrenus.Xdp.Clock.{InWindow, sub64-eq_sub, at}
use cyrenus.Xdp.Dns.{dns_threshold, dns_verdict, counted_dns, is_dns, check_dns_amplification}
use cyrenus.Xdp.State.{State, Helpers}
use cyrenus.Xdp.Types.{AttacksConfig, pass, drop, DnsInfo, UdpHdr, IpHdr}
use cyrenus.Prelude.{
  false, ◌*◌, ◌&&◌, ◌||◌, ltb, refl, if◌then◌else◌, ap, ◌∙◌, u32, length, arith, swap16, ◌^◌, ◌+◌,
  ◌<◌, ◌≤◌, true, [], ◌∷◌, some, ◌≡◌, Bool, List, ℕ,
}

abbrev pub second : ℕ
second = 1000000000

-- A DNS packet as the check takes it, with the time of its arrival.
pub record Datagram : Type 0 where
  pub ip : IpHdr
  pub udp : UdpHdr
  pub is_response : Bool

-- DNS packets of one source.
abbrev pub FromDns : ℕ → List (ℕ × Datagram) → Type 0
FromDns src [] = Unit {0}
FromDns src ((time, d) ∷ rest) = (d.ip.saddr ≡ src) × (is_dns d.udp ≡ true) × FromDns src rest

pub dns_run : Helpers → State → List (ℕ × Datagram) → State
dns_run h s [] = s
dns_run h s ((time, d) ∷ rest) =
    dns_run h (check_dns_amplification h (at s time) d.ip d.udp d.is_response).1 rest

check_dns_amplification-step :
    (h : Helpers) (s : State) (time src : ℕ) (d : Datagram) (info : DnsInfo)
    → s.dns_track_map src ≡ some info
    → d.ip.saddr ≡ src
    → is_dns d.udp ≡ true
    → info.last_update ≤ time
    → time < info.last_update + second
    → time < 2 ^ 64
    → let (verdict, s') = check_dns_amplification h (at s time) d.ip d.udp d.is_response in
      let size = swap16 d.ip.tot_len in
      let counted = counted_dns info size in
      (verdict
        ≡ dns_verdict counted.packet_count
            (dns_threshold (get_config s) (is_established_flow s (udp_flow d.ip d.udp) time))
            size
            d.is_response)
      × (s'.dns_track_map src ≡ some counted)
      × (s'.config_map ≡ s.config_map)
      × (s'.active_traffic ≡ s.active_traffic)
unfolding check_dns_amplification
check_dns_amplification-step h s time src d info e i f a b c =
    ground (arith, sub64-eq_sub time info.last_update)

-- The entry of a source after DNS packets of its window.
dns_run-entry :
    (h : Helpers) (s : State) (src : ℕ) (pkts : List (ℕ × Datagram)) (info : DnsInfo)
    → s.dns_track_map src ≡ some info
    → FromDns src pkts
    → InWindow info.last_update second pkts
    → info.last_update + second ≤ 2 ^ 64
    → info.packet_count < 2 ^ 32
    → ((n : ℕ) × ((dns_run h s pkts).dns_track_map src
          ≡ some (record {
            last_update = info.last_update;
            packet_count = u32 (info.packet_count + length pkts);
            total_size = n;
          })))
      × ((dns_run h s pkts).config_map ≡ s.config_map)
      × ((dns_run h s pkts).active_traffic ≡ s.active_traffic)
unfolding dns_run
dns_run-entry h s src [] info e f w k a = ((info.total_size, ground arith), refl, refl)
dns_run-entry h s src ((time, d) ∷ rest) info e f w k a =
    let s' = (check_dns_amplification h (at s time) d.ip d.udp d.is_response).1 in
    let counted = counted_dns info (swap16 d.ip.tot_len) in
    let step = check_dns_amplification-step h s time src d info e f.0 f.1 w.0 w.1 (omega arith) in
    let more = dns_run-entry h s' src rest counted step.1 f.2 w.2 k (omega arith) in
    (
      (
        more.0.0,
        more.0.1
            ∙ ap
                (λ c. some (record {
                  last_update = info.last_update;
                  packet_count = c;
                  total_size = more.0.0;
                }))
                (omega arith),
      ),
      more.1 ∙ step.2,
      more.2 ∙ step.3,
    )

-- Where five times the rate does not wrap.
dns_threshold-times :
    (cfg : AttacksConfig) (established : Bool)
    → cfg.dns_amp_rate * 5 < 2 ^ 32
    → dns_threshold cfg established
      ≡ (if established then cfg.dns_amp_rate * 5 else cfg.dns_amp_rate)
dns_threshold-times cfg true h = omega arith
dns_threshold-times cfg false h = refl

-- A DNS packet within the window of its source's entry, after any DNS packets of that window, is
-- dropped exactly if the packets counted, it among them, are more than the threshold, or if it is a
-- response of more than 512 bytes. The threshold is the configured rate, and five times as much if
-- the flow of the packet is older than five seconds. This holds while neither the counter nor five
-- times the rate wraps in 32 bits.
pub dns_run-verdict :
    (h : Helpers) (s : State) (src : ℕ) (pkts : List (ℕ × Datagram)) (info : DnsInfo) (time : ℕ)
    (d : Datagram)
    → s.dns_track_map src ≡ some info
    → FromDns src pkts
    → InWindow info.last_update second pkts
    → d.ip.saddr ≡ src
    → is_dns d.udp ≡ true
    → info.last_update ≤ time
    → time < info.last_update + second
    → info.last_update + second ≤ 2 ^ 64
    → info.packet_count + length pkts + 1 < 2 ^ 32
    → (get_config s).dns_amp_rate * 5 < 2 ^ 32
    → let established = is_established_flow s (udp_flow d.ip d.udp) time in
      let rate = (get_config s).dns_amp_rate in
      (check_dns_amplification h (at (dns_run h s pkts) time) d.ip d.udp d.is_response).0 ≡ (
        if ltb (if established then rate * 5 else rate) (info.packet_count + length pkts + 1)
          || d.is_response && ltb 512 (swap16 d.ip.tot_len)
        then drop
        else pass)
unfolding dns_verdict is_established_flow
dns_run-verdict h s src pkts info time d e f w i g a b k m r =
    let ran = dns_run-entry h s src pkts info e f w k (omega arith) in
    let entry : DnsInfo = record {
      last_update = info.last_update;
      packet_count = u32 (info.packet_count + length pkts);
      total_size = ran.0.0;
    } in
    let step =
      check_dns_amplification-step h (dns_run h s pkts) time src d entry ran.0.1 i g a b
        (omega arith) in
    let established = is_established_flow s (udp_flow d.ip d.udp) time in
    rw (step.0, ran.1, ran.2) (rw (dns_threshold-times (get_config s) established r) (ground arith))
