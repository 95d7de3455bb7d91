-- ===== src/Rates/Report.antt =====
-- The message that the monitor broadcasts about the frames between two of its rounds.
use cyrenus.Live.{ws_broadcast_message}
use cyrenus.Rates.Frames.{
  bps_of-exact, pps_of-exact, grown, totals-grown, run_frames-counts, run_frames, ipv4_bytes,
  ipv4_frames, Is64,
}
use cyrenus.Xdp.Types.{GlobalStats}
use cyrenus.Xdp.Packet.{Packet}
use cyrenus.Xdp.State.{State, Helpers}
use cyrenus.Rates.{totals, Rates, traffic_text, monitor_thread}
use cyrenus.Prelude.{
  take_short, sym, ◌+◌, u64, ap, ◌∙◌, ◌*◌, ◌^◌, ◌<◌, some, ◌≡◌, [], ◌∷◌, length-decimal_digits,
  List, decimal, ◌≤◌, ◌++◌, length, Text, codes, ℕ, arith,
}

behind_total : ℕ → Text
behind_total b = codes ",\"total_bytes\":" ++ decimal b (codes "}}")

behind_total-le : (b : ℕ) → length (behind_total b) ≤ 60
unfolding codes behind_total
behind_total-le b = omega (arith, length-decimal_digits 20 b (125 ∷ 125 ∷ []))

behind_bps : ℕ → ℕ → Text
unfolding behind_total
behind_bps packets b = codes ",\"total_packets\":" ++ decimal packets (behind_total b)

behind_bps-le : (packets b : ℕ) → length (behind_bps packets b) ≤ 110
unfolding codes behind_bps
behind_bps-le packets b =
    omega (arith, length-decimal_digits 20 packets (behind_total b), behind_total-le b)

behind_pps : ℕ → ℕ → ℕ → Text
unfolding behind_bps
behind_pps bps packets b = codes ",\"bps\":" ++ decimal bps (behind_bps packets b)

behind_pps-le : (bps packets b : ℕ) → length (behind_pps bps packets b) ≤ 150
unfolding codes behind_pps
behind_pps-le bps packets b =
    omega (arith, length-decimal_digits 20 bps (behind_bps packets b), behind_bps-le packets b)

behind_time : ℕ → ℕ → ℕ → ℕ → Text
unfolding behind_pps
behind_time pps bps packets b = codes ",\"pps\":" ++ decimal pps (behind_pps bps packets b)

behind_time-le : (pps bps packets b : ℕ) → length (behind_time pps bps packets b) ≤ 190
unfolding codes behind_time
behind_time-le pps bps packets b =
    omega
      (arith, length-decimal_digits 20 pps (behind_pps bps packets b), behind_pps-le bps packets b)

-- The buffer holds the whole text.
traffic_text-le : (time pps bps packets b : ℕ) → length (traffic_text time pps bps packets b) ≤ 511
unfolding traffic_text codes behind_time behind_pps behind_bps behind_total
traffic_text-le time pps bps packets b = omega (
  arith,
  length-decimal_digits 20 time (behind_time pps bps packets b),
  behind_time-le pps bps packets b,
)

-- A run of frames that the filter sees on one processor between two rounds of the monitor, fewer
-- than 2^32 of them IPv4 and these of fewer than 2^61 bytes, where the totals of the round before
-- are not zero and the other processors see no frame: the filter handles every frame, and the
-- monitor broadcasts the number of the IPv4 frames as its packets and eight times their bytes as its
-- bits, in a message that is not cut.
pub monitor_thread-reports :
    (h : Helpers) (s : State) (ps : List Packet) (stats : GlobalStats) (others : List GlobalStats)
    (m : Rates) (time : ℕ)
    → s.global_stats 0 ≡ some stats
    → Is64 stats
    → m.prev_packets ≡ (totals (some (stats ∷ others))).0
    → m.prev_bytes ≡ (totals (some (stats ∷ others))).1
    → 0 < m.prev_packets
    → 0 < m.prev_bytes
    → ipv4_frames ps < 2 ^ 32
    → ipv4_bytes ps * 8 < 2 ^ 64
    → (s' : State) × (run_frames h s ps ≡ some s')
      × (stats' : GlobalStats) × (s'.global_stats 0 ≡ some stats')
      × (let after = monitor_thread m (some (stats' ∷ others)) time in
          after.live
          ≡ ws_broadcast_message m.live (
              traffic_text time
                (ipv4_frames ps)
                (ipv4_bytes ps * 8)
                after.prev_packets
                after.prev_bytes))
unfolding monitor_thread
monitor_thread-reports h s ps stats others m time e i p b p0 b0 n k =
    let r = run_frames-counts h s ps stats e i in
    let t = totals-grown stats others (ipv4_frames ps) (ipv4_bytes ps) in
    let after = totals (some (grown stats (ipv4_frames ps) (ipv4_bytes ps) ∷ others)) in
    (
      r.0,
      r.1,
      grown stats (ipv4_frames ps) (ipv4_bytes ps),
      r.2,
      rw
          (
            pps_of-exact m.prev_packets after.0 (ipv4_frames ps) p0 (omega (arith, p, t.2)) n
                (t.0 ∙ ap (λ q. u64 (q + ipv4_frames ps)) (sym p)),
            bps_of-exact m.prev_bytes after.1 (ipv4_bytes ps) b0 (omega (arith, b, t.3)) k
                (t.1 ∙ ap (λ q. u64 (q + ipv4_bytes ps)) (sym b)),
          )
          (ap (λ text. ws_broadcast_message m.live text)
            (take_short 511 _ (traffic_text-le _ _ _ _ _))),
    )
