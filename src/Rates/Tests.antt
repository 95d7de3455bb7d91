-- ===== src/Rates/Tests.antt =====
-- Tests of the monitor's rates, and its theorem at a concrete input.
use cyrenus.Xdp.Packet.{half}
use cyrenus.Rates.Report.{monitor_thread-reports}
use cyrenus.Xdp.Prog.Keeps.{is_ipv4}
use cyrenus.Rates.Frames.{ipv4_bytes, ipv4_frames, run_frames, Is64}
use cyrenus.Rates.{traffic_text, monitor_thread, add_values, Rates, pps_of, bps_of, totals}
use cyrenus.Live.{ws_broadcast_message, Server}
use cyrenus.Xdp.State.{State}
use cyrenus.Xdp.Types.{GlobalStats}
use cyrenus.Xdp.Samples.{syn_frame, plain, boot}
use cyrenus.Prelude.{◌^◌, ◌<◌, ◌*◌, none, ◌∷◌, refl, some, [], ◌≡◌, arith}

abbrev old_stats : GlobalStats
old_stats = record { total_packets = 7; total_bytes = 700 }

abbrev counting : State
counting = record (boot 5) { global_stats = λ i. some old_stats }

abbrev joined : Server
joined = record {
  broadcast_msg = [];
  current_msg_id = 0;
  server_last_msg_id = 0;
  clients = λ c. none;
}

abbrev polled : Rates
polled = record { prev_packets = 7; prev_bytes = 700; live = joined }

joined-rate : pps_of 7 9 ≡ 2
unfolding pps_of
joined-rate = refl

rate-bits : bps_of 700 760 ≡ 480
unfolding bps_of
rate-bits = refl

first-rate : pps_of 0 9 ≡ 0
unfolding pps_of
first-rate = refl

is64 : Is64 old_stats
is64 = record { packets = omega arith; bytes = omega arith }

total-packets : 7 ≡ (totals (some (old_stats ∷ []))).0
unfolding totals add_values
total-packets = refl

total-bytes : 700 ≡ (totals (some (old_stats ∷ []))).1
unfolding totals add_values
total-bytes = refl

few-frames : ipv4_frames (syn_frame ∷ []) < 2 ^ 32
unfolding is_ipv4 half
few-frames = omega arith

few-bytes : ipv4_bytes (syn_frame ∷ []) * 8 < 2 ^ 64
unfolding is_ipv4 half
few-bytes = omega arith

monitor_thread-reports_example :
    (s' : State) × (run_frames plain counting (syn_frame ∷ []) ≡ some s')
    × (stats' : GlobalStats) × (s'.global_stats 0 ≡ some stats')
    × (let after = monitor_thread polled (some (stats' ∷ [])) 1700000000 in
        after.live
        ≡ ws_broadcast_message joined (
            traffic_text 1700000000
              (ipv4_frames (syn_frame ∷ []))
              (ipv4_bytes (syn_frame ∷ []) * 8)
              after.prev_packets
              after.prev_bytes))
monitor_thread-reports_example =
    monitor_thread-reports plain counting (syn_frame ∷ []) old_stats [] polled 1700000000 refl is64
      total-packets total-bytes (omega arith) (omega arith) few-frames few-bytes
