-- ===== src/Rates.antt =====
-- The monitor thread of src/main.c: the rates that it makes of the filter's counters, and the message
-- that it broadcasts.
pub mod Frames
pub mod Report
pub mod Tests
use cyrenus.Xdp.Types.{GlobalStats}
use cyrenus.Live.{ws_broadcast_message, Server}
use cyrenus.Prelude.{
  [], add64, sub64, decimal, take, none, ◌∷◌, u32, mul64, ◌++◌, some, ltb, codes, List, Option,
  if◌then◌else◌, Text, ℕ,
}

-- The two variables of the thread, and the live stream.
pub record Rates : Type 0 where
  pub prev_packets : ℕ
  pub prev_bytes : ℕ
  pub live : Server

-- The loop over the values of the processors.
unfoldable pub add_values : ℕ → ℕ → List GlobalStats → ℕ × ℕ
add_values packets bytes' [] = (packets, bytes')
add_values packets bytes' (v ∷ vs) =
    add_values (add64 packets v.total_packets) (add64 bytes' v.total_bytes) vs

-- The totals; `none` where there is no map or the lookup fails.
unfoldable pub totals : Option (List GlobalStats) → ℕ × ℕ
unfolding add_values
totals none = (0, 0)
totals (some values) = add_values 0 0 values

unfoldable pub pps_of : ℕ → ℕ → ℕ
pps_of prev total = if ltb 0 prev then u32 (sub64 total prev) else 0

unfoldable pub bps_of : ℕ → ℕ → ℕ
bps_of prev total = if ltb 0 prev then mul64 (sub64 total prev) 8 else 0

-- The text that snprintf is given, before its cut.
unfoldable pub traffic_text : ℕ → ℕ → ℕ → ℕ → ℕ → Text
traffic_text time pps bps packets bytes' =
    codes "{\"type\":\"traffic_update\",\"data\":{\"timestamp\":"
    ++ decimal time (
        codes ",\"pps\":"
        ++ decimal pps (
            codes ",\"bps\":"
            ++ decimal bps (
                codes ",\"total_packets\":"
                ++ decimal packets (codes ",\"total_bytes\":" ++ decimal bytes' (codes "}}")))))

-- One round of the loop.
unfoldable pub monitor_thread : Rates → Option (List GlobalStats) → ℕ → Rates
monitor_thread m values time =
    let total = totals values in
    record {
      prev_packets = total.0;
      prev_bytes = total.1;
      live = ws_broadcast_message m.live (
          take 511 (
            traffic_text time (pps_of m.prev_packets total.0) (bps_of m.prev_bytes total.1) total.0
              total.1));
    }
