-- ===== src/Xdp/Flow.antt =====
-- The statistics of a flow: `update_packet_length_stats`, `update_iat_stats`, and the test
-- `is_established_flow`.
use cyrenus.Prelude.{
  ℕ, Bool, false, ◌||◌, Option, none, some, ltb, ◌==◌, if◌then◌else◌, u16, add32, sub64,
}
use cyrenus.Xdp.Types.{FlowKey, TrafficInfo}
use cyrenus.Xdp.State.{State}

-- `if (length > max) max = length;`
abbrev pub raised : ℕ → ℕ → ℕ
raised length max = if ltb max length then length else max

-- `if (length < min || min == 0) min = length;`
abbrev pub lowered : ℕ → ℕ → ℕ
lowered length min = if ltb length min || min == 0 then length else min

-- The lengths of one direction.
fwd_lengths : TrafficInfo → ℕ → TrafficInfo
fwd_lengths info length = record info {
  fwd_packet_length_max = raised length info.fwd_packet_length_max;
  fwd_packet_length_min = lowered length info.fwd_packet_length_min;
  fwd_packet_length_sum = add32 info.fwd_packet_length_sum length;
}

bwd_lengths : TrafficInfo → ℕ → TrafficInfo
bwd_lengths info length = record info {
  bwd_packet_length_max = raised length info.bwd_packet_length_max;
  bwd_packet_length_min = lowered length info.bwd_packet_length_min;
  bwd_packet_length_sum = add32 info.bwd_packet_length_sum length;
}

-- The two fields over both directions have 16 bits, and the length has 32.
unfoldable pub update_packet_length_stats : TrafficInfo → ℕ → ℕ → TrafficInfo
unfolding fwd_lengths bwd_lengths
update_packet_length_stats info length direction =
    let info' = if direction == 0 then fwd_lengths info length else bwd_lengths info length in
    record info' {
      max_packet_length =
          if ltb info.max_packet_length length then u16 length else info.max_packet_length;
      min_packet_length =
          if ltb length info.min_packet_length || info.min_packet_length == 0
          then u16 length
          else info.min_packet_length;
    }

unfoldable pub update_iat_stats : TrafficInfo → ℕ → ℕ → TrafficInfo
update_iat_stats info current_time direction =
    let iat = sub64 current_time info.timestamp in
    record info {
      iat_sum = add32 info.iat_sum iat;
      fwd_iat_sum = if direction == 0 then add32 info.fwd_iat_sum iat else info.fwd_iat_sum;
      bwd_iat_sum = if direction == 0 then info.bwd_iat_sum else add32 info.bwd_iat_sum iat;
    }

abbrev pub established_after : ℕ
established_after = 5000000000

abbrev pub older : Option TrafficInfo → ℕ → Bool
older none time = false
older (some flow) time = ltb established_after (sub64 time flow.flow_start_time)

unfoldable pub is_established_flow : State → FlowKey → ℕ → Bool
is_established_flow s key time = older (s.active_traffic key) time
