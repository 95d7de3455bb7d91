-- ===== src/Xdp/Samples.antt =====
-- Concrete helpers, states and frames, for the tests and the witnesses.
use cyrenus.Prelude.{ℕ, ◌≡◌, refl, ◌≢◌, inl, Option, none, some, [], ◌∷◌, ◌++◌, arith}
use cyrenus.Xdp.Types.{AttacksConfig}
use cyrenus.Xdp.State.{State, Helpers, write, IsLruUpdate, IsArrayUpdate}
use cyrenus.Xdp.Packet.{Packet}
use cyrenus.Xdp.Account.{write_flow}

-- Helpers that store every key and evict none.
abbrev pub plain : Helpers
plain = record {
  update_attack_info_array = write;
  update_attack_count = write;
  update_udp_flood = write;
  update_frag_track = write;
  update_dns_track = write;
  update_syn_flood = write;
  update_token_buckets = write;
  update_active_traffic = write_flow;
}

write_self : {V : Type 0} (m : ℕ → Option V) (k : ℕ) (v : V) → write m k v k ≡ some v
write_self m k v = ground arith

write_other : {V : Type 0} (m : ℕ → Option V) (k : ℕ) (v : V) (j : ℕ) → k ≢ j → write m k v j ≡ m j
write_other m k v j h = ground arith

pub write-IsLruUpdate : {V : Type 0} → IsLruUpdate (write {V = V})
write-IsLruUpdate = record { self = write_self; other = λ m k v j h. inl (write_other m k v j h) }

pub write-IsArrayUpdate : {V : Type 0} (n : ℕ) → IsArrayUpdate n (write {V = V})
write-IsArrayUpdate n = record { inside = λ m k v j h. refl }

abbrev pub config : AttacksConfig
config = record {
  syn_flood_rate = 2;
  udp_flood_rate = 1000;
  icmp_flood_rate = 2;
  dns_amp_rate = 2;
  max_frags = 2;
}

-- The maps after loading, with the clock stopped at a given time.
abbrev pub boot : ℕ → State
boot time = record {
  attack_info_array = λ i. none;
  attack_count = λ i. some 0;
  global_stats = λ i. some (record { total_packets = 0; total_bytes = 0 });
  udp_flood_map = λ i. none;
  frag_track_map = λ i. none;
  dns_track_map = λ i. none;
  syn_flood_map = λ i. none;
  rules = λ k. none;
  active_traffic = λ k. none;
  host_ip = λ i. some 0x0200_000a;
  token_buckets = λ i. none;
  geoip_map = λ k. none;
  blocked_countries = λ i. none;
  config_map = λ i. some config;
  ktime = λ n. time;
}

-- 54 bytes: a SYN from 10.0.0.1 port 258 to 10.0.0.2 port 80.
abbrev pub ethernet : Packet
ethernet = 1 ∷ 2 ∷ 3 ∷ 4 ∷ 5 ∷ 6 ∷ 1 ∷ 2 ∷ 3 ∷ 4 ∷ 5 ∷ 6 ∷ 8 ∷ 0 ∷ []

abbrev pub ipv4 : ℕ → ℕ → Packet
ipv4 protocol len =
    0x45 ∷ 0 ∷ 0 ∷ len ∷ 0 ∷ 0 ∷ 0 ∷ 0 ∷ 64 ∷ protocol ∷ 0 ∷ 0 ∷ 10 ∷ 0 ∷ 0 ∷ 1 ∷ 10 ∷ 0 ∷ 0 ∷ 2
    ∷ []

abbrev pub tcp_syn : Packet
tcp_syn = 1 ∷ 2 ∷ 0 ∷ 80 ∷ 0 ∷ 0 ∷ 0 ∷ 0 ∷ 0 ∷ 0 ∷ 0 ∷ 0 ∷ 0x50 ∷ 2 ∷ 0 ∷ 0 ∷ 0 ∷ 0 ∷ 0 ∷ 0 ∷ []

abbrev pub syn_frame : Packet
syn_frame = ethernet ++ (ipv4 6 40 ++ tcp_syn)
