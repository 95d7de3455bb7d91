-- ===== src/Xdp/State.antt =====
-- The maps of ebpf/xdp_prog.c as the program sees them, the kernel's clock and its map updates.
-- A map is the function of its lookups. What `bpf_map_update_elem` does to one is the kernel's
-- code, so it is a parameter (`Helpers`); a write through the pointer of a lookup is `write`.
use cyrenus.Prelude.{ℕ, suc, ◌<◌, ◌≡◌, ◌≢◌, ◌⊎◌, Option, none, some, ◌==◌, if◌then◌else◌}
use cyrenus.Xdp.Types.{
  AttacksConfig, AttackInfo, GlobalStats, TokenBucket, SynFloodInfo, DnsInfo, FragInfo,
  UdpFloodInfo, RuleKey, Rule, GeoipKey, FlowKey, TrafficInfo,
}

abbrev pub Map : Type 0 → Type 0
Map V = ℕ → Option V

abbrev pub Update : Type 0 → Type 0 → Type 0
Update K V = (K → Option V) → K → V → K → Option V

pub record State : Type 0 where
  pub attack_info_array : Map AttackInfo
  pub attack_count : Map ℕ
  pub global_stats : Map GlobalStats
  pub udp_flood_map : Map UdpFloodInfo
  pub frag_track_map : Map FragInfo
  pub dns_track_map : Map DnsInfo
  pub syn_flood_map : Map SynFloodInfo
  pub rules : RuleKey → Option Rule
  pub active_traffic : FlowKey → Option TrafficInfo
  pub host_ip : Map ℕ
  pub token_buckets : Map TokenBucket
  pub geoip_map : GeoipKey → Option ℕ
  pub blocked_countries : Map ℕ
  pub config_map : Map AttacksConfig
  -- what the next calls of `bpf_ktime_get_ns` return, in order
  pub ktime : ℕ → ℕ

-- `bpf_map_update_elem(…, BPF_ANY)` on each map that the program updates.
pub record Helpers : Type 0 where
  pub update_attack_info_array : Update ℕ AttackInfo
  pub update_attack_count : Update ℕ ℕ
  pub update_udp_flood : Update ℕ UdpFloodInfo
  pub update_frag_track : Update ℕ FragInfo
  pub update_dns_track : Update ℕ DnsInfo
  pub update_syn_flood : Update ℕ SynFloodInfo
  pub update_token_buckets : Update ℕ TokenBucket
  pub update_active_traffic : Update FlowKey TrafficInfo

-- A store through a pointer that the lookup of `k` has returned.
abbrev pub write {ℓ} : {V : Type ℓ} → (ℕ → Option V) → ℕ → V → ℕ → Option V
write m k v j = if k == j then some v else m j

-- One call of `bpf_ktime_get_ns`: the reading, and the state after it.
abbrev pub now : State → ℕ
now s = s.ktime 0

abbrev pub tick : State → State
tick s = record s { ktime = λ n. s.ktime (suc n) }

-- What the kernel documents of an LRU hash: an update stores its key, and may evict other keys.
pub record IsLruUpdate {K V : Type 0} (update : Update K V) : Type 0 where
  pub self : (m : K → Option V) (k : K) (v : V) → update m k v k ≡ some v
  pub other :
      (m : K → Option V) (k : K) (v : V) (j : K)
      → k ≢ j
      → (update m k v j ≡ m j) ⊎ (update m k v j ≡ none)

-- What the kernel documents of an array of `n` entries: an index within it is stored.
pub record IsArrayUpdate (n : ℕ) {V : Type 0} (update : Update ℕ V) : Type 0 where
  pub inside : (m : Map V) (k : ℕ) (v : V) (j : ℕ) → k < n → update m k v j ≡ write m k v j
