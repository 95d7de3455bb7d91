-- ===== src/Rates/Frames.antt =====
-- The rates of the monitor against the frames that the filter saw between two rounds.
use cyrenus.Rates.{add_values, totals, pps_of, bps_of}
use cyrenus.Xdp.Prog.{xdp_prog}
use cyrenus.Xdp.Prog.Keeps.{Counted, xdp_prog-Counted, is_ipv4, one_more}
use cyrenus.Xdp.Packet.{Packet}
use cyrenus.Xdp.Types.{GlobalStats}
use cyrenus.Xdp.State.{State, Helpers}
use cyrenus.Prelude.{
  false, add64, ◌*◌, Bool, true, inr, inl, Bool-cases, sym, ap, ◌∙◌, refl, ◌>>=◌, length, [], some,
  if◌then◌else◌, Option, ◌∷◌, ◌+◌, ◌^◌, u64, ◌<◌, ◌≡◌, List, ℕ, arith,
}

-- The filter on one frame after the other.
abbrev pub run_frames : Helpers → State → List Packet → Option State
run_frames h s [] = some s
run_frames h s (p ∷ ps) = do r ← xdp_prog h s p; run_frames h r.1 ps

-- The IPv4 frames of a list, and their bytes.
abbrev pub ipv4_frames : List Packet → ℕ
ipv4_frames [] = 0
ipv4_frames (p ∷ ps) = if is_ipv4 p then 1 + ipv4_frames ps else ipv4_frames ps

abbrev pub ipv4_bytes : List Packet → ℕ
ipv4_bytes [] = 0
ipv4_bytes (p ∷ ps) = if is_ipv4 p then length p + ipv4_bytes ps else ipv4_bytes ps

-- The counters of a processor after frames.
abbrev pub grown : GlobalStats → ℕ → ℕ → GlobalStats
grown stats n b = record {
  total_packets = u64 (stats.total_packets + n);
  total_bytes = u64 (stats.total_bytes + b);
}

-- The counters are 64-bit numbers.
pub record Is64 (stats : GlobalStats) : Type 0 where
  pub packets : stats.total_packets < 2 ^ 64
  pub bytes : stats.total_bytes < 2 ^ 64

grown-zero : (stats : GlobalStats) → Is64 stats → grown stats 0 0 ≡ stats
grown-zero stats i = ground (arith, i.packets, i.bytes)

cong_stats :
    (a b c d : ℕ)
    → a ≡ b
    → c ≡ d
    → ◌≡◌ {A = GlobalStats}
        (record { total_packets = a; total_bytes = c })
        (record { total_packets = b; total_bytes = d })
cong_stats a b c d e f = rw (e, f) refl

grown-one :
    (stats : GlobalStats) (size n b : ℕ)
    → grown (one_more stats size) n b ≡ grown stats (1 + n) (size + b)
grown-one stats size n b = cong_stats _ _ _ _ (omega arith) (omega arith)

one_more-Is64 : (stats : GlobalStats) (size : ℕ) → Is64 (one_more stats size)
one_more-Is64 stats size = record { packets = omega arith; bytes = omega arith }

global_stats-frame :
    (s s' : State) (p : Packet) (stats : GlobalStats) (b : Bool)
    → Counted s p stats s'
    → is_ipv4 p ≡ b
    → s'.global_stats 0 ≡ some (if b then one_more stats (length p) else stats)
global_stats-frame s s' p stats b c e =
    c.global_stats ∙ ap (λ b'. some (if b' then one_more stats (length p) else stats)) e

-- What the frames of a run leave in the counters of the processor.
pub run_frames-counts :
    (h : Helpers) (s : State) (ps : List Packet) (stats : GlobalStats)
    → s.global_stats 0 ≡ some stats
    → Is64 stats
    → (s' : State) × (run_frames h s ps ≡ some s')
      × (s'.global_stats 0 ≡ some (grown stats (ipv4_frames ps) (ipv4_bytes ps)))
run_frames-counts h s [] stats e i = (s, refl, e ∙ ap (λ g. some g) (sym (grown-zero stats i)))
run_frames-counts h s (p ∷ ps) stats e i =
    let r = xdp_prog-Counted h s p stats e in
    elim (Bool-cases (is_ipv4 p)) [
      | inl t ↦
          let next =
            run_frames-counts h r.0.1 ps (one_more stats (length p))
              (global_stats-frame s r.0.1 p stats true (r.2) t) (one_more-Is64 stats (length p)) in
          (
            next.0,
            rw r.1 (next.1),
            rw t (
                next.2
                ∙ ap (λ g. some g) (grown-one stats (length p) (ipv4_frames ps) (ipv4_bytes ps))),
          )
      | inr f ↦
          let next =
            run_frames-counts h r.0.1 ps stats (global_stats-frame s r.0.1 p stats false (r.2) f)
              i in
          (next.0, rw r.1 (next.1), rw f (next.2))
    ]

-- The sums of the counters of all processors, before their cut to 64 bits.
abbrev pub packet_sum : List GlobalStats → ℕ
packet_sum [] = 0
packet_sum (v ∷ vs) = v.total_packets + packet_sum vs

abbrev pub byte_sum : List GlobalStats → ℕ
byte_sum [] = 0
byte_sum (v ∷ vs) = v.total_bytes + byte_sum vs

add_values-sums :
    (packets b : ℕ) (vs : List GlobalStats)
    → packets < 2 ^ 64
    → b < 2 ^ 64
    → ((add_values packets b vs).0 ≡ u64 (packets + packet_sum vs))
      × ((add_values packets b vs).1 ≡ u64 (b + byte_sum vs))
unfolding add_values
add_values-sums packets b [] h k = (omega arith, omega arith)
add_values-sums packets b (v ∷ vs) h k =
    let r =
      add_values-sums (add64 packets v.total_packets) (add64 b v.total_bytes) vs (omega arith)
        (omega arith) in
    (omega (arith, r.0), omega (arith, r.1))

-- What frames on the first processor add to the totals.
pub totals-grown :
    (stats : GlobalStats) (others : List GlobalStats) (n b : ℕ)
    → ((totals (some (grown stats n b ∷ others))).0 ≡ u64 ((totals (some (stats ∷ others))).0 + n))
      × ((totals (some (grown stats n b ∷ others))).1
          ≡ u64 ((totals (some (stats ∷ others))).1 + b))
      × ((totals (some (stats ∷ others))).0 < 2 ^ 64)
      × ((totals (some (stats ∷ others))).1 < 2 ^ 64)
unfolding totals
totals-grown stats others n b =
    let before = add_values-sums 0 0 (stats ∷ others) (omega arith) (omega arith) in
    let after = add_values-sums 0 0 (grown stats n b ∷ others) (omega arith) (omega arith) in
    (
      omega (arith, before.0, after.0),
      omega (arith, before.1, after.1),
      omega (arith, before.0),
      omega (arith, before.1),
    )

pub pps_of-exact :
    (prev total n : ℕ)
    → 0 < prev
    → prev < 2 ^ 64
    → n < 2 ^ 32
    → total ≡ u64 (prev + n)
    → pps_of prev total ≡ n
unfolding pps_of
pps_of-exact prev total n p h k e = ground arith

pub bps_of-exact :
    (prev total b : ℕ)
    → 0 < prev
    → prev < 2 ^ 64
    → b * 8 < 2 ^ 64
    → total ≡ u64 (prev + b)
    → bps_of prev total ≡ b * 8
unfolding bps_of
bps_of-exact prev total b p h k e = ground arith
