-- ===== src/Xdp/Bucket/Limit.antt =====
-- How many packets the token bucket of a source lets pass.
use cyrenus.Xdp.Clock.{Rises-earlier, Rises-le, sub64-eq_sub, at, Rises}
use cyrenus.Xdp.Config.{get_config, config_or_default}
use cyrenus.Xdp.State.{State, Helpers}
use native.Mathlib.Nat.{add-mul}
use cyrenus.Prelude.{ap, [], ◌∷◌, some, List, ℕ, ◌+◌, ◌-◌, ◌*◌, ◌^◌, ◌≤◌, ◌<◌, ◌≡◌, mul64, arith}
use cyrenus.Xdp.Types.{Action, drop, pass, tx, TokenBucket}
use cyrenus.Xdp.Bucket.{icmp_limit, refilled, take_token}

-- 1 for a packet that passes, 0 for one that is dropped.
abbrev pub passes : Action → ℕ
passes pass = 1
passes drop = 0
passes tx = 0

mul64-le : (a b : ℕ) → mul64 a b ≤ a * b
mul64-le a b = omega arith

-- No more tokens than those left and the time at the rate, in units of a token's billionth.
refilled-le :
    (b : TokenBucket) (rate limit time : ℕ)
    → b.last_update ≤ time
    → time < 2 ^ 64
    → refilled b rate limit time * 1000000000
      ≤ b.tokens * 1000000000 + (time - b.last_update) * rate
unfolding refilled
refilled-le b rate limit time h k =
    rw (sub64-eq_sub time b.last_update h k) (ground (arith, mul64-le (time - b.last_update) rate))

take_token-le :
    (b : TokenBucket) (rate limit time : ℕ)
    → b.last_update ≤ time
    → time < 2 ^ 64
    → let (verdict, b') = take_token b rate limit time in
      ((b'.tokens + passes verdict) * 1000000000
        ≤ b.tokens * 1000000000 + (b'.last_update - b.last_update) * rate)
      × (b.last_update ≤ b'.last_update)
      × (b'.last_update ≤ time)
unfolding take_token
take_token-le b rate limit time h k = ground (arith, refilled-le b rate limit time h k)

-- The packets of one source at the given times, counted if they pass.
unfoldable pub icmp_run : Helpers → State → ℕ → List ℕ → ℕ × State
icmp_run h s ip [] = (0, s)
icmp_run h s ip (time ∷ times) =
    let (verdict, s') = icmp_limit h (at s time) ip in
    let (count, s'') = icmp_run h s' ip times in (passes verdict + count, s'')

-- One packet at a bucket that is there: the bucket takes the step, and the configuration stays.
pub icmp_limit-step :
    (h : Helpers) (s : State) (ip time : ℕ) (b : TokenBucket)
    → s.token_buckets ip ≡ some b
    → let rate = (get_config s).icmp_flood_rate in
      let (verdict, b') = take_token b rate rate time in
      let (verdict', s') = icmp_limit h (at s time) ip in
      (verdict' ≡ verdict) × (s'.token_buckets ip ≡ some b') × (s'.config_map ≡ s.config_map)
unfolding icmp_limit
icmp_limit-step h s ip time b e = ground arith

-- The time of two stretches, one behind the other, times the rate.
telescope :
    (first middle last rate : ℕ)
    → first ≤ middle
    → middle ≤ last
    → (last - middle) * rate + (middle - first) * rate ≡ (last - first) * rate
telescope first middle last rate h k = rw (← add-mul) (ap (λ (t : ℕ). t * rate) (omega arith))

-- Whatever the packets of a source, the ICMP limit lets no more of them pass than the bucket holds
-- tokens and the configured rate adds until the last of them, in units of a token's billionth.
pub icmp_run-le :
    (h : Helpers) (s : State) (ip : ℕ) (times : List ℕ) (stop : ℕ) (b : TokenBucket)
    → s.token_buckets ip ≡ some b
    → Rises b.last_update times stop
    → stop < 2 ^ 64
    → (icmp_run h s ip times).0 * 1000000000
      ≤ b.tokens * 1000000000 + (stop - b.last_update) * (get_config s).icmp_flood_rate
unfolding icmp_run
icmp_run-le h s ip [] stop b e r k = omega arith
icmp_run-le h s ip (time ∷ times) stop b e r k =
    let rate = (get_config s).icmp_flood_rate in
    let b' = (take_token b rate rate time).1 in
    let s' = (icmp_limit h (at s time) ip).1 in
    let step = icmp_limit-step h s ip time b e in
    let taken = take_token-le b rate rate time r.0 (omega (arith, Rises-le time times stop r.1)) in
    let rest =
      icmp_run-le h s' ip times stop b' step.1
        (Rises-earlier b'.last_update time times stop taken.2 r.1) k in
    let same : (get_config s').icmp_flood_rate ≡ rate =
      ap (λ m. (config_or_default (m 0)).icmp_flood_rate) step.2 in
    let spread =
      telescope b.last_update b'.last_update stop rate taken.1
        (omega (arith, Rises-le time times stop r.1)) in
    let rest' = rw same at rest in
    let verdict = ap passes step.0 in omega (arith, rest', taken.0, verdict, spread)
