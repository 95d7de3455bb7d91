-- ===== src/Xdp/Bucket/Patience.antt =====
-- The token bucket does not starve a source.
use cyrenus.Xdp.Config.{config_or_default, get_config}
use cyrenus.Xdp.State.{State, Helpers}
use cyrenus.Xdp.Clock.{Rises-earlier, at, Rises, sub64-eq_sub}
use cyrenus.Xdp.Types.{pass, TokenBucket}
use cyrenus.Xdp.Bucket.Limit.{passes, icmp_limit-step, icmp_run}
use cyrenus.Xdp.Bucket.{icmp_limit, refilled, take_token}
use cyrenus.Prelude.{
  ◌∙◌, ap, [], ◌∷◌, ◌++◌, some, List, refl, ◌/◌, inr, ◌+◌, inl, ◌*◌, leb, ◌-◌, Bool-cases, ◌^◌, ◌⊎◌,
  ◌<◌, ◌≤◌, ◌≡◌, ℕ, arith,
}

-- Once the rate has added a token since the last update, there is one.
refilled-positive :
    (b : TokenBucket) (rate time : ℕ)
    → 1 ≤ rate
    → b.last_update ≤ time
    → time < 2 ^ 64
    → 1000000000 ≤ (time - b.last_update) * rate
    → (time - b.last_update) * rate < 2 ^ 64
    → b.tokens + (time - b.last_update) * rate / 1000000000 < 2 ^ 32
    → 1 ≤ refilled b rate rate time
unfolding refilled
refilled-positive b rate time r h k p q t = rw (sub64-eq_sub time b.last_update h k) (ground arith)

take_token-pass :
    (b : TokenBucket) (rate time : ℕ)
    → 1 ≤ refilled b rate rate time
    → (take_token b rate rate time).0 ≡ pass
unfolding take_token
take_token-pass b rate time h = ground arith

-- A packet passes, or the bucket is as before.
take_token-cases :
    (b : TokenBucket) (rate time : ℕ)
    → ((take_token b rate rate time).0 ≡ pass) ⊎ ((take_token b rate rate time).1 ≡ b)
unfolding take_token
take_token-cases b rate time = elim (Bool-cases (leb 1 (refilled b rate rate time))) [
  | inl e ↦ inl (rw e refl)
  | inr e ↦ inr (rw e refl)
]

-- Whatever the packets of a source before: if the configured rate, which is not 0, has added a token
-- since the last update of its bucket when a packet comes, then that packet or one of those before
-- it passes, as long as the numbers fit their words.
pub icmp_run-passes :
    (h : Helpers) (s : State) (ip : ℕ) (times : List ℕ) (stop : ℕ) (b : TokenBucket)
    → s.token_buckets ip ≡ some b
    → Rises b.last_update times stop
    → stop < 2 ^ 64
    → 1 ≤ (get_config s).icmp_flood_rate
    → 1000000000 ≤ (stop - b.last_update) * (get_config s).icmp_flood_rate
    → (stop - b.last_update) * (get_config s).icmp_flood_rate < 2 ^ 64
    → b.tokens + (stop - b.last_update) * (get_config s).icmp_flood_rate / 1000000000 < 2 ^ 32
    → 1 ≤ (icmp_run h s ip (times ++ (stop ∷ []))).0
unfolding icmp_run
icmp_run-passes h s ip [] stop b e r k n p q t =
    let rate = (get_config s).icmp_flood_rate in
    let step = icmp_limit-step h s ip stop b e in
    let verdict =
      ap passes
        (step.0 ∙ take_token-pass b rate stop (refilled-positive b rate stop n r k p q t)) in
    omega (arith, verdict)
icmp_run-passes h s ip (time ∷ times) stop b e r k n p q t =
    let rate = (get_config s).icmp_flood_rate in
    let step = icmp_limit-step h s ip time b e in
    elim (take_token-cases b rate time) [
      | inl passed ↦ omega (arith, ap passes (step.0 ∙ passed))
      | inr same ↦
          let s' = (icmp_limit h (at s time) ip).1 in
          let rate' : (get_config s').icmp_flood_rate ≡ rate =
            ap (λ m. (config_or_default (m 0)).icmp_flood_rate) step.2 in
          let rest =
            icmp_run-passes h s' ip times stop b (step.1 ∙ ap (λ b'. some b') same)
              (Rises-earlier b.last_update time times stop r.0 r.1) k (rw rate' n) (rw rate' p)
              (rw rate' q) (rw rate' t) in
          omega (arith, rest)
    ]
