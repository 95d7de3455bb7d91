-- ===== src/Xdp/Bucket.antt =====
-- The token buckets: `early_filter`, which has one for the ICMP packets of each source, and
-- `rate_limit`, which has the same for all packets and is not called.
pub mod Limit
pub mod Patience
use cyrenus.Prelude.{
  ℕ, ◌+◌, ◌-◌, ◌/◌, ◌||◌, Option, none, some, ltb, leb, ◌==◌, if◌then◌else◌, u32, sub64, mul64,
}
use cyrenus.Xdp.Types.{
  Action, drop, pass, TokenBucket, IpHdr, ipproto_icmp, tokens_per_second, max_tokens,
}
use cyrenus.Xdp.State.{State, Helpers, now, tick, write}
use cyrenus.Xdp.Config.{get_config}

-- The tokens at a time: those left, and `rate` a second since the last update, `limit` at most.
-- The sum is cut to the 32 bits of `new_tokens` before it is compared with the limit.
unfoldable pub refilled : TokenBucket → ℕ → ℕ → ℕ → ℕ
refilled bucket rate limit time =
    let new_tokens =
      u32 (bucket.tokens + mul64 (sub64 time bucket.last_update) rate / 1000000000) in
    if ltb limit new_tokens then limit else new_tokens

-- A packet takes a token, if there is one; the bucket stays as it is if there is none.
unfoldable pub take_token : TokenBucket → ℕ → ℕ → ℕ → Action × TokenBucket
unfolding refilled
take_token bucket rate limit time =
    let tokens = refilled bucket rate limit time in
    if leb 1 tokens
    then (pass, record { last_update = time; tokens = tokens - 1 })
    else (drop, bucket)

-- A full bucket for a source that has none, in a state where the clock was read.
bucket_entry : Helpers → State → ℕ → ℕ → ℕ → ℕ → Option TokenBucket → Action × State
unfolding take_token
bucket_entry h s time ip rate limit none = (
  pass,
  record s {
    token_buckets =
        h.update_token_buckets s.token_buckets ip (record { last_update = time; tokens = limit });
  },
)
bucket_entry h s time ip rate limit (some bucket) =
    let (verdict, bucket') = take_token bucket rate limit time in
    elim verdict [
      | drop ↦ (drop, s)
      | _ ↦ (pass, record s { token_buckets = write s.token_buckets ip bucket' })
    ]

-- The bucket of the ICMP packets of a source: the configured rate is the limit too.
unfoldable pub icmp_limit : Helpers → State → ℕ → Action × State
unfolding bucket_entry
icmp_limit h s ip =
    let rate = (get_config s).icmp_flood_rate in
    bucket_entry h (tick s) (now s) ip rate rate (s.token_buckets ip)

unfoldable pub rate_limit : Helpers → State → ℕ → Action × State
unfolding bucket_entry
rate_limit h s ip =
    bucket_entry h (tick s) (now s) ip tokens_per_second max_tokens (s.token_buckets ip)

abbrev pub broadcast : ℕ
broadcast = 0xffff_ffff

unfoldable pub early_filter : Helpers → State → IpHdr → ℕ → Action × State
early_filter h s ip proto =
    if ip.saddr == 0 || ip.daddr == 0
    then (drop, s)
    else if ip.daddr == broadcast
    then (pass, s)
    else if ip.ttl == 0
    then (drop, s)
    else if proto == ipproto_icmp
    then icmp_limit h s ip.saddr
    else (pass, s)
