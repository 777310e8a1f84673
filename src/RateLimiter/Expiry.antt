-- ===== src/RateLimiter/Expiry.antt =====
-- The time to live of a bucket: when Valkey drops the hash, the bucket would have been full again.
use go_api_management.Base.{
  ℕ, ◌+◌, ◌-◌, ◌*◌, ◌/◌, ◌≤◌, ◌<◌, ◌≡◌, ap, ◌∙◌, Option, none, some, arith,
}
use native.Mathlib.Nat.{div-add-mod, mul-le-mul_right}
use go_api_management.RateLimiter.{current, refilled, settle}
use go_api_management.RateLimiter.{RateLimiterConfig, Bucket, ttl_of, token_bucket}

le-ceil_mul : (x d : ℕ) → 0 < d → x ≤ (x + (d - 1)) / d * d
le-ceil_mul x d h = grind (arith, div-add-mod (x + (d - 1)) d)

scale_up : (k e r y : ℕ) → y * 2 ≤ k * (r * 1000) → k * 1000 ≤ e → y ≤ e * r
scale_up k e r y h le = let scaled : k * 1000 * r ≤ e * r = mul-le-mul_right r le in omega arith

-- After the time to live the rate has brought a whole capacity.
pub ttl_refills :
    (c : RateLimiterConfig) (elapsed : ℕ)
    → 0 < c.refill_rate
    → ttl_of c * 1000 ≤ elapsed
    → c.capacity * c.refill_period ≤ elapsed * c.refill_rate
ttl_refills c elapsed pos h =
    let x = c.capacity * c.refill_period * 2 in
    let up : x ≤ ttl_of c * (c.refill_rate * 1000) =
      le-ceil_mul x (c.refill_rate * 1000) (omega arith) in
    scale_up (ttl_of c) elapsed c.refill_rate (c.capacity * c.refill_period) (omega arith) h

settle_full :
    (c : RateLimiterConfig) (old : Option Bucket) (b : Bucket)
    → c.refill_period ≤ b.tokens
    → settle c old b ≡ settle c none b
unfolding settle
settle_full c old b h = ground arith

refilled_expired :
    (c : RateLimiterConfig) (now : ℕ) (b : Bucket)
    → 0 < c.capacity * c.refill_period
    → b.last_update < now
    → c.capacity * c.refill_period ≤ (now - b.last_update) * c.refill_rate
    → refilled c now b ≡ current c now none
unfolding refilled current
refilled_expired c now b pos later full = ground arith

-- A bucket whose time to live has run out since its last update answers as a missing one does, and
-- is stored alike, if the capacity, the rate and the period are positive.
pub token_bucket_expired :
    (c : RateLimiterConfig) (now : ℕ) (b : Bucket)
    → 0 < c.capacity
    → 0 < c.refill_rate
    → 0 < c.refill_period
    → b.last_update + ttl_of c * 1000 ≤ now
    → token_bucket c now (some b) ≡ token_bucket c now none
unfolding token_bucket current
token_bucket_expired c now b cap rate period h =
    let pos : 0 < c.capacity * c.refill_period = grind arith in
    let full = ttl_refills c (now - b.last_update) rate (omega arith) in
    let later : b.last_update < now = grind arith in
    let room : c.refill_period ≤ (current c now none).tokens = unfold current in grind arith in
    ap (settle c (some b)) (refilled_expired c now b pos later full)
    ∙ settle_full c (some b) (current c now none) room
