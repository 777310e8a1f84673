-- ===== src/RateLimiter/Replies.antt =====
-- What a client is told: the units of the remaining tokens, and when to try again.
use go_api_management.Base.{
  ℕ, zero, suc, ◌+◌, ◌-◌, ◌*◌, ◌/◌, ◌≤◌, ◌<◌, ◌≡◌, Option, none, some, arith,
}
use native.Mathlib.Nat.{mul-div_cancel, suc-mul}
use go_api_management.RateLimiter.{current, refilled, settle}
use go_api_management.RateLimiter.{
  RateLimiterConfig, Bucket, Reply, granted, refused, bad_ttl, token_bucket,
}

abbrev pub IsGranted : Reply → Type 0
IsGranted (granted n) = Unit
IsGranted (refused n) = ⊥
IsGranted bad_ttl = ⊥

abbrev pub IsRefused : Reply → Type 0
IsRefused (granted n) = ⊥
IsRefused (refused n) = Unit
IsRefused bad_ttl = ⊥

-- After a whole period with no call the next one is granted, whatever the bucket held, if the
-- capacity, the rate and the period are positive.
pub retry-IsGranted :
    (c : RateLimiterConfig) (now : ℕ) (b : Bucket)
    → 0 < c.capacity
    → 0 < c.refill_rate
    → 0 < c.refill_period
    → b.last_update + c.refill_period ≤ now
    → IsGranted (token_bucket c now (some b)).reply
unfolding token_bucket settle current refilled
retry-IsGranted c now b cap rate period h =
    let whole : c.refill_period ≤ (now - b.last_update) * c.refill_rate = grind arith in
    let room : c.refill_period ≤ c.capacity * c.refill_period = grind arith in ground arith

-- A refused call leaves the stored hash as it was.
pub refused_keeps :
    (c : RateLimiterConfig) (now : ℕ) (s : Option Bucket)
    → IsRefused (token_bucket c now s).reply
    → ((token_bucket c now s).stored ≡ s) × ((token_bucket c now s).ttl ≡ none)
unfolding token_bucket settle
refused_keeps c now s h = ground arith

whole_tokens : (n p : ℕ) → 0 < n → 0 < p → (n * p - p) * 1000 / p ≡ (n - 1) * 1000
whole_tokens zero p hn hp = elim hn [ ]
whole_tokens (suc n) p hn hp =
    let e : (suc n * p - p) * 1000 ≡ (suc n - 1) * 1000 * p =
      (let m : suc n - 1 ≡ n = omega arith in rw (m, suc-mul) (omega arith)) in
    rw e (mul-div_cancel _ hp)

-- The first request at a key is granted, and is told a thousand for each token that is left.
granted_fresh :
    (c : RateLimiterConfig) (now : ℕ)
    → 0 < c.capacity
    → 0 < c.refill_rate
    → 0 < c.refill_period
    → (token_bucket c now none).reply ≡ granted ((c.capacity - 1) * 1000)
unfolding token_bucket settle current
granted_fresh c now cap rate period =
    let room : c.refill_period ≤ c.capacity * c.refill_period = grind arith in
    ground (arith, whole_tokens c.capacity c.refill_period cap period)
