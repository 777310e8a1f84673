-- ===== src/RateLimiter/Refill.antt =====
-- The token bucket of the script against a bucket that is filled once a millisecond: the script keeps
-- a time and refills only when a call is made, writes only when it grants, and Valkey forgets the
-- hash when its time to live has run out. Both count exactly, where the script has doubles.
use go_api_management.RateLimiter.Expiry.{token_bucket_expired}
use go_api_management.RateLimiter.Budget.{span}
use native.Mathlib.Nat.{suc-mul}
use go_api_management.Base.{
  ℕ, some, none, ◌≡◌, ◌∙◌, arith, zero, suc, min, ◌<◌, ◌≤◌, Option, if◌then◌else◌, ◌*◌, leb, ◌-◌,
  ◌+◌, sym, ap,
}
use go_api_management.RateLimiter.{
  RateLimiterConfig, Bucket, Reply, token_bucket, ttl_of, current, granted, refilled, thousandths,
  refused, settle,
}

-- The level of a bucket of which nothing is stored but the level, `k` milliseconds later: each of them
-- brings the rate, and what is above the capacity spills.
pub filled : RateLimiterConfig → ℕ → ℕ → ℕ
filled c zero level = level
filled c (suc k) level = min (c.capacity * c.refill_period) (filled c k level + c.refill_rate)

-- A call at that bucket takes a token if there is a whole one.
unfoldable pub take_token : RateLimiterConfig → ℕ → Reply × ℕ
take_token c level =
    if leb c.refill_period level
    then (granted (thousandths c (level - c.refill_period)), level - c.refill_period)
    else (refused (thousandths c level), level)

-- What a call at the time `now` finds of the stored hash.
pub data Finds (c : RateLimiterConfig) (now : ℕ) (stored found : Option Bucket) : Type 0 where
  kept : found ≡ stored → Finds c now stored found
  expired :
      (b : Bucket)
      → stored ≡ some b
      → b.last_update + ttl_of c * 1000 ≤ now
      → found ≡ none
      → Finds c now stored found

-- The hash stands for a level at the time `last`.
unfoldable pub Stands : RateLimiterConfig → ℕ → Option Bucket → ℕ → Type 0
Stands c last none level = level ≡ c.capacity * c.refill_period
Stands c last (some b) level =
    (b.tokens ≤ c.capacity * c.refill_period)
    × (b.last_update ≤ last)
    × (level
        ≡ min (c.capacity * c.refill_period) (b.tokens + (last - b.last_update) * c.refill_rate))

pub filled_lem :
    (c : RateLimiterConfig) (k level : ℕ)
    → level ≤ c.capacity * c.refill_period
    → filled c k level ≡ min (c.capacity * c.refill_period) (level + k * c.refill_rate)
unfolding filled
filled_lem c zero level h = omega arith
filled_lem c (suc k) level h = rw (filled_lem c k level h, suc-mul) (omega arith)

module _ (c : RateLimiterConfig) (rate : 0 < c.refill_rate) where
  -- what the script charges is the level, at the time of the call
  level_lem :
      (last now level : ℕ) (b : Bucket)
      → last ≤ now
      → Stands c last (some b) level
      → filled c (now - last) level
        ≡ min (c.capacity * c.refill_period) (b.tokens + (now - b.last_update) * c.refill_rate)
  unfolding Stands
  level_lem last now level b le (fits, past, e) =
      let whole = span c.refill_rate b.last_update last now past le in
      rw (filled_lem c (now - last) level (omega arith)) (omega arith)

  refilled_lem :
      (now : ℕ) (b : Bucket)
      → b.tokens ≤ c.capacity * c.refill_period
      → b.last_update ≤ now
      → refilled c now b ≡ record {
        tokens =
            min (c.capacity * c.refill_period) (b.tokens + (now - b.last_update) * c.refill_rate);
        last_update = now;
      }
  unfolding refilled
  refilled_lem now b fits past =
      let grows : b.last_update < now → 0 < (now - b.last_update) * c.refill_rate =
        λ later. grind arith in
      ground arith

  -- what the script charges is the level, at the time of the call
  current-filled :
      (last now level : ℕ) (s : Option Bucket)
      → last ≤ now
      → Stands c last s level
      → current c now s ≡ record { tokens = filled c (now - last) level; last_update = now }
  unfolding current Stands
  current-filled last now level none le h =
      let e : c.capacity * c.refill_period ≡ filled c (now - last) level =
        rw (filled_lem c (now - last) level (omega arith)) (omega arith) in
      λ i. record { tokens = e i; last_update = now }
  current-filled last now level (some b) le h = refilled_lem now b h.0 (omega arith) ∙ λ i. record {
    tokens = sym (level_lem last now level b le h) i;
    last_update = now;
  }

  -- while no call is made the hash stands for what fills up
  pub Stands-filled :
      (last now level : ℕ) (s : Option Bucket)
      → last ≤ now
      → Stands c last s level
      → Stands c now s (filled c (now - last) level)
  unfolding Stands
  Stands-filled last now level none le h =
      rw (filled_lem c (now - last) level (omega arith)) (omega arith)
  Stands-filled last now level (some b) le h = (h.0, omega arith, level_lem last now level b le h)

  pub Stands-fits :
      (last level : ℕ) (s : Option Bucket)
      → Stands c last s level
      → level ≤ c.capacity * c.refill_period
  unfolding Stands
  Stands-fits last level none h = omega arith
  Stands-fits last level (some b) h = omega arith

  settle_lem :
      (now level : ℕ) (s : Option Bucket)
      → Stands c now s level
      → ((settle c s record { tokens = level; last_update = now }).reply ≡ (take_token c level).0)
        × Stands c now
            (settle c s record { tokens = level; last_update = now }).stored
            (take_token c level).1
  unfolding settle take_token Stands
  settle_lem now level none h = ground arith
  settle_lem now level (some b) h = ground arith

  -- a call answers as the level does, and leaves a hash that stands for the level it leaves
  pub call_lem :
      (last now level : ℕ) (s : Option Bucket)
      → last ≤ now
      → Stands c last s level
      → ((token_bucket c now s).reply ≡ (take_token c (filled c (now - last) level)).0)
        × Stands c now (token_bucket c now s).stored (take_token c (filled c (now - last) level)).1
  unfolding token_bucket
  call_lem last now level s le h =
      rw (current-filled last now level s le h)
        (settle_lem now (filled c (now - last) level) s (Stands-filled last now level s le h))

module _ (c : RateLimiterConfig) (cap : 0 < c.capacity) (rate : 0 < c.refill_rate)
    (period : 0 < c.refill_period) where
  -- a hash that was dropped in time makes no difference
  found_lem :
      (now : ℕ) (s found : Option Bucket)
      → Finds c now s found
      → token_bucket c now found ≡ token_bucket c now s
  found_lem now s found (kept same) = ap (token_bucket c now) same
  found_lem now s found (expired b was late gone) =
      rw (was, gone) (sym (token_bucket_expired c now b cap rate period late))
