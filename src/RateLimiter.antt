-- ===== src/RateLimiter.antt =====
-- The token bucket of internal/adapters/handler/rate_limiter.go: the Lua script that Valkey runs
-- atomically, over the hash that is stored at one key.
-- The script's numbers are doubles. Here they are exact: a quantity of tokens is counted in units of
-- 1/refill_period of a token, so that `refill_rate / refill_period` per millisecond is `rate` units. The
-- remaining thousandths of a reply, and a decision within a rounding of a whole token, can differ from
-- the script's.
-- Capacity, rate, period and times are natural numbers, and the laws ask for a positive period.
pub mod Budget
pub mod Expiry
pub mod Replies
pub mod Backend
pub mod Middleware
pub mod Refill
pub mod Command
pub mod Account
pub mod Window
use go_api_management.Base.{
  ℕ, ◌+◌, ◌-◌, ◌*◌, ◌/◌, min, Bool, true, false, Option, none, some, ltb, leb, ◌==◌, if◌then◌else◌,
  refl, [], ◌∷◌, inl, inr, ◌≡◌, ◌≢◌, ◌∙◌, ◌++◌, arith, ◌||◌, ◌&&◌, zero, suc,
}

-- RateLimiterConfig; the period in milliseconds, as it is passed to the script
pub record RateLimiterConfig : Type 0 where
  pub capacity : ℕ
  pub refill_rate : ℕ
  pub refill_period : ℕ

-- The fields `tokens` and `last_update` of the hash.
pub record Bucket : Type 0 where
  pub tokens : ℕ
  pub last_update : ℕ

-- What the script returns: `{1, n}`, `{0, n}`, or the error of `EXPIRE` for an infinite time to live.
pub data Reply : Type 0 where
  granted : ℕ → Reply
  refused : ℕ → Reply
  bad_ttl : Reply

-- The reply, the hash behind the call (`none` where there is none) and the time to live, in
-- seconds, that the call set.
pub record Outcome : Type 0 where
  pub reply : Reply
  pub stored : Option Bucket
  pub ttl : Option ℕ

module _ (c : RateLimiterConfig) (now : ℕ) where
  -- the refill of an existing bucket
  unfoldable pub refilled : Bucket → Bucket
  refilled b =
      if ltb b.last_update now
      then (if ltb 0 ((now - b.last_update) * c.refill_rate)
          then record {
            tokens =
                min (c.capacity * c.refill_period)
                  (b.tokens + (now - b.last_update) * c.refill_rate);
            last_update = now;
          }
          else b)
      else b

  -- the bucket that the request is charged to
  unfoldable pub current : Option Bucket → Bucket
  unfolding refilled
  current none = record { tokens = c.capacity * c.refill_period; last_update = now }
  current (some b) = refilled b

-- `math.floor(tokens * 1000)`
abbrev pub thousandths : RateLimiterConfig → ℕ → ℕ
thousandths c tokens = tokens * 1000 / c.refill_period

-- `math.ceil((capacity / refill_rate) * (refill_period / 1000) * 2)`
abbrev pub ttl_of : RateLimiterConfig → ℕ
ttl_of c = (c.capacity * c.refill_period * 2 + (c.refill_rate * 1000 - 1)) / (c.refill_rate * 1000)

-- `HMSET`, then `EXPIRE`, which fails if the rate is 0; the write is not undone.
abbrev charge : RateLimiterConfig → Bucket → Outcome
charge c b =
    if c.refill_rate == 0
    then record { reply = bad_ttl; stored = some b; ttl = none }
    else record { reply = granted (thousandths c b.tokens); stored = some b; ttl = some (ttl_of c) }

-- the part of the script behind the refill
unfoldable pub settle : RateLimiterConfig → Option Bucket → Bucket → Outcome
settle c old b =
    if leb c.refill_period b.tokens
    then charge c (record b { tokens = b.tokens - c.refill_period })
    else record { reply = refused (thousandths c b.tokens); stored = old; ttl = none }

-- tokenBucketLuaScript
unfoldable pub token_bucket : RateLimiterConfig → ℕ → Option Bucket → Outcome
token_bucket c now stored = settle c stored (current c now stored)
