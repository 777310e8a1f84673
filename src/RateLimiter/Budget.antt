-- ===== src/RateLimiter/Budget.antt =====
-- How many requests a bucket lets through.
use go_api_management.Base.{
  ℕ, ◌+◌, ◌-◌, ◌*◌, ◌≤◌, ◌≡◌, refl, Option, none, some, List, [], ◌∷◌, arith, All,
}
use native.Mathlib.Nat.{add-zero, zero-add, add_assoc}
use go_api_management.RateLimiter.{current, settle}
use go_api_management.RateLimiter.{
  RateLimiterConfig, Bucket, Reply, granted, refused, bad_ttl, refilled, token_bucket,
}

-- One for a call that lets the request through; the middleware fails open, so that an error does.
abbrev pub passed : Reply → ℕ
passed (granted n) = 1
passed (refused n) = 0
passed bad_ttl = 1

-- Calls at the given times, in the order in which the server runs them: how many were granted, and
-- the bucket behind them.
pub calls : RateLimiterConfig → List ℕ → Option Bucket → ℕ × Option Bucket
calls c [] stored = (0, stored)
calls c (now ∷ times) stored =
    let o = token_bucket c now stored in
    let (n, last) = calls c times o.stored in (passed o.reply + n, last)

-- The bucket never holds more than the capacity.
abbrev pub Fits : RateLimiterConfig → Option Bucket → Type 0
Fits c none = Unit {0}
Fits c (some b) = b.tokens ≤ c.capacity * c.refill_period

refilled-Fits :
    (c : RateLimiterConfig) (now : ℕ) (b : Bucket)
    → Fits c (some b)
    → Fits c (some (refilled c now b))
unfolding refilled
refilled-Fits c now b h = ground arith

current-Fits :
    (c : RateLimiterConfig) (now : ℕ) (s : Option Bucket)
    → Fits c s
    → Fits c (some (current c now s))
unfolding current
current-Fits c now none h = omega arith
current-Fits c now (some b) h = refilled-Fits c now b h

pub token_bucket-Fits :
    (c : RateLimiterConfig) (now : ℕ) (s : Option Bucket)
    → Fits c s
    → Fits c (token_bucket c now s).stored
unfolding token_bucket settle
token_bucket-Fits c now s h = ground (arith, current-Fits c now s h)

-- The tokens left and those spent since `start` were there at the start or came by the rate.
abbrev Credit : RateLimiterConfig → ℕ → ℕ → ℕ → Option Bucket → Type 0
Credit c start finish n none = n ≡ 0
Credit c start finish n (some b) =
    (start ≤ b.last_update)
    × (b.last_update ≤ finish)
    × (b.tokens + n * c.refill_period
        ≤ c.capacity * c.refill_period + (b.last_update - start) * c.refill_rate)

pub span :
    (r start last now : ℕ)
    → start ≤ last
    → last ≤ now
    → (last - start) * r + (now - last) * r ≡ (now - start) * r
span r start last now h k =
    let e : now - start ≡ (last - start) + (now - last) = omega arith in rw e (omega arith)

module _ (c : RateLimiterConfig) (start finish now n : ℕ) (from : start ≤ now)
    (to : now ≤ finish) where
  refilled-Credit :
      (b : Bucket)
      → Credit c start finish n (some b)
      → Credit c start finish n (some (refilled c now b))
  unfolding refilled
  refilled-Credit b h = ground (arith, span c.refill_rate start b.last_update now)

  current-Credit :
      (s : Option Bucket)
      → Credit c start finish n s
      → Credit c start finish n (some (current c now s))
  unfolding current
  current-Credit none h = ground arith
  current-Credit (some b) h = refilled-Credit b h

  settle-Credit :
      (s : Option Bucket) (b : Bucket)
      → Credit c start finish n s
      → Credit c start finish n (some b)
      → Credit c start finish (n + passed (settle c s b).reply) (settle c s b).stored
  unfolding settle
  settle-Credit none b h k = ground arith
  settle-Credit (some o) b h k = ground arith

  step-Credit :
      (s : Option Bucket)
      → Credit c start finish n s
      → Credit c start finish
          (n + passed (token_bucket c now s).reply)
          (token_bucket c now s).stored
  unfolding token_bucket
  step-Credit s h = settle-Credit s (current c now s) h (current-Credit s h)

Credit-bound :
    (c : RateLimiterConfig) (start finish n : ℕ) (s : Option Bucket)
    → Credit c start finish n s
    → n * c.refill_period ≤ c.capacity * c.refill_period + (finish - start) * c.refill_rate
Credit-bound c start finish n none h = rw h (omega arith)
Credit-bound c start finish n (some b) h = grind arith

abbrev pub Within : ℕ → ℕ → List ℕ → Type 0
Within start finish = All (λ t. (start ≤ t) × (t ≤ finish))

calls-Credit :
    (c : RateLimiterConfig) (start finish : ℕ) (times : List ℕ) (n : ℕ) (s : Option Bucket)
    → Within start finish times
    → Credit c start finish n s
    → Credit c start finish (n + (calls c times s).0) (calls c times s).1
unfolding calls
calls-Credit c start finish [] n s w h = rw add-zero h
calls-Credit c start finish (now ∷ times) n s ((from, to), w) h =
    let o = token_bucket c now s in
    rw (← add_assoc) (
      calls-Credit c start finish times (n + passed o.reply) o.stored w
        (step-Credit c start finish now n from to s h))

-- From an empty key, the calls made in a window of time, in whatever order the server runs them, let
-- through no more than the capacity and what the rate brings in the window.
calls_budget :
    (c : RateLimiterConfig) (start finish : ℕ) (times : List ℕ)
    → Within start finish times
    → (calls c times none).0 * c.refill_period
      ≤ c.capacity * c.refill_period + (finish - start) * c.refill_rate
calls_budget c start finish times w =
    Credit-bound c start finish (calls c times none).0 (calls c times none).1
      (rw zero-add at (calls-Credit c start finish times 0 none w refl))
