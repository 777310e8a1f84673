-- ===== src/RateLimiter/Account.antt =====
-- The account of one bucket since a time: what it holds, what it let through, and how often the
-- server failed meanwhile.
use go_api_management.RateLimiter.Expiry.{ttl_refills}
use go_api_management.RateLimiter.Budget.{passed, span}
use go_api_management.RateLimiter.Refill.{
  Finds, kept, expired, Stands, filled, Stands-fits, Stands-filled, filled_lem, take_token,
  call_lem,
}
use go_api_management.Base.{ℕ, some, none, ◌≡◌, arith, Option, ◌≤◌, ◌+◌, ◌<◌, ◌*◌, ◌-◌, refl}
use native.Mathlib.Nat.{mul-le-mul_right}
use go_api_management.RateLimiter.{RateLimiterConfig, Bucket, ttl_of, token_bucket}

-- `n` requests were let through since `t0`, `o` of them or fewer by a failure of the server; the hash
-- stands for the level.
pub record Account (c : RateLimiterConfig) (t0 t n o : ℕ) (s : Option Bucket) : Type 0 where
  pub level : ℕ
  pub stands : Stands c t s level
  pub since : t0 ≤ t
  pub spent :
      level + n * c.refill_period
      ≤ c.capacity * c.refill_period + (t - t0) * c.refill_rate + o * c.refill_period

-- a hash of no more than the capacity, that was not written later
abbrev pub IsSound : RateLimiterConfig → ℕ → Option Bucket → Type 0
IsSound c t none = Unit
IsSound c t (some b) = (b.tokens ≤ c.capacity * c.refill_period) × (b.last_update ≤ t)

module _ (c : RateLimiterConfig) (t0 n o : ℕ) where
  filled-le :
      (k level : ℕ)
      → level ≤ c.capacity * c.refill_period
      → filled c k level ≤ level + k * c.refill_rate
  filled-le k level h = rw (filled_lem c k level h) (omega arith)

  -- time passes
  pub later :
      (t t' : ℕ) (s : Option Bucket)
      → 0 < c.refill_rate
      → t ≤ t'
      → Account c t0 t n o s
      → Account c t0 t' n o s
  later t t' s rate le a =
      let fits = Stands-fits c rate t a.level s a.stands in
      record {
        level = filled c (t' - t) a.level;
        stands = Stands-filled c rate t t' a.level s le a.stands;
        since = omega (arith, a.since);
        spent = omega (
          arith,
          filled-le (t' - t) a.level fits,
          span c.refill_rate t0 t t' a.since le,
          a.spent,
        );
      }

  -- Valkey drops the hash when its time to live has run out.
  dropped :
      (t : ℕ) (b : Bucket)
      → 0 < c.refill_rate
      → b.last_update + ttl_of c * 1000 ≤ t
      → Account c t0 t n o (some b)
      → Account c t0 t n o none
  unfolding Stands
  dropped t b rate late a =
      let full = ttl_refills c (t - b.last_update) rate (omega arith) in
      let e : a.level ≡ c.capacity * c.refill_period = omega (arith, full, a.stands) in
      record { level = a.level; stands = e; since = a.since; spent = a.spent }

  -- what is found of a hash stands for the same account
  pub found-Account :
      (t : ℕ) (s f : Option Bucket)
      → 0 < c.refill_rate
      → Finds c t s f
      → Account c t0 t n o s
      → Account c t0 t n o f
  found-Account t s f rate (kept same) a = rw same a
  found-Account t s f rate (expired b was late gone) a =
      rw gone (dropped t b rate late (rw was at a))

  -- a request that a failure of the server lets through
  pub failed_open :
      (t : ℕ) (s : Option Bucket) → Account c t0 t n o s → Account c t0 t (1 + n) (1 + o) s
  failed_open t s a = record {
    level = a.level;
    stands = a.stands;
    since = a.since;
    spent = omega (arith, a.spent);
  }

  -- what a request takes, if it is let through
  take_token_lem :
      (level : ℕ) → (take_token c level).1 + passed (take_token c level).0 * c.refill_period ≤ level
  unfolding take_token
  take_token_lem level = ground arith

  -- a request that the script is run for
  pub charged :
      (t : ℕ) (s : Option Bucket)
      → 0 < c.refill_rate
      → Account c t0 t n o s
      → Account c t0 t (passed (token_bucket c t s).reply + n) o (token_bucket c t s).stored
  charged t s rate a =
      let fits = Stands-fits c rate t a.level s a.stands in
      let still : t - t ≡ 0 = omega arith in
      let stay : filled c (t - t) a.level ≡ a.level =
        rw (still, filled_lem c 0 a.level fits) (omega (arith, fits)) in
      let (answers, left) = call_lem c rate t t a.level s (omega arith) a.stands in
      let takes = take_token_lem a.level in
      record {
        level = (take_token c a.level).1;
        stands = rw stay at left;
        since = a.since;
        spent = rw (answers, stay) (omega (arith, takes, a.spent));
      }

  -- an account bounds what let less through, or failed more often
  pub fewer :
      (t m q : ℕ) (s : Option Bucket) → m ≤ n → o ≤ q → Account c t0 t n o s → Account c t0 t m q s
  fewer t m q s le ge a = record {
    level = a.level;
    stands = a.stands;
    since = a.since;
    spent =
        let less : m * c.refill_period ≤ n * c.refill_period =
          mul-le-mul_right c.refill_period le in
        let more : o * c.refill_period ≤ q * c.refill_period =
          mul-le-mul_right c.refill_period ge in
        omega (arith, a.spent, less, more);
  }

opened :
    (c : RateLimiterConfig) (t : ℕ) (s : Option Bucket) (level : ℕ)
    → 0 < c.refill_rate
    → Stands c t s level
    → Account c t t 0 0 s
opened c t s level rate h = record {
  level = level;
  stands = h;
  since = omega arith;
  spent = let fits = Stands-fits c rate t level s h in omega (arith, fits);
}

-- such a hash opens an account
pub sound-Account :
    (c : RateLimiterConfig) (t : ℕ) (s : Option Bucket)
    → 0 < c.refill_rate
    → IsSound c t s
    → Account c t t 0 0 s
unfolding Stands
sound-Account c t none rate h = opened c t none (c.capacity * c.refill_period) rate refl
sound-Account c t (some b) rate h = opened c t (some b) _ rate (h.0, h.1, refl)

pub Account-bound :
    (c : RateLimiterConfig) (t0 t n o : ℕ) (s : Option Bucket)
    → Account c t0 t n o s
    → n * c.refill_period
      ≤ c.capacity * c.refill_period + (t - t0) * c.refill_rate + o * c.refill_period
Account-bound c t0 t n o s a = omega (arith, a.spent)
