-- ===== src/RateLimiter/Window.antt =====
-- RateLimiterMiddleware over ValkeyRateLimiterBackend of internal/adapters/handler/rate_limiter.go, over
-- Valkey and the clock, which are parameters: the requests that one bucket lets through.
pub mod Answer
pub mod Bound
use go_api_management.RateLimiter.Middleware.{rate_limit, get_client_identifier, bucket_key}
use go_api_management.Errors.{Err}
use go_api_management.Http.{Handler, Request, Writer}
use go_api_management.RateLimiter.Backend.{Response, failed, Speaks, not_array, array}
use go_api_management.RateLimiter.Command.{Command, eval_token_bucket}
use go_api_management.Encoding.Decimal.{value}
use go_api_management.Base.{
  ℕ, [], ◌∷◌, ◌≡◌, ◌≢◌, ◌++◌, Bytes, Option, if◌then◌else◌, str_eq, ◌+◌, ◌≤◌, codes, refl, some,
  none, true, false, inl, inr, ◌∙◌, arith, ◌||◌, ◌&&◌, zero, suc,
}
use go_api_management.RateLimiter.{RateLimiterConfig, Bucket, Reply, Outcome, token_bucket}
use go_api_management.RateLimiter.Refill.{Finds}

module _ {W : Type 0} (client_do : Command → W → Response × W) (now : W → ℕ)
    (send : Reply → Response) (hashes : W → Bytes → Option Bucket) where
  -- The script, run for a command at the hash of its key.
  abbrev run_script : Bytes → Bytes → Bytes → Bytes → Bytes → W → Outcome
  run_script key capacity rate period time w =
      token_bucket
        record {
          capacity = value 0 capacity;
          refill_rate = value 0 rate;
          refill_period = value 0 period;
        }
        (value 0 time) (hashes w key)

  -- What a command with the one key and four numbers may come to: it fails before the script runs, it
  -- fails behind it, or it answers. `here` is the key that is watched.
  pub data Comes (here key capacity rate period time : Bytes) (w : W) (response : Response) (w' : W)
      : Type 0 where
    fails :
        (e : Err)
        → response ≡ failed e
        → hashes w' here ≡ hashes w here
        → Comes here key capacity rate period time w response w'
    loses :
        (e : Err)
        → response ≡ failed e
        → hashes w' key ≡ (run_script key capacity rate period time w).stored
        → (key ≢ here → hashes w' here ≡ hashes w here)
        → Comes here key capacity rate period time w response w'
    answers :
        response ≡ send (run_script key capacity rate period time w).reply
        → hashes w' key ≡ (run_script key capacity rate period time w).stored
        → (key ≢ here → hashes w' here ≡ hashes w here)
        → Comes here key capacity rate period time w response w'

-- One for a call of the key that is answered by an error.
abbrev pub failure_at : Bytes → Bytes → Response → ℕ
failure_at here key (failed e) = if str_eq key here then 1 else 0
failure_at here key (not_array e) = 0
failure_at here key (array ms) = 0

-- What is relied on of Valkey, of the clock and of the handler behind the middleware. `handled` counts
-- the requests of the key that reached that handler, `failures` the calls of the key that failed.
pub record WindowLaws {W : Type 0} (client_do : Command → W → Response × W) (now : W → ℕ)
    (send : Reply → Response) (sha256 : Bytes → Bytes) (next : Handler W) (here : Bytes)
    : Type 0 where
  pub hashes : W → Bytes → Option Bucket
  pub handled : W → ℕ
  pub failures : W → ℕ
  pub speaks : Speaks send
  pub comes :
      (key capacity rate period time : Bytes) (w : W)
      → Comes client_do now send hashes here key capacity rate period time w
          (client_do record { key = key; arguments = capacity ∷ rate ∷ period ∷ time ∷ [] } w).0
          (client_do record { key = key; arguments = capacity ∷ rate ∷ period ∷ time ∷ [] } w).1
  pub do_failures :
      (k : Command) (w : W)
      → failures (client_do k w).1 ≡ failure_at here k.key (client_do k w).0 + failures w
  pub do_handled : (k : Command) (w : W) → handled (client_do k w).1 ≡ handled w
  pub do_now : (k : Command) (w : W) → now w ≤ now (client_do k w).1
  pub next_hash :
      (r : Request) (w : W) (out : Writer) → hashes (next r (w, out)).0 here ≡ hashes w here
  pub next_failures :
      (r : Request) (w : W) (out : Writer) → failures (next r (w, out)).0 ≡ failures w
  pub next_handled :
      (r : Request) (w : W) (out : Writer)
      → handled (next r (w, out)).0
        ≡ (if str_eq (bucket_key sha256 r) here then 1 else 0) + handled w
  pub next_now : (r : Request) (w : W) (out : Writer) → now w ≤ now (next r (w, out)).0

module _ {W : Type 0} (client_do : Command → W → Response × W) (now : W → ℕ)
    (send : Reply → Response) (sha256 : Bytes → Bytes) (next : Handler W) (here : Bytes)
    (laws : WindowLaws client_do now send sha256 next here) (valkey_nil : Err)
    (c : RateLimiterConfig) where
  -- the middleware over the backend
  unfoldable pub limited : Handler W
  limited = rate_limit sha256 (eval_token_bucket client_do valkey_nil) now c next

  -- What the rest of the world does: time passes, and the hash may be dropped.
  pub record Elapses (w v : W) : Type 0 where
    pub on : now w ≤ now v
    pub handles : laws.handled v ≡ laws.handled w
    pub sees : laws.failures v ≡ laws.failures w
    pub finds : Finds c (now v) (laws.hashes w here) (laws.hashes v here)

  -- The runs of the service from the world on the right of the type to `w'`: requests of any client, and
  -- what happens elsewhere.
  pub data Runs (w' : W) : W → Type 0 where
    stops : {w : W} → w' ≡ w → Runs w' w
    serves : {w : W} → (r : Request) (out : Writer) → Runs w' (limited r (w, out)).0 → Runs w' w
    elapses : {w : W} → (v : W) → Elapses w v → Runs w' v → Runs w' w
