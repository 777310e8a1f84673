-- ===== src/RateLimiter/Command.antt =====
-- EvalTokenBucket of internal/adapters/handler/rate_limiter.go: the command that it sends, and the call.
use go_api_management.Encoding.Decimal.{format}
use go_api_management.RateLimiter.{RateLimiterConfig}
use go_api_management.Errors.{Err, Result}
use go_api_management.Base.{Bytes, [], ◌∷◌, List, ℕ, Bool, ℤ}
use go_api_management.RateLimiter.Backend.{Response, eval_result}

-- An `EVAL` of tokenBucketLuaScript with one key.
pub record Command : Type 0 where
  pub key : Bytes
  pub arguments : List Bytes

unfoldable pub eval_command : Bytes → RateLimiterConfig → ℕ → Command
eval_command key c now = record {
  key = key;
  arguments = format c.capacity ∷ format c.refill_rate ∷ format c.refill_period ∷ format now ∷ [];
}

-- EvalTokenBucket, over `client.Do`
unfoldable pub eval_token_bucket :
    {W : Type 0}
    → (Command → W → Response × W)
    → Err
    → Bytes
    → RateLimiterConfig
    → ℕ
    → W
    → Result (Bool × ℤ) × W
unfolding eval_command
eval_token_bucket client_do valkey_nil key c now w =
    let (response, w') = client_do (eval_command key c now) w in
    (eval_result valkey_nil response, w')
