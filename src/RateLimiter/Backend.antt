-- ===== src/RateLimiter/Backend.antt =====
-- EvalTokenBucket of internal/adapters/handler/rate_limiter.go: what it makes of the server's reply.
use go_api_management.Base.{ℕ, Bool, ◌≡◌, List, [], ◌∷◌, ℤ, pos, is_nat}
use go_api_management.Errors.{Err, Result, ok, err}
use go_api_management.RateLimiter.{Reply, granted, refused, bad_ttl}

-- An element of an array reply, as `ToInt64` reads it.
pub data Message : Type 0 where
  int : ℤ → Message
  not_int : Err → Message

-- What `client.Do` gives: an error, a reply that is no array, or an array.
pub data Response : Type 0 where
  failed : Err → Response
  not_array : Err → Response
  array : List Message → Response

unfoldable pub int_of : Message → Result ℤ
int_of (int z) = ok z
int_of (not_int e) = err e

-- the two values, the first error before the second
both : Result ℤ → Result ℤ → Result (Bool × ℤ)
both (err e) remaining = err e
both (ok allowed) (err e) = err e
both (ok allowed) (ok remaining) = ok (is_nat allowed 1, remaining)

-- the part of `EvalTokenBucket` behind `client.Do`; `valkey.Nil` is the library's
unfoldable pub eval_result : Err → Response → Result (Bool × ℤ)
unfolding int_of both
eval_result valkey_nil (failed e) = err e
eval_result valkey_nil (not_array e) = err e
eval_result valkey_nil (array []) = err valkey_nil
eval_result valkey_nil (array (x ∷ [])) = err valkey_nil
eval_result valkey_nil (array (x ∷ y ∷ more)) = both (int_of x) (int_of y)

-- The server's documented conversion of what a script returns: a table is an array, its numbers are
-- integers, and a failed command is an error.
pub record Speaks (send : Reply → Response) : Type 0 where
  pub on_granted : (n : ℕ) → send (granted n) ≡ array (int (pos 1) ∷ int (pos n) ∷ [])
  pub on_refused : (n : ℕ) → send (refused n) ≡ array (int (pos 0) ∷ int (pos n) ∷ [])
  pub ttl_error : Err
  pub on_bad_ttl : send bad_ttl ≡ failed ttl_error
