-- ===== src/Errors.antt =====
-- Go's errors as values: the sentinels of internal/core/domain/errors.go, the messages made by
-- `errors.New` and `fmt.Errorf`, with `%w` kept as a chain, and the results of fallible calls.
pub mod Laws
use go_api_management.Base.{ℕ, Bool, true, false, ◌||◌, String, Bytes}

-- AuthError: its six constants
pub data AuthError : Type 0 where
  session_not_found session_expired invalid_state egress_failed : AuthError
  token_exchange_failed unauthorized : AuthError

-- An error of a library or of a service is known by a number.
pub data Err : Type 0 where
  auth : AuthError → Err
  message : String → Err
  message_of : String → Bytes → Err
  message_code : String → ℕ → Err
  wrap : String → Err → Err
  wrap_of : Err → String → Bytes → Err
  foreign : ℕ → Err

pub data Result {ℓ} (A : Type ℓ) : Type ℓ where
  ok : A → Result A
  err : Err → Result A

-- Later steps are skipped behind an error.
infixl 5 ◌>>=◌ ◌>>◌
abbrev pub ◌>>=◌ {ℓ κ} : {X : Type ℓ} {Y : Type κ} → Result X → (X → Result Y) → Result Y
err why >>= rest = err why
ok x >>= rest = rest x

abbrev pub ◌>>◌ {ℓ} : {Y : Type ℓ} → Result (Unit {0}) → Result Y → Result Y
step >> rest = step >>= λ done. rest

-- `if test { return e }`
abbrev pub refuse : Bool → Err → Result (Unit {0})
refuse true e = err e
refuse false e = ok tt

-- `fmt.Errorf("…: %w", err)` on the error path
abbrev pub wrapping {ℓ} : {A : Type ℓ} → String → Result A → Result A
wrapping text (ok a) = ok a
wrapping text (err e) = err (wrap text e)

abbrev pub same_auth : AuthError → AuthError → Bool
same_auth session_not_found session_not_found = true
same_auth session_expired session_expired = true
same_auth invalid_state invalid_state = true
same_auth egress_failed egress_failed = true
same_auth token_exchange_failed token_exchange_failed = true
same_auth unauthorized unauthorized = true
same_auth _ _ = false

-- `errors.Is(err, target)` for a sentinel, and IsAuthError, which agrees with it: a chain holds one
-- AuthError at most, at its end.
unfoldable pub is_auth_error : Err → AuthError → Bool
is_auth_error (auth a) target = same_auth a target
is_auth_error (wrap text e) target = is_auth_error e target
is_auth_error (wrap_of e text s) target = is_auth_error e target
is_auth_error _ target = false
