-- ===== src/Auth.antt =====
-- The core of the gateway, internal/core: its data (internal/core/domain) here, the PKCE values, the
-- session repository and the service in the modules below.
pub mod Pkce
pub mod Sessions
pub mod Service
pub mod Handler
pub mod Gateway
use go_api_management.Base.{ℕ, Bool, Bytes, ℤ, ltb}

-- AuthSession; its times in nanoseconds
pub record AuthSession : Type 0 where
  pub id : Bytes
  pub state : Bytes
  pub code_verifier : Bytes
  pub redirect_uri : Bytes
  pub created_at : ℕ
  pub expires_at : ℕ

-- IsExpired
abbrev pub is_expired : ℕ → AuthSession → Bool
is_expired now s = ltb s.expires_at now

-- TokenPair
pub record TokenPair : Type 0 where
  pub access_token : Bytes
  pub refresh_token : Bytes
  pub id_token : Bytes
  pub expires_in : ℤ

-- UserIdentity
pub record UserIdentity : Type 0 where
  pub id : Bytes
  pub email : Bytes
  pub name : Bytes
  pub picture : Bytes
  pub email_verified : Bool

-- A call that may change the world.
abbrev pub Action {ℓ} : Type ℓ → Type ℓ → Type ℓ
Action W A = W → A × W
