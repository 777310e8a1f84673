-- ===== src/Banking.antt =====
-- The isolated banking engine, internal/banking: its data (internal/banking/domain/banking.go) here,
-- its adapters, service and handlers in the modules below.
pub mod Jwt
pub mod Signature
pub mod Service
pub mod KeyRepository
pub mod Handler
pub mod Attestation
use go_api_management.Base.{
  ℕ, Bool, ◌&&◌, Bytes, ℤ, negsuc, pos, ◌==◌, false, refl, [], ◌∷◌, some, none, true, inl, inr, ◌≡◌,
  ◌≢◌, ◌∙◌, ◌++◌, arith, ◌||◌, zero, suc,
}

-- `time.Time`: seconds since 1970 and nanoseconds
pub record Time : Type 0 where
  pub unix : ℤ
  pub nanos : ℕ

-- `t.IsZero()`: the first instant of the year 1
abbrev pub is_zero : Time → Bool
is_zero t = elim t.unix [ pos n ↦ false | negsuc n ↦ (n == 62135596799) && (t.nanos == 0) ]

-- SecureEnclaveKey; the time of registration in nanoseconds
pub record SecureEnclaveKey : Type 0 where
  pub id : Bytes
  pub user_id : Bytes
  pub public_key_pem : Bytes
  pub algorithm : Bytes
  pub registered_at : ℕ

-- TransferPayload
pub record TransferPayload : Type 0 where
  pub id : Bytes
  pub sender_account : Bytes
  pub receiver_account : Bytes
  pub amount_cents : ℤ
  pub currency : Bytes
  pub timestamp : Time
  pub signature : Bytes

-- RegisterDeviceRequest of internal/banking/handler/banking_handler.go
pub record RegisterDeviceRequest : Type 0 where
  pub id : Bytes
  pub public_key_pem : Bytes
  pub algorithm : Bytes
  pub platform : Bytes
  pub attestation_token : Bytes
