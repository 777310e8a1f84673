-- ===== src/Schema/Valid.antt =====
-- The payloads that openapi.yaml asks for.
use go_api_management.Strings.{to_lower}
use go_api_management.Strings.Contains.{contains_iff}
use go_api_management.Banking.{TransferPayload, RegisterDeviceRequest, is_zero}
use go_api_management.Schema.{check_transfer, PayloadJson, check_registration, pem_begin}
use go_api_management.Base.{
  Bytes, [], none, false, ◌≡◌, ◌≢◌, ◌++◌, arith, ◌↔◌, ◌≤◌, not_empty, length, is_nonpositive, codes,
  is_empty-ne, str_eq_iff, ◌⊎◌,
}

pub record ValidRegistration (lib : PayloadJson) (req : RegisterDeviceRequest) : Type 0 where
  pub id : req.id ≢ []
  pub pem : (pre : Bytes) × (post : Bytes) × (req.public_key_pem ≡ pre ++ pem_begin ++ post)
  pub algorithm : req.algorithm ≡ codes "ECDSA_P256"
  pub platform :
      (to_lower lib.unicode_lower req.platform ≡ codes "ios")
      ⊎ (to_lower lib.unicode_lower req.platform ≡ codes "android")
  pub attestation_token : req.attestation_token ≢ []

pub record ValidTransfer (req : TransferPayload) : Type 0 where
  pub id : req.id ≢ []
  pub sender : 6 ≤ length req.sender_account
  pub receiver : 6 ≤ length req.receiver_account
  pub amount : is_nonpositive req.amount_cents ≡ false
  pub currency : length req.currency ≡ 3
  pub timestamp : is_zero req.timestamp ≡ false
  pub signature : req.signature ≢ []

pub transfer_iff : (req : TransferPayload) → (check_transfer req ≡ none) ↔ ValidTransfer req
unfolding check_transfer
transfer_iff req = (
  λ h. record {
    id = not_empty _ (ground arith);
    sender = ground arith;
    receiver = ground arith;
    amount = ground arith;
    currency = ground arith;
    timestamp = ground arith;
    signature = not_empty _ (ground arith);
  },
  λ v. ground (arith, is_empty-ne req.id v.id, is_empty-ne req.signature v.signature),
)

pub registration_iff :
    (lib : PayloadJson) (req : RegisterDeviceRequest)
    → (check_registration lib req ≡ none) ↔ ValidRegistration lib req
unfolding check_registration
registration_iff lib req = (
  λ h. record {
    id = not_empty _ (ground arith);
    pem = (contains_iff req.public_key_pem pem_begin).0 (ground arith);
    algorithm = (str_eq_iff _ _).0 (ground arith);
    platform = ground (
      arith,
      str_eq_iff (to_lower lib.unicode_lower req.platform) (codes "ios"),
      str_eq_iff (to_lower lib.unicode_lower req.platform) (codes "android"),
    );
    attestation_token = not_empty _ (ground arith);
  },
  λ v. ground (
    arith,
    is_empty-ne req.id v.id,
    is_empty-ne req.attestation_token v.attestation_token,
    (contains_iff req.public_key_pem pem_begin).1 v.pem,
    str_eq_iff req.algorithm (codes "ECDSA_P256"),
    str_eq_iff (to_lower lib.unicode_lower req.platform) (codes "ios"),
    str_eq_iff (to_lower lib.unicode_lower req.platform) (codes "android"),
  ),
)
