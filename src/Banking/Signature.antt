-- ===== src/Banking/Signature.antt =====
-- internal/banking/adapters/crypto/signature.go. PEM, X.509, ASN.1, SHA-256 and ECDSA are the fields
-- of a record that the definitions take.
pub mod Canonical
pub mod Accepts
use go_api_management.Base.{
  ℕ, zero, suc, ◌+◌, ◌*◌, Bool, true, false, not, ◌||◌, String, Option, none, some, List, [], ◌∷◌,
  ◌++◌, Bytes, codes, is_empty, ◌==◌, if◌then◌else◌, length, take, drop, ℤ, pos, str_eq, refl, inl,
  inr, ◌≡◌, ◌≢◌, ◌∙◌, arith, ◌&&◌,
}
use go_api_management.Errors.{
  Err, message, message_of, wrap, foreign, Result, ok, err, ◌>>=◌, ◌>>◌, refuse, wrapping,
}
use go_api_management.Encoding.Decimal.{format_int}
use go_api_management.Encoding.Hex
use go_api_management.Encoding.Base64.{std, decode_padded}
use go_api_management.Banking.{TransferPayload}

-- What `x509.ParsePKIXPublicKey` finds: an ECDSA key with the name of its curve, or another key.
pub data PublicKey (K : Type 0) : Type 0 where
  ecdsa : Bytes → K → PublicKey K
  other_key : PublicKey K

pub record KeyLibrary : Type 1 where
  pub Key : Type 0
  pub pem_decode : Bytes → Option Bytes
  pub parse_pkix : Bytes → Result (PublicKey Key)
  pub sha256 : Bytes → Bytes
  pub verify : Key → Bytes → ℤ → ℤ → Bool
  pub verify_asn1 : Key → Bytes → Bytes → Bool
  pub asn1_pair : Bytes → Option (ℤ × ℤ)

-- CanonicalTransferBytes: `%s:%s:%d:%s:%d`
unfoldable pub canonical_transfer_bytes : TransferPayload → Bytes
canonical_transfer_bytes p =
    p.sender_account
    ++ b':'
      ∷ (p.receiver_account
          ++ b':'
            ∷ (format_int p.amount_cents
                ++ b':' ∷ (p.currency ++ b':' ∷ format_int p.timestamp.unix)))

-- `new(big.Int).SetBytes(b)`
big_endian : ℕ → Bytes → ℕ
big_endian n [] = n
big_endian n (c ∷ s) = big_endian (n * 256 + c) s

abbrev set_bytes : Bytes → ℤ
set_bytes s = pos (big_endian 0 s)

abbrev from_option {ℓ} : {A : Type ℓ} → Err → Option A → Result A
from_option e none = err e
from_option e (some a) = ok a

-- Hexadecimal first, then Base64; the error that is wrapped is `base64.CorruptInputError`.
unfoldable pub decode_signature : Bytes → Result Bytes
decode_signature s = elim (Hex.decode s) [
  | some b ↦ ok b
  | none ↦
      from_option (wrap "signature is neither valid Base64 nor valid Hex" (foreign 0))
        (decode_padded std s)
]

abbrev pub p256 : Bytes
p256 = codes "P-256"

module _ (lib : KeyLibrary) where
  -- `pubKeyInterface.(*ecdsa.PublicKey)` and the test of its curve
  ecdsa_p256 : PublicKey lib.Key → Result lib.Key
  ecdsa_p256 other_key = err (message "public key is not an ECDSA public key")
  ecdsa_p256 (ecdsa curve key) =
      if str_eq curve p256
      then ok key
      else err (
          message_of
            "unsupported curve: %s (only ECDSA P-256 is permitted for Secure Enclave compliance)"
            curve)

  fallback : lib.Key → Bytes → Option (ℤ × ℤ) → Bool
  fallback key hash none = false
  fallback key hash (some (r, s)) = lib.verify key hash r s

  -- raw R || S for 64 bytes, and else DER, strictly and then leniently
  unfoldable pub verified : lib.Key → Bytes → Bytes → Bool
  unfolding fallback big_endian
  verified key hash sig =
      if length sig == 64
      then lib.verify key hash (set_bytes (take 32 sig)) (set_bytes (drop 32 sig))
      else lib.verify_asn1 key hash sig || fallback key hash (lib.asn1_pair sig)

  -- VerifyEnclaveSignature, for a payload that is not nil
  verify_payload : Bytes → TransferPayload → Result (Unit {0})
  verify_payload public_key_pem p = do
    refuse (is_empty p.signature) (message "empty transfer payload signature")
    block ←
        from_option (message "failed to parse PEM block containing the public key")
          (lib.pem_decode public_key_pem)
    pub_key ← wrapping "failed to parse public key bytes" (lib.parse_pkix block)
    key ← ecdsa_p256 pub_key
    let hash = lib.sha256 (canonical_transfer_bytes p)
    sig ← decode_signature p.signature
    refuse (not (verified key hash sig)) (
        message
          "cryptographic signature verification failed (data may have been tampered or signature is invalid)")

  -- VerifyEnclaveSignature
  pub verify_enclave_signature : Bytes → Option TransferPayload → Result (Unit {0})
  unfolding verify_payload
  verify_enclave_signature public_key_pem payload = do
    refuse (is_empty public_key_pem) (message "empty public key PEM")
    p ← from_option (message "nil transfer payload") payload
    verify_payload public_key_pem p
