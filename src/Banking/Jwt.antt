-- ===== src/Banking/Jwt.antt =====
-- internal/banking/adapters/crypto/jwt.go: the internal token. HMAC-SHA256 and the JSON of the claims
-- are the fields of a record that the definitions take; times are in nanoseconds since 1970.
pub mod Parts
pub mod Verify
pub mod RoundTrip
pub mod Sample
use go_api_management.Base.{
  ℕ, ◌+◌, ◌/◌, ◌^◌, Bool, true, false, not, List, [], ◌∷◌, ◌++◌, Option, none, some, Bytes, codes,
  is_empty, str_eq, ltb, ℤ, pos, negsuc, if◌then◌else◌, length,
}
use go_api_management.Strings.{split}
use go_api_management.Encoding.Base64.{url, encode_raw, decode_raw}
use go_api_management.Errors.{
  Err, message, foreign, wrap, Result, ok, err, ◌>>=◌, ◌>>◌, refuse, wrapping,
}

-- InternalJWTClaims; the times in seconds
pub record InternalJwtClaims : Type 0 where
  pub subject : Bytes
  pub expires_at : ℤ
  pub issued_at : ℤ
  pub scopes : List Bytes

pub record TokenLibrary : Type 0 where
  pub hmac_sha256 : Bytes → Bytes → Bytes
  pub marshal_claims : InternalJwtClaims → Bytes
  pub unmarshal_claims : Bytes → Result InternalJwtClaims

abbrev pub second : ℕ
second = 10 ^ 9

-- The keys of a Go map are marshalled in order.
abbrev pub header_json : Bytes
header_json = codes "{\"alg\":\"HS256\",\"typ\":\"JWT\"}"

pub header_b64 : Bytes
header_b64 = encode_raw url header_json

-- `time.Now().Unix() > claims.ExpiresAt`
abbrev pub is_expired : ℕ → ℤ → Bool
is_expired now (pos exp) = ltb exp (now / second)
is_expired now (negsuc n) = true

-- the error that is wrapped is `base64.CorruptInputError`
abbrev decoded : Option Bytes → Result Bytes
decoded none = err (wrap "failed to decode claims" (foreign 0))
decoded (some s) = ok s

module _ (lib : TokenLibrary) where
  pub signature_of : Bytes → Bytes → Bytes
  signature_of secret input = encode_raw url (lib.hmac_sha256 secret input)

  pub issued_claims : Bytes → List Bytes → ℕ → ℕ → InternalJwtClaims
  issued_claims subject scopes ttl now = record {
    subject = subject;
    expires_at = pos ((now + ttl) / second);
    issued_at = pos (now / second);
    scopes = scopes;
  }

  -- GenerateInternalJWT
  pub generate_internal_jwt : Bytes → List Bytes → Bytes → ℕ → ℕ → Result Bytes
  unfolding signature_of
  generate_internal_jwt subject scopes secret ttl now = do
    refuse (is_empty secret) (message "empty shared secret")
    let claims_b64 = encode_raw url (lib.marshal_claims (issued_claims subject scopes ttl now))
    let signing_input = header_b64 ++ b'.' ∷ claims_b64
    ok (signing_input ++ b'.' ∷ signature_of secret signing_input)

  -- the check of the three parts
  verify_parts : Bytes → ℕ → List Bytes → Result InternalJwtClaims
  unfolding signature_of
  verify_parts secret now (header ∷ claims_b64 ∷ sig ∷ []) = do
    refuse (not (str_eq sig (signature_of secret (header ++ b'.' ∷ claims_b64))))
        (message "invalid signature")
    claims_bytes ← decoded (decode_raw url claims_b64)
    claims ← wrapping "failed to parse claims" (lib.unmarshal_claims claims_bytes)
    refuse (is_expired now claims.expires_at) (message "token is expired")
    ok claims
  verify_parts secret now _ = err (message "invalid token format")

  -- VerifyInternalJWT
  pub verify_internal_jwt : Bytes → Bytes → ℕ → Result InternalJwtClaims
  unfolding verify_parts
  verify_internal_jwt token secret now = do
    refuse (is_empty secret) (message "empty shared secret")
    verify_parts secret now (split b'.' token)
