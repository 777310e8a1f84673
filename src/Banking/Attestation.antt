-- ===== src/Banking/Attestation.antt =====
-- internal/banking/adapters/gateway/attestation_verifier.go. The JSON of the claims and
-- `unicode.ToLower` are the fields of a record that the definitions take.
pub mod Unsigned
pub mod Play
pub mod Verdict
use go_api_management.Base.{
  ℕ, Bool, true, false, not, ◌&&◌, ◌||◌, List, [], ◌∷◌, Option, none, some, Bytes, codes, is_empty,
  str_eq, if◌then◌else◌,
}
use go_api_management.Strings.{split, to_lower}
use go_api_management.Encoding.Base64.{url, decode_raw, decode_padded}
use go_api_management.Errors.{
  Err, message, message_of, foreign, wrap, Result, ok, err, ◌>>=◌, ◌>>◌, refuse, wrapping,
}

-- PlayIntegrityClaims
pub record PlayIntegrityClaims : Type 0 where
  pub app_licensing_verdict : Bytes
  pub device_recognition_verdict : List Bytes
  pub cts_profile_match : Bool
  pub basic_integrity : Bool

-- AppAttestClaims
pub record AppAttestClaims : Type 0 where
  pub app_id : Bytes
  pub receipt : Bytes
  pub robust : Bool

pub record AttestationLibrary : Type 0 where
  pub unicode_lower : Bytes → Bytes
  pub unmarshal_play : Bytes → Result PlayIntegrityClaims
  pub unmarshal_attest : Bytes → Result AppAttestClaims

-- `strings.ToLower(platform)` is one of the two platforms.
pub data Platform : Type 0 where
  ios android other_platform : Platform

abbrev is_other : Platform → Bool
is_other ios = false
is_other android = false
is_other other_platform = true

unfoldable pub platform_of : AttestationLibrary → Bytes → Platform
platform_of lib platform =
    let lower = to_lower lib.unicode_lower platform in
    if str_eq lower (codes "ios")
    then ios
    else if str_eq lower (codes "android")
    then android
    else other_platform

is_denied : Bytes → Bool
is_denied token = str_eq token (codes "compromised-device") || str_eq token (codes "invalid-token")

-- the loop over `DeviceRecognitionVerdict`
check_verdicts : List Bytes → Result (Unit {0})
check_verdicts [] = ok tt
check_verdicts (v ∷ vs) =
    elim (str_eq v (codes "MEETS_VIRTUAL_INTEGRITY") || str_eq v (codes "COMPROMISED")) [
      | true ↦ err (message_of "device recognition verdict rejected" v)
      | false ↦ check_verdicts vs
    ]

check_play : PlayIntegrityClaims → Result (Unit {0})
unfolding check_verdicts
check_play claims = do
  refuse (not claims.basic_integrity || not claims.cts_profile_match)
      (message "device failed basic or CTS profile integrity verification")
  check_verdicts claims.device_recognition_verdict

check_attest : AppAttestClaims → Result (Unit {0})
check_attest claims =
    refuse (is_empty claims.app_id) (message "apple App Attest verification failed: missing appId")

-- RawURLEncoding first, then URLEncoding
abbrev decode_segment : Bytes → Result Bytes
decode_segment s = elim (decode_raw url s) [
  | some b ↦ ok b
  | none ↦ elim (decode_padded url s) [
    | some b ↦ ok b
    | none ↦ err (wrap "failed to decode attestation JWS payload" (foreign 0))
  ]
]

module _ (lib : AttestationLibrary) where
  pub check_payload : Platform → Bytes → Result (Unit {0})
  unfolding check_play check_attest
  check_payload android payload = do
    claims ← wrapping "failed to parse Android Play Integrity claims" (lib.unmarshal_play payload)
    check_play claims
  check_payload ios payload = do
    claims ← wrapping "failed to parse Apple App Attest claims" (lib.unmarshal_attest payload)
    check_attest claims
  check_payload other_platform payload = ok tt

  -- a token of three parts, or a mock token
  check_token : Platform → Bytes → List Bytes → Result (Unit {0})
  unfolding check_payload
  check_token p token (header ∷ segment ∷ signature ∷ []) = do
    payload ← decode_segment segment
    check_payload p payload
  check_token p token _ =
      refuse (not (str_eq token (codes "valid-mock-token")))
        (message_of "unrecognized mock attestation token" token)

  -- VerifyAttestation
  pub verify_attestation : Bytes → Bytes → Result (Unit {0})
  verify_attestation platform token = do
    refuse (is_empty token) (message "attestation token is empty")
    refuse (is_other (platform_of lib platform)) (message_of "unsupported platform" platform)
    refuse (is_denied token)
        (message "compromised device environment or invalid signature detected")
    check_token (platform_of lib platform) token (split b'.' token)
