-- ===== src/Banking/Attestation/Verdict.antt =====
-- Which tokens are accepted on either platform.
use go_api_management.Banking.Jwt.Parts.{parts-Lacks, of_split_three}
use go_api_management.Strings.{split}
use go_api_management.Banking.Attestation.Play.{payload_sound, IsTrusted, payload_complete}
use go_api_management.Errors.Laws.{>>=-eq-ok, refuse-eq-ok, wrapping-eq-ok}
use go_api_management.Banking.Attestation.{
  AttestationLibrary, decode_segment, check_payload, check_token, platform_of, Platform,
  verify_attestation, other_platform, check_attest, is_denied, is_other, android, ios,
  AppAttestClaims,
}
use go_api_management.Errors.{Err, refuse, ok, wrapping}
use go_api_management.Base.{
  Bytes, refl, [], ◌∷◌, false, ◌≡◌, ◌≢◌, ◌∙◌, ◌++◌, Lacks, not, List, ◌↔◌, str_eq, is_empty-ne,
  codes, is_empty, str_eq_iff, not-eq-false, not_empty,
}
use go_api_management.Banking.Attestation.Unsigned.{jws_verdict, verify-jws}

-- A token of three parts, of which the second is the segment.
pub record IsJws (segment token : Bytes) : Type 0 where
  pub header : Bytes
  pub signature : Bytes
  pub header-Lacks : Lacks b'.' header
  pub segment-Lacks : Lacks b'.' segment
  pub signature-Lacks : Lacks b'.' signature
  pub is_token : token ≡ (header ++ b'.' ∷ segment) ++ b'.' ∷ signature

-- The claims that the segment holds name an app.
pub record IsKnownApp (lib : AttestationLibrary) (segment : Bytes) : Type 0 where
  pub payload : Bytes
  pub is_payload : decode_segment segment ≡ ok payload
  pub claims : AppAttestClaims
  pub is_claims : lib.unmarshal_attest payload ≡ ok claims
  pub named : claims.app_id ≢ []

-- What is accepted: a trusted device on Android, a named app on iOS, and one word on both.
pub data IsAttested (lib : AttestationLibrary) (platform token : Bytes) : Type 0 where
  trusted_device :
      (segment : Bytes)
      → platform_of lib platform ≡ android
      → IsJws segment token
      → IsTrusted lib segment
      → IsAttested lib platform token
  known_app :
      (segment : Bytes)
      → platform_of lib platform ≡ ios
      → IsJws segment token
      → IsKnownApp lib segment
      → IsAttested lib platform token
  mock_token :
      platform_of lib platform ≢ other_platform
      → token ≡ codes "valid-mock-token"
      → IsAttested lib platform token

module _ (lib : AttestationLibrary) (segment : Bytes) where
  app_sound :
      (payload : Bytes)
      → decode_segment segment ≡ ok payload
      → check_payload lib ios payload ≡ ok tt
      → IsKnownApp lib segment
  unfolding check_payload check_attest
  app_sound payload is_payload h =
      let (claims, is_claims, h1) = >>=-eq-ok (wrapping _ (lib.unmarshal_attest payload)) _ h in
      record {
        payload = payload;
        is_payload = is_payload;
        claims = claims;
        is_claims = wrapping-eq-ok _ _ is_claims;
        named = not_empty claims.app_id (refuse-eq-ok _ _ h1);
      }

  app_complete : (a : IsKnownApp lib segment) → check_payload lib ios a.payload ≡ ok tt
  unfolding check_payload check_attest
  app_complete a = rw (a.is_claims, is_empty-ne a.claims.app_id a.named) refl

mock_of :
    (token : Bytes) (e : Err)
    → refuse (not (str_eq token (codes "valid-mock-token"))) e ≡ ok tt
    → token ≡ codes "valid-mock-token"
mock_of token e h =
    (str_eq_iff token (codes "valid-mock-token")).0 (not-eq-false _ (refuse-eq-ok _ _ h))

module _ (lib : AttestationLibrary) (platform token : Bytes) where
  of_payload :
      (p : Platform) (segment payload : Bytes)
      → platform_of lib platform ≡ p
      → p ≢ other_platform
      → IsJws segment token
      → decode_segment segment ≡ ok payload
      → check_payload lib p payload ≡ ok tt
      → IsAttested lib platform token
  of_payload android segment payload on known is_jws is_payload h =
      trusted_device segment on is_jws (payload_sound lib segment payload is_payload h)
  of_payload ios segment payload on known is_jws is_payload h =
      known_app segment on is_jws (app_sound lib segment payload is_payload h)
  of_payload other_platform segment payload on known is_jws is_payload h = absurd (known refl)

  of_parts :
      (p : Platform) (parts : List Bytes)
      → platform_of lib platform ≡ p
      → p ≢ other_platform
      → split b'.' token ≡ parts
      → check_token lib p token parts ≡ ok tt
      → IsAttested lib platform token
  unfolding check_token
  of_parts p (header ∷ segment ∷ signature ∷ []) on known e h =
      let (payload, is_payload, h1) = >>=-eq-ok (decode_segment segment) _ h in
      let clean = parts-Lacks b'.' header segment signature token e in
      of_payload p segment payload on known
        (record {
          header = header;
          signature = signature;
          header-Lacks = clean.0;
          segment-Lacks = clean.1;
          signature-Lacks = clean.2;
          is_token = of_split_three b'.' header segment signature token e;
        })
        is_payload h1
  of_parts p [] on known e h = mock_token (rw on known) (mock_of token _ h)
  of_parts p (a ∷ []) on known e h = mock_token (rw on known) (mock_of token _ h)
  of_parts p (a ∷ b ∷ []) on known e h = mock_token (rw on known) (mock_of token _ h)
  of_parts p (a ∷ b ∷ c ∷ d ∷ ds) on known e h = mock_token (rw on known) (mock_of token _ h)

  known_platform : (p : Platform) → is_other p ≡ false → p ≢ other_platform
  known_platform ios h = cc
  known_platform android h = cc
  known_platform other_platform h = absurd (cc h)

  accepted_sound : verify_attestation lib platform token ≡ ok tt → IsAttested lib platform token
  unfolding verify_attestation
  accepted_sound h =
      let (_, _, h1) = >>=-eq-ok (refuse (is_empty token) _) _ h in
      let (_, known, h2) = >>=-eq-ok (refuse (is_other (platform_of lib platform)) _) _ h1 in
      let (_, _, h3) = >>=-eq-ok (refuse (is_denied token) _) _ h2 in
      of_parts (platform_of lib platform) (split b'.' token) refl
        (known_platform (platform_of lib platform) (refuse-eq-ok _ _ known)) refl h3

  -- the verdict on a token of three parts, from its second part
  jws_complete :
      (p : Platform) (segment payload : Bytes) (j : IsJws segment token)
      → platform_of lib platform ≡ p
      → is_other p ≡ false
      → decode_segment segment ≡ ok payload
      → check_payload lib p payload ≡ ok tt
      → verify_attestation lib platform token ≡ ok tt
  unfolding jws_verdict
  jws_complete p segment payload j on known is_payload good = rw j.is_token (
      verify-jws lib platform segment j.segment-Lacks j.header j.signature j.header-Lacks
        j.signature-Lacks
      ∙ rw (on, known, is_payload) good)

  mock_complete :
      (p : Platform)
      → platform_of lib platform ≡ p
      → p ≢ other_platform
      → verify_attestation lib platform (codes "valid-mock-token") ≡ ok tt
  unfolding verify_attestation check_token is_denied split str_eq
  mock_complete ios on known = rw on refl
  mock_complete android on known = rw on refl
  mock_complete other_platform on known = absurd (known refl)

  accepted_complete : IsAttested lib platform token → verify_attestation lib platform token ≡ ok tt
  accepted_complete (trusted_device segment on j t) =
      jws_complete android segment t.payload j on refl t.is_payload (payload_complete lib segment t)
  accepted_complete (known_app segment on j a) =
      jws_complete ios segment a.payload j on refl a.is_payload (app_complete lib segment a)
  accepted_complete (mock_token known same) =
      rw same (mock_complete (platform_of lib platform) refl known)

  -- A token is accepted exactly if it has three parts of which the second decodes to claims of a
  -- trusted device (on Android) or of a named app (on iOS), or, on both platforms, if it is the word
  -- "valid-mock-token".
  pub verify_attestation_iff :
      (verify_attestation lib platform token ≡ ok tt) ↔ IsAttested lib platform token
  verify_attestation_iff = (accepted_sound, accepted_complete)
