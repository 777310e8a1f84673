-- ===== src/Banking/Attestation/Play.antt =====
-- Which Android devices are accepted.
use go_api_management.Base.{
  Bool, true, false, not, ◌||◌, ◌≡◌, ◌≢◌, ◌↔◌, ◌∙◌, refl, sym, ap, List, [], ◌∷◌, ◌++◌, Bytes,
  codes, All, Lacks, str_eq, str_eq_iff, Bool-cases, inl, inr, arith,
}
use go_api_management.Errors.{Result, ok, refuse, wrapping}
use go_api_management.Errors.Laws.{>>=-eq-ok, refuse-eq-ok, wrapping-eq-ok}
use go_api_management.Banking.Attestation.{
  PlayIntegrityClaims, AttestationLibrary, android, platform_of, verify_attestation, check_verdicts,
  check_play, check_payload, decode_segment,
}
use go_api_management.Banking.Attestation.Unsigned.{jws_verdict, verify-jws}

-- no verdict that the code rejects
abbrev pub IsFine : Bytes → Type 0
IsFine v = (v ≢ codes "MEETS_VIRTUAL_INTEGRITY") × (v ≢ codes "COMPROMISED")

bad : Bytes → Bool
bad v = str_eq v (codes "MEETS_VIRTUAL_INTEGRITY") || str_eq v (codes "COMPROMISED")

bad_iff : (v : Bytes) → (bad v ≡ false) ↔ IsFine v
unfolding bad
bad_iff v =
    ground
      (arith, str_eq_iff v (codes "MEETS_VIRTUAL_INTEGRITY"), str_eq_iff v (codes "COMPROMISED"))

verdicts_sound : (vs : List Bytes) → check_verdicts vs ≡ ok tt → All IsFine vs
unfolding check_verdicts bad
verdicts_sound [] h = tt
verdicts_sound (v ∷ vs) h = elim (Bool-cases (bad v)) [
  | inl is_bad ↦ absurd (cc (is_bad, h))
  | inr is_fine ↦ ((bad_iff v).0 is_fine, verdicts_sound vs (rw (is_fine, check_verdicts) at h))
]

verdicts_complete : (vs : List Bytes) → All IsFine vs → check_verdicts vs ≡ ok tt
unfolding check_verdicts bad
verdicts_complete [] fine = refl
verdicts_complete (v ∷ vs) (fine, rest) =
    rw ((bad_iff v).1 fine, check_verdicts) (verdicts_complete vs rest)

-- The claims that the segment holds: the device passes the basic check and the CTS profile, and no
-- verdict on it is rejected.
pub record IsTrusted (lib : AttestationLibrary) (segment : Bytes) : Type 0 where
  pub payload : Bytes
  pub is_payload : decode_segment segment ≡ ok payload
  pub claims : PlayIntegrityClaims
  pub is_claims : lib.unmarshal_play payload ≡ ok claims
  pub basic : claims.basic_integrity ≡ true
  pub profile : claims.cts_profile_match ≡ true
  pub fine : All IsFine claims.device_recognition_verdict

both_hold : (a b : Bool) → (not a || not b) ≡ false → (a ≡ true) × (b ≡ true)
both_hold a b h = ground arith

module _ (lib : AttestationLibrary) (segment : Bytes) where
  pub payload_sound :
      (payload : Bytes)
      → decode_segment segment ≡ ok payload
      → check_payload lib android payload ≡ ok tt
      → IsTrusted lib segment
  unfolding check_payload check_play
  payload_sound payload is_payload h =
      let (claims, is_claims, h1) = >>=-eq-ok (wrapping _ (lib.unmarshal_play payload)) _ h in
      let (_, holds, h2) =
        >>=-eq-ok (refuse (not claims.basic_integrity || not claims.cts_profile_match) _) _ h1 in
      let (basic, profile) = both_hold _ _ (refuse-eq-ok _ _ holds) in
      record {
        payload = payload;
        is_payload = is_payload;
        claims = claims;
        is_claims = wrapping-eq-ok _ _ is_claims;
        basic = basic;
        profile = profile;
        fine = verdicts_sound claims.device_recognition_verdict h2;
      }

  pub payload_complete : (t : IsTrusted lib segment) → check_payload lib android t.payload ≡ ok tt
  unfolding check_payload check_play
  payload_complete t =
      rw (t.is_claims, t.basic, t.profile)
        (verdicts_complete t.claims.device_recognition_verdict t.fine)

module _ (lib : AttestationLibrary) (platform header segment signature : Bytes)
    (on_android : platform_of lib platform ≡ android) (lh : Lacks b'.' header)
    (lp : Lacks b'.' segment) (ls : Lacks b'.' signature) where
  abbrev verdict : Result (Unit {0})
  verdict = verify_attestation lib platform ((header ++ b'.' ∷ segment) ++ b'.' ∷ signature)

  verdict_android : verdict ≡ jws_verdict lib platform segment lp android
  verdict_android =
      verify-jws lib platform segment lp header signature lh ls
      ∙ ap (λ p. jws_verdict lib platform segment lp p) on_android

  verdict_sound : jws_verdict lib platform segment lp android ≡ ok tt → IsTrusted lib segment
  unfolding jws_verdict
  verdict_sound h =
      let (payload, is_payload, h1) = >>=-eq-ok (decode_segment segment) _ h in
      payload_sound lib segment payload is_payload h1

  verdict_complete : IsTrusted lib segment → jws_verdict lib platform segment lp android ≡ ok tt
  unfolding jws_verdict
  verdict_complete t = rw t.is_payload (payload_complete lib segment t)

  -- On Android, a token of three parts is accepted exactly if its second part decodes to claims with
  -- basic integrity and a CTS profile match, and no verdict among them is rejected.
  pub verify_play_iff :
      (verify_attestation lib platform ((header ++ b'.' ∷ segment) ++ b'.' ∷ signature) ≡ ok tt)
      ↔ IsTrusted lib segment
  verify_play_iff =
      (λ h. verdict_sound (sym verdict_android ∙ h), λ t. verdict_android ∙ verdict_complete t)
