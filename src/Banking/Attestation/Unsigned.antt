-- ===== src/Banking/Attestation/Unsigned.antt =====
-- What the verdict does not rest on.
use go_api_management.Base.{
  false, ◌≡◌, ◌≢◌, refl, ap, sym, ◌∙◌, length, [], ◌∷◌, ◌++◌, Bytes, codes, is_empty, Lacks, str_eq,
  str_eq_iff, arith, Bool-cases, inl, inr,
}
use go_api_management.Errors.{Result, ◌>>=◌, ◌>>◌, refuse, message_of}
use go_api_management.Strings.{split}
use go_api_management.Banking.Jwt.Parts.{split_three}
use go_api_management.Banking.Attestation.{is_denied}
use go_api_management.Banking.Attestation.{
  AttestationLibrary, Platform, verify_attestation, platform_of, check_token, check_payload,
  decode_segment, is_other,
}

abbrev jws : Bytes → Bytes → Bytes → Bytes
jws header segment signature = (header ++ b'.' ∷ segment) ++ b'.' ∷ signature

-- Tokens that part differently are not the same.
str_eq_parted : (s t : Bytes) → length (split b'.' s) ≢ length (split b'.' t) → str_eq s t ≡ false
str_eq_parted s t h = elim (Bool-cases (str_eq s t)) [
  | inl same ↦ absurd (h (ap (λ u. length (split b'.' u)) ((str_eq_iff s t).0 same)))
  | inr other ↦ other
]

is_empty-jws : (h s t : Bytes) → is_empty (jws h s t) ≡ false
is_empty-jws [] s t = refl
is_empty-jws (c ∷ h) s t = refl

module _ (header segment signature : Bytes) (lh : Lacks b'.' header) (lp : Lacks b'.' segment)
    (ls : Lacks b'.' signature) where
  jws_ne_single :
      (t : Bytes) → length (split b'.' t) ≡ 1 → str_eq (jws header segment signature) t ≡ false
  jws_ne_single t one =
      str_eq_parted (jws header segment signature) t
        (rw (split_three b'.' header segment signature lh lp ls, one) (omega arith))

  is_denied-jws : is_denied (jws header segment signature) ≡ false
  unfolding is_denied
  is_denied-jws = rw (
    jws_ne_single (codes "compromised-device") (unfold split in refl),
    jws_ne_single (codes "invalid-token") (unfold split in refl),
  )

module _ (lib : AttestationLibrary) (platform segment : Bytes) (lp : Lacks b'.' segment) where
  -- the verdict on a token of three parts, from the platform and the second part alone
  unfoldable pub jws_verdict : Platform → Result (Unit {0})
  jws_verdict p = do
    refuse (is_other p) (message_of "unsupported platform" platform)
    payload ← decode_segment segment
    check_payload lib p payload

  pub verify-jws :
      (header signature : Bytes)
      → Lacks b'.' header
      → Lacks b'.' signature
      → verify_attestation lib platform (jws header segment signature)
        ≡ jws_verdict (platform_of lib platform)
  unfolding verify_attestation jws_verdict check_token
  verify-jws header signature lh ls =
      let parts = split_three b'.' header segment signature lh lp ls in
      rw
        (
          is_empty-jws header segment signature,
          is_denied-jws header segment signature lh lp ls,
          parts,
        )
        refl

-- The header and the signature of a token of three parts have no part in the verdict: they may be
-- replaced by any others.
pub verify_attestation_unsigned :
    (lib : AttestationLibrary) (platform header header' segment signature signature' : Bytes)
    → Lacks b'.' header
    → Lacks b'.' header'
    → Lacks b'.' segment
    → Lacks b'.' signature
    → Lacks b'.' signature'
    → verify_attestation lib platform ((header ++ b'.' ∷ segment) ++ b'.' ∷ signature)
      ≡ verify_attestation lib platform ((header' ++ b'.' ∷ segment) ++ b'.' ∷ signature')
verify_attestation_unsigned lib platform header header' segment signature signature' h h' p s s' =
    verify-jws lib platform segment p header signature h s
    ∙ sym (verify-jws lib platform segment p header' signature' h' s')
