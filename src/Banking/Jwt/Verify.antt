-- ===== src/Banking/Jwt/Verify.antt =====
-- When a token is accepted.
use go_api_management.Base.{
  ℕ, not_empty, is_empty-ne, not-eq-false, false, not, ◌≡◌, ◌≢◌, ◌↔◌, ◌∙◌, refl, ap, List, [], ◌∷◌,
  ◌++◌, Bytes, is_empty, Option, some, none, str_eq, str_eq_iff, str_eq_refl, Lacks,
}
use go_api_management.Strings.{split}
use go_api_management.Errors.{ok, refuse, wrapping}
use go_api_management.Errors.Laws.{>>=-eq-ok, refuse-eq-ok, wrapping-eq-ok, ok-injective}
use go_api_management.Encoding.Base64.{url, decode_raw}
use go_api_management.Encoding.Base64.RoundTrip.{encode_raw-Lacks_dot}
use go_api_management.Banking.Jwt.{
  TokenLibrary, InternalJwtClaims, is_expired, signature_of, decoded, verify_parts,
  verify_internal_jwt,
}
use go_api_management.Banking.Jwt.Parts.{split_three, of_split_three, parts-Lacks}

-- The token is a header, the claims and the signature of the two under the secret; the claims are
-- what the second part holds, and they have not expired.
pub record IsAuthentic (lib : TokenLibrary) (token secret : Bytes) (now : ℕ)
    (claims : InternalJwtClaims) : Type 0 where
  pub secret_given : secret ≢ []
  pub header : Bytes
  pub body : Bytes
  pub header-Lacks : Lacks b'.' header
  pub body-Lacks : Lacks b'.' body
  pub is_token :
      token ≡ (header ++ b'.' ∷ body) ++ b'.' ∷ signature_of lib secret (header ++ b'.' ∷ body)
  pub payload : Bytes
  pub is_payload : decode_raw url body ≡ some payload
  pub is_claims : lib.unmarshal_claims payload ≡ ok claims
  pub in_time : is_expired now claims.expires_at ≡ false

decoded-eq-ok : (o : Option Bytes) {s : Bytes} → decoded o ≡ ok s → o ≡ some s
decoded-eq-ok none h = cc
decoded-eq-ok (some t) h = ap some (ok-injective h)

module _ (lib : TokenLibrary) (token secret : Bytes) (now : ℕ) (claims : InternalJwtClaims) where
  signature_of-Lacks : (input : Bytes) → Lacks b'.' (signature_of lib secret input)
  unfolding signature_of
  signature_of-Lacks input = encode_raw-Lacks_dot (lib.hmac_sha256 secret input)

  three_parts :
      (parts : List Bytes)
      → split b'.' token ≡ parts
      → secret ≢ []
      → verify_parts lib secret now parts ≡ ok claims
      → IsAuthentic lib token secret now claims
  unfolding verify_parts
  three_parts (header ∷ body ∷ sig ∷ []) e given h =
      let (_, signed, h1) = >>=-eq-ok (refuse (not (str_eq sig _)) _) _ h in
      let (payload, is_payload, h2) = >>=-eq-ok (decoded (decode_raw url body)) _ h1 in
      let (c, is_claims, h3) = >>=-eq-ok (wrapping _ (lib.unmarshal_claims payload)) _ h2 in
      let (_, in_time, h4) = >>=-eq-ok (refuse (is_expired now c.expires_at) _) _ h3 in
      let same : c ≡ claims = ok-injective h4 in
      let is_sig = (str_eq_iff sig _).0 (not-eq-false _ (refuse-eq-ok _ _ signed)) in
      let clean = parts-Lacks b'.' header body sig token e in
      record {
        secret_given = given;
        header = header;
        body = body;
        header-Lacks = clean.0;
        body-Lacks = clean.1;
        is_token =
            of_split_three b'.' header body sig token e
            ∙ ap (λ s. (header ++ b'.' ∷ body) ++ b'.' ∷ s) is_sig;
        payload = payload;
        is_payload = decoded-eq-ok (decode_raw url body) is_payload;
        is_claims = wrapping-eq-ok _ _ is_claims ∙ ap ok same;
        in_time = rw (← same) (refuse-eq-ok _ _ in_time);
      }
  three_parts _ e given h = cc

  verify_sound :
      verify_internal_jwt lib token secret now ≡ ok claims → IsAuthentic lib token secret now claims
  unfolding verify_internal_jwt
  verify_sound h =
      let (_, given, h1) = >>=-eq-ok (refuse (is_empty secret) _) _ h in
      three_parts (split b'.' token) refl (not_empty secret (refuse-eq-ok _ _ given)) h1

  verify_complete :
      IsAuthentic lib token secret now claims → verify_internal_jwt lib token secret now ≡ ok claims
  unfolding verify_internal_jwt
  verify_complete a =
      let parts =
        ap (split b'.') a.is_token
        ∙ split_three b'.' a.header a.body _ a.header-Lacks a.body-Lacks (signature_of-Lacks _) in
      rw (
        is_empty-ne secret a.secret_given,
        parts,
        str_eq_refl,
        a.is_payload,
        a.is_claims,
        a.in_time,
      )

  -- A token is accepted with these claims exactly if it is authentic.
  pub verify_jwt_iff :
      (verify_internal_jwt lib token secret now ≡ ok claims)
      ↔ IsAuthentic lib token secret now claims
  verify_jwt_iff = (verify_sound, verify_complete)
