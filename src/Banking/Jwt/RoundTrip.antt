-- ===== src/Banking/Jwt/RoundTrip.antt =====
-- A token that the edge generates, as the intranet verifies it.
use go_api_management.Base.{
  ℕ, ◌+◌, ◌/◌, ◌≡◌, ◌≢◌, refl, List, [], ◌∷◌, ◌++◌, Bytes, is_empty-ne, if◌then◌else◌, str_eq_refl,
  All, pos, ltb, arith,
}
use go_api_management.Strings.{split}
use go_api_management.Errors.{message, ok, err}
use go_api_management.Encoding.Base64.{url, encode_raw}
use go_api_management.Encoding.Base64.RoundTrip.{
  IsBytes, encode_raw-Lacks_dot, decode_raw-encode_raw,
}
use go_api_management.Banking.Jwt.{
  TokenLibrary, InternalJwtClaims, is_expired, signature_of, issued_claims, header_b64, second,
  generate_internal_jwt, verify_internal_jwt,
}
use go_api_management.Banking.Jwt.Parts.{split_three}

-- `encoding/json` writes bytes, and reads claims of valid UTF-8 back as they were.
pub record JsonLaws (lib : TokenLibrary) : Type 1 where
  pub IsText : Bytes → Type 0
  pub marshal-IsBytes : (c : InternalJwtClaims) → IsBytes (lib.marshal_claims c)
  pub unmarshal-marshal :
      (c : InternalJwtClaims)
      → IsText c.subject
      → All IsText c.scopes
      → lib.unmarshal_claims (lib.marshal_claims c) ≡ ok c

module _ (lib : TokenLibrary) (laws : JsonLaws lib) (subject secret : Bytes) (scopes : List Bytes)
    (ttl now later : ℕ) (given : secret ≢ []) (text : laws.IsText subject)
    (texts : All laws.IsText scopes) where
  abbrev pub issued : InternalJwtClaims
  issued = issued_claims lib subject scopes ttl now

  abbrev pub body : Bytes
  body = encode_raw url (lib.marshal_claims issued)

  abbrev pub token : Bytes
  token = (header_b64 ++ b'.' ∷ body) ++ b'.' ∷ signature_of lib secret (header_b64 ++ b'.' ∷ body)

  pub generated : generate_internal_jwt lib subject scopes secret ttl now ≡ ok token
  unfolding generate_internal_jwt
  generated = rw (is_empty-ne secret given) refl

  pub token_parts :
      split b'.' token
      ≡ header_b64 ∷ body ∷ signature_of lib secret (header_b64 ++ b'.' ∷ body) ∷ []
  unfolding header_b64 signature_of
  token_parts =
      split_three b'.' header_b64 body _ (encode_raw-Lacks_dot _) (encode_raw-Lacks_dot _)
        (encode_raw-Lacks_dot _)

  issued_back : lib.unmarshal_claims (lib.marshal_claims issued) ≡ ok issued
  unfolding issued_claims
  issued_back = laws.unmarshal-marshal issued text texts

  pub issued_scopes : issued.scopes ≡ scopes
  unfolding issued_claims
  issued_scopes = refl

  verdict :
      verify_internal_jwt lib token secret later
      ≡ (if is_expired later issued.expires_at then err (message "token is expired") else ok issued)
  unfolding verify_internal_jwt
  verdict =
      rw
        (
          is_empty-ne secret given,
          token_parts,
          str_eq_refl,
          decode_raw-encode_raw (lib.marshal_claims issued) (laws.marshal-IsBytes issued),
          issued_back,
        )
        (ground arith)

  -- The edge's token is made, and under the same secret it gives its claims back, or is refused as
  -- expired from the second after the one in which its time runs out.
  pub verify-generate :
      (t : Bytes) × (generate_internal_jwt lib subject scopes secret ttl now ≡ ok t)
      × (verify_internal_jwt lib t secret later ≡ (
          if ltb ((now + ttl) / second) (later / second)
          then err (message "token is expired")
          else ok (record {
            subject = subject;
            expires_at = pos ((now + ttl) / second);
            issued_at = pos (now / second);
            scopes = scopes;
          })))
  unfolding issued_claims
  verify-generate = (token, generated, verdict)
