-- ===== src/Examples/Tokens.antt =====
-- The internal token and the signature check at concrete inputs.
use go_api_management.Base.{
  ℕ, ◌≡◌, ◌↔◌, refl, arith, codes, [], ◌∷◌, none, some, Bytes, true, pos, str_eq,
}
use go_api_management.Errors.{ok}
use go_api_management.Banking.{TransferPayload}
use go_api_management.Banking.Jwt.{generate_internal_jwt, verify_internal_jwt}
use go_api_management.Banking.Jwt.Verify.{IsAuthentic, verify_jwt_iff}
use go_api_management.Banking.Jwt.RoundTrip.{verify-generate}
use go_api_management.Banking.Jwt.Sample.{sample_library, sample_laws, sample-IsText}
use go_api_management.Banking.Signature.{
  KeyLibrary, ecdsa, p256, canonical_transfer_bytes, verify_enclave_signature,
}
use go_api_management.Banking.Signature.Canonical.{
  IsColonFree, canonical_injective, verify_ambiguous,
}
use go_api_management.Banking.Signature.Accepts.{Accepts, verify_iff}

verify-generate_example :
    (t : Bytes) × (generate_internal_jwt sample_library
        (codes "u1")
        (codes "transfer:execute" ∷ [])
        (codes "key")
        60000000000
        5000000000
      ≡ ok t)
    × (verify_internal_jwt sample_library t (codes "key") 9000000000
        ≡ ok (record {
          subject = codes "u1";
          expires_at = pos 65;
          issued_at = pos 5;
          scopes = codes "transfer:execute" ∷ [];
        }))
unfolding sample_library
verify-generate_example =
    verify-generate sample_library sample_laws (codes "u1") (codes "key")
      (codes "transfer:execute" ∷ []) 60000000000 5000000000 9000000000 (cc)
      (sample-IsText (codes "u1")) (sample-IsText (codes "transfer:execute"), tt)

verify_jwt_iff_example :
    (verify_internal_jwt sample_library (codes "a.b.c") (codes "key") 7
      ≡ ok (record { subject = []; expires_at = pos 0; issued_at = pos 0; scopes = [] }))
    ↔ IsAuthentic sample_library
        (codes "a.b.c")
        (codes "key")
        7
        (record { subject = []; expires_at = pos 0; issued_at = pos 0; scopes = [] })
verify_jwt_iff_example =
    verify_jwt_iff sample_library (codes "a.b.c") (codes "key") 7
      (record { subject = []; expires_at = pos 0; issued_at = pos 0; scopes = [] })

abbrev transfer : TransferPayload
transfer = record {
  id = codes "tx";
  sender_account = codes "1234567890";
  receiver_account = codes "9876543210";
  amount_cents = pos 1500;
  currency = codes "USD";
  timestamp = record { unix = pos 1700000000; nanos = 0 };
  signature = codes "00ff";
}

transfer-IsColonFree : IsColonFree transfer
transfer-IsColonFree = omega arith

canonical_injective_example :
    (codes "1234567890" ≡ codes "1234567890")
    × (codes "9876543210" ≡ codes "9876543210")
    × (pos 1500 ≡ pos 1500)
    × (codes "USD" ≡ codes "USD")
    × (pos 1700000000 ≡ pos 1700000000)
canonical_injective_example =
    canonical_injective transfer (record transfer { id = codes "other" }) transfer-IsColonFree
      (omega arith) (unfold canonical_transfer_bytes in refl)

-- A library whose key verifies every signature over a text that has a first byte.
abbrev keys : KeyLibrary
keys = record {
  Key = ℕ;
  pem_decode = λ s. some s;
  parse_pkix = λ s. ok (ecdsa p256 7);
  sha256 = λ s. s;
  verify = λ k hash r s. true;
  verify_asn1 = λ k hash sig. str_eq sig (0 ∷ 255 ∷ []);
  asn1_pair = λ s. none;
}

verify_ambiguous_example :
    verify_enclave_signature keys
      (codes "pem")
      (some (record transfer { sender_account = codes "1:2"; receiver_account = codes "3" }))
    ≡ verify_enclave_signature keys (codes "pem") (
        some (record transfer {
          id = codes "ty";
          sender_account = codes "1";
          receiver_account = codes "2:3";
        }))
verify_ambiguous_example =
    verify_ambiguous keys (codes "pem") transfer (codes "1") (codes "2") (codes "3") (codes "ty")

verify_iff_example :
    (verify_enclave_signature keys (codes "pem") (some transfer) ≡ ok tt)
    ↔ Accepts keys (codes "pem") transfer
verify_iff_example = verify_iff keys (codes "pem") transfer
