-- ===== src/Examples/Transfers.antt =====
-- A transfer on its way from the edge to the intranet, and a token of a device, at concrete inputs.
use go_api_management.Banking.Attestation.Verdict.{IsAttested, verify_attestation_iff}
use go_api_management.Base.{
  ℕ, ◌≡◌, ◌↔◌, ◌⊎◌, refl, arith, codes, List, [], ◌∷◌, ◌++◌, none, some, Bytes, true, pos, inr,
}
use go_api_management.Errors.{ok, err, foreign}
use go_api_management.Banking.{TransferPayload, SecureEnclaveKey}
use go_api_management.Banking.Signature.{KeyLibrary, ecdsa, p256}
use go_api_management.Banking.Jwt.RoundTrip.{token, generated}
use go_api_management.Banking.Jwt.Sample.{sample_library, sample_laws, sample-IsText}
use go_api_management.Banking.Attestation.{AttestationLibrary, verify_attestation}
use go_api_management.Banking.Attestation.Unsigned.{verify_attestation_unsigned}
use go_api_management.Banking.Service.{
  Ports, Outbound, answered, execute_intranet_transfer, prepare, execute_scope,
}
use go_api_management.Banking.Service.Execute.{MayExecute, execute_iff}
use go_api_management.Banking.Service.Initiate.{BreakerLaws, Stayed, Sent, Swapped, initiate_sends}

abbrev pub transfer : TransferPayload
transfer = record {
  id = codes "tx";
  sender_account = codes "1234567890";
  receiver_account = codes "9876543210";
  amount_cents = pos 1500;
  currency = codes "USD";
  timestamp = record { unix = pos 1700000000; nanos = 0 };
  signature = codes "00ff";
}

-- A library whose one key verifies every signature.
abbrev pub device_library : KeyLibrary
device_library = record {
  Key = ℕ;
  pem_decode = λ s. some s;
  parse_pkix = λ s. ok (ecdsa p256 7);
  sha256 = λ s. s;
  verify = λ k hash r s. true;
  verify_asn1 = λ k hash sig. true;
  asn1_pair = λ s. none;
}

abbrev pub device_key : SecureEnclaveKey
device_key = record {
  id = codes "k1";
  user_id = codes "u1";
  public_key_pem = codes "pem";
  algorithm = codes "ES256";
  registered_at = 5;
}

-- A world that is the list of the requests sent so far.
abbrev pub sample_ports : Ports (List Outbound)
sample_ports = record {
  save_key = λ k w. (ok tt, w);
  get_keys_by_user_id = λ u w. (ok (device_key ∷ []), w);
  verify_attestation = λ p t. ok tt;
  new_request = λ out. ok tt;
  send = λ out w. (answered 200 [], w ++ out ∷ []);
  execute = λ f w. f w;
  now = λ w. 5000000000;
  marshal_payload = λ p. ok p.id;
  tokens = sample_library;
  keys = device_library;
  shared_secret = codes "key";
  private_url = codes "intranet";
}

unfoldable pub sample_breaker : BreakerLaws sample_ports
sample_breaker = record {
  sent = λ w. w;
  sent-send = λ out w. refl;
  execute_cases = λ f w. inr (w, refl, refl, refl);
}

execute_iff_example :
    ((execute_intranet_transfer sample_ports (codes "a.b.c") transfer []).0 ≡ ok tt)
    ↔ MayExecute sample_ports (codes "a.b.c") transfer []
execute_iff_example = execute_iff sample_ports (codes "a.b.c") transfer []

initiate_sends_example :
    Stayed sample_ports sample_breaker (codes "u1") transfer []
    ⊎ ((out : Outbound) × Swapped sample_ports sample_breaker (codes "u1") transfer [] out
        × Sent sample_ports sample_breaker (codes "u1") transfer [] out)
initiate_sends_example = initiate_sends sample_ports sample_breaker (codes "u1") transfer []

abbrev pub attestation_library : AttestationLibrary
attestation_library = record {
  unicode_lower = λ s. s;
  unmarshal_play = λ s. err (foreign 0);
  unmarshal_attest = λ s. ok (record { app_id = s; receipt = []; robust = true });
}

verify_attestation_unsigned_example :
    verify_attestation attestation_library (codes "ios") (codes "h.YXBw.s")
    ≡ verify_attestation attestation_library (codes "ios") (codes "x.YXBw.forged")
verify_attestation_unsigned_example =
    verify_attestation_unsigned attestation_library (codes "ios") (codes "h") (codes "x")
      (codes "YXBw") (codes "s") (codes "forged") (omega arith) (omega arith) (omega arith)
      (omega arith) (omega arith)

abbrev pub sample_token : Bytes
sample_token =
    token sample_library sample_laws (codes "u1") (codes "key") (execute_scope ∷ []) 60000000000
      5000000000 5000000000 (cc) (sample-IsText (codes "u1")) (sample-IsText execute_scope, tt)

abbrev pub sample_request : Outbound
sample_request = record {
  url = codes "intranet";
  authorization = codes "Bearer " ++ sample_token;
  content_type = "application/json";
  body = codes "tx";
}

pub sample_request_lem : prepare sample_ports (codes "u1") transfer 5000000000 ≡ ok sample_request
unfolding prepare
sample_request_lem =
    rw
      (generated sample_library sample_laws (codes "u1") (codes "key") (execute_scope ∷ [])
        60000000000 5000000000 5000000000 (cc) (sample-IsText (codes "u1"))
        (sample-IsText execute_scope, tt))
      refl

verify_attestation_iff_example :
    (verify_attestation attestation_library (codes "android") (codes "h.YXBw.s") ≡ ok tt)
    ↔ IsAttested attestation_library (codes "android") (codes "h.YXBw.s")
verify_attestation_iff_example =
    verify_attestation_iff attestation_library (codes "android") (codes "h.YXBw.s")
