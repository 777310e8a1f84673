-- ===== src/Examples/Keys.antt =====
-- The registration of a key at a concrete input.
use go_api_management.Examples.Edge.{posted_transfer}
use go_api_management.Banking.Handler.Registration.{with_verifier, IsRegistered, register_200_iff}
use go_api_management.Banking.Handler.{BodyDecoder, register_device}
use go_api_management.Http.{Request, fresh}
use mathlib.Core.Path.{subst}
use go_api_management.Examples.Journey.{signs}
use go_api_management.Banking.Jwt.RoundTrip.{verify-generate}
use go_api_management.Banking.Jwt.Verify.{verify_jwt_iff}
use go_api_management.Banking.Jwt.{generate_internal_jwt, verify_internal_jwt}
use go_api_management.Banking.Service.Execute.{Signs, execute_iff}
use go_api_management.Examples.Transfers.{device_key, device_library, transfer, attestation_library}
use go_api_management.Banking.KeyRepository.Revoked.{RevokeLaws, revoked_unused}
use go_api_management.Base.{
  ℕ, ◌≡◌, refl, codes, List, [], ◌∷◌, none, some, true, Any, inl, inr, ◌≢◌, Bytes, All,
  if◌then◌else◌, str_eq, Bool-cases, str_eq_iff, pos, here, ◌↔◌, arith,
}
use go_api_management.Errors.{ok, err, foreign}
use go_api_management.Errors.Laws.{ok-injective}
use go_api_management.Banking.{SecureEnclaveKey, RegisterDeviceRequest}
use go_api_management.Banking.Signature.{ecdsa, p256}
use go_api_management.Banking.Jwt.Sample.{sample_library, sample_laws, sample-IsText}
use go_api_management.Banking.Service.{
  Ports, answered, register_device_key, execute_intranet_transfer, execute_scope,
}
use go_api_management.Banking.KeyRepository.{
  KeyTable, no_key, with_repository, save_key, get_keys_by_user_id, delete_key,
}
use go_api_management.Banking.KeyRepository.Registered.{KeyTableLaws, registered_found, IsKeptAs}

abbrev key : SecureEnclaveKey
key = record {
  id = codes "k1";
  user_id = [];
  public_key_pem = codes "pem";
  algorithm = codes "ES256";
  registered_at = 0;
}

-- A table that is the list of its rows.
abbrev key_table : KeyTable (List SecureEnclaveKey)
key_table = record {
  insert_row = λ k w. (ok tt, k ∷ w);
  select_row = λ id w. (no_key, w);
  select_of_user = λ u w. (ok w, w);
  delete_row = λ id w. (ok (some 0), w);
}

key_table_laws : KeyTableLaws key_table
key_table_laws = record {
  rows = λ w. w;
  insert-rows = λ k w h. (
    k,
    record {
      same_id = refl;
      same_user = refl;
      same_pem = refl;
      same_algorithm = refl;
      not_later = omega arith;
      not_earlier = omega arith;
    },
    refl,
  );
  select-rows = λ k w ks x h. rw (← ok-injective h) x;
}

abbrev key_ports : Ports (List SecureEnclaveKey)
key_ports = record {
  save_key = λ k w. (err (foreign 0), w);
  get_keys_by_user_id = λ u w. (err (foreign 0), w);
  verify_attestation = λ p t. ok tt;
  new_request = λ out. ok tt;
  send = λ out w. (answered 200 [], w);
  execute = λ f w. f w;
  now = λ w. 7;
  marshal_payload = λ p. ok p.id;
  tokens = sample_library;
  keys = record {
    Key = ℕ;
    pem_decode = λ s. some s;
    parse_pkix = λ s. ok (ecdsa p256 7);
    sha256 = λ s. s;
    verify = λ k hash r s. true;
    verify_asn1 = λ k hash sig. true;
    asn1_pair = λ s. none;
  };
  shared_secret = codes "key";
  private_url = codes "intranet";
}

registered_found_example :
    (key_ports.verify_attestation (codes "ios") (codes "t") ≡ ok tt)
    × Any
        (IsKeptAs record key { user_id = codes "u1"; registered_at = 7 })
        (record key { user_id = codes "u1"; registered_at = 7 } ∷ [])
registered_found_example =
    registered_found key_table key_table_laws key_ports (codes "u1") key (codes "ios") (codes "t")
      [] (unfold register_device_key in unfold with_repository in unfold save_key in refl)
      (record key { user_id = codes "u1"; registered_at = 7 } ∷ [])
      (unfold register_device_key in
        unfold with_repository in unfold save_key in unfold get_keys_by_user_id in refl)

-- A table of which the rows with the identifier are dropped, and its queries give all rows.
abbrev without : Bytes → List SecureEnclaveKey → List SecureEnclaveKey
without id [] = []
without id (k ∷ ks) = let rest = without id ks in if str_eq k.id id then rest else k ∷ rest

abbrev revoking_table : KeyTable (List SecureEnclaveKey)
revoking_table = record {
  insert_row = λ k w. (ok tt, k ∷ w);
  select_row = λ id w. (no_key, w);
  select_of_user = λ u w. (ok w, w);
  delete_row = λ id w. (ok (some 1), without id w);
}

without-All : (id : Bytes) (w : List SecureEnclaveKey) → All (λ k. k.id ≢ id) (without id w)
without-All id [] = tt
without-All id (k ∷ ks) = elim (Bool-cases (str_eq k.id id)) [
  | inl same ↦ rw same (without-All id ks)
  | inr other ↦ rw other ((λ e. cc ((str_eq_iff k.id id).1 e, other)), without-All id ks)
]

revoking_laws : RevokeLaws revoking_table
revoking_laws = record {
  rows = λ w. w;
  delete-rows = λ id w n h. without-All id w;
  select-All = λ u w ks P all h. subst (All P) (ok-injective h) all;
}

abbrev two_keys : List SecureEnclaveKey
two_keys = record device_key { id = codes "k2" } ∷ device_key ∷ []

abbrev pub revoking_ports : Ports (List SecureEnclaveKey)
revoking_ports = record key_ports { now = λ w. 5000000000; keys = device_library }

pub issued_token :
    (t : Bytes) × (generate_internal_jwt sample_library
        (codes "u1")
        (execute_scope ∷ [])
        (codes "key")
        60000000000
        5000000000
      ≡ ok t)
    × (verify_internal_jwt sample_library t (codes "key") 5000000000
        ≡ ok (record {
          subject = codes "u1";
          expires_at = pos 65;
          issued_at = pos 5;
          scopes = execute_scope ∷ [];
        }))
unfolding sample_library
issued_token =
    verify-generate sample_library sample_laws (codes "u1") (codes "key") (execute_scope ∷ [])
      60000000000 5000000000 5000000000 (cc) (sample-IsText (codes "u1"))
      (sample-IsText execute_scope, tt)

still_executed :
    (execute_intranet_transfer
      (with_repository revoking_table revoking_ports)
      issued_token.0
      transfer
      (delete_key revoking_table (codes "k1") two_keys).1).0
    ≡ ok tt
unfolding with_repository delete_key str_eq
still_executed =
    (execute_iff (with_repository revoking_table revoking_ports) issued_token.0 transfer
        (delete_key revoking_table (codes "k1") two_keys).1).1
      (record {
        claims = record {
          subject = codes "u1";
          expires_at = pos 65;
          issued_at = pos 5;
          scopes = execute_scope ∷ [];
        };
        authentic =
            (verify_jwt_iff sample_library issued_token.0 (codes "key") 5000000000 _).0
              issued_token.2;
        scoped = here refl;
        keys = record device_key { id = codes "k2" } ∷ [];
        found = unfold get_keys_by_user_id in refl;
        signed = here signs;
      })

revoked_unused_example :
    (key : SecureEnclaveKey) × Signs device_library transfer key
    × (key.id ≢ codes "k1")
    × Any
        (λ row. row ≡ key)
        (revoking_laws.rows (delete_key revoking_table (codes "k1") two_keys).1)
revoked_unused_example =
    revoked_unused revoking_table revoking_laws revoking_ports (codes "k1") two_keys issued_token.0
      transfer (unfold delete_key in refl) still_executed

abbrev mock_registration : RegisterDeviceRequest
mock_registration = record {
  id = codes "k1";
  public_key_pem = codes "pem";
  algorithm = codes "ECDSA_P256";
  platform = codes "ios";
  attestation_token = codes "valid-mock-token";
}

abbrev registration_decoder : BodyDecoder
registration_decoder = record {
  decode_registration = λ b. ok mock_registration;
  decode_transfer = λ b. err (foreign 0);
}

abbrev registering : Request
registering = record posted_transfer {
  path = codes "/auth/register-device";
  claims = ok (some (codes "u1"));
}

register_200_iff_example :
    ((register_device
        (with_verifier attestation_library key_ports)
        registration_decoder
        registering
        ([], fresh)).1.status
      ≡ some 200)
    ↔ IsRegistered attestation_library key_ports registration_decoder registering []
register_200_iff_example =
    register_200_iff attestation_library key_ports registration_decoder registering []
