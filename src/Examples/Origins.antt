-- ===== src/Examples/Origins.antt =====
-- A registration and a transfer behind it, over a table that is the list of its rows.
use go_api_management.Errors.Laws.{ok-injective}
use go_api_management.Errors.{ok}
use go_api_management.Banking.{SecureEnclaveKey}
use go_api_management.Banking.KeyRepository.{
  KeyTable, with_repository, save_key, no_key, get_keys_by_user_id,
}
use go_api_management.Banking.KeyRepository.Origin.{
  RowLaws, Registration, Runs, starts, registers, engine, IsFrom, executed_registered,
}
use go_api_management.Examples.Keys.{revoking_ports, issued_token}
use go_api_management.Examples.Transfers.{device_key, device_library, transfer}
use go_api_management.Examples.Journey.{signs}
use go_api_management.Banking.Service.{
  execute_intranet_transfer, register_device_key, execute_scope,
}
use go_api_management.Banking.Service.Execute.{Signs, execute_iff}
use go_api_management.Banking.Jwt.{InternalJwtClaims}
use go_api_management.Banking.Jwt.Verify.{IsAuthentic, verify_jwt_iff}
use go_api_management.Banking.Jwt.Sample.{sample_library}
use mathlib.Core.Path.{subst}
use go_api_management.Base.{
  List, here, refl, [], ◌∷◌, some, inl, inr, ◌≡◌, codes, str_eq, Bytes, All, if◌then◌else◌, Any,
  pos, Bool-cases, str_eq_iff,
}

abbrev of_user : Bytes → List SecureEnclaveKey → List SecureEnclaveKey
of_user u [] = []
of_user u (k ∷ ks) = let rest = of_user u ks in if str_eq k.user_id u then k ∷ rest else rest

abbrev other_ids : Bytes → List SecureEnclaveKey → List SecureEnclaveKey
other_ids id [] = []
other_ids id (k ∷ ks) = let rest = other_ids id ks in if str_eq k.id id then rest else k ∷ rest

abbrev listed : KeyTable (List SecureEnclaveKey)
listed = record {
  insert_row = λ k w. (ok tt, k ∷ w);
  select_row = λ id w. (no_key, w);
  select_of_user = λ u w. (ok (of_user u w), w);
  delete_row = λ id w. (ok (some 1), other_ids id w);
}

of_user-All :
    (u : Bytes) (w : List SecureEnclaveKey) (P : SecureEnclaveKey → Type 0)
    → All P w
    → All (λ k. P k × (k.user_id ≡ u)) (of_user u w)
of_user-All u [] P all = tt
of_user-All u (k ∷ ks) P (first, rest) = elim (Bool-cases (str_eq k.user_id u)) [
  | inl same ↦ rw same ((first, (str_eq_iff k.user_id u).0 same), of_user-All u ks P rest)
  | inr other ↦ rw other (of_user-All u ks P rest)
]

other_ids-All :
    (id : Bytes) (w : List SecureEnclaveKey) (P : SecureEnclaveKey → Type 0)
    → All P w
    → All P (other_ids id w)
other_ids-All id [] P all = tt
other_ids-All id (k ∷ ks) P (first, rest) = elim (Bool-cases (str_eq k.id id)) [
  | inl same ↦ rw same (other_ids-All id ks P rest)
  | inr other ↦ rw other (first, other_ids-All id ks P rest)
]

abbrev listed_laws : RowLaws listed
listed_laws = record {
  rows = λ w. w;
  insert-rows = λ key w P new all.
      (new key record { same_id = refl; same_user = refl; same_pem = refl }, all);
  delete-rows = λ id w P all. other_ids-All id w P all;
  select-rows = λ u w P all. all;
  select-All = λ u w keys P all h.
      subst (All (λ k. P k × (k.user_id ≡ u))) (ok-injective h) (of_user-All u w P all);
}

abbrev asked : Registration
asked = record {
  user_id = codes "u1";
  key = device_key;
  platform = codes "ios";
  attestation_token = codes "t";
}

abbrev registered_world : List SecureEnclaveKey
registered_world =
    (register_device_key (engine listed revoking_ports) (codes "u1") device_key (codes "ios")
      (codes "t") []).1

abbrev sample_run : Runs listed revoking_ports [] (asked ∷ []) registered_world
sample_run = registers asked [] [] (starts refl refl) refl refl

is_executed :
    (execute_intranet_transfer
      (engine listed revoking_ports)
      issued_token.0
      transfer
      registered_world).0
    ≡ ok tt
unfolding with_repository register_device_key save_key str_eq
is_executed =
    (execute_iff (engine listed revoking_ports) issued_token.0 transfer registered_world).1
      (record {
        claims = record {
          subject = codes "u1";
          expires_at = pos 65;
          issued_at = pos 5;
          scopes = execute_scope ∷ [];
        };
        authentic =
            (verify_jwt_iff sample_library issued_token.0 (codes "key") 5000000000 _).0
              issued_token.2;
        scoped = here refl;
        keys = record device_key { registered_at = 5000000000 } ∷ [];
        found = unfold get_keys_by_user_id in refl;
        signed = here signs;
      })

executed_registered_example :
    (claims : InternalJwtClaims) × (key : SecureEnclaveKey) × IsAuthentic sample_library
      issued_token.0
      (codes "key")
      5000000000
      claims
    × Signs device_library transfer key
    × (key.user_id ≡ claims.subject)
    × Any (IsFrom listed revoking_ports key) (asked ∷ [])
executed_registered_example =
    executed_registered listed revoking_ports listed_laws [] (asked ∷ []) registered_world
      issued_token.0 transfer refl sample_run is_executed
