-- ===== src/Banking/Handler/Registration.antt =====
-- RegisterDevice over the attestation verifier: which requests register a key.
use go_api_management.Banking.Handler.Execution.{reply_200}
use go_api_management.Http.Status.{other_status}
use go_api_management.Errors.Laws.{Result-cases, wrapping-eq-ok}
use go_api_management.Errors.{ok}
use go_api_management.Http.{Request, fresh}
use go_api_management.Banking.Service.{Ports, register_device_key}
use go_api_management.Banking.Attestation.{AttestationLibrary, verify_attestation}
use go_api_management.Banking.Handler.{
  incomplete, BodyDecoder, key_of_request, register_for, register_device, extract_subject,
}
use go_api_management.Banking.{RegisterDeviceRequest, SecureEnclaveKey}
use go_api_management.Base.{
  Bytes, refl, [], some, none, false, inl, inr, ◌≡◌, ◌≢◌, arith, ◌↔◌, not_empty, is_empty-ne,
  Bool-cases,
}
use go_api_management.Banking.Attestation.Verdict.{IsAttested, verify_attestation_iff}

-- The banking service over the verifier of devices.
abbrev pub with_verifier : {W : Type 0} → AttestationLibrary → Ports W → Ports W
with_verifier lib ports = record ports { verify_attestation = verify_attestation lib }

abbrev IsFilled : RegisterDeviceRequest → Type 0
IsFilled req =
    (req.id ≢ [])
    × (req.public_key_pem ≢ [])
    × (req.algorithm ≢ [])
    × (req.platform ≢ [])
    × (req.attestation_token ≢ [])

incomplete_iff : (req : RegisterDeviceRequest) → (incomplete req ≡ false) ↔ IsFilled req
unfolding incomplete
incomplete_iff req = (
  λ h. (
    not_empty req.id (ground arith),
    not_empty req.public_key_pem (ground arith),
    not_empty req.algorithm (ground arith),
    not_empty req.platform (ground arith),
    not_empty req.attestation_token (ground arith),
  ),
  λ f.
      rw
        (
          is_empty-ne req.id f.0,
          is_empty-ne req.public_key_pem f.1,
          is_empty-ne req.algorithm f.2,
          is_empty-ne req.platform f.3,
          is_empty-ne req.attestation_token f.4,
        )
        refl,
)

module _ {W : Type 0} (lib : AttestationLibrary) (ports : Ports W) (decoder : BodyDecoder)
    (r : Request) (s : W) where
  abbrev key_for : Bytes → RegisterDeviceRequest → SecureEnclaveKey
  key_for user_id req = record {
    id = req.id;
    user_id = user_id;
    public_key_pem = req.public_key_pem;
    algorithm = req.algorithm;
    registered_at = ports.now s;
  }

  -- The token of the request names a user, the body is a full registration, the device is attested, and
  -- the key is saved for the user.
  pub record IsRegistered : Type 0 where
    pub user_id : Bytes
    pub named : r.claims ≡ ok (some user_id)
    pub req : RegisterDeviceRequest
    pub is_req : decoder.decode_registration r.body ≡ ok req
    pub filled : IsFilled req
    pub attested : IsAttested lib req.platform req.attestation_token
    pub saved : (ports.save_key (key_for user_id req) s).0 ≡ ok tt

  service_sound :
      (user_id : Bytes) (req : RegisterDeviceRequest)
      → (register_device_key
          (with_verifier lib ports)
          user_id
          (key_of_request req)
          req.platform
          req.attestation_token
          s).0
        ≡ ok tt
      → IsAttested lib req.platform req.attestation_token
        × ((ports.save_key (key_for user_id req) s).0 ≡ ok tt)
  unfolding register_device_key
  service_sound user_id req h =
      elim (Result-cases (verify_attestation lib req.platform req.attestation_token)) [
        | inl (e, rejected) ↦ absurd (cc (rejected, h))
        | inr (_, passed) ↦ (
          (verify_attestation_iff lib req.platform req.attestation_token).0 passed,
          wrapping-eq-ok _ _ (rw (passed, register_device_key) at h),
        )
      ]

  service_complete :
      (user_id : Bytes) (req : RegisterDeviceRequest)
      → IsAttested lib req.platform req.attestation_token
      → (ports.save_key (key_for user_id req) s).0 ≡ ok tt
      → (register_device_key
          (with_verifier lib ports)
          user_id
          (key_of_request req)
          req.platform
          req.attestation_token
          s).0
        ≡ ok tt
  unfolding register_device_key
  service_complete user_id req attested saved =
      rw
        (
          (verify_attestation_iff lib req.platform req.attestation_token).1 attested,
          register_device_key,
          saved,
        )
        refl

  answered_sound :
      (user_id : Bytes)
      → r.claims ≡ ok (some user_id)
      → (register_for (with_verifier lib ports) decoder user_id r (s, fresh)).1.status ≡ some 200
      → IsRegistered
  unfolding register_for
  answered_sound user_id named h = elim (Result-cases (decoder.decode_registration r.body)) [
    | inl (e, bad) ↦ absurd (other_status (rw (bad, register_for) at h) (omega arith))
    | inr (req, good) ↦ elim (Bool-cases (incomplete req)) [
      | inl missing ↦ absurd (other_status (rw (good, register_for, missing) at h) (omega arith))
      | inr full ↦
          let (attested, saved) = service_sound user_id req (
            reply_200 403 _
              (register_device_key (with_verifier lib ports) user_id (key_of_request req)
                req.platform req.attestation_token s)
              (omega arith) (rw (good, register_for, full) at h)) in
          record {
            user_id = user_id;
            named = named;
            req = req;
            is_req = good;
            filled = (incomplete_iff req).0 full;
            attested = attested;
            saved = saved;
          }
    ]
  ]

  registered_sound :
      (register_device (with_verifier lib ports) decoder r (s, fresh)).1.status ≡ some 200
      → IsRegistered
  unfolding register_device extract_subject
  registered_sound h = elim (Result-cases r.claims) [
    | inl (e, none_) ↦ absurd (other_status (rw (none_, register_device) at h) (omega arith))
    | inr (none, none_) ↦ absurd (other_status (rw (none_, register_device) at h) (omega arith))
    | inr (some user_id, named) ↦ answered_sound user_id named (rw (named, register_device) at h)
  ]

  registered_complete :
      IsRegistered
      → (register_device (with_verifier lib ports) decoder r (s, fresh)).1.status ≡ some 200
  unfolding register_device extract_subject register_for
  registered_complete x =
      rw
        (
          x.named,
          register_device,
          x.is_req,
          register_for,
          (incomplete_iff x.req).1 x.filled,
          service_complete x.user_id x.req x.attested x.saved,
        )
        refl

  -- On a fresh response, RegisterDevice answers 200 exactly if the token names a user, the body is a full
  -- registration, the verifier takes the device for attested, be it by the word "valid-mock-token", and
  -- the key is saved for that user with the time of the call.
  pub register_200_iff :
      ((register_device (with_verifier lib ports) decoder r (s, fresh)).1.status ≡ some 200)
      ↔ IsRegistered
  register_200_iff = (registered_sound, registered_complete)
