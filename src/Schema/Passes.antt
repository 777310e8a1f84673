-- ===== src/Schema/Passes.antt =====
-- Which requests reach the handler behind SchemaValidationMiddleware.
use go_api_management.Errors.Laws.{Result-cases}
use go_api_management.Http.Body.{
  read_and_buffer_body_lem, read_and_buffer_body-none, read_and_buffer_body-err,
}
use go_api_management.Schema.Faults.{IsAtFault, registration_fault, transfer_fault}
use go_api_management.Schema.Valid.{
  ValidRegistration, ValidTransfer, registration_iff, transfer_iff,
}
use go_api_management.Http.{Request, Handler, Writer}
use go_api_management.Schema.{
  PayloadJson, is_registration, intercept, is_transfer, decoded_check, registration_step,
  transfer_step, schema_validation, write_schema_error, check_registration, check_transfer,
}
use go_api_management.Errors.{Result, ok, Err, err}
use go_api_management.Base.{
  Bytes, refl, some, none, true, inl, inr, ◌≡◌, Option, String, ◌↔◌, ap, sym, Option-cases, ◌⊎◌,
  Bool-cases,
}

-- The body decodes to a payload that is valid.
pub record Carries {A : Type 0} (decode : Bytes → Result A) (P : A → Type 0) (r : Request)
    : Type 0 where
  pub text : Bytes
  pub is_body : r.body ≡ some (ok text)
  pub payload : A
  pub is_payload : decode text ≡ ok payload
  pub valid : P payload

-- A registration has a valid registration for its body, and a transfer a valid transfer.
pub record Conforms (lib : PayloadJson) (r : Request) : Type 0 where
  pub registration :
      is_registration r ≡ true → Carries lib.unmarshal_registration (ValidRegistration lib) r
  pub transfer : is_transfer r ≡ true → Carries lib.unmarshal_transfer ValidTransfer r

module _ {A : Type 0} (decode : Bytes → Result A) (check : A → Option (String × String))
    (P : A → Type 0) (check_iff : (a : A) → (check a ≡ none) ↔ P a) (r : Request) where
  abbrev checked : Bytes → Option (String × String)
  checked b = decoded_check check (decode b)

  intercept_sound :
      (r' : Request) → intercept checked r ≡ (none, r') → Carries decode P r × (r' ≡ r)
  unfolding intercept decoded_check
  intercept_sound r' h = elim (Option-cases r.body) [
    | inl e ↦ absurd (nothing_read e)
    | inr (err x, e) ↦ absurd (read_failed x e)
    | inr (ok b, e) ↦ read b e (rw (read_and_buffer_body_lem r b e, intercept) at h)
  ]
    where
      nothing_read : r.body ≡ none → ⊥
      nothing_read e = cc (e, h, read_and_buffer_body-none r e)

      read_failed : (x : Err) → r.body ≡ some (err x) → ⊥
      read_failed x e = cc (e, h, read_and_buffer_body-err r x e)

      read :
          (b : Bytes)
          → r.body ≡ some (ok b)
          → ◌≡◌ {A = Option (String × String) × Request} (checked b, r) (none, r')
          → Carries decode P r × (r' ≡ r)
      read b e pair = elim (Result-cases (decode b)) [
        | inl (x, bad) ↦ absurd (cc (bad, pair))
        | inr (a, good) ↦ (
          record {
            text = b;
            is_body = e;
            payload = a;
            is_payload = good;
            valid = (check_iff a).0 (ap (λ q. q.0) (rw good at pair));
          },
          sym (ap (λ q. q.1) pair),
        )
      ]

  intercept_complete : Carries decode P r → intercept checked r ≡ (none, r)
  unfolding intercept decoded_check
  intercept_complete c =
      rw
        (
          read_and_buffer_body_lem r c.text c.is_body,
          intercept,
          c.is_payload,
          (check_iff c.payload).1 c.valid,
        )
        refl

module _ (lib : PayloadJson) (r : Request) where
  abbrev NoViolation : Request → Type 0
  NoViolation r' = ◌≡◌ {A = Option (String × String) × Request} (registration_step lib r) (none, r')

  registration_sound :
      (r' : Request)
      → registration_step lib r ≡ (none, r')
      → (is_registration r ≡ true → Carries lib.unmarshal_registration (ValidRegistration lib) r)
        × (r' ≡ r)
  unfolding registration_step
  registration_sound r' h = elim (Bool-cases (is_registration r)) [
    | inl is ↦
        let (c, same) =
          intercept_sound lib.unmarshal_registration (check_registration lib)
            (ValidRegistration lib) (registration_iff lib) r r' (rw is at h) in
        ((λ _. c), same)
    | inr other ↦ ((λ is. cc (is, other)), ap (λ p. p.1) (sym (rw other at h)))
  ]

  registration_complete : Conforms lib r → registration_step lib r ≡ (none, r)
  unfolding registration_step
  registration_complete c = elim (Bool-cases (is_registration r)) [
    | inl is ↦ rw is (
        intercept_complete lib.unmarshal_registration (check_registration lib)
          (ValidRegistration lib) (registration_iff lib) r (c.registration is))
    | inr other ↦ rw other refl
  ]

  transfer_sound :
      (r' : Request)
      → transfer_step lib r ≡ (none, r')
      → (is_transfer r ≡ true → Carries lib.unmarshal_transfer ValidTransfer r) × (r' ≡ r)
  unfolding transfer_step
  transfer_sound r' h = elim (Bool-cases (is_transfer r)) [
    | inl is ↦
        let (c, same) =
          intercept_sound lib.unmarshal_transfer check_transfer ValidTransfer transfer_iff r r'
            (rw is at h) in
        ((λ _. c), same)
    | inr other ↦ ((λ is. cc (is, other)), ap (λ p. p.1) (sym (rw other at h)))
  ]

  transfer_complete : Conforms lib r → transfer_step lib r ≡ (none, r)
  unfolding transfer_step
  transfer_complete c = elim (Bool-cases (is_transfer r)) [
    | inl is ↦ rw is (
        intercept_complete lib.unmarshal_transfer check_transfer ValidTransfer transfer_iff r
          (c.transfer is))
    | inr other ↦ rw other refl
  ]

-- The answer that names the field at fault and what is wrong with it.
abbrev pub Refused : {W : Type 0} → PayloadJson → Request → W → Writer → W × Writer → Type 0
Refused lib r s w answer =
    (field : String) × (msg : String) × IsAtFault lib r field msg
    × (answer ≡ (s, write_schema_error 400 field msg w))

module _ {W : Type 0} (lib : PayloadJson) (next : Handler W) (r : Request) (s : W)
    (w : Writer) where
  abbrev outcome : W × Writer
  outcome = schema_validation lib next r (s, w)

  passes : Conforms lib r → outcome ≡ next r (s, w)
  unfolding schema_validation
  passes c = rw (registration_complete lib r c, schema_validation, transfer_complete lib r c) refl

  step_cases :
      (p : Option (String × String) × Request)
      → ((r' : Request) × (p ≡ (none, r')))
        ⊎ ((field : String) × (msg : String) × (r' : Request) × (p ≡ (some (field, msg), r')))
  step_cases (none, r') = inl (r', refl)
  step_cases (some (field, msg), r') = inr (field, msg, r', refl)

  -- A request that conforms goes on to the handler as it came, its body included; any other is
  -- answered with 400, with the first field that breaks a rule and the message of that rule, or with
  -- the field "body" if the body was not read or is not a payload, and goes no further.
  pub schema_cases :
      (Conforms lib r × (schema_validation lib next r (s, w) ≡ next r (s, w)))
      ⊎ ((Conforms lib r → ⊥) × Refused lib r s w (schema_validation lib next r (s, w)))
  unfolding schema_validation
  schema_cases = elim (step_cases (registration_step lib r)) [
    | inr (field, msg, r', e) ↦ inr (
      (λ c. cc (e, registration_complete lib r c)),
      (
        field,
        msg,
        registration_fault lib r field msg (ap (λ p. p.0) e),
        rw (e, schema_validation) refl,
      ),
    )
    | inl (r', e) ↦
        let (reg, same) = registration_sound lib r r' e in
        elim (step_cases (transfer_step lib r)) [
          | inr (field, msg, r2, e2) ↦ inr (
            (λ c. cc (e2, transfer_complete lib r c)),
            (
              field,
              msg,
              transfer_fault lib r field msg (ap (λ p. p.0) e2),
              rw (e, schema_validation, same, e2) refl,
            ),
          )
          | inl (r2, e2) ↦
              let c : Conforms lib r = record {
                registration = reg;
                transfer = (transfer_sound lib r r2 e2).0;
              } in
              inl (c, passes c)
        ]
  ]
