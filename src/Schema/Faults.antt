-- ===== src/Schema/Faults.antt =====
-- Which field a refusal names: the rules of the two payloads, in their order.
use go_api_management.Http.Body.{
  read_and_buffer_body, read_and_buffer_body-none, read_and_buffer_body-err,
  read_and_buffer_body_lem,
}
use go_api_management.Errors.Laws.{Result-cases}
use go_api_management.Errors.{Result, ok, Err, err}
use go_api_management.Http.{Request}
use go_api_management.Strings.{to_lower}
use go_api_management.Strings.Contains.{contains_iff}
use go_api_management.Banking.{TransferPayload, RegisterDeviceRequest, is_zero}
use go_api_management.Schema.{
  check_transfer, PayloadJson, check_registration, pem_begin, intercept, transfer_step,
  decoded_check, registration_step, is_registration, is_transfer, intercepted,
}
use go_api_management.Base.{
  Bytes, [], none, false, ◌≡◌, ◌≢◌, ◌++◌, arith, ◌↔◌, ◌≤◌, not_empty, length, is_nonpositive, codes,
  is_empty-ne, str_eq_iff, ◌⊎◌, refl, ◌∷◌, some, true, inl, inr, ◌&&◌, List, is_empty, Bool, String,
  ℤ, Option, not, ℕ, if◌then◌else◌, ==_iff, pos, ltb, not-eq-false, str_eq, ap, ◌<◌, ◌==◌, negsuc,
  Bool-cases, Option-cases,
}

-- What is asked of one field, and what is answered where it does not hold.
pub record Rule : Type 1 where
  pub field : String
  pub message : String
  pub Holds : Type 0

-- The first rule that does not hold has this field and this message.
pub FirstBroken : List Rule → String → String → Type 0
FirstBroken [] field msg = ⊥
FirstBroken (rule ∷ rules) field msg =
    ((rule.Holds → ⊥) × (field ≡ rule.field) × (msg ≡ rule.message))
    ⊎ (rule.Holds × FirstBroken rules field msg)

abbrev rule : String → String → Type 0 → Rule
rule field message holds = record { field = field; message = message; Holds = holds }

abbrev not_given : String
not_given = "parameter is required and cannot be empty"

abbrev pub registration_rules : PayloadJson → RegisterDeviceRequest → List Rule
registration_rules lib req =
    rule "id" not_given (req.id ≢ [])
    ∷ rule "public_key_pem" "must be a valid PEM public key block" (
        (pre : Bytes) × (post : Bytes) × (req.public_key_pem
          ≡ pre ++ codes "-----BEGIN PUBLIC KEY-----" ++ post))
    ∷ rule "algorithm" "must be exactly ECDSA_P256" (req.algorithm ≡ codes "ECDSA_P256")
    ∷ rule "platform" "must be 'ios' or 'android'" (
        (to_lower lib.unicode_lower req.platform ≡ codes "ios")
        ⊎ (to_lower lib.unicode_lower req.platform ≡ codes "android"))
    ∷ rule "attestation_token" not_given (req.attestation_token ≢ [])
    ∷ []

abbrev pub transfer_rules : TransferPayload → List Rule
transfer_rules req =
    rule "id" not_given (req.id ≢ [])
    ∷ rule "sender_account" "must be at least 6 characters in length"
        (6 ≤ length req.sender_account)
    ∷ rule "receiver_account" "must be at least 6 characters in length"
        (6 ≤ length req.receiver_account)
    ∷ rule "amount_cents" "must be a positive integer greater than 0"
        ((n : ℕ) × (req.amount_cents ≡ pos n) × (0 < n))
    ∷ rule "currency" "must be exactly 3 characters (ISO 4217 code)" (length req.currency ≡ 3)
    ∷ rule "timestamp" "must be a valid RFC3339 formatted date-time" (is_zero req.timestamp ≡ false)
    ∷ rule "signature" not_given (req.signature ≢ [])
    ∷ []

abbrev Violation : Type 0
Violation = Option (String × String)

-- A test in front of the rest: the first rule is the test, and the other rules are the rest.
first_broken :
    (b : Bool) (r : Rule) (rules : List Rule) (rest : Violation) {field msg : String}
    → (b ≡ false) ↔ r.Holds
    → (rest ≡ some (field, msg) → FirstBroken rules field msg)
    → (if b then some (r.field, r.message) else rest) ≡ some (field, msg)
    → FirstBroken (r ∷ rules) field msg
unfolding FirstBroken
first_broken true r rules rest decides later h = inl ((λ holds. cc (decides.1 holds)), cc h, cc h)
first_broken false r rules rest decides later h = inr (decides.0 refl, later h)

none_broken :
    {field msg : String} → ◌≡◌ {A = Violation} none (some (field, msg)) → FirstBroken [] field msg
none_broken h = absurd (cc h)

given_iff : (s : Bytes) → (is_empty s ≡ false) ↔ (s ≢ [])
given_iff s = (not_empty s, is_empty-ne s)

not_iff : {P : Type 0} (b : Bool) → (b ≡ true) ↔ P → (not b ≡ false) ↔ P
not_iff b (to, from) = ((λ h. to (not-eq-false b h)), λ p. ap not (from p))

long_iff : (n k : ℕ) → (ltb n k ≡ false) ↔ (k ≤ n)
long_iff n k = ((λ h. ground arith), λ h. ground arith)

positive_iff : (z : ℤ) → (is_nonpositive z ≡ false) ↔ ((n : ℕ) × (z ≡ pos n) × (0 < n))
positive_iff (pos n) = ((λ h. (n, refl, ground arith)), λ p. nonzero p.0 p.1 p.2)
  where
    nonzero : (m : ℕ) → pos n ≡ pos m → 0 < m → (n == 0) ≡ false
    nonzero m same above = ground arith
positive_iff (negsuc n) = ((λ h. cc h), λ p. cc p.1)

platform_iff :
    (p : Bytes)
    → ((not (str_eq p (codes "ios")) && not (str_eq p (codes "android"))) ≡ false)
      ↔ ((p ≡ codes "ios") ⊎ (p ≡ codes "android"))
platform_iff p = (
  λ h. ground (arith, str_eq_iff p (codes "ios"), str_eq_iff p (codes "android")),
  λ h. ground (arith, str_eq_iff p (codes "ios"), str_eq_iff p (codes "android")),
)

pub registration_broken :
    (lib : PayloadJson) (req : RegisterDeviceRequest) {field msg : String}
    → check_registration lib req ≡ some (field, msg)
    → FirstBroken (registration_rules lib req) field msg
unfolding check_registration
registration_broken lib req = first_broken _ _ _ _ (given_iff req.id) (
    first_broken _ _ _ _ (not_iff _ (contains_iff req.public_key_pem pem_begin)) (
      first_broken _ _ _ _ (not_iff _ (str_eq_iff req.algorithm _)) (
        first_broken _ _ _ _ (platform_iff _)
          (first_broken _ _ _ _ (given_iff req.attestation_token) none_broken))))

pub transfer_broken :
    (req : TransferPayload) {field msg : String}
    → check_transfer req ≡ some (field, msg)
    → FirstBroken (transfer_rules req) field msg
unfolding check_transfer
transfer_broken req = first_broken _ _ _ _ (given_iff req.id) (
    first_broken _ _ _ _ (long_iff _ 6) (
      first_broken _ _ _ _ (long_iff _ 6) (
        first_broken _ _ _ _ (positive_iff req.amount_cents) (
          first_broken _ _ _ _ (not_iff _ (==_iff _ _)) (
            first_broken _ _ _ _ ((λ h. h), (λ h. h))
              (first_broken _ _ _ _ (given_iff req.signature) none_broken))))))

-- The body was not read, or is not a payload, or is one that breaks a rule; the field and the message are
-- those of the first that happened.
abbrev pub Fault :
    {A : Type 0} → (Bytes → Result A) → (A → List Rule) → Request → String → String → Type 0
Fault {A = A} decode rules r field msg =
    ((field ≡ "body")
      × (msg ≡ "failed to read request body")
      × ((text : Bytes) → r.body ≢ some (ok text)))
    ⊎ ((text : Bytes) × (r.body ≡ some (ok text))
        × (((field ≡ "body") × (msg ≡ "malformed JSON payload") × (e : Err) × (decode text ≡ err e))
            ⊎ ((a : A) × (decode text ≡ ok a) × FirstBroken (rules a) field msg)))

abbrev pub IsAtFault : PayloadJson → Request → String → String → Type 0
IsAtFault lib r field msg =
    ((is_registration r ≡ true)
      × Fault lib.unmarshal_registration (registration_rules lib) r field msg)
    ⊎ ((is_transfer r ≡ true) × Fault lib.unmarshal_transfer transfer_rules r field msg)

module _ {A : Type 0} (decode : Bytes → Result A) (check : A → Violation) (rules : A → List Rule)
    (broken : (a : A) (field msg : String)
      → check a ≡ some (field, msg)
      → FirstBroken (rules a) field msg)
    (r : Request) where
  abbrev checked : Bytes → Violation
  checked b = decoded_check check (decode b)

  unread :
      (q : Result Bytes × Request) (e : Err)
      → q.0 ≡ err e
      → (intercepted checked q).0 ≡ some ("body", "failed to read request body")
  unread (ok b, r') e h = absurd (cc h)
  unread (err x, r') e h = refl

  decoded-Fault :
      (text : Bytes) (field msg : String)
      → r.body ≡ some (ok text)
      → checked text ≡ some (field, msg)
      → Fault decode rules r field msg
  unfolding decoded_check
  decoded-Fault text field msg is_body h = elim (Result-cases (decode text)) [
    | inl (e, bad) ↦
        let said : ◌≡◌ {A = Violation} (some ("body", "malformed JSON payload"))
            (some (field, msg)) =
          rw bad at h in
        inr (text, is_body, inl (cc said, cc said, e, bad))
    | inr (a, good) ↦ inr (text, is_body, inr (a, good, broken a field msg (rw good at h)))
  ]

  pub intercept-Fault :
      (field msg : String)
      → (intercept checked r).0 ≡ some (field, msg)
      → Fault decode rules r field msg
  unfolding intercept
  intercept-Fault field msg h = elim (Option-cases r.body) [
    | inl e ↦ no_text _ (read_and_buffer_body-none r e) (λ text is. cc (e, is))
    | inr (err x, e) ↦ no_text x (read_and_buffer_body-err r x e) (λ text is. cc (e, is))
    | inr (ok b, e) ↦ decoded-Fault b field msg e (rw (read_and_buffer_body_lem r b e) at h)
  ]
    where
      no_text :
          (x : Err)
          → (read_and_buffer_body r).0 ≡ err x
          → ((text : Bytes) → r.body ≢ some (ok text))
          → Fault decode rules r field msg
      no_text x failed none_there =
          let said = unread (read_and_buffer_body r) x failed in
          inl (cc (said, h), cc (said, h), none_there)

module _ (lib : PayloadJson) (r : Request) where
  pub registration_fault :
      (field msg : String)
      → (registration_step lib r).0 ≡ some (field, msg)
      → IsAtFault lib r field msg
  unfolding registration_step
  registration_fault field msg h = elim (Bool-cases (is_registration r)) [
    | inl is ↦ inl (
      is,
      intercept-Fault lib.unmarshal_registration (check_registration lib) (registration_rules lib)
          (λ a f m. registration_broken lib a) r field msg (rw is at h),
    )
    | inr other ↦ absurd (cc (rw other at h))
  ]

  pub transfer_fault :
      (field msg : String) → (transfer_step lib r).0 ≡ some (field, msg) → IsAtFault lib r field msg
  unfolding transfer_step
  transfer_fault field msg h = elim (Bool-cases (is_transfer r)) [
    | inl is ↦ inr (
      is,
      intercept-Fault lib.unmarshal_transfer check_transfer transfer_rules
          (λ a f m. transfer_broken a) r field msg (rw is at h),
    )
    | inr other ↦ absurd (cc (rw other at h))
  ]
