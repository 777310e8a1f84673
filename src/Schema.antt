-- ===== src/Schema.antt =====
-- internal/adapters/handler/schema_middleware.go. The decoding of the two payloads from JSON and
-- `unicode.ToLower` are the fields of a record that the definitions take.
pub mod Valid
pub mod Faults
pub mod Passes
use go_api_management.Http.Routes.{is_route}
use go_api_management.Http.Body.{read_and_buffer_body}
use go_api_management.Strings.{to_lower, contains}
use go_api_management.Banking.{RegisterDeviceRequest, TransferPayload, is_zero}
use go_api_management.Http.{Handler, Request, Writer, encode, lit, details, write_header, json_type}
use go_api_management.Errors.{Result, err, ok}
use go_api_management.Base.{
  Bytes, refl, [], ◌∷◌, some, none, true, false, inl, inr, ◌≡◌, ◌≢◌, ◌∙◌, ◌++◌, arith, ◌||◌, ◌&&◌,
  zero, suc, Option, ℕ, String, codes, Bool, if◌then◌else◌, is_empty, ltb, not, length, str_eq,
  is_nonpositive, ◌==◌,
}

pub record PayloadJson : Type 0 where
  pub unmarshal_registration : Bytes → Result RegisterDeviceRequest
  pub unmarshal_transfer : Bytes → Result TransferPayload
  pub unicode_lower : Bytes → Bytes

abbrev pub pem_begin : Bytes
pem_begin = codes "-----BEGIN PUBLIC KEY-----"

abbrev required : String
required = "parameter is required and cannot be empty"

-- the field and the message of the first violation of a registration
pub check_registration : PayloadJson → RegisterDeviceRequest → Option (String × String)
check_registration lib req =
    let platform = to_lower lib.unicode_lower req.platform in
    if is_empty req.id
    then some ("id", required)
    else if not (contains req.public_key_pem pem_begin)
    then some ("public_key_pem", "must be a valid PEM public key block")
    else if not (str_eq req.algorithm (codes "ECDSA_P256"))
    then some ("algorithm", "must be exactly ECDSA_P256")
    else if not (str_eq platform (codes "ios")) && not (str_eq platform (codes "android"))
    then some ("platform", "must be 'ios' or 'android'")
    else if is_empty req.attestation_token
    then some ("attestation_token", required)
    else none

-- and of a transfer
pub check_transfer : TransferPayload → Option (String × String)
check_transfer req =
    if is_empty req.id
    then some ("id", required)
    else if ltb (length req.sender_account) 6
    then some ("sender_account", "must be at least 6 characters in length")
    else if ltb (length req.receiver_account) 6
    then some ("receiver_account", "must be at least 6 characters in length")
    else if is_nonpositive req.amount_cents
    then some ("amount_cents", "must be a positive integer greater than 0")
    else if not (length req.currency == 3)
    then some ("currency", "must be exactly 3 characters (ISO 4217 code)")
    else if is_zero req.timestamp
    then some ("timestamp", "must be a valid RFC3339 formatted date-time")
    else if is_empty req.signature
    then some ("signature", required)
    else none

-- the decoding before it
pub decoded_check :
    {A : Type 0} → (A → Option (String × String)) → Result A → Option (String × String)
decoded_check check (err e) = some ("body", "malformed JSON payload")
decoded_check check (ok req) = check req

-- A request whose body is read, buffered and checked.
abbrev intercepted :
    (Bytes → Option (String × String)) → Result Bytes × Request → Option (String × String) × Request
intercepted check (err e, r') = (some ("body", "failed to read request body"), r')
intercepted check (ok b, r') = (check b, r')

pub intercept : (Bytes → Option (String × String)) → Request → Option (String × String) × Request
intercept check r = intercepted check (read_and_buffer_body r)

-- writeSchemaError
unfoldable pub write_schema_error : ℕ → String → String → Writer → Writer
write_schema_error code field msg w =
    encode
      (("error", lit "openapi schema contract validation failed")
        ∷ ("details", details field msg)
        ∷ [])
      (write_header code (json_type w))

abbrev pub is_registration : Request → Bool
is_registration = is_route "POST" "/auth/register-device"

abbrev pub is_transfer : Request → Bool
is_transfer r = is_route "POST" "/transfer/initiate" r || is_route "POST" "/private/transfers" r

-- the two interceptions
pub registration_step : PayloadJson → Request → Option (String × String) × Request
registration_step lib r =
    if is_registration r
    then intercept (λ b. decoded_check (check_registration lib) (lib.unmarshal_registration b)) r
    else (none, r)

pub transfer_step : PayloadJson → Request → Option (String × String) × Request
transfer_step lib r =
    if is_transfer r
    then intercept (λ b. decoded_check check_transfer (lib.unmarshal_transfer b)) r
    else (none, r)

-- A violation is answered, and else the request goes on.
abbrev unless_violated :
    {W : Type 0}
    → W × Writer
    → (Request → W × Writer)
    → Option (String × String) × Request
    → W × Writer
unless_violated (s, w) go (some (field, msg), r') = (s, write_schema_error 400 field msg w)
unless_violated sw go (none, r') = go r'

-- SchemaValidationMiddleware
pub schema_validation : {W : Type 0} → PayloadJson → Handler W → Handler W
schema_validation lib next r sw =
    unless_violated sw (λ r1. unless_violated sw (λ r2. next r2 sw) (transfer_step lib r1))
      (registration_step lib r)
