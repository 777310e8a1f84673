-- ===== src/Banking/Handler.antt =====
-- internal/banking/handler/banking_handler.go: the handlers of the banking routes, at the edge and in
-- the intranet. What `json.NewDecoder` reads from a body is a parameter; log lines are left out.
pub mod Edge
pub mod Execution
pub mod Intranet
pub mod Journey
pub mod Registration
use go_api_management.Telemetry.{MetricsLibrary}
use go_api_management.Strings.{has_prefix, trim_prefix}
use go_api_management.Http.Routes.{route, is_route}
use go_api_management.Telemetry.{metrics}
use go_api_management.Errors.{Result, ok, err, message}
use go_api_management.Schema.{PayloadJson, schema_validation}
use go_api_management.Banking.Service.{
  Ports, register_device_key, initiate_transfer, execute_intranet_transfer,
}
use go_api_management.Http.{
  Request, Handler, Value, write_error, error, Writer, lit, encode, bytes, json_type,
}
use go_api_management.Banking.{RegisterDeviceRequest, SecureEnclaveKey, TransferPayload}
use go_api_management.Base.{
  Bytes, refl, [], ◌∷◌, some, none, true, false, inl, inr, ◌≡◌, ◌≢◌, ◌∙◌, ◌++◌, arith, ◌||◌, ◌&&◌,
  zero, suc, ℕ, Option, List, Bool, if◌then◌else◌, String, is_empty, not, codes,
}

pub record BodyDecoder : Type 0 where
  pub decode_registration : Option (Result Bytes) → Result RegisterDeviceRequest
  pub decode_transfer : Option (Result Bytes) → Result TransferPayload

-- extractSubject
pub extract_subject : Request → Result Bytes
extract_subject r = elim r.claims [
  | ok (some subject) ↦ ok subject
  | _ ↦ err (message "unauthorized: missing token claims in request context")
]

-- the test for missing parameters
incomplete : RegisterDeviceRequest → Bool
incomplete req =
    is_empty req.id
    || is_empty req.public_key_pem
    || is_empty req.algorithm
    || is_empty req.platform
    || is_empty req.attestation_token

-- the key that is registered; the service fills in the user and the time
abbrev key_of_request : RegisterDeviceRequest → SecureEnclaveKey
key_of_request req = record {
  id = req.id;
  user_id = [];
  public_key_pem = req.public_key_pem;
  algorithm = req.algorithm;
  registered_at = 0;
}

-- the answers of the service's calls: the status for an error, the object for a success
abbrev reply :
    {W : Type 0} → ℕ → List (String × Value) → Writer → Result (Unit {0}) × W → W × Writer
reply code object w (err e, s) = (s, write_error code (error e) w)
reply code object w (ok done, s) = (s, encode object (json_type w))

module _ {W : Type 0} (ports : Ports W) (decoder : BodyDecoder) where
  -- RegisterDevice behind the subject
  register_for : Bytes → Handler W
  unfolding incomplete
  register_for user_id r (s, w) = elim (decoder.decode_registration r.body) [
    | err e ↦ (s, write_error 400 (lit "Invalid request body") w)
    | ok req ↦
        if incomplete req
        then (s, write_error 400 (lit "Missing required parameters") w)
        else reply 403
            (("status", lit "registered")
              ∷ ("key_id", bytes req.id)
              ∷ ("user_id", bytes user_id)
              ∷ [])
            w
            (register_device_key ports user_id (key_of_request req) req.platform
              req.attestation_token s)
  ]

  -- RegisterDevice
  pub register_device : Handler W
  unfolding register_for
  register_device r (s, w) = elim (extract_subject r) [
    | err e ↦ (s, write_error 401 (error e) w)
    | ok user_id ↦ register_for user_id r (s, w)
  ]

  -- InitiateTransfer
  pub initiate_handler : Handler W
  initiate_handler r (s, w) = elim (extract_subject r) [
    | err e ↦ (s, write_error 401 (error e) w)
    | ok user_id ↦ elim (decoder.decode_transfer r.body) [
      | err e ↦ (s, write_error 400 (lit "Invalid request body") w)
      | ok payload ↦
          reply 500 (("status", lit "initiated") ∷ ("tx_id", bytes payload.id) ∷ []) w
            (initiate_transfer ports user_id payload s)
    ]
  ]

  -- ExecutePrivateTransfer
  pub execute_private_transfer : Handler W
  execute_private_transfer r (s, w) =
      let auth_header = r.header "Authorization" in
      if is_empty auth_header || not (has_prefix auth_header (codes "Bearer "))
      then (s, write_error 401 (lit "Missing or invalid Authorization header") w)
      else (elim (decoder.decode_transfer r.body) [
        | err e ↦ (s, write_error 400 (lit "Invalid request body") w)
        | ok payload ↦
            reply 401 (("status", lit "success") ∷ ("tx_id", bytes payload.id) ∷ []) w (
              execute_intranet_transfer ports (trim_prefix auth_header (codes "Bearer ")) payload s)
      ])

  -- `if h.policyMiddleware != nil`
  abbrev with_policy : Option (Handler W → Handler W) → Handler W → Handler W
  with_policy none next = next
  with_policy (some policy) next = policy next

  module _ (meter : MetricsLibrary W) (lib : PayloadJson) (policy : Option (Handler W → Handler W))
      (unrouted : Handler W) where
    -- EdgeRoutes
    pub edge_routes : (Handler W → Handler W) → Handler W
    edge_routes jwt_middleware = metrics meter (
        schema_validation lib (
          with_policy policy (
            route
              ((is_route "POST" "/auth/register-device", jwt_middleware register_device)
                ∷ (is_route "POST" "/transfer/initiate", jwt_middleware initiate_handler)
                ∷ [])
              unrouted)))

    -- PrivateRoutes
    pub private_routes : Handler W
    private_routes = metrics meter (
        schema_validation lib (
          with_policy policy (
            route ((is_route "POST" "/private/transfers", execute_private_transfer) ∷ [])
              unrouted)))
