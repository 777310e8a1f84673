-- ===== src/Banking/Service.antt =====
-- internal/banking/services/banking_service.go. The world `W` holds the key database, the network and
-- the circuit breaker; what the service calls of them is the record `Ports`.
pub mod Execute
pub mod Initiate
pub mod Swap
use go_api_management.Base.{
  ℕ, ◌+◌, ◌*◌, Bool, true, false, not, ◌&&◌, ◌||◌, List, [], ◌∷◌, ◌++◌, Option, none, some, String,
  Bytes, codes, is_empty, str_eq, if◌then◌else◌, leb, ℤ, is_nonpositive, ◌==◌, refl, inl, inr, ◌≡◌,
  ◌≢◌, ◌∙◌, arith, zero, suc,
}
use go_api_management.Errors.{
  Err, message, message_of, message_code, wrap, Result, ok, err, ◌>>=◌, ◌>>◌, refuse, wrapping,
}
use go_api_management.Banking.{SecureEnclaveKey, TransferPayload}
use go_api_management.Banking.Jwt.{
  TokenLibrary, InternalJwtClaims, second, generate_internal_jwt, verify_internal_jwt,
}
use go_api_management.Banking.Signature.{KeyLibrary, verify_enclave_signature}

-- The parts of a `gobreaker.Counts` that ReadyToTrip reads.
pub record Counts : Type 0 where
  pub requests : ℕ
  pub total_failures : ℕ

-- ReadyToTrip of NewBankingService: the ratio of failures is at least one half.
pub ready_to_trip : Counts → Bool
ready_to_trip c = leb 5 c.requests && leb c.requests (2 * c.total_failures)

-- gobreaker.Settings, with times in seconds
pub record BreakerSettings : Type 0 where
  pub name : String
  pub max_requests : ℕ
  pub interval : ℕ
  pub timeout : ℕ
  pub trips : Counts → Bool

-- the settings of NewBankingService
pub breaker_settings : BreakerSettings
unfolding ready_to_trip
breaker_settings = record {
  name = "PrivateCoreBankingClient";
  max_requests = 3;
  interval = 10;
  timeout = 30;
  trips = ready_to_trip;
}

-- the time limit of the HTTP client, in seconds: its own, or that of the default client
pub client_timeout : Option ℕ → ℕ
client_timeout none = 10
client_timeout (some limit) = limit

-- A POST request to the intranet, with its two headers.
pub record Outbound : Type 0 where
  pub url : Bytes
  pub authorization : Bytes
  pub content_type : String
  pub body : Bytes

-- What `httpClient.Do` gives: an error, or a status and the `error` field of the body, empty where
-- there is none.
pub data Answer : Type 0 where
  unreachable : Err → Answer
  answered : ℕ → Bytes → Answer

-- A call that may change the world.
abbrev pub Action {ℓ} : Type ℓ → Type ℓ → Type ℓ
Action W A = W → A × W

pub record Ports (W : Type 0) : Type 1 where
  pub save_key : SecureEnclaveKey → Action W (Result (Unit {0}))
  pub get_keys_by_user_id : Bytes → Action W (Result (List SecureEnclaveKey))
  pub verify_attestation : Bytes → Bytes → Result (Unit {0})
  pub new_request : Outbound → Result (Unit {0})
  pub send : Outbound → Action W Answer
  pub execute : Action W (Result (Unit {0})) → Action W (Result (Unit {0}))
  pub now : W → ℕ
  pub marshal_payload : TransferPayload → Result Bytes
  pub tokens : TokenLibrary
  pub keys : KeyLibrary
  pub shared_secret : Bytes
  pub private_url : Bytes

abbrev pub execute_scope : Bytes
execute_scope = codes "transfer:execute"

-- the loop over `claims.Scopes`
has_scope : List Bytes → Bool
has_scope [] = false
has_scope (sc ∷ scopes) = str_eq sc execute_scope || has_scope scopes

abbrev is_ok {ℓ} : {A : Type ℓ} → Result A → Bool
is_ok (ok a) = true
is_ok (err e) = false

-- the loop over the keys of the user
signature_valid : KeyLibrary → TransferPayload → List SecureEnclaveKey → Bool
signature_valid lib payload [] = false
signature_valid lib payload (key ∷ keys) =
    is_ok (verify_enclave_signature lib key.public_key_pem (some payload))
    || signature_valid lib payload keys

abbrev no_keys : List SecureEnclaveKey → Bool
no_keys [] = true
no_keys (k ∷ ks) = false

-- the answer of the intranet as the closure in InitiateTransfer reads it
answer_result : Answer → Result (Unit {0})
answer_result (unreachable e) = err e
answer_result (answered status text) =
    if status == 200
    then ok tt
    else if is_empty text
    then err (wrap "intranet execution rejected" (message_code "HTTP status" status))
    else err (message_of "intranet execution rejected" text)

module _ {W : Type 0} (ports : Ports W) where
  -- RegisterDeviceKey
  unfoldable pub register_device_key :
      Bytes → SecureEnclaveKey → Bytes → Bytes → Action W (Result (Unit {0}))
  register_device_key user_id key platform attestation_token w =
      elim (wrapping "device integrity check failed"
        (ports.verify_attestation platform attestation_token)) [
          | err e ↦ (err e, w)
          | ok done ↦
              let (r, w') =
                ports.save_key (record key { user_id = user_id; registered_at = ports.now w }) w in
              (wrapping "failed to save enclave key" r, w')
        ]

  -- the closure that InitiateTransfer hands to the breaker
  forward : Outbound → Action W (Result (Unit {0}))
  unfolding answer_result
  forward out w = elim (ports.new_request out) [
    | err e ↦ (err e, w)
    | ok done ↦ let (a, w') = ports.send out w in (answer_result a, w')
  ]

  -- the part of InitiateTransfer before the breaker: the request to send
  unfoldable pub prepare : Bytes → TransferPayload → ℕ → Result Outbound
  prepare user_id payload now = do
    refuse (is_nonpositive payload.amount_cents)
        (message "invalid transfer amount: must be positive")
    refuse (is_empty payload.sender_account || is_empty payload.receiver_account)
        (message "sender and receiver accounts must not be empty")
    jwt ← wrapping "failed to perform token swap" (
        generate_internal_jwt ports.tokens user_id (execute_scope ∷ []) ports.shared_secret
          (60 * second) now)
    body ← wrapping "failed to serialize payload" (ports.marshal_payload payload)
    ok (record {
      url = ports.private_url;
      authorization = codes "Bearer " ++ jwt;
      content_type = "application/json";
      body = body;
    })

  -- InitiateTransfer
  pub initiate_transfer : Bytes → TransferPayload → Action W (Result (Unit {0}))
  unfolding prepare forward
  initiate_transfer user_id payload w = elim (prepare user_id payload (ports.now w)) [
    | err e ↦ (err e, w)
    | ok out ↦
        let (r, w') = ports.execute (forward out) w in (wrapping "transfer execution failed" r, w')
  ]

  -- ExecuteIntranetTransfer up to the retrieval of the keys: the claims of the token
  unfoldable pub authorize : Bytes → ℕ → Result InternalJwtClaims
  unfolding has_scope
  authorize internal_token now = do
    claims ←
        wrapping "unauthorized internal token"
          (verify_internal_jwt ports.tokens internal_token ports.shared_secret now)
    refuse (not (has_scope claims.scopes))
        (message "unauthorized: missing required 'transfer:execute' scope")
    ok claims

  -- and behind it
  pub check_signature : TransferPayload → Result (List SecureEnclaveKey) → Result (Unit {0})
  unfolding signature_valid
  check_signature payload found = do
    keys ← wrapping "failed to retrieve enclave keys for user" found
    refuse (no_keys keys) (message "unauthorized: user has zero registered device enclave keys")
    refuse (not (signature_valid ports.keys payload keys))
        (message "unauthorized: cryptographic secure enclave signature is invalid or tampered")

  -- ExecuteIntranetTransfer
  unfoldable pub execute_intranet_transfer : Bytes → TransferPayload → Action W (Result (Unit {0}))
  unfolding authorize check_signature
  execute_intranet_transfer internal_token payload w =
      elim (authorize internal_token (ports.now w)) [
        | err e ↦ (err e, w)
        | ok claims ↦
            let (found, w') = ports.get_keys_by_user_id claims.subject w in
            (check_signature payload found, w')
      ]
