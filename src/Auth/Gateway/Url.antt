-- ===== src/Auth/Gateway/Url.antt =====
-- The address that the browser is sent to.
use go_api_management.Errors.Laws.{ok-injective}
use go_api_management.Encoding.Query.RoundTrip.{IsText, parse_query-encode_values}
use go_api_management.Encoding.Base64.{url, letter, encode_raw}
use go_api_management.Auth.Service.Initiate.{IsInitiated, initiate_auth_sound, first}
use go_api_management.Errors.{ok}
use go_api_management.Auth.Service.{AuthPorts, initiate_auth}
use go_api_management.Auth.{AuthSession}
use go_api_management.Encoding.Query.{Values, parse_query, set_value, encode_values}
use go_api_management.Encoding.Base64.RoundTrip.{IsBytes, encode_raw-All}
use go_api_management.Auth.Pkce.{generate_state, Filled, derive_challenge}
use go_api_management.Auth.Gateway.{
  parameters, GatewayConfig, get_authorization_url, Client, auth0_provider,
}
use go_api_management.Base.{
  Bytes, refl, [], ◌∷◌, inl, inr, ◌≡◌, ◌∙◌, ◌++◌, arith, ℕ, if◌then◌else◌, str_eq, is_empty, All,
  codes, ◌<◌, Bool-cases, Option-cases, ap, sym,
}

-- The parameters by name, in the order of an encoded query.
abbrev pub shown : GatewayConfig → Bytes → Bytes → Values
shown config state challenge =
    (if is_empty config.api_audience then [] else (codes "audience", config.api_audience) ∷ [])
    ++ (codes "client_id", config.client_id)
      ∷ (codes "code_challenge", challenge)
      ∷ (codes "code_challenge_method", codes "S256")
      ∷ (codes "redirect_uri", config.redirect_uri)
      ∷ (codes "response_type", codes "code")
      ∷ (codes "scope", codes "openid profile email offline_access")
      ∷ (codes "state", state)
      ∷ []

pub record IsBytesConfig (config : GatewayConfig) : Type 0 where
  pub client_id : IsBytes config.client_id
  pub api_audience : IsBytes config.api_audience
  pub redirect_uri : IsBytes config.redirect_uri

parameters_lem :
    (config : GatewayConfig) (session : AuthSession)
    → parameters config session ≡ shown config session.state session.code_verifier
unfolding parameters set_value str_eq
parameters_lem config session = elim (Bool-cases (is_empty config.api_audience)) [
  | inl e ↦ rw e refl
  | inr e ↦ rw e refl
]

shown_back :
    (config : GatewayConfig) (state challenge : Bytes)
    → IsBytesConfig config
    → IsBytes state
    → IsBytes challenge
    → parse_query (encode_values (shown config state challenge)) ≡ shown config state challenge
shown_back config state challenge c s v = elim (Bool-cases (is_empty config.api_audience)) [
  | inl e ↦ rw e (parse_query-encode_values _ _ (tail))
  | inr e ↦ rw e (parse_query-encode_values _ _ ((omega arith, c.api_audience), tail))
]
  where
    tail : All IsText (
        (codes "client_id", config.client_id)
        ∷ (codes "code_challenge", challenge)
        ∷ (codes "code_challenge_method", codes "S256")
        ∷ (codes "redirect_uri", config.redirect_uri)
        ∷ (codes "response_type", codes "code")
        ∷ (codes "scope", codes "openid profile email offline_access")
        ∷ (codes "state", state)
        ∷ [])
    tail = (
      (omega arith, c.client_id),
      (
        (omega arith, v),
        (
          (omega arith, omega arith),
          (
            (omega arith, c.redirect_uri),
            ((omega arith, omega arith), ((omega arith, omega arith), ((omega arith, s), tt))),
          ),
        ),
      ),
    )

-- The address is the provider's, and its query reads back as these parameters.
pub url_parses :
    (config : GatewayConfig) (session : AuthSession)
    → IsBytesConfig config
    → IsBytes session.state
    → IsBytes session.code_verifier
    → (query : Bytes) × (get_authorization_url config session
        ≡ ok ((codes "https://" ++ (config.domain ++ codes "/authorize")) ++ b'?' ∷ query))
      × (parse_query query ≡ shown config session.state session.code_verifier)
unfolding get_authorization_url
url_parses config session c s v = (
  encode_values (parameters config session),
  refl,
  rw (parameters_lem config session) (shown_back config session.state session.code_verifier c s v),
)

-- The service over the gateway.
abbrev pub over_gateway : {W : Type 0} → GatewayConfig → Client W → AuthPorts W → AuthPorts W
over_gateway config client ports = record ports { provider = auth0_provider config client }

letter_lt : (n : ℕ) → letter url n < 256
unfolding letter
letter_lt n = ground arith

encode_raw-IsBytes : (s : Bytes) → IsBytes (encode_raw url s)
encode_raw-IsBytes s = encode_raw-All (λ c. c < 256) letter_lt s

state-IsBytes : (r : Filled) (state : Bytes) → generate_state r ≡ ok state → IsBytes state
unfolding generate_state
state-IsBytes r state h = elim (Option-cases r.failure) [
  | inl e ↦ rw (← ok-injective (rw e at h)) (encode_raw-IsBytes r.buffer)
  | inr (x, e) ↦ absurd (cc (e, h))
]

module _ {W : Type 0} (config : GatewayConfig) (client : Client W) (ports : AuthPorts W)
    (clean : IsBytesConfig config) (redirect_uri : Bytes) (w : W) where
  -- When InitiateAuth over the gateway gives an address, its query reads back as the settings with
  -- the state and the S256 challenge of the session that was saved, and the verifier itself stays.
  pub login_url :
      (auth_url session_id : Bytes)
      → (initiate_auth (over_gateway config client ports) redirect_uri w).0
        ≡ ok (auth_url, session_id)
      → (i : IsInitiated (over_gateway config client ports) redirect_uri w auth_url session_id)
        × (query : Bytes) × (auth_url
            ≡ (codes "https://" ++ (config.domain ++ codes "/authorize")) ++ b'?' ∷ query)
        × (parse_query query ≡ shown config i.state (derive_challenge ports.sha256 i.verifier))
  unfolding auth0_provider derive_challenge
  login_url auth_url session_id h =
      let i : IsInitiated (over_gateway config client ports) redirect_uri w auth_url session_id =
        initiate_auth_sound (over_gateway config client ports) redirect_uri w auth_url session_id
          h in
      let challenge = derive_challenge ports.sha256 i.verifier in
      let same : i.session.state ≡ i.state = ap (λ x. x.state) i.is_session in
      let (query, is_query, back) =
        url_parses config (record i.session { code_verifier = challenge }) clean
          (rw same (
            state-IsBytes (first (over_gateway config client ports) redirect_uri w).0 i.state
              i.is_state))
          (encode_raw-IsBytes (ports.sha256 i.verifier)) in
      (
        i,
        query,
        ok-injective (sym i.is_url ∙ is_query),
        back ∙ ap (λ t. shown config t challenge) same,
      )
