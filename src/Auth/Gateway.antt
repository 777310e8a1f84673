-- ===== src/Auth/Gateway.antt =====
-- internal/adapters/gateway/auth0_gateway.go: the client of the identity provider. The HTTP client,
-- the circuit breaker and JSON are the fields of a record. The text of an answer that is not 200 is
-- left out of the error.
pub mod Url
pub mod Tokens
use go_api_management.Encoding.Query.{Values, set_value, encode_values}
use go_api_management.Errors.{Result, err, Err, ok, ◌>>=◌, wrap, wrapping, message_code}
use go_api_management.Auth.{Action, AuthSession, TokenPair, UserIdentity}
use go_api_management.Auth.Service.{Provider}
use go_api_management.Base.{
  Bytes, refl, [], ◌∷◌, some, none, true, false, inl, inr, ◌≡◌, ◌≢◌, ◌∙◌, ◌++◌, arith, ◌||◌, ◌&&◌,
  zero, suc, codes, String, ℤ, Bool, ℕ, if◌then◌else◌, ◌==◌, is_empty,
}

-- Auth0Gateway: its settings
pub record GatewayConfig : Type 0 where
  pub domain : Bytes
  pub client_id : Bytes
  pub client_secret : Bytes
  pub api_audience : Bytes
  pub redirect_uri : Bytes

-- auth0TokenRequest
pub record TokenRequest : Type 0 where
  pub grant_type : Bytes
  pub client_id : Bytes
  pub client_secret : Bytes
  pub code : Bytes
  pub code_verifier : Bytes
  pub redirect_uri : Bytes
  pub refresh_token : Bytes

-- auth0TokenResponse
pub record TokenResponse : Type 0 where
  pub access_token : Bytes
  pub refresh_token : Bytes
  pub id_token : Bytes
  pub expires_in : ℤ

-- auth0UserInfo
pub record UserInfo : Type 0 where
  pub sub : Bytes
  pub email : Bytes
  pub name : Bytes
  pub picture : Bytes
  pub email_verified : Bool

-- A request to the provider; its one header, by name and value.
pub record Call : Type 0 where
  pub method : String
  pub url : Bytes
  pub header : String
  pub header_value : Bytes
  pub body : Bytes

pub record Reply : Type 0 where
  pub status : ℕ
  pub text : Bytes

pub record Client (W : Type 0) : Type 1 where
  pub new_request : Call → Result (Unit {0})
  pub send : Call → Action W (Result Reply)
  pub execute : (A : Type 0) → Action W (Result A) → Action W (Result A)
  pub marshal : TokenRequest → Result Bytes
  pub decode_tokens : Bytes → Result TokenResponse
  pub decode_user : Bytes → Result UserInfo

-- `https://` and a path at the provider
unfoldable pub endpoint : GatewayConfig → String → Bytes
endpoint config path = codes "https://" ++ (config.domain ++ codes path)

-- the parameters of GetAuthorizationURL
unfoldable pub parameters : GatewayConfig → AuthSession → Values
parameters config session =
    let q1 = set_value (codes "response_type") (codes "code") [] in
    let q2 = set_value (codes "client_id") config.client_id q1 in
    let q3 = set_value (codes "redirect_uri") config.redirect_uri q2 in
    let q4 = set_value (codes "state") session.state q3 in
    let q5 = set_value (codes "code_challenge") session.code_verifier q4 in
    let q6 = set_value (codes "code_challenge_method") (codes "S256") q5 in
    let q7 =
      if is_empty config.api_audience
      then q6
      else set_value (codes "audience") config.api_audience q6 in
    set_value (codes "scope") (codes "openid profile email offline_access") q7

-- GetAuthorizationURL, for a domain that needs no escape
unfoldable pub get_authorization_url : GatewayConfig → AuthSession → Result Bytes
unfolding endpoint parameters
get_authorization_url config session =
    ok (endpoint config "/authorize" ++ b'?' ∷ encode_values (parameters config session))

abbrev pub token_pair : TokenResponse → TokenPair
token_pair t = record {
  access_token = t.access_token;
  refresh_token = t.refresh_token;
  id_token = t.id_token;
  expires_in = t.expires_in;
}

abbrev pub identity : UserInfo → UserIdentity
identity u = record {
  id = u.sub;
  email = u.email;
  name = u.name;
  picture = u.picture;
  email_verified = u.email_verified;
}

module _ {W : Type 0} (config : GatewayConfig) (client : Client W) where
  -- A request that is made, sent, and read.
  unfoldable pub exchange :
      {A : Type 0} → Call → (Result Reply → Result A) → (Err → Err) → Action W (Result A)
  exchange call read label w = elim (client.new_request call) [
    | err e ↦ (err (label e), w)
    | ok done ↦ let (answer, w') = client.send call w in (read answer, w')
  ]

  -- sendTokenRequest: the answer
  unfoldable pub read_tokens : Result Reply → Result TokenResponse
  read_tokens (err e) = err (wrap "do token request" e)
  read_tokens (ok reply) =
      if reply.status == 200
      then wrapping "decode token response" (client.decode_tokens reply.text)
      else err (message_code "token request returned status" reply.status)

  unfoldable pub token_call : Bytes → Call
  unfolding endpoint
  token_call text = record {
    method = "POST";
    url = endpoint config "/oauth/token";
    header = "Content-Type";
    header_value = codes "application/json";
    body = text;
  }

  -- sendTokenRequest
  unfoldable pub send_token_request : TokenRequest → Action W (Result TokenResponse)
  unfolding exchange read_tokens token_call
  send_token_request req w = elim (client.marshal req) [
    | err e ↦ (err (wrap "marshal request" e), w)
    | ok text ↦ exchange (token_call text) read_tokens (wrap "create token request") w
  ]

  unfoldable pub code_request : Bytes → Bytes → TokenRequest
  code_request code code_verifier = record {
    grant_type = codes "authorization_code";
    client_id = config.client_id;
    client_secret = config.client_secret;
    code = code;
    code_verifier = code_verifier;
    redirect_uri = config.redirect_uri;
    refresh_token = [];
  }

  -- the tokens of a request that runs under the breaker
  unfoldable pub tokens_of : String → TokenRequest → Action W (Result TokenPair)
  unfolding send_token_request
  tokens_of text req w =
      let (answer, w') = client.execute TokenResponse (send_token_request req) w in
      ((do t ← wrapping text answer; ok (token_pair t)), w')

  -- ExchangeCode
  unfoldable pub exchange_code : Bytes → Bytes → Action W (Result TokenPair)
  unfolding tokens_of code_request
  exchange_code code code_verifier =
      tokens_of "token exchange circuit error" (code_request code code_verifier)

  -- RefreshToken
  pub refresh_tokens : Bytes → Action W (Result TokenPair)
  unfolding tokens_of
  refresh_tokens refresh_token = tokens_of "token refresh circuit error" (record {
    grant_type = codes "refresh_token";
    client_id = config.client_id;
    client_secret = config.client_secret;
    code = [];
    code_verifier = [];
    redirect_uri = [];
    refresh_token = refresh_token;
  })

  -- the form of RevokeToken
  revocation : Bytes → Values
  revocation token =
      let q1 = set_value (codes "client_id") config.client_id [] in
      let q2 =
        if is_empty config.client_secret
        then q1
        else set_value (codes "client_secret") config.client_secret q1 in
      set_value (codes "token") token q2

  read_revoked : Result Reply → Result (Unit {0})
  read_revoked (err e) = err e
  read_revoked (ok reply) =
      if reply.status == 200
      then ok tt
      else err (message_code "failed token revocation, status" reply.status)

  -- RevokeToken
  pub revoke_token : Bytes → Action W (Result (Unit {0}))
  unfolding exchange endpoint revocation read_revoked
  revoke_token token w =
      let call : Call = record {
        method = "POST";
        url = endpoint config "/oauth/revoke";
        header = "Content-Type";
        header_value = codes "application/x-www-form-urlencoded";
        body = encode_values (revocation token);
      } in
      let (answer, w') = client.execute (Unit {0}) (exchange call read_revoked (λ e. e)) w in
      (wrapping "token revocation failed" answer, w')

  read_user : Result Reply → Result UserInfo
  read_user (err e) = err e
  read_user (ok reply) =
      if reply.status == 200
      then client.decode_user reply.text
      else err (message_code "userinfo request failed, status" reply.status)

  -- GetUserInfo
  pub get_user_info : Bytes → Action W (Result UserIdentity)
  unfolding exchange endpoint read_user
  get_user_info access_token w =
      let call : Call = record {
        method = "GET";
        url = endpoint config "/userinfo";
        header = "Authorization";
        header_value = codes "Bearer " ++ access_token;
        body = [];
      } in
      let (answer, w') = client.execute UserInfo (exchange call read_user (λ e. e)) w in
      ((do u ← wrapping "userinfo fetching error" answer; ok (identity u)), w')

  -- The gateway as the provider of the service.
  unfoldable pub auth0_provider : Provider W
  auth0_provider = record {
    get_authorization_url = λ session w. (get_authorization_url config session, w);
    exchange_code = exchange_code;
    refresh_token = refresh_tokens;
    revoke_token = revoke_token;
    get_user_info = get_user_info;
  }
