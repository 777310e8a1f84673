-- ===== src/Examples/Gateway.antt =====
-- The identity provider's client at concrete inputs.
use go_api_management.Base.{
  Bytes, refl, [], ◌∷◌, none, ◌≡◌, ◌++◌, arith, codes, List, replicate, pos, inr, str_eq,
}
use go_api_management.Errors.{ok, err, foreign}
use go_api_management.Encoding.Base64.{url, encode_raw}
use go_api_management.Encoding.Query.{encode_values, parse_query, set_value}
use go_api_management.Auth.Pkce.{
  generate_uuid_v4, derive_challenge, generate_state, generate_verifier,
}
use go_api_management.Auth.Sessions.{no_rows, save}
use go_api_management.Auth.Service.{AuthPorts, initiate_auth, new_session, persist_and_redirect}
use go_api_management.Auth.Service.Initiate.{IsInitiated}
use go_api_management.Auth.Gateway.{
  GatewayConfig, Client, TokenRequest, TokenResponse, Call, auth0_provider, get_authorization_url,
  exchange_code, token_pair,
}
use go_api_management.Auth.Gateway.Tokens.{ClientLaws, IsExchange, IsAnswered, exchange_code_sound}
use go_api_management.Auth.Gateway.Url.{IsBytesConfig, over_gateway, shown, login_url}
use go_api_management.Examples.Signing.{tokens}

abbrev config : GatewayConfig
config = record {
  domain = codes "idp.example";
  client_id = codes "c&1";
  client_secret = codes "s";
  api_audience = [];
  redirect_uri = codes "https://x.org/cb";
}

abbrev answer_tokens : TokenResponse
answer_tokens = record {
  access_token = codes "a";
  refresh_token = codes "r";
  id_token = [];
  expires_in = pos 60;
}

-- A client over the list of the requests sent so far.
abbrev wire : Client (List Call)
wire = record {
  new_request = λ call. ok tt;
  send = λ call w. (ok (record { status = 200; text = [] }), w ++ call ∷ []);
  execute = λ A f w. f w;
  marshal = λ req. ok req.code_verifier;
  decode_tokens = λ t. ok answer_tokens;
  decode_user = λ t. err (foreign 0);
}

wire_laws : ClientLaws wire
wire_laws = record {
  sent = λ w. w;
  sent-send = λ call w. refl;
  execute_cases = λ A f w. inr (w, refl, refl, refl);
}

exchange_code_sound_example :
    (req : TokenRequest) × (t : TokenResponse) × IsExchange config wire wire_laws
      (codes "code")
      (codes "verifier")
      req
    × (tokens ≡ token_pair t)
    × IsAnswered config wire wire_laws req []
        (exchange_code config wire (codes "code") (codes "verifier") []).1
        t
exchange_code_sound_example =
    exchange_code_sound config wire wire_laws (codes "code") (codes "verifier") [] tokens
      (unfold exchange_code in refl)

abbrev base : AuthPorts (List Call)
base = record {
  table = record {
    insert = λ s w. (ok tt, w);
    select = λ id w. (no_rows, w);
    delete_by_id = λ id w. (ok none, w);
    delete_before = λ t w. (ok none, w);
  };
  provider = auth0_provider config wire;
  random = λ n w. (record { buffer = replicate n 0; failure = none }, w);
  sha256 = λ s. s;
  now = λ w. 5;
}

config-IsBytes : IsBytesConfig config
config-IsBytes = record { client_id = omega arith; api_audience = tt; redirect_uri = omega arith }

abbrev zero_text : Bytes
zero_text = encode_raw url (replicate 32 0)

abbrev sample_query : Bytes
sample_query = encode_values (shown config zero_text (derive_challenge (λ s. s) zero_text))

abbrev sample_url : Bytes
sample_url =
    (codes "https://" ++ (codes "idp.example" ++ codes "/authorize")) ++ b'?' ∷ sample_query

abbrev sample_id : Bytes
sample_id = generate_uuid_v4 (record { buffer = replicate 16 0; failure = none })

login_url_example :
    (i : IsInitiated (over_gateway config wire base) (codes "/") [] sample_url sample_id)
    × (query : Bytes) × (sample_url
        ≡ (codes "https://" ++ (config.domain ++ codes "/authorize")) ++ b'?' ∷ query)
    × (parse_query query ≡ shown config i.state (derive_challenge (λ s. s) i.verifier))
login_url_example = login_url config wire base config-IsBytes (codes "/") [] sample_url sample_id (
    unfold initiate_auth in
    unfold new_session in
    unfold persist_and_redirect in
    unfold save in
    unfold generate_state in
    unfold generate_verifier in
    unfold auth0_provider in
    unfold get_authorization_url in unfold set_value in unfold str_eq in refl)
