-- ===== src/Examples/Signing.antt =====
-- The sign-in at concrete inputs.
use go_api_management.Base.{
  ◌≡◌, refl, arith, codes, [], none, some, Bytes, true, pos, Option, replicate, length, All,
}
use go_api_management.Errors.{ok}
use go_api_management.Encoding.Base64.{url, decode_raw}
use go_api_management.Auth.{AuthSession, TokenPair, UserIdentity}
use go_api_management.Auth.Pkce.{Filled, generate_verifier}
use go_api_management.Auth.Pkce.Shape.{IsUnreserved, verifier_conforms}
use go_api_management.Auth.Sessions.{Query, row, no_rows}
use go_api_management.Auth.Service.{AuthPorts}
use go_api_management.Auth.Service.SingleUse.{TableLaws}

abbrev zeros : Filled
zeros = record { buffer = replicate 32 0; failure = none }

verifier_conforms_example :
    (v : Bytes) × (generate_verifier zeros ≡ ok v)
    × (length v ≡ 43)
    × All IsUnreserved v
    × (decode_raw url v ≡ some (replicate 32 0))
verifier_conforms_example = verifier_conforms zeros refl refl (omega arith)

abbrev pub session : AuthSession
session = record {
  id = codes "s1";
  state = codes "st";
  code_verifier = codes "v";
  redirect_uri = codes "/";
  created_at = 0;
  expires_at = 9;
}

abbrev pub tokens : TokenPair
tokens = record {
  access_token = codes "a";
  refresh_token = codes "r";
  id_token = [];
  expires_in = pos 60;
}

abbrev pub user : UserIdentity
user = record {
  id = codes "u1";
  email = codes "ann@x.org";
  name = codes "Ann";
  picture = [];
  email_verified = true;
}

abbrev pub query_of : Option AuthSession → Query
query_of none = no_rows
query_of (some s) = row s

-- A world that holds at most the one session.
abbrev pub one_session : AuthPorts (Option AuthSession)
one_session = record {
  table = record {
    insert = λ s w. (ok tt, some s);
    select = λ id w. (query_of w, w);
    delete_by_id = λ id w. (ok (some 1), none);
    delete_before = λ t w. (ok (some 0), w);
  };
  provider = record {
    get_authorization_url = λ s w. (ok s.code_verifier, w);
    exchange_code = λ code verifier w. (ok tokens, w);
    refresh_token = λ t w. (ok tokens, w);
    revoke_token = λ t w. (ok tt, w);
    get_user_info = λ t w. (ok user, w);
  };
  random = λ n w. (record { buffer = replicate n 0; failure = none }, w);
  sha256 = λ s. s;
  now = λ w. 5;
}

pub query-row : (w : Option AuthSession) (s : AuthSession) → query_of w ≡ row s → w ≡ some s
query-row none s e = cc
query-row (some t) s e = cc

abbrev pub one_session_laws : TableLaws one_session
one_session_laws = record {
  stored = λ w id. w;
  select-row = λ id w s e. query-row w s e;
  delete-stored = λ id w n e. refl;
  exchange-stored = λ code verifier w. refl;
  info-stored = λ token w. refl;
}
