-- ===== src/Auth/Service.antt =====
-- internal/core/services/auth_service.go over the session repository. The identity provider is the
-- interface AuthProvider of internal/core/ports; log lines are left out.
pub mod Initiate
pub mod Callback
pub mod SingleUse
pub mod Provenance
pub mod Interleaved
use go_api_management.Base.{
  ℕ, ◌+◌, ◌*◌, not, Bytes, str_eq, refl, [], ◌∷◌, some, none, true, false, inl, inr, ◌≡◌, ◌≢◌, ◌∙◌,
  ◌++◌, arith, ◌||◌, ◌&&◌, zero, suc,
}
use go_api_management.Errors.{
  Err, auth, session_expired, invalid_state, wrap, Result, ok, err, ◌>>=◌, ◌>>◌, refuse, wrapping,
}
use go_api_management.Auth.{Action, AuthSession, TokenPair, UserIdentity, is_expired}
use go_api_management.Auth.Pkce.{
  Filled, generate_state, generate_verifier, derive_challenge, generate_uuid_v4,
}
use go_api_management.Auth.Sessions.{SessionTable, save, get, delete}

-- AuthProvider
pub record Provider (W : Type 0) : Type 0 where
  pub get_authorization_url : AuthSession → Action W (Result Bytes)
  pub exchange_code : Bytes → Bytes → Action W (Result TokenPair)
  pub refresh_token : Bytes → Action W (Result TokenPair)
  pub revoke_token : Bytes → Action W (Result (Unit {0}))
  pub get_user_info : Bytes → Action W (Result UserIdentity)

pub record AuthPorts (W : Type 0) : Type 0 where
  pub table : SessionTable W
  pub provider : Provider W
  pub random : ℕ → Action W Filled
  pub sha256 : Bytes → Bytes
  pub now : W → ℕ

-- the transient window of five minutes
abbrev pub window : ℕ
window = 300000000000

module _ {W : Type 0} (ports : AuthPorts W) where
  -- the new session
  unfoldable pub new_session : Bytes → Bytes → Bytes → Action W AuthSession
  new_session redirect_uri state code_verifier w =
      let (seed, w') = ports.random 16 w in
      (
        record {
          id = generate_uuid_v4 seed;
          state = state;
          code_verifier = code_verifier;
          redirect_uri = redirect_uri;
          created_at = ports.now w';
          expires_at = ports.now w' + window;
        },
        w',
      )

  -- what InitiateAuth does with it
  unfoldable pub persist_and_redirect : AuthSession → Action W (Result (Bytes × Bytes))
  persist_and_redirect session w =
      let (r, w1) = save ports.table session w in
      elim (wrapping "persist session" r) [
        | err e ↦ (err e, w1)
        | ok done ↦
            let (u, w2) =
              ports.provider.get_authorization_url
                (record session {
                  code_verifier = derive_challenge ports.sha256 session.code_verifier;
                })
                w1 in
            ((wrapping "fetch auth provider URL" u >>= λ auth_url. ok (auth_url, session.id)), w2)
      ]

  -- InitiateAuth
  unfoldable pub initiate_auth : Bytes → Action W (Result (Bytes × Bytes))
  unfolding new_session persist_and_redirect
  initiate_auth redirect_uri w =
      let (seed, w1) = ports.random 32 w in
      elim (wrapping "generate state" (generate_state seed)) [
        | err e ↦ (err e, w1)
        | ok state ↦
            let (seed', w2) = ports.random 32 w1 in
            elim (wrapping "generate verifier" (generate_verifier seed')) [
              | err e ↦ (err e, w2)
              | ok verifier ↦
                  let (session, w3) = new_session redirect_uri state verifier w2 in
                  persist_and_redirect session w3
            ]
      ]

  -- the tests of HandleCallback on the session
  unfoldable pub checked : AuthSession → Bytes → ℕ → Result (Unit {0})
  checked session state now = do
    refuse (is_expired now session) (wrap "callback verification failed" (auth session_expired))
    refuse (not (str_eq session.state state))
        (wrap "callback verification failed" (auth invalid_state))

  -- the calls of the provider behind them
  unfoldable pub sign_in : Bytes → AuthSession → Action W (Result (UserIdentity × TokenPair))
  sign_in code session w =
      let (r, w1) = ports.provider.exchange_code code session.code_verifier w in
      elim (wrapping "exchange authorization code" r) [
        | err e ↦ (err e, w1)
        | ok tokens ↦
            let (u, w2) = ports.provider.get_user_info tokens.access_token w1 in
            ((wrapping "retrieve user profile" u >>= λ user. ok (user, tokens)), w2)
      ]

  -- HandleCallback: the result of the deletion is dropped
  unfoldable pub handle_callback :
      Bytes → Bytes → Bytes → Action W (Result (UserIdentity × TokenPair))
  unfolding checked sign_in
  handle_callback session_id code state w =
      let (r, w1) = get ports.table session_id w in
      elim (wrapping "retrieve auth session" r) [
        | err e ↦ (err e, w1)
        | ok session ↦
            let (_, w2) = delete ports.table session_id w1 in
            elim (checked session state (ports.now w2)) [
              | err e ↦ (err e, w2)
              | ok done ↦ sign_in code session w2
            ]
      ]

  -- RefreshToken
  pub refresh : Bytes → Action W (Result TokenPair)
  refresh token w =
      let (r, w') = ports.provider.refresh_token token w in (wrapping "rotate refresh token" r, w')

  -- RevokeToken
  pub revoke : Bytes → Action W (Result (Unit {0}))
  revoke token w =
      let (r, w') = ports.provider.revoke_token token w in (wrapping "revoke session token" r, w')
