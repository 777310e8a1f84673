-- ===== src/Auth/Service/Initiate.antt =====
-- InitiateAuth: what is stored, and what the provider sees.
use go_api_management.Base.{◌≡◌, ap, ◌∙◌, ◌+◌, Bytes, inl, inr, sym}
use go_api_management.Errors.{ok, wrapping}
use go_api_management.Errors.Laws.{>>=-eq-ok, wrapping-eq-ok, ok-injective, Result-cases}
use go_api_management.Auth.{AuthSession}
use go_api_management.Auth.Pkce.{
  Filled, generate_state, generate_verifier, derive_challenge, generate_uuid_v4,
}
use go_api_management.Auth.Sessions.{save}
use go_api_management.Auth.Service.{
  AuthPorts, window, new_session, persist_and_redirect, initiate_auth,
}

module _ {W : Type 0} (ports : AuthPorts W) (redirect_uri : Bytes) (w : W) where
  abbrev pub first : Filled × W
  first = ports.random 32 w

  abbrev pub second_read : Filled × W
  second_read = ports.random 32 first.1

  abbrev pub third : Filled × W
  third = ports.random 16 second_read.1

  -- A session under a fresh identifier that keeps the state, the verifier and the redirect address,
  -- and lasts for the window; it was saved, and the provider made the address of the same session
  -- with the challenge in place of the verifier.
  pub record IsInitiated (auth_url session_id : Bytes) : Type 0 where
    pub state : Bytes
    pub verifier : Bytes
    pub is_state : generate_state first.0 ≡ ok state
    pub is_verifier : generate_verifier second_read.0 ≡ ok verifier
    pub is_id : session_id ≡ generate_uuid_v4 third.0
    pub session : AuthSession
    pub is_session : session ≡ record {
      id = session_id;
      state = state;
      code_verifier = verifier;
      redirect_uri = redirect_uri;
      created_at = ports.now third.1;
      expires_at = ports.now third.1 + window;
    }
    pub is_saved : (save ports.table session third.1).0 ≡ ok tt
    pub is_url :
        (ports.provider.get_authorization_url
          (record session { code_verifier = derive_challenge ports.sha256 verifier })
          (save ports.table session third.1).1).0
        ≡ ok auth_url

  persist_sound :
      (session : AuthSession) (v : W) (auth_url session_id : Bytes)
      → (persist_and_redirect ports session v).0 ≡ ok (auth_url, session_id)
      → (session.id ≡ session_id)
        × ((save ports.table session v).0 ≡ ok tt)
        × ((ports.provider.get_authorization_url
              (record session {
                code_verifier = derive_challenge ports.sha256 session.code_verifier;
              })
              (save ports.table session v).1).0
            ≡ ok auth_url)
  unfolding persist_and_redirect
  persist_sound session v auth_url session_id h =
      elim (Result-cases (save ports.table session v).0) [
        | inl (e, failed) ↦ absurd (cc (failed, h))
        | inr (_, saved) ↦
            let (u, made, h1) =
              >>=-eq-ok
                (wrapping _
                  (ports.provider.get_authorization_url
                    (record session {
                      code_verifier = derive_challenge ports.sha256 session.code_verifier;
                    })
                    (save ports.table session v).1).0)
                _ (rw (saved, persist_and_redirect) at h) in
            let same = ok-injective h1 in
            (ap (λ p. p.1) same, saved, wrapping-eq-ok _ _ made ∙ ap ok (ap (λ p. p.0) same))
      ]

  -- If InitiateAuth gives an address and an identifier, then a session of that kind was saved under
  -- the identifier, and the provider made the address from the challenge, without the verifier.
  pub initiate_auth_sound :
      (auth_url session_id : Bytes)
      → (initiate_auth ports redirect_uri w).0 ≡ ok (auth_url, session_id)
      → IsInitiated auth_url session_id
  unfolding initiate_auth new_session
  initiate_auth_sound auth_url session_id h = elim (Result-cases (generate_state first.0)) [
    | inl (e, failed) ↦ absurd (cc (failed, h))
    | inr (state, is_state) ↦ elim (Result-cases (generate_verifier second_read.0)) [
      | inl (e, failed) ↦ absurd (cc (is_state, failed, h))
      | inr (verifier, is_verifier) ↦
          let session : AuthSession = record {
            id = generate_uuid_v4 third.0;
            state = state;
            code_verifier = verifier;
            redirect_uri = redirect_uri;
            created_at = ports.now third.1;
            expires_at = ports.now third.1 + window;
          } in
          let (is_id, is_saved, is_url) =
            persist_sound session third.1 auth_url session_id
              (rw (is_state, initiate_auth, is_verifier) at h) in
          record {
            state = state;
            verifier = verifier;
            is_state = is_state;
            is_verifier = is_verifier;
            is_id = sym is_id;
            session = session;
            is_session = ap (λ i. record session { id = i }) is_id;
            is_saved = is_saved;
            is_url = is_url;
          }
    ]
  ]
