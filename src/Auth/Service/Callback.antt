-- ===== src/Auth/Service/Callback.antt =====
-- HandleCallback: which callbacks sign a user in.
use go_api_management.Base.{
  ℕ, false, ◌≡◌, ◌∙◌, ◌↔◌, refl, ap, Bytes, str_eq_iff, str_eq_refl, not-eq-false, inl, inr,
}
use go_api_management.Errors.{ok, refuse, wrapping}
use go_api_management.Errors.Laws.{
  >>=-eq-ok, refuse-eq-ok, wrapping-eq-ok, ok-injective, Result-cases,
}
use go_api_management.Auth.{AuthSession, TokenPair, UserIdentity, is_expired}
use go_api_management.Auth.Sessions.{get, delete}
use go_api_management.Auth.Service.{AuthPorts, checked, sign_in, handle_callback}

checked_sound :
    {W : Type 0} (ports : AuthPorts W) (session : AuthSession) (state : Bytes) (now : ℕ)
    → checked ports session state now ≡ ok tt
    → (is_expired now session ≡ false) × (session.state ≡ state)
unfolding checked
checked_sound ports session state now h =
    let (_, in_time, h1) = >>=-eq-ok (refuse (is_expired now session) _) _ h in
    (
      refuse-eq-ok _ _ in_time,
      (str_eq_iff session.state state).0 (not-eq-false _ (refuse-eq-ok _ _ h1)),
    )

module _ {W : Type 0} (ports : AuthPorts W) (session_id code state : Bytes) (w : W) where
  abbrev found : W
  found = (get ports.table session_id w).1

  abbrev consumed : W
  consumed = (delete ports.table session_id found).1

  -- A stored session that has not expired has the state, and the provider exchanges the code with the
  -- verifier stored in it and names the user of the tokens.
  pub record MaySignIn (user : UserIdentity) (tokens : TokenPair) : Type 0 where
    pub session : AuthSession
    pub stored : (get ports.table session_id w).0 ≡ ok session
    pub in_time : is_expired (ports.now consumed) session ≡ false
    pub same_state : session.state ≡ state
    pub exchanged : (ports.provider.exchange_code code session.code_verifier consumed).0 ≡ ok tokens
    pub named :
        (ports.provider.get_user_info tokens.access_token
          (ports.provider.exchange_code code session.code_verifier consumed).1).0
        ≡ ok user

  sign_in_sound :
      (session : AuthSession) (v : W) (user : UserIdentity) (tokens : TokenPair)
      → (sign_in ports code session v).0 ≡ ok (user, tokens)
      → ((ports.provider.exchange_code code session.code_verifier v).0 ≡ ok tokens)
        × ((ports.provider.get_user_info tokens.access_token
              (ports.provider.exchange_code code session.code_verifier v).1).0
            ≡ ok user)
  unfolding sign_in
  sign_in_sound session v user tokens h =
      elim (Result-cases (ports.provider.exchange_code code session.code_verifier v).0) [
        | inl (e, bad) ↦ absurd (cc (bad, h))
        | inr (t, exchanged) ↦
            let (_, named, h1) =
              >>=-eq-ok
                (wrapping _
                  (ports.provider.get_user_info t.access_token
                    (ports.provider.exchange_code code session.code_verifier v).1).0)
                _ (rw (exchanged, sign_in) at h) in
            let same = ok-injective h1 in
            let given : t ≡ tokens = ap (λ p. p.1) same in
            (
              exchanged ∙ ap ok given,
              rw (← given) (wrapping-eq-ok _ _ named ∙ ap ok (ap (λ p. p.0) same)),
            )
      ]

  callback_sound :
      (user : UserIdentity) (tokens : TokenPair)
      → (handle_callback ports session_id code state w).0 ≡ ok (user, tokens)
      → MaySignIn user tokens
  unfolding handle_callback
  callback_sound user tokens h = elim (Result-cases (get ports.table session_id w).0) [
    | inl (e, missing) ↦ absurd (cc (missing, h))
    | inr (session, stored) ↦
        elim (Result-cases (checked ports session state (ports.now consumed))) [
          | inl (e, refused) ↦ absurd (cc (stored, refused, h))
          | inr (_, passed) ↦
              let (in_time, same_state) =
                checked_sound ports session state (ports.now consumed) passed in
              let (exchanged, named) =
                sign_in_sound session consumed user tokens
                  (rw (stored, handle_callback, passed) at h) in
              record {
                session = session;
                stored = stored;
                in_time = in_time;
                same_state = same_state;
                exchanged = exchanged;
                named = named;
              }
        ]
  ]

  sign_in_complete :
      (session : AuthSession) (v : W) (user : UserIdentity) (tokens : TokenPair)
      → (ports.provider.exchange_code code session.code_verifier v).0 ≡ ok tokens
      → (ports.provider.get_user_info tokens.access_token
          (ports.provider.exchange_code code session.code_verifier v).1).0
        ≡ ok user
      → (sign_in ports code session v).0 ≡ ok (user, tokens)
  unfolding sign_in
  sign_in_complete session v user tokens exchanged named = rw (exchanged, sign_in, named) refl

  pub checked_complete :
      (session : AuthSession) (now : ℕ)
      → is_expired now session ≡ false
      → session.state ≡ state
      → checked ports session state now ≡ ok tt
  unfolding checked
  checked_complete session now in_time same = rw (in_time, same, str_eq_refl) refl

  callback_complete :
      (user : UserIdentity) (tokens : TokenPair)
      → MaySignIn user tokens
      → (handle_callback ports session_id code state w).0 ≡ ok (user, tokens)
  unfolding handle_callback
  callback_complete user tokens m =
      rw
        (
          m.stored,
          handle_callback,
          checked_complete m.session (ports.now consumed) m.in_time m.same_state,
        )
        (sign_in_complete m.session consumed user tokens m.exchanged m.named)

  -- A callback signs a user in exactly if a stored session that has not expired has its state, the
  -- provider exchanges its code with the verifier of the session, and names the user.
  pub callback_iff :
      (user : UserIdentity) (tokens : TokenPair)
      → ((handle_callback ports session_id code state w).0 ≡ ok (user, tokens))
        ↔ MaySignIn user tokens
  callback_iff user tokens = (callback_sound user tokens, callback_complete user tokens)
