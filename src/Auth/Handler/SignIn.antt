-- ===== src/Auth/Handler/SignIn.antt =====
-- Callback: which requests sign a user in.
use go_api_management.Http.Status.{other_status}
use go_api_management.Errors.Laws.{Result-cases}
use go_api_management.Errors.{Err}
use go_api_management.Auth.Service.Callback.{MaySignIn, callback_iff}
use go_api_management.Auth.Handler.{
  session_cookie_name, signed_in, callback_failed, callback_for, callback,
}
use go_api_management.Auth.{UserIdentity, TokenPair}
use go_api_management.Http.{Request, fresh}
use go_api_management.Auth.Service.{AuthPorts, handle_callback}
use go_api_management.Base.{
  Bytes, ◌≡◌, some, ◌≢◌, [], arith, Bool-cases, is_empty, inl, inr, ◌↔◌, Option-cases, is_empty-ne,
  ap, ◌∙◌, refl, ◌||◌, or-eq-false, not_empty,
}

failed_status : (e : Err) → (callback_failed e fresh).status ≡ some 200 → ⊥
unfolding callback_failed
failed_status e h = ground arith

signed_status :
    (u : UserIdentity) (tokens : TokenPair) → (signed_in u tokens fresh).status ≡ some 200
unfolding signed_in
signed_status u tokens = elim (Bool-cases (is_empty tokens.refresh_token)) [
  | inl e ↦ rw e refl
  | inr e ↦ rw e refl
]

module _ {W : Type 0} (ports : AuthPorts W) (r : Request) (s : W) where
  -- The request has the session's cookie, a code and a state, and these sign the user in.
  pub record IsSignIn (user : UserIdentity) (tokens : TokenPair) : Type 0 where
    pub session_id : Bytes
    pub sent : r.cookie session_cookie_name ≡ some session_id
    pub code : r.query "code" ≢ []
    pub state : r.query "state" ≢ []
    pub allowed : MaySignIn ports session_id (r.query "code") (r.query "state") s user tokens

  answer_sound :
      (session_id : Bytes)
      → (callback_for ports session_id r (s, fresh)).1.status ≡ some 200
      → (user : UserIdentity) × (tokens : TokenPair) × (r.query "code" ≢ [])
        × (r.query "state" ≢ [])
        × MaySignIn ports session_id (r.query "code") (r.query "state") s user tokens
        × ((callback_for ports session_id r (s, fresh)).1 ≡ signed_in user tokens fresh)
  unfolding callback_for
  answer_sound session_id h =
      elim (Bool-cases (is_empty (r.query "code") || is_empty (r.query "state"))) [
        | inl missing ↦ absurd (other_status (rw (missing, callback_for) at h) (omega arith))
        | inr given ↦
            elim (Result-cases
              (handle_callback ports session_id (r.query "code") (r.query "state") s).0) [
                | inl (e, failed) ↦ absurd (failed_status e (rw (given, callback_for, failed) at h))
                | inr ((u, tokens), good) ↦
                    let (no_code, no_state) = or-eq-false _ _ given in
                    (
                      u,
                      tokens,
                      not_empty _ no_code,
                      not_empty _ no_state,
                      (callback_iff ports session_id (r.query "code") (r.query "state") s u
                            tokens).0
                          good,
                      rw (given, callback_for, good) refl,
                    )
              ]
      ]

  answer_complete :
      (session_id : Bytes) (user : UserIdentity) (tokens : TokenPair)
      → r.query "code" ≢ []
      → r.query "state" ≢ []
      → MaySignIn ports session_id (r.query "code") (r.query "state") s user tokens
      → (callback_for ports session_id r (s, fresh)).1 ≡ signed_in user tokens fresh
  unfolding callback_for
  answer_complete session_id user tokens code state m =
      let good =
        (callback_iff ports session_id (r.query "code") (r.query "state") s user tokens).1 m in
      rw (is_empty-ne _ code, is_empty-ne _ state, callback_for, good) refl

  signed_sound :
      (callback ports r (s, fresh)).1.status ≡ some 200
      → (user : UserIdentity) × (tokens : TokenPair) × IsSignIn user tokens
        × ((callback ports r (s, fresh)).1 ≡ signed_in user tokens fresh)
  unfolding callback
  signed_sound h = elim (Option-cases (r.cookie session_cookie_name)) [
    | inl none_sent ↦ absurd (other_status (rw (none_sent, callback) at h) (omega arith))
    | inr (session_id, sent) ↦
        let (u, tokens, code, state, allowed, response) =
          answer_sound session_id (rw (sent, callback) at h) in
        (
          u,
          tokens,
          record {
            session_id = session_id;
            sent = sent;
            code = code;
            state = state;
            allowed = allowed;
          },
          rw (sent, callback) response,
        )
  ]

  pub signed_complete :
      (user : UserIdentity) (tokens : TokenPair)
      → IsSignIn user tokens
      → (callback ports r (s, fresh)).1 ≡ signed_in user tokens fresh
  unfolding callback
  signed_complete user tokens i =
      rw (i.sent, callback) (answer_complete i.session_id user tokens i.code i.state i.allowed)

  -- On a fresh response, Callback answers 200 exactly if the request brings the session's cookie, a code and a state that
  -- sign a user in.
  pub callback_200_iff :
      ((callback ports r (s, fresh)).1.status ≡ some 200)
      ↔ ((user : UserIdentity) × (tokens : TokenPair) × IsSignIn user tokens)
  callback_200_iff = (
    λ h. let (user, tokens, is_sign_in, _) = signed_sound h in (user, tokens, is_sign_in),
    λ found.
        ap (λ w. w.status) (signed_complete found.0 found.1 found.2)
        ∙ signed_status found.0 found.1,
  )
