-- ===== src/Auth/Handler/Journey/Back.antt =====
-- Logins, and the callbacks of the browsers that come back from them.
use go_api_management.Auth.Handler.SignIn.{IsSignIn, signed_complete, callback_200_iff}
use go_api_management.Auth.Service.Callback.{MaySignIn}
use go_api_management.Auth.Pkce.{derive_challenge}
use go_api_management.Auth.Sessions.{save, get, row}
use go_api_management.Errors.Laws.{Result-cases, wrapping-eq-ok, ok-injective}
use go_api_management.Http.Status.{other_status}
use go_api_management.Errors.{ok}
use go_api_management.Auth.Handler.{login, redirected, callback, signed_in}
use go_api_management.Http.{Request, fresh, Cookie}
use go_api_management.Auth.{AuthSession, UserIdentity, TokenPair, is_expired}
use go_api_management.Auth.Service.{
  AuthPorts, initiate_auth, window, new_session, persist_and_redirect,
}
use go_api_management.Auth.Service.Initiate.{third, IsInitiated, initiate_auth_sound}
use go_api_management.Base.{
  ℕ, refl, [], ◌∷◌, some, false, inl, inr, ◌≡◌, ◌∙◌, arith, ◌≤◌, Bytes, ◌+◌, Bool-cases, is_empty,
  List, ap, sym,
}
use go_api_management.Auth.Handler.Journey.{
  IsKept, KeepLaws, IsSent, ComesBack, behind, redirect_uri,
}

-- the value of the first cookie
value_of : List Cookie → Bytes
value_of [] = []
value_of (c ∷ more) = c.value

module _ {W : Type 0} (ports : AuthPorts W) (laws : KeepLaws ports) (r : Request) (s : W)
    (id : Bytes) where
  abbrev wish : Bytes
  wish = redirect_uri ports laws r s id

  initiated :
      IsSent ports laws r s id
      → (url : Bytes) × ((initiate_auth ports wish s).0 ≡ ok (url, id)) × (is_empty wish ≡ false)
  unfolding login redirected value_of
  initiated sent = elim (Bool-cases (is_empty wish)) [
    | inl missing ↦ absurd (other_status (rw (missing, login) at sent.redirects) (omega arith))
    | inr given ↦ elim (Result-cases (initiate_auth ports wish s).0) [
      | inl (e, failed) ↦
          absurd (other_status (rw (given, login, failed) at sent.redirects) (omega arith))
      | inr ((url, id'), good) ↦
          let same : id' ≡ id = ap value_of (rw (given, login, good) at sent.sets) in
          (url, rw (← same) good, given)
    ]
  ]

  persisted-world :
      (new : AuthSession) (w : W)
      → (save ports.table new w).0 ≡ ok tt
      → (persist_and_redirect ports new w).1
        ≡ (ports.provider.get_authorization_url
            (record new { code_verifier = derive_challenge ports.sha256 new.code_verifier })
            (save ports.table new w).1).1
  unfolding persist_and_redirect
  persisted-world new w good = rw (good, persist_and_redirect) refl

  initiated-world :
      (url : Bytes) (i : IsInitiated ports wish s url id)
      → (initiate_auth ports wish s).1
        ≡ (persist_and_redirect ports i.session (third ports wish s).1).1
  unfolding initiate_auth new_session
  initiated-world url i =
      let same = i.is_session ∙ (λ j. record {
        id = i.is_id j;
        state = i.state;
        code_verifier = i.verifier;
        redirect_uri = wish;
        created_at = ports.now (third ports wish s).1;
        expires_at = ports.now (third ports wish s).1 + window;
      }) in
      rw (same, i.is_state, initiate_auth, i.is_verifier) refl

  save-insert :
      (new : AuthSession) (w : W)
      → (save ports.table new w).0 ≡ ok tt
      → (ports.table.insert new w).0 ≡ ok tt
  unfolding save
  save-insert new w h = wrapping-eq-ok _ _ h

  -- behind ports laws r s id the login the table keeps its session
  saved :
      (url : Bytes) (i : IsInitiated ports wish s url id)
      → (kept : AuthSession) × (laws.stored (initiate_auth ports wish s).1 id ≡ some kept)
        × IsKept i.session kept
  unfolding save
  saved url i =
      let w = (third ports wish s).1 in
      let (kept, is_stored, same) =
        laws.insert-stored i.session w (save-insert i.session w i.is_saved) in
      let named : i.session.id ≡ id = ap (λ x. x.id) i.is_session in
      (
        kept,
        ap (λ v. laws.stored v id) (initiated-world url i ∙ persisted-world i.session w i.is_saved)
            ∙ laws.url-stored _ _ id
            ∙ ap (λ x. laws.stored (ports.table.insert i.session w).1 x) (sym named)
            ∙ is_stored,
        same,
      )

  login-world :
      (url : Bytes)
      → (initiate_auth ports wish s).0 ≡ ok (url, id)
      → is_empty wish ≡ false
      → (login ports r (s, fresh)).0 ≡ (initiate_auth ports wish s).1
  unfolding login
  login-world url h given = rw (given, login, h) refl

  get-kept :
      (v : W) (kept : AuthSession)
      → (ports.table.select id v).0 ≡ row kept
      → (get ports.table id v).0 ≡ ok kept
  unfolding get
  get-kept v kept h = rw h refl

  not_expired :
      (now : ℕ) (new kept : AuthSession)
      → IsKept new kept
      → now + 1000 ≤ new.expires_at
      → is_expired now kept ≡ false
  not_expired now new kept k h = let lasts = k.lasts in ground arith

  module _ (q : Request) (v : W) (verifier : Bytes) (user : UserIdentity) (tokens : TokenPair) where
    -- what a browser that comes back brings signs the user in
    back-MaySignIn :
        (url : Bytes)
        → (initiate_auth ports wish s).0 ≡ ok (url, id)
        → is_empty wish ≡ false
        → ComesBack ports laws r s id q v verifier user tokens
        → MaySignIn ports id (q.query "code") (q.query "state") v user tokens
    back-MaySignIn url h given b =
        let i = initiate_auth_sound ports wish s url id h in
        let (kept, is_stored, is_kept) = saved url i in
        let there : laws.stored v id ≡ some kept =
          b.still_there ∙ ap (λ x. laws.stored x id) (login-world url h given) ∙ is_stored in
        let state : i.session.state ≡ q.query "state" =
          ap (λ x. x.state) i.is_session ∙ ok-injective (sym i.is_state ∙ b.is_state) in
        let same : kept.code_verifier ≡ verifier =
          is_kept.same_verifier
          ∙ ap (λ x. x.code_verifier) i.is_session
          ∙ ok-injective (sym i.is_verifier ∙ b.is_verifier) in
        let lasts : i.session.expires_at ≡ ports.now (third ports wish s).1 + window =
          ap (λ x. x.expires_at) i.is_session in
        record {
          session = kept;
          stored = get-kept v kept (b.selects kept there);
          in_time =
              not_expired (ports.now (behind ports laws r s id v)) i.session kept is_kept
                (omega (arith, lasts, b.in_time));
          same_state = is_kept.same_state ∙ state;
          exchanged = rw same b.exchanged;
          named = rw same b.named;
        }

    -- When Login has redirected a browser, and it comes back with the cookie, a code, and the state, which
    -- is not empty, a microsecond or more before the window ends, while the table keeps the row, and the
    -- provider takes the code and names the user, then Callback signs the user in and answers 200.
    pub login_signs_in :
        IsSent ports laws r s id
        → ComesBack ports laws r s id q v verifier user tokens
        → ((callback ports q (v, fresh)).1 ≡ signed_in user tokens fresh)
          × ((callback ports q (v, fresh)).1.status ≡ some 200)
    login_signs_in sent b =
        let (url, h, given) = initiated sent in
        let signs : IsSignIn ports q v user tokens = record {
          session_id = id;
          sent = b.cookie;
          code = b.code;
          state = b.state;
          allowed = back-MaySignIn url h given b;
        } in
        (
          signed_complete ports q v user tokens signs,
          (callback_200_iff ports q v).1 (user, tokens, signs),
        )
