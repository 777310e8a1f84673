-- ===== src/Auth/Handler/Journey.antt =====
-- From Login to Callback (internal/adapters/handler/auth_handler.go): what a browser brings back, and what
-- the table keeps meanwhile.
pub mod Back
use go_api_management.Auth.Handler.SignIn.{IsSignIn, signed_complete, callback_200_iff}
use go_api_management.Auth.Service.Callback.{MaySignIn}
use go_api_management.Auth.Pkce.{derive_challenge, generate_state, generate_verifier}
use go_api_management.Auth.Sessions.{save, delete, get, row}
use go_api_management.Errors.Laws.{Result-cases, wrapping-eq-ok, ok-injective}
use go_api_management.Http.Status.{other_status}
use go_api_management.Errors.{ok}
use go_api_management.Auth.Handler.{
  login, redirected, new_cookie, session_cookie_name, callback, signed_in,
}
use go_api_management.Http.{Request, fresh, Cookie}
use go_api_management.Auth.{AuthSession, UserIdentity, TokenPair, is_expired}
use go_api_management.Auth.Service.{
  AuthPorts, initiate_auth, window, new_session, persist_and_redirect,
}
use go_api_management.Auth.Service.Initiate.{
  first, second_read, third, IsInitiated, initiate_auth_sound,
}
use go_api_management.Base.{
  ℕ, refl, [], ◌∷◌, some, false, inl, inr, ◌≡◌, ◌≢◌, ◌∙◌, arith, ◌≤◌, Bytes, Option, ◌+◌,
  Bool-cases, is_empty, List, ap, sym, none, true, ◌++◌, ◌||◌, ◌&&◌, zero, suc,
}

-- The row that the table keeps of a session: the database may round its times to microseconds.
pub record IsKept (new kept : AuthSession) : Type 0 where
  pub same_state : kept.state ≡ new.state
  pub same_verifier : kept.code_verifier ≡ new.code_verifier
  pub lasts : new.expires_at ≤ kept.expires_at + 1000

-- The rows of the table by their identifier: an insertion that succeeds adds its row, and the provider,
-- which makes the address, leaves the table alone.
pub record KeepLaws {W : Type 0} (ports : AuthPorts W) : Type 0 where
  pub stored : W → Bytes → Option AuthSession
  pub insert-stored :
      (new : AuthSession) (w : W)
      → (ports.table.insert new w).0 ≡ ok tt
      → (kept : AuthSession) × (stored (ports.table.insert new w).1 new.id ≡ some kept)
        × IsKept new kept
  pub url-stored :
      (s : AuthSession) (w : W) (id : Bytes)
      → stored (ports.provider.get_authorization_url s w).1 id ≡ stored w id

module _ {W : Type 0} (ports : AuthPorts W) (laws : KeepLaws ports) (r : Request) (s : W)
    (id : Bytes) where
  -- Login redirects, and sets the cookie of the session.
  pub record IsSent : Type 0 where
    pub redirects : (login ports r (s, fresh)).1.status ≡ some 302
    pub sets : (login ports r (s, fresh)).1.cookies ≡ new_cookie session_cookie_name id 600 ∷ []

  abbrev pub redirect_uri : Bytes
  redirect_uri = r.query "redirect_uri"

  -- the world of the login, and the one in which a callback has consumed the session
  abbrev pub sent_world : W
  sent_world = (login ports r (s, fresh)).0

  abbrev pub behind : W → W
  behind v = (delete ports.table id (get ports.table id v).1).1

  -- The browser comes back in the world `v`, with the cookie, a code, and the state of the login; the row
  -- is still there, and is found; less than the window has passed; and the provider exchanges the code
  -- with the verifier of the login, and names the user.
  pub record ComesBack (q : Request) (v : W) (verifier : Bytes) (user : UserIdentity)
      (tokens : TokenPair) : Type 0 where
    pub cookie : q.cookie session_cookie_name ≡ some id
    pub code : q.query "code" ≢ []
    pub state : q.query "state" ≢ []
    pub is_state : generate_state (first ports redirect_uri s).0 ≡ ok (q.query "state")
    pub is_verifier : generate_verifier (second_read ports redirect_uri s).0 ≡ ok verifier
    pub still_there : laws.stored v id ≡ laws.stored sent_world id
    pub selects :
        (kept : AuthSession) → laws.stored v id ≡ some kept → (ports.table.select id v).0 ≡ row kept
    pub in_time : ports.now (behind v) + 1000 ≤ ports.now (third ports redirect_uri s).1 + window
    pub exchanged :
        (ports.provider.exchange_code (q.query "code") verifier (behind v)).0 ≡ ok tokens
    pub named :
        (ports.provider.get_user_info tokens.access_token
          (ports.provider.exchange_code (q.query "code") verifier (behind v)).1).0
        ≡ ok user
