-- ===== src/Auth/Handler.antt =====
-- internal/adapters/handler/auth_handler.go: the handlers of the sign-in, and their routes. Log lines
-- are left out; `jwt` is the middleware that JWTMiddleware gives.
pub mod SignIn
pub mod Journey
pub mod Cookies
use go_api_management.Telemetry.{MetricsLibrary}
use go_api_management.Http.Routes.{route, is_route}
use go_api_management.Telemetry.{metrics}
use go_api_management.Correlation.{correlation}
use go_api_management.Auth.Pkce.{Filled}
use go_api_management.Auth.Service.{AuthPorts, revoke, refresh, initiate_auth, handle_callback}
use go_api_management.Errors.{Err, err, is_auth_error, ok, session_expired, invalid_state}
use go_api_management.Auth.{TokenPair, UserIdentity}
use go_api_management.Base.{
  String, Bytes, ℕ, [], some, none, false, true, ◌∷◌, if◌then◌else◌, is_empty, ◌||◌, str_eq, codes,
  refl, inl, inr, ◌≡◌, ◌≢◌, ◌∙◌, ◌++◌, arith, ◌&&◌, zero, suc,
}
use go_api_management.Http.{
  Request, Cookie, Writer, Handler, lit, bytes, error, integer, user, encode, write_header, Value,
  set_header, set_cookie, write_error, json_type,
}

abbrev pub session_cookie_name : String
session_cookie_name = "session_id"

abbrev pub refresh_token_cookie_name : String
refresh_token_cookie_name = "refresh_token"

-- a cookie that lives for so many seconds
abbrev new_cookie : String → Bytes → ℕ → Cookie
new_cookie name value seconds = record {
  name = name;
  value = value;
  expires_in = some seconds;
  is_deleted = false;
  http_only = true;
  secure = true;
}

-- `MaxAge: -1`
abbrev cleared_cookie : String → Cookie
cleared_cookie name = record {
  name = name;
  value = [];
  expires_in = none;
  is_deleted = true;
  http_only = true;
  secure = true;
}

-- 30 days
abbrev refresh_seconds : ℕ
refresh_seconds = 2592000

-- the refresh token in its cookie, if there is one
set_refresh : TokenPair → Writer → Writer
set_refresh tokens w =
    if is_empty tokens.refresh_token
    then w
    else set_cookie (new_cookie refresh_token_cookie_name tokens.refresh_token refresh_seconds) w

abbrev user_value : UserIdentity → Value
user_value u = user u.id u.email u.name u.picture u.email_verified

-- the answers to errors of HandleCallback
callback_failed : Err → Writer → Writer
callback_failed e w =
    if is_auth_error e session_expired || is_auth_error e invalid_state
    then write_error 401 (error e) w
    else write_error 500 (lit "Token exchange failed") w

pub signed_in : UserIdentity → TokenPair → Writer → Writer
unfolding set_refresh
signed_in u tokens w =
    encode
      (("user", user_value u)
        ∷ ("access_token", bytes tokens.access_token)
        ∷ ("expires_in", integer tokens.expires_in)
        ∷ [])
      (json_type (set_refresh tokens (set_cookie (cleared_cookie session_cookie_name) w)))

rotated : TokenPair → Writer → Writer
unfolding set_refresh
rotated tokens w =
    encode
      (("access_token", bytes tokens.access_token) ∷ ("expires_in", integer tokens.expires_in) ∷ [])
      (json_type (set_refresh tokens w))

unfoldable pub redirected : Bytes → Bytes → Writer → Writer
redirected url session_id w = write_header 302 (
    set_header "Location" (bytes url)
      (set_cookie (new_cookie session_cookie_name session_id 600) w))

module _ {W : Type 0} (ports : AuthPorts W) where
  -- Login
  unfoldable pub login : Handler W
  unfolding redirected
  login r (s, w) =
      let redirect_uri = r.query "redirect_uri" in
      if is_empty redirect_uri
      then (s, write_error 400 (lit "Missing redirect_uri parameter") w)
      else (let (answer, s') = initiate_auth ports redirect_uri s in
          elim answer [
            | err e ↦ (s', write_error 500 (lit "Internal Server Error") w)
            | ok (url, session_id) ↦ (s', redirected url session_id w)
          ])

  -- Callback with its cookie
  callback_for : Bytes → Handler W
  unfolding callback_failed signed_in
  callback_for session_id r (s, w) =
      if is_empty (r.query "code") || is_empty (r.query "state")
      then (s, write_error 400 (lit "Missing authorization parameters") w)
      else (let (answer, s') =
            handle_callback ports session_id (r.query "code") (r.query "state") s in
          elim answer [
            | err e ↦ (s', callback_failed e w)
            | ok (u, tokens) ↦ (s', signed_in u tokens w)
          ])

  -- Callback
  pub callback : Handler W
  unfolding callback_for
  callback r (s, w) = elim (r.cookie session_cookie_name) [
    | none ↦ (s, write_error 400 (lit "Missing state session cookie") w)
    | some session_id ↦ callback_for session_id r (s, w)
  ]

  -- Refresh
  pub refresh_handler : Handler W
  unfolding rotated
  refresh_handler r (s, w) = elim (r.cookie refresh_token_cookie_name) [
    | none ↦ (s, write_error 400 (lit "Missing refresh token cookie") w)
    | some token ↦
        let (answer, s') = refresh ports token s in
        elim answer [
          | err e ↦ (s', write_error 401 (lit "Invalid refresh token") w)
          | ok tokens ↦ (s', rotated tokens w)
        ]
  ]

  -- Logout: what comes of the revocation is dropped
  pub logout : Handler W
  logout r (s, w) =
      let s' : W = elim (r.cookie refresh_token_cookie_name) [
        | none ↦ s
        | some token ↦ (revoke ports token s).1
      ] in
      (s', write_header 204 (set_cookie (cleared_cookie refresh_token_cookie_name) w))

  -- UserInfo
  pub user_info : Handler W
  user_info r (s, w) = (s, encode (("status", lit "authenticated") ∷ []) (json_type w))

  -- Health
  pub health : Handler W
  health r (s, w) = (s, encode (("status", lit "UP") ∷ []) (json_type w))

  -- Routes: the middleware, the public routes, and behind `jwt` the two others
  pub auth_routes :
      (W → Filled × W)
      → MetricsLibrary W
      → Handler W
      → (Handler W → Handler W)
      → Handler W
      → Handler W
  auth_routes random meter metrics_handler jwt unrouted = correlation random (
      metrics meter (
        route
          ((is_route "GET" "/login", login)
            ∷ (is_route "GET" "/callback", callback)
            ∷ (is_route "POST" "/refresh", refresh_handler)
            ∷ (is_route "GET" "/health", health)
            ∷ ((λ r. str_eq r.path (codes "/metrics")), metrics_handler)
            ∷ (is_route "POST" "/logout", jwt logout)
            ∷ (is_route "GET" "/userinfo", jwt user_info)
            ∷ [])
          unrouted))
