-- ===== src/Auth/Handler/Cookies.antt =====
-- The cookies that leave the gateway.
use go_api_management.Telemetry.{MetricsLibrary}
use go_api_management.Auth.Pkce.{Filled}
use go_api_management.Errors.Laws.{Result-cases}
use go_api_management.Http.{
  Value, Writer, set_cookie, set_header, write_error, encode, json_type, bytes, lit, error,
  write_header, integer, Handler,
}
use go_api_management.Errors.{Err, is_auth_error, session_expired, invalid_state}
use go_api_management.Auth.{TokenPair, UserIdentity}
use go_api_management.Http.Sealed.{
  set_header-cookies, write_header-cookies, encode-cookies, Seals, AllSealed, set_cookie-AllSealed,
  correlation-Seals, metrics-Seals, route-Seals,
}
use go_api_management.Auth.Handler.{
  set_refresh, redirected, callback_failed, refresh_handler, logout, callback, login, callback_for,
  refresh_token_cookie_name, session_cookie_name, cleared_cookie, new_cookie, signed_in, rotated,
  health, refresh_seconds, auth_routes, user_info, user_value,
}
use go_api_management.Auth.Service.{AuthPorts, refresh, handle_callback, initiate_auth}
use go_api_management.Base.{
  refl, ℕ, List, Bytes, String, Bool-cases, Option-cases, is_empty, ◌∷◌, inl, ◌||◌, [], inr,
}

write_error-AllSealed :
    (code : ℕ) (v : Value) (w : Writer) → AllSealed w → AllSealed (write_error code v w)
write_error-AllSealed code v w h =
    rw
      (
        encode-cookies (("error", v) ∷ []) (write_header code (json_type w)),
        write_header-cookies code (json_type w),
        set_header-cookies "Content-Type" (lit "application/json") w,
      )
      h

set_refresh-AllSealed : (t : TokenPair) (w : Writer) → AllSealed w → AllSealed (set_refresh t w)
unfolding set_refresh
set_refresh-AllSealed t w h = elim (Bool-cases (is_empty t.refresh_token)) [
  | inl e ↦ rw e h
  | inr e ↦ rw e (
      set_cookie-AllSealed (new_cookie refresh_token_cookie_name t.refresh_token refresh_seconds) w
        (refl, refl) h)
]

object-AllSealed :
    (o : List (String × Value)) (w : Writer) → AllSealed w → AllSealed (encode o (json_type w))
object-AllSealed o w h =
    rw
      (encode-cookies o (json_type w), set_header-cookies "Content-Type" (lit "application/json") w)
      h

callback_failed-AllSealed : (e : Err) (w : Writer) → AllSealed w → AllSealed (callback_failed e w)
unfolding callback_failed
callback_failed-AllSealed e w h =
    elim (Bool-cases (is_auth_error e session_expired || is_auth_error e invalid_state)) [
      | inl b ↦ rw b (write_error-AllSealed 401 (error e) w h)
      | inr b ↦ rw b (write_error-AllSealed 500 (lit "Token exchange failed") w h)
    ]

redirected-AllSealed : (url id : Bytes) (w : Writer) → AllSealed w → AllSealed (redirected url id w)
unfolding redirected
redirected-AllSealed url id w h =
    rw
      (
        write_header-cookies 302 (
            set_header "Location" (bytes url)
              (set_cookie (new_cookie session_cookie_name id 600) w)),
        set_header-cookies "Location" (bytes url)
            (set_cookie (new_cookie session_cookie_name id 600) w),
      )
      (set_cookie-AllSealed (new_cookie session_cookie_name id 600) w (refl, refl) h)

signed_in-AllSealed :
    (u : UserIdentity) (t : TokenPair) (w : Writer) → AllSealed w → AllSealed (signed_in u t w)
unfolding signed_in
signed_in-AllSealed u t w h =
    object-AllSealed
      (("user", user_value u)
        ∷ ("access_token", bytes t.access_token)
        ∷ ("expires_in", integer t.expires_in)
        ∷ [])
      (set_refresh t (set_cookie (cleared_cookie session_cookie_name) w))
      (set_refresh-AllSealed t (set_cookie (cleared_cookie session_cookie_name) w)
        (set_cookie-AllSealed (cleared_cookie session_cookie_name) w (refl, refl) h))

rotated-AllSealed : (t : TokenPair) (w : Writer) → AllSealed w → AllSealed (rotated t w)
unfolding rotated
rotated-AllSealed t w h =
    object-AllSealed
      (("access_token", bytes t.access_token) ∷ ("expires_in", integer t.expires_in) ∷ [])
      (set_refresh t w) (set_refresh-AllSealed t w h)

module _ {W : Type 0} (ports : AuthPorts W) where
  login-Seals : Seals (login ports)
  unfolding login
  login-Seals r s w h = elim (Bool-cases (is_empty (r.query "redirect_uri"))) [
    | inl e ↦ rw e (write_error-AllSealed _ _ w h)
    | inr e ↦ elim (Result-cases (initiate_auth ports (r.query "redirect_uri") s).0) [
      | inl (x, f) ↦ rw (e, login, f) (write_error-AllSealed _ _ w h)
      | inr ((url, id), f) ↦ rw (e, login, f) (redirected-AllSealed url id w h)
    ]
  ]

  callback_for-Seals : (id : Bytes) → Seals (callback_for ports id)
  unfolding callback_for
  callback_for-Seals id r s w h =
      elim (Bool-cases (is_empty (r.query "code") || is_empty (r.query "state"))) [
        | inl e ↦ rw e (write_error-AllSealed _ _ w h)
        | inr e ↦
            elim (Result-cases (handle_callback ports id (r.query "code") (r.query "state") s).0) [
              | inl (x, f) ↦ rw (e, callback_for, f) (callback_failed-AllSealed x w h)
              | inr ((u, t), f) ↦ rw (e, callback_for, f) (signed_in-AllSealed u t w h)
            ]
      ]

  callback-Seals : Seals (callback ports)
  unfolding callback
  callback-Seals r s w h = elim (Option-cases (r.cookie session_cookie_name)) [
    | inl e ↦ rw (e, callback) (write_error-AllSealed _ _ w h)
    | inr (id, e) ↦ rw (e, callback) (callback_for-Seals id r s w h)
  ]

  refresh-Seals : Seals (refresh_handler ports)
  unfolding refresh_handler
  refresh-Seals r s w h = elim (Option-cases (r.cookie refresh_token_cookie_name)) [
    | inl e ↦ rw (e, refresh_handler) (write_error-AllSealed _ _ w h)
    | inr (token, e) ↦ elim (Result-cases (refresh ports token s).0) [
      | inl (x, f) ↦ rw (e, refresh_handler, f) (write_error-AllSealed _ _ w h)
      | inr (t, f) ↦ rw (e, refresh_handler, f) (rotated-AllSealed t w h)
    ]
  ]

  logout-Seals : Seals (logout ports)
  unfolding logout
  logout-Seals r s w h =
      rw (write_header-cookies 204 (set_cookie (cleared_cookie refresh_token_cookie_name) w))
        (set_cookie-AllSealed (cleared_cookie refresh_token_cookie_name) w (refl, refl) h)

  user_info-Seals : Seals (user_info ports)
  unfolding user_info
  user_info-Seals r s w h = object-AllSealed (("status", lit "authenticated") ∷ []) w h

  health-Seals : Seals (health ports)
  unfolding health
  health-Seals r s w h = object-AllSealed (("status", lit "UP") ∷ []) w h

  -- If the handler of the metrics, what is behind `jwt` and the router's own answer set only cookies
  -- that are HttpOnly and Secure, then so does every route of the sign-in.
  pub auth_routes_sealed :
      (random : W → Filled × W) (meter : MetricsLibrary W) (metrics_handler : Handler W)
      (jwt : Handler W → Handler W) (unrouted : Handler W)
      → Seals metrics_handler
      → ((h : Handler W) → Seals h → Seals (jwt h))
      → Seals unrouted
      → Seals (auth_routes ports random meter metrics_handler jwt unrouted)
  unfolding auth_routes
  auth_routes_sealed random meter metrics_handler jwt unrouted sm sj su =
      correlation-Seals random _ (
        metrics-Seals meter _ (
          route-Seals _ unrouted su (
            login-Seals,
            (
              callback-Seals,
              (
                refresh-Seals,
                (
                  health-Seals,
                  (
                    sm,
                    (sj (logout ports) logout-Seals, (sj (user_info ports) user_info-Seals, tt)),
                  ),
                ),
              ),
            ),
          )))
