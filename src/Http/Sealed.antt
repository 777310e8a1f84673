-- ===== src/Http/Sealed.antt =====
-- Cookies that scripts cannot read and that travel over TLS alone.
use go_api_management.Telemetry.{MetricsLibrary}
use go_api_management.Auth.Pkce.{Filled}
use go_api_management.Telemetry.{metrics}
use go_api_management.Http.Routes.{route}
use go_api_management.Correlation.{correlation, request_id_of}
use go_api_management.Http.{
  Handler, Cookie, Writer, Request, write_header, set_cookie, Value, set_header, encode, bytes,
}
use go_api_management.Base.{
  refl, ℕ, String, List, ◌≡◌, All, true, Option-cases, inl, All-append, inr, ◌∷◌, [], some, Bool,
  Bool-cases,
}

abbrev pub IsSealed : Cookie → Type 0
IsSealed c = (c.http_only ≡ true) × (c.secure ≡ true)

abbrev pub AllSealed : Writer → Type 0
AllSealed w = All IsSealed w.cookies

-- The handler sets no other cookies.
abbrev pub Seals : {W : Type 0} → Handler W → Type 0
Seals {W = W} h = (r : Request) (s : W) (w : Writer) → AllSealed w → AllSealed (h r (s, w)).1

pub set_cookie-AllSealed :
    (c : Cookie) (w : Writer) → IsSealed c → AllSealed w → AllSealed (set_cookie c w)
set_cookie-AllSealed c w sc sw = elim (Option-cases w.status) [
  | inl e ↦ rw e (All-append IsSealed w.cookies (c ∷ []) sw (sc, tt))
  | inr (code, e) ↦ rw e sw
]

pub set_header-cookies :
    (k : String) (v : Value) (w : Writer) → (set_header k v w).cookies ≡ w.cookies
set_header-cookies k v w = elim (Option-cases w.status) [
  | inl e ↦ rw e refl
  | inr (code, e) ↦ rw e refl
]

pub write_header-cookies : (code : ℕ) (w : Writer) → (write_header code w).cookies ≡ w.cookies
write_header-cookies code w = elim (Option-cases w.status) [
  | inl e ↦ rw e refl
  | inr (c, e) ↦ rw e refl
]

pub encode-cookies : (o : List (String × Value)) (w : Writer) → (encode o w).cookies ≡ w.cookies
encode-cookies o w = elim (Option-cases w.status) [ inl e ↦ rw e refl | inr (code, e) ↦ rw e refl ]

module _ {W : Type 0} where
  pub correlation-Seals :
      (random : W → Filled × W) (h : Handler W) → Seals h → Seals (correlation random h)
  unfolding correlation
  correlation-Seals random h sealed r s w sw =
      let (id, s') = request_id_of random r s in
      sealed (record r { request_id = some id }) s' (set_header "X-Request-ID" (bytes id) w)
        (rw (set_header-cookies "X-Request-ID" (bytes id) w) sw)

  pub metrics-Seals : (meter : MetricsLibrary W) (h : Handler W) → Seals h → Seals (metrics meter h)
  unfolding metrics
  metrics-Seals meter h sealed r s w sw = sealed r s w sw

  pub route-Seals :
      (routes : List ((Request → Bool) × Handler W)) (unrouted : Handler W)
      → Seals unrouted
      → All (λ x. Seals x.1) routes
      → Seals (route routes unrouted)
  unfolding route
  route-Seals [] unrouted su all r s w sw = su r s w sw
  route-Seals ((fits, h) ∷ routes) unrouted su (first, rest) r s w sw = elim (Bool-cases (fits r)) [
    | inl e ↦ rw e (first r s w sw)
    | inr e ↦ rw e (route-Seals routes unrouted su rest r s w sw)
  ]
