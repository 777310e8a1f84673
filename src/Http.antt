-- ===== src/Http.antt =====
-- What the handlers use of `net/http`: the parts of a request that they read, and the response as it
-- is written. Only the first status counts, and a body written with none sends 200.
pub mod Body
pub mod Routes
pub mod Sealed
pub mod Status
use go_api_management.Base.{
  ℕ, Bool, true, false, String, List, [], ◌∷◌, ◌++◌, Option, none, some, Bytes, ℤ,
}
use text.Mathlib.Text.{◌==◌}
use go_api_management.Errors.{Err, Result}

-- `Body` is `none` for nil and else what reading the rest of it gives. `claims` is what
-- `jwtmiddleware.GetClaims` finds in the context: an error, no claims, or those with this subject.
pub record Request : Type 0 where
  pub method : Bytes
  pub path : Bytes
  pub query : String → Bytes
  pub header : String → Bytes
  pub cookie : String → Option Bytes
  pub remote_addr : Bytes
  pub body : Option (Result Bytes)
  pub claims : Result (Option Bytes)
  pub request_id : Option Bytes

-- Values of the JSON objects that are sent, and of headers.
pub data Value : Type 0 where
  lit : String → Value
  bytes : Bytes → Value
  error : Err → Value
  number : ℕ → Value
  integer : ℤ → Value
  details : String → String → Value
  user : Bytes → Bytes → Bytes → Bytes → Bool → Value

-- `Expires` is counted in seconds from the request; SameSite is Strict throughout.
pub record Cookie : Type 0 where
  pub name : String
  pub value : Bytes
  pub expires_in : Option ℕ
  pub is_deleted : Bool
  pub http_only : Bool
  pub secure : Bool

pub record Writer : Type 0 where
  pub status : Option ℕ
  pub headers : List (String × Value)
  pub cookies : List Cookie
  pub body : List (List (String × Value))

abbrev pub fresh : Writer
fresh = record { status = none; headers = []; cookies = []; body = [] }

abbrev pub put : String → Value → List (String × Value) → List (String × Value)
put k v [] = (k, v) ∷ []
put k v ((j, w) ∷ m) = elim (j == k) [ true ↦ (k, v) ∷ m | false ↦ (j, w) ∷ put k v m ]

-- `w.Header().Set(k, v)`: behind the status it has no effect.
abbrev pub set_header : String → Value → Writer → Writer
set_header k v w = elim w.status [ none ↦ record w { headers = put k v w.headers } | some code ↦ w ]

-- `http.SetCookie(w, c)`
abbrev pub set_cookie : Cookie → Writer → Writer
set_cookie c w = elim w.status [ none ↦ record w { cookies = w.cookies ++ c ∷ [] } | some code ↦ w ]

-- `w.WriteHeader(code)`
abbrev pub write_header : ℕ → Writer → Writer
write_header code w = elim w.status [ none ↦ record w { status = some code } | some sent ↦ w ]

-- `json.NewEncoder(w).Encode(object)`
abbrev pub encode : List (String × Value) → Writer → Writer
encode object w = elim w.status [
  | none ↦ record w { status = some 200; body = w.body ++ object ∷ [] }
  | some code ↦ record w { body = w.body ++ object ∷ [] }
]

abbrev pub json_type : Writer → Writer
json_type = set_header "Content-Type" (lit "application/json")

-- writeError of the two handler types
abbrev pub write_error : ℕ → Value → Writer → Writer
write_error code msg w = encode (("error", msg) ∷ []) (write_header code (json_type w))

-- `http.Handler` over a world of type `W`
abbrev pub Handler {ℓ} : Type ℓ → Type ℓ
Handler W = Request → W × Writer → W × Writer
