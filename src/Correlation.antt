-- ===== src/Correlation.antt =====
-- internal/adapters/handler/middleware.go: the request's identifier, the log handler that adds it to
-- lines, and the construction of the JWT middleware, over the library as a parameter.
pub mod Identifier
use go_api_management.Errors.{Result, err, message, ◌>>=◌, wrapping, ok}
use go_api_management.Base.{
  Bytes, true, false, String, none, some, is_empty, [], refl, ◌∷◌, inl, inr, ◌≡◌, ◌≢◌, ◌∙◌, ◌++◌,
  arith, ◌||◌, ◌&&◌, zero, suc, Option, List, if◌then◌else◌, codes,
}
use go_api_management.Http.{Request, Writer, bytes, set_header, Handler}
use go_api_management.Auth.Pkce.{Filled, generate_uuid_v4}

-- GetRequestID
abbrev pub get_request_id : Request → Bytes
get_request_id r = elim r.request_id [ some id ↦ id | none ↦ [] ]

module _ {W : Type 0} (random : W → Filled × W) where
  -- the identifier of the request: the client's, or a new one
  unfoldable pub request_id_of : Request → W → Bytes × W
  request_id_of r s = elim (is_empty (r.header "X-Request-ID")) [
    | true ↦ let (seed, s') = random s in (generate_uuid_v4 seed, s')
    | false ↦ (r.header "X-Request-ID", s)
  ]

  -- CorrelationMiddleware
  unfoldable pub correlation : Handler W → Handler W
  unfolding request_id_of
  correlation next r (s, w) =
      let (id, s') = request_id_of r s in
      next (record r { request_id = some id }) (s', set_header "X-Request-ID" (bytes id) w)

-- slog.Record: the text and the attributes
pub record LogRecord : Type 0 where
  pub text : Bytes
  pub attributes : List (String × Bytes)

-- `slog.Handler`, with the request for the context
abbrev pub LogHandler : Type 0 → Type 0
LogHandler W = Request → LogRecord → W → Result (Unit {0}) × W

-- Handle of ContextHandler, over the handler that it wraps
unfoldable pub handle_record : {W : Type 0} → LogHandler W → LogHandler W
handle_record inner r line =
    let id = get_request_id r in
    if is_empty id
    then inner r line
    else inner r (record line { attributes = line.attributes ++ ("request_id", id) ∷ [] })

-- What JWTMiddleware sets for the validator, beside the provider of the keys.
pub record ValidatorSettings : Type 0 where
  pub algorithm : Bytes
  pub issuer : Bytes
  pub audience : Bytes

-- `url.Parse` with `String`, and go-jwt-middleware
pub record JwtLibrary (W : Type 0) : Type 1 where
  pub KeyProvider : Type 0
  pub Validator : Type 0
  pub Middleware : Type 0
  pub parse_url : Bytes → Option Bytes
  pub new_validator : KeyProvider → ValidatorSettings → Result Validator
  pub new_middleware : Validator → Result Middleware
  pub check_jwt : Middleware → Handler W → Handler W

-- JWTMiddleware; an error is a panic, also that of `String` on the nil URL of a domain that does not
-- parse.
pub jwt_middleware :
    {W : Type 0} (lib : JwtLibrary W)
    → Bytes
    → Bytes
    → lib.KeyProvider
    → Result (Handler W → Handler W)
jwt_middleware lib domain audience provider =
    elim (lib.parse_url (codes "https://" ++ domain ++ codes "/")) [
      | none ↦ err (message "nil pointer dereference")
      | some issuer ↦ (do
        validator ← wrapping "failed to construct JWT validator" (
            lib.new_validator provider
              (record { algorithm = codes "RS256"; issuer = issuer; audience = audience }))
        middleware ← wrapping "failed to construct JWT middleware" (lib.new_middleware validator)
        ok (lib.check_jwt middleware))
    ]
