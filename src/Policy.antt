-- ===== src/Policy.antt =====
-- internal/adapters/handler/policy_middleware.go: what the middleware hands to the policy, and what it
-- does with the verdict. The engine (OPA) and `json.Unmarshal` are the fields of records.
pub mod Rules
pub mod Reload
pub mod Guard
use go_api_management.Http.Body.{read_and_buffer_body}
use go_api_management.Encoding.Base64.{decode_raw, url}
use go_api_management.Strings.{split, has_prefix, trim_prefix}
use go_api_management.Errors.{◌>>=◌, Result, err, ok}
use go_api_management.Http.{
  Writer, write_error, Handler, encode, Request, lit, write_header, json_type,
}
use go_api_management.Base.{
  Bytes, refl, [], ◌∷◌, some, none, true, false, inl, inr, ◌≡◌, ◌≢◌, ◌∙◌, ◌++◌, arith, ◌||◌, ◌&&◌,
  zero, suc, Bool, codes, Option, List, ℤ, if◌then◌else◌, is_empty, str_eq, not,
}

-- A value that was decoded into `interface{}`, as far as the code and the policy look into it: of a
-- number its integral part, rounded down, and of a list each element that is a string.
pub data Json : Type 0 where
  null : Json
  boolean : Bool → Json
  number_of : ℤ → Json
  text : Bytes → Json
  list : List (Option Bytes) → Json
  object : Json

-- A map[string]interface{} by its look-up; a key that is missing has none.
abbrev pub Object : Type 0
Object = Bytes → Option Json

-- The input that the handler assembles; a nil map for the body is none.
pub record Input : Type 0 where
  pub path : Bytes
  pub method : Bytes
  pub sub : Bytes
  pub scopes : List Bytes
  pub body : Option Object

-- OPA: queries that are prepared from a file's name and text, and evaluated to a set of results, each
-- with its expressions.
pub record Engine : Type 1 where
  pub Query : Type 0
  pub prepare : Bytes → Bytes → Result Query
  pub eval : Query → Input → Result (List (List Json))

-- `v.(bool)`
abbrev as_bool : Json → Bool
as_bool (boolean b) = b
as_bool _ = false

-- the first expression of the first result
allowed_by : List (List Json) → Bool
allowed_by [] = false
allowed_by ([] ∷ results) = false
allowed_by ((v ∷ exprs) ∷ results) = as_bool v

-- Evaluate
pub evaluate : (engine : Engine) → engine.Query → Input → Result Bool
unfolding allowed_by
evaluate engine query input = do results ← engine.eval query input; ok (allowed_by results)

-- `v.(string)`
abbrev as_text : Option Json → Option Bytes
as_text (some (text s)) = some s
as_text _ = none

abbrev as_list : Option Json → Option (List (Option Bytes))
as_list (some (list l)) = some l
as_list _ = none

-- the loop that keeps the strings
unfoldable pub strings_of : List (Option Bytes) → List Bytes
strings_of [] = []
strings_of (none ∷ l) = strings_of l
strings_of (some s ∷ l) = s ∷ strings_of l

-- `sub` of the claims
abbrev sub_of : Object → Bytes
sub_of claims = elim (as_text (claims (codes "sub"))) [ none ↦ [] | some s ↦ s ]

-- `scope`, a text, goes before `scopes`, and this before `permissions`.
unfoldable pub scopes_of : Object → List Bytes
unfolding strings_of
scopes_of claims = elim (as_text (claims (codes "scope"))) [
  | some s ↦ split b' ' s
  | none ↦ elim (as_list (claims (codes "scopes"))) [
    | some l ↦ strings_of l
    | none ↦ elim (as_list (claims (codes "permissions"))) [ some l ↦ strings_of l | none ↦ [] ]
  ]
]

module _ (unmarshal_object : Bytes → Option Object) where
  -- the second of three parts
  unfoldable pub claims_of_parts : List Bytes → Option Object
  claims_of_parts (header ∷ payload ∷ signature ∷ []) = elim (decode_raw url payload) [
    | none ↦ none
    | some b ↦ unmarshal_object b
  ]
  claims_of_parts _ = none

  -- extractJWTClaims; the test of the prefix also refuses an empty header
  unfoldable pub extract_jwt_claims : Request → Option Object
  unfolding claims_of_parts
  extract_jwt_claims r =
      let auth_header = r.header "Authorization" in
      if is_empty auth_header || not (has_prefix auth_header (codes "Bearer "))
      then none
      else claims_of_parts (split b'.' (trim_prefix auth_header (codes "Bearer ")))

  -- the body of a POST request, if it could be read, is not empty and decodes; and the request behind
  -- the reading
  unfoldable pub policy_body : Request → Option Object × Request
  policy_body r =
      if str_eq r.method (codes "POST")
      then (let (answer, r') = read_and_buffer_body r in
          elim answer [
            | err e ↦ (none, r')
            | ok b ↦ ((if is_empty b then none else unmarshal_object b), r')
          ])
      else (none, r)

  abbrev claim_of : {A : Type 0} → A → (Object → A) → Option Object → A
  claim_of missing f none = missing
  claim_of missing f (some claims) = f claims

  -- the input, and the request behind the reading of its body
  unfoldable pub assemble : Request → Input × Request
  unfolding extract_jwt_claims policy_body scopes_of
  assemble r =
      let claims = extract_jwt_claims r in
      let (body, r') = policy_body r in
      (
        record {
          path = r.path;
          method = r.method;
          sub = claim_of [] sub_of claims;
          scopes = claim_of [] scopes_of claims;
          body = body;
        },
        r',
      )

-- the answers to an error and to a refusal
abbrev pub evaluation_failed : Writer → Writer
evaluation_failed w = write_error 500 (lit "internal policy evaluation error") w

abbrev pub forbidden : Writer → Writer
forbidden w =
    encode
      (("error", lit "forbidden") ∷ ("message", lit "access denied by system security policy") ∷ [])
      (write_header 403 (json_type w))

abbrev pub verdict : {W : Type 0} → W × Writer → (W × Writer) → Result Bool → W × Writer
verdict (s, w) go (err e) = (s, evaluation_failed w)
verdict (s, w) go (ok true) = go
verdict (s, w) go (ok false) = (s, forbidden w)

-- Handler of PolicyMiddleware, with the query that the evaluator holds
pub policy_check :
    {W : Type 0} (engine : Engine)
    → (Bytes → Option Object)
    → (W → engine.Query)
    → Handler W
    → Handler W
policy_check engine unmarshal_object query next r (s, w) =
    let (input, r') = assemble unmarshal_object r in
    verdict (s, w) (next r' (s, w)) (evaluate engine (query s) input)
