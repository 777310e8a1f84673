-- ===== src/Banking/Handler/Journey.antt =====
-- A transfer on its way from the edge to the intranet.
use go_api_management.Telemetry.{MetricsLibrary}
use go_api_management.Schema.Valid.{ValidTransfer}
use go_api_management.Banking.Handler.{BodyDecoder}
use go_api_management.Encoding.Base64.RoundTrip.{decode_raw-encode_raw}
use go_api_management.Errors.Laws.{ok-injective}
use go_api_management.Strings.Prefix.{has_prefix-append, trim_prefix-append}
use go_api_management.Encoding.Base64.{encode_raw}
use go_api_management.Strings.{split, has_prefix, trim_prefix}
use go_api_management.Http.{Request, Handler}
use go_api_management.Banking.Jwt.{
  InternalJwtClaims, generate_internal_jwt, second, header_b64, signature_of,
}
use go_api_management.Errors.{ok}
use go_api_management.Banking.{TransferPayload, SecureEnclaveKey}
use go_api_management.Schema.{PayloadJson}
use go_api_management.Banking.Service.{Ports, execute_scope, Outbound, prepare, check_signature}
use go_api_management.Policy.{
  strings_of, Object, assemble, scopes_of, extract_jwt_claims, claims_of_parts, list, Engine,
}
use go_api_management.Base.{
  Bytes, refl, [], ◌∷◌, some, none, false, ◌≡◌, ◌≢◌, ◌∙◌, ◌++◌, ◌||◌, List, Option, map, ap, codes,
  ℕ, ◌*◌, is_empty, not, sym, ◌/◌, ◌≤◌, ◌+◌, Any, here, All,
}
use go_api_management.Encoding.Base64.{url}
use go_api_management.Banking.Handler.Intranet.{IntranetLaws, intranet, private_200_iff}
use go_api_management.Banking.Jwt.RoundTrip.{
  JsonLaws, token_parts, generated, issued, issued_scopes,
}
use go_api_management.Banking.Service.Initiate.{prepare_sound}
use go_api_management.Banking.Service.Swap.{execute-prepare}
use go_api_management.Banking.Service.Execute.{execute_iff, check_complete, Signs}

-- `encoding/json`: a payload of valid UTF-8 and a year that RFC 3339 can write is read back as it was
-- marshalled, and marshalled claims are read into a map with the list of their scopes and no key `scope`.
pub record ReadBack {W : Type 0} (ports : Ports W) (laws : JsonLaws ports.tokens)
    (lib : PayloadJson) (unmarshal_object : Bytes → Option Object) : Type 1 where
  pub IsPlain : TransferPayload → Type 0
  pub unmarshal-marshal :
      (p : TransferPayload) (text : Bytes)
      → IsPlain p
      → ports.marshal_payload p ≡ ok text
      → lib.unmarshal_transfer text ≡ ok p
  pub claims_object : InternalJwtClaims → Object
  pub is_object :
      (c : InternalJwtClaims)
      → unmarshal_object (ports.tokens.marshal_claims c) ≡ some (claims_object c)
  pub no_scope : (c : InternalJwtClaims) → claims_object c (codes "scope") ≡ none
  pub its_scopes :
      (c : InternalJwtClaims)
      → All laws.IsText c.scopes
      → claims_object c (codes "scopes") ≡ some (list (map some c.scopes))

-- The intranet's request is the one that the edge sent.
pub record IsDelivered (out : Outbound) (r : Request) : Type 0 where
  pub posted : r.method ≡ codes "POST"
  pub on_path : r.path ≡ codes "/private/transfers"
  pub header : r.header "Authorization" ≡ out.authorization
  pub body : r.body ≡ some (ok out.body)

strings_of-map : (l : List Bytes) → strings_of (map some l) ≡ l
unfolding strings_of
strings_of-map [] = refl
strings_of-map (x ∷ l) = ap (λ m. x ∷ m) (strings_of-map l)

module _ {W : Type 0} (ports : Ports W) (laws : JsonLaws ports.tokens) (lib : PayloadJson)
    (unmarshal_object : Bytes → Option Object) (back : ReadBack ports laws lib unmarshal_object)
    (user_id : Bytes) (given : ports.shared_secret ≢ []) (text : laws.IsText user_id)
    (scope_text : laws.IsText execute_scope) where
  scopes_back :
      (c : InternalJwtClaims)
      → All laws.IsText c.scopes
      → scopes_of (back.claims_object c) ≡ c.scopes
  unfolding scopes_of
  scopes_back c texts =
      rw (back.no_scope c, scopes_of, back.its_scopes c texts) (strings_of-map c.scopes)

  module _ (now : ℕ) (jwt : Bytes) (r : Request)
      (made : generate_internal_jwt ports.tokens user_id
          (execute_scope ∷ [])
          ports.shared_secret
          (60 * second)
          now
        ≡ ok jwt)
      (bearer : r.header "Authorization" ≡ codes "Bearer " ++ jwt) where
    abbrev claims : InternalJwtClaims
    claims =
        issued ports.tokens laws user_id ports.shared_secret (execute_scope ∷ []) (60 * second) now
          now given text (scope_text, tt)

    jwt_parts :
        split b'.' jwt
        ≡ header_b64
          ∷ encode_raw url (ports.tokens.marshal_claims claims)
          ∷ signature_of ports.tokens ports.shared_secret
              (header_b64 ++ b'.' ∷ encode_raw url (ports.tokens.marshal_claims claims))
          ∷ []
    jwt_parts =
        ap (split b'.') (
          ok-injective (
            sym made
            ∙ generated ports.tokens laws user_id ports.shared_secret (execute_scope ∷ [])
                (60 * second) now now given text (scope_text, tt)))
        ∙ token_parts ports.tokens laws user_id ports.shared_secret (execute_scope ∷ [])
            (60 * second) now now given text (scope_text, tt)

    claims_extracted : extract_jwt_claims unmarshal_object r ≡ some (back.claims_object claims)
    unfolding extract_jwt_claims claims_of_parts
    claims_extracted =
        let auth = r.header "Authorization" in
        let starts : (is_empty auth || not (has_prefix auth (codes "Bearer "))) ≡ false =
          rw (bearer, has_prefix-append (codes "Bearer ") jwt) refl in
        let bare : trim_prefix auth (codes "Bearer ") ≡ jwt =
          rw bearer (trim_prefix-append (codes "Bearer ") jwt) in
        let decoded =
          decode_raw-encode_raw (ports.tokens.marshal_claims claims)
            (laws.marshal-IsBytes claims) in
        rw (starts, bare, jwt_parts, claims_of_parts, decoded) (back.is_object claims)

    -- the policy sees the scope of the internal token
    scope_seen : (assemble unmarshal_object r).0.scopes ≡ execute_scope ∷ []
    unfolding assemble
    scope_seen =
        let same =
          issued_scopes ports.tokens laws user_id ports.shared_secret (execute_scope ∷ [])
            (60 * second) now now given text (scope_text, tt) in
        rw claims_extracted (scopes_back claims (rw same (scope_text, tt)) ∙ same)

module _ {W : Type 0} (ports : Ports W) (laws : JsonLaws ports.tokens) (decoder : BodyDecoder)
    (meter : MetricsLibrary W) (lib : PayloadJson) (engine : Engine)
    (unmarshal_object : Bytes → Option Object) (query : W → engine.Query) (unrouted : Handler W)
    (routes : IntranetLaws decoder lib engine query)
    (back : ReadBack ports laws lib unmarshal_object) (user_id : Bytes)
    (given : ports.shared_secret ≢ []) (text : laws.IsText user_id)
    (scope_text : laws.IsText execute_scope) (payload : TransferPayload)
    (valid : ValidTransfer payload) (plain : back.IsPlain payload) where
  -- When the shared secret is not empty, and JSON brings the user's identifier, the scope and the transfer
  -- back as they were: a request that the edge prepares for a valid transfer of a user is answered by the
  -- routes of the intranet with 200, if it arrives there as it was sent and before its token runs out, and
  -- one of the keys that the intranet finds for the user signs the transfer.
  pub edge_to_ledger :
      (edge_world s : W) (out : Outbound) (r : Request) (keys : List SecureEnclaveKey)
      → prepare ports user_id payload (ports.now edge_world) ≡ ok out
      → (d : IsDelivered out r)
      → ports.now s / second ≤ (ports.now edge_world + 60 * second) / second
      → (ports.get_keys_by_user_id user_id s).0 ≡ ok keys
      → Any (Signs ports.keys payload) keys
      → (intranet ports decoder meter lib engine unmarshal_object query unrouted routes r d.posted
          d.on_path s).1.status
        ≡ some 200
  edge_to_ledger edge_world s out r keys ready d in_time found signed =
      let swapped = prepare_sound ports user_id payload edge_world out ready in
      let (jwt, bearer, executed) =
        execute-prepare ports laws user_id payload edge_world s given text scope_text in_time out
          ready in
      let done =
        executed
        ∙ ap (check_signature ports payload) found
        ∙ check_complete ports jwt payload s keys signed in
      let seen =
        scope_seen ports laws lib unmarshal_object back user_id given text scope_text
          (ports.now edge_world) swapped.jwt r swapped.is_jwt (d.header ∙ swapped.bearer) in
      (private_200_iff ports decoder meter lib engine unmarshal_object query unrouted routes r
          d.posted d.on_path s).1
        (record {
          carried = record {
            text = out.body;
            is_body = d.body;
            payload = payload;
            is_payload = back.unmarshal-marshal payload out.body plain swapped.carries;
            valid = valid;
          };
          token = jwt;
          bearer = d.header ∙ bearer;
          scoped = rw seen (here refl);
          may = (execute_iff ports jwt payload s).0 done;
        })
