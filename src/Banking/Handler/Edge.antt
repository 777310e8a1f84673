-- ===== src/Banking/Handler/Edge.antt =====
-- POST /transfer/initiate through the routes of the edge: schema, policy, token, handler and service.
use go_api_management.Telemetry.{Collector, MetricsLibrary}
use go_api_management.Errors.Laws.{ok-injective}
use go_api_management.Policy.Guard.{evaluate_verdict, policy_cases, assemble_path, assemble_method}
use go_api_management.Telemetry.{metrics}
use go_api_management.Schema.Valid.{ValidTransfer}
use go_api_management.Schema.Passes.{Carries, schema_cases}
use go_api_management.Http.Routes.{route, is_route}
use go_api_management.Banking.{TransferPayload}
use go_api_management.Policy.Rules.{
  gateway_allow, IsAffordable, allow_transfer_iff, limit, amount_of, high_value, affordable_high,
}
use go_api_management.Errors.{ok, Result, err}
use go_api_management.Http.{Handler, Request, Writer, Value, lit, bytes}
use go_api_management.Policy.{
  Engine, Input, Object, boolean, evaluate, policy_check, assemble, number_of,
}
use go_api_management.Schema.{PayloadJson, schema_validation, is_transfer}
use go_api_management.Banking.Handler.{
  BodyDecoder, initiate_handler, edge_routes, extract_subject, register_device, reply,
}
use go_api_management.Banking.Service.Initiate.{BreakerLaws, IsSwapped, initiate_sends}
use go_api_management.Banking.Service.{Ports, Outbound, initiate_transfer}
use go_api_management.Base.{
  Bytes, refl, [], ◌∷◌, some, true, inl, inr, ◌≡◌, ◌≢◌, ◌∙◌, ◌++◌, ℕ, Option, codes, List, ◌⊎◌,
  String, str_eq, ap, sym, ◌≤◌, pos, Any,
}

-- What the edge relies on: the collectors and the router's own answer send nothing, the engine
-- evaluates policies/policy.rego, `json.NewDecoder` reads what `json.Unmarshal` accepts, and the
-- middleware for tokens either answers, or goes on with the subject that the token library reads from
-- the token of the request, which is `subject_of`.
pub record EdgeLaws {W : Type 0} (ports : Ports W) (breaker : BreakerLaws ports)
    (decoder : BodyDecoder) (meter : MetricsLibrary W) (lib : PayloadJson) (engine : Engine)
    (query : W → engine.Query) (jwt : Handler W → Handler W) : Type 0 where
  pub subject_of : Request → Option Bytes
  pub observe-sent :
      (c : Collector) (labels : List Bytes) (duration : ℕ) (s : W)
      → breaker.sent (meter.observe c labels duration s) ≡ breaker.sent s
  pub inc-sent :
      (c : Collector) (labels : List Bytes) (s : W)
      → breaker.sent (meter.inc c labels s) ≡ breaker.sent s
  pub eval_rules :
      (s : W) (input : Input)
      → engine.eval (query s) input ≡ ok ((boolean (gateway_allow input) ∷ []) ∷ [])
  pub decode-unmarshal :
      (text : Bytes) (p : TransferPayload)
      → lib.unmarshal_transfer text ≡ ok p
      → decoder.decode_transfer (some (ok text)) ≡ ok p
  pub jwt_cases :
      (h : Handler W) (r : Request) (s : W) (w : Writer)
      → (breaker.sent (jwt h r (s, w)).0 ≡ breaker.sent s)
        ⊎ ((subject : Bytes) × (subject_of r ≡ some subject)
            × (jwt h r (s, w) ≡ h (record r { claims = ok (some subject) }) (s, w)))

module _ {W : Type 0} (ports : Ports W) (breaker : BreakerLaws ports) (decoder : BodyDecoder)
    (meter : MetricsLibrary W) (lib : PayloadJson) (engine : Engine)
    (unmarshal_object : Bytes → Option Object) (query : W → engine.Query)
    (jwt : Handler W → Handler W) (unrouted : Handler W)
    (laws : EdgeLaws ports breaker decoder meter lib engine query jwt) (r : Request)
    (posted : r.method ≡ codes "POST") (on_path : r.path ≡ codes "/transfer/initiate") (s : W)
    (w : Writer) where
  abbrev pub edge : W × Writer
  edge =
      edge_routes ports decoder meter lib (some (policy_check engine unmarshal_object query))
        unrouted jwt r (s, w)

  -- One request went out, for the valid transfer in the body and for the token's subject, and the
  -- policy allows it.
  pub record IsForwarded : Type 0 where
    pub carried : Carries lib.unmarshal_transfer ValidTransfer r
    pub subject : Bytes
    pub is_subject : laws.subject_of r ≡ some subject
    pub out : Outbound
    pub swapped : IsSwapped ports subject carried.payload s out
    pub policy_subject : (assemble unmarshal_object r).0.sub ≢ []
    pub affordable : IsAffordable (assemble unmarshal_object r).0
    pub sent : breaker.sent edge.0 ≡ breaker.sent s ++ out ∷ []

  abbrev routes : Handler W
  routes =
      route
        ((is_route "POST" "/auth/register-device", jwt (register_device ports decoder))
          ∷ (is_route "POST" "/transfer/initiate", jwt (initiate_handler ports decoder))
          ∷ [])
        unrouted

  abbrev guarded : Handler W
  guarded = policy_check engine unmarshal_object query routes

  edge-sent : breaker.sent edge.0 ≡ breaker.sent (schema_validation lib guarded r (s, w)).0
  unfolding edge_routes metrics
  edge-sent = laws.inc-sent _ _ _ ∙ laws.observe-sent _ _ _ _

  routed : routes r (s, w) ≡ jwt (initiate_handler ports decoder) r (s, w)
  unfolding route str_eq
  routed = rw (posted, on_path) refl

  reply_world :
      (code : ℕ) (object : List (String × Value)) (answer : Result (Unit {0}) × W)
      → (reply code object w answer).0 ≡ answer.1
  reply_world code object (err e, s') = refl
  reply_world code object (ok done, s') = refl

  allowed :
      evaluate engine (query s) (assemble unmarshal_object r).0 ≡ ok true
      → ((assemble unmarshal_object r).0.sub ≢ []) × IsAffordable (assemble unmarshal_object r).0
  allowed h =
      let input = (assemble unmarshal_object r).0 in
      let said =
        evaluate_verdict engine (query s) input (gateway_allow input) (laws.eval_rules s input) in
      let (named, affordable) =
        (allow_transfer_iff input (assemble_path unmarshal_object r ∙ on_path)
            (assemble_method unmarshal_object r ∙ posted)).0
          (ok-injective (sym said ∙ h)) in
      (named, affordable)

  handled :
      (subject : Bytes) (c : Carries lib.unmarshal_transfer ValidTransfer r)
      → (initiate_handler ports decoder (record r { claims = ok (some subject) }) (s, w)).0
        ≡ (initiate_transfer ports subject c.payload s).1
  unfolding initiate_handler extract_subject
  handled subject c =
      rw
        (
          ap decoder.decode_transfer c.is_body
              ∙ laws.decode-unmarshal c.text c.payload c.is_payload,
          initiate_handler,
        )
        (reply_world 500 (("status", lit "initiated") ∷ ("tx_id", bytes c.payload.id) ∷ [])
          (initiate_transfer ports subject c.payload s))

  on_transfer : is_transfer r ≡ true
  unfolding str_eq
  on_transfer = rw (posted, on_path) refl

  jwt_sends :
      Carries lib.unmarshal_transfer ValidTransfer r
      → evaluate engine (query s) (assemble unmarshal_object r).0 ≡ ok true
      → breaker.sent edge.0 ≡ breaker.sent (jwt (initiate_handler ports decoder) r (s, w)).0
      → (breaker.sent edge.0 ≡ breaker.sent s) ⊎ IsForwarded
  jwt_sends c ruled same = elim (laws.jwt_cases (initiate_handler ports decoder) r s w) [
    | inl stopped ↦ inl (same ∙ stopped)
    | inr (subject, is_subject, went) ↦
        let reached : breaker.sent edge.0
            ≡ breaker.sent (initiate_transfer ports subject c.payload s).1 =
          same ∙ ap (λ x. breaker.sent x.0) went ∙ ap breaker.sent (handled subject c) in
        elim (initiate_sends ports breaker subject c.payload s) [
          | inl (stayed, _, _) ↦ inl (reached ∙ stayed)
          | inr (out, swapped, sent) ↦
              let (named, affordable) = allowed ruled in
              inr (record {
                carried = c;
                subject = subject;
                is_subject = is_subject;
                out = out;
                swapped = swapped;
                policy_subject = named;
                affordable = affordable;
                sent = reached ∙ sent;
              })
        ]
  ]

  -- A request to initiate a transfer at the edge sends nothing, or sends one request: then its body
  -- is a valid transfer, the policy allows it, and the request carries that transfer and an internal
  -- token for the subject of the client's token.
  pub edge_forwards : (breaker.sent edge.0 ≡ breaker.sent s) ⊎ IsForwarded
  edge_forwards = elim (schema_cases lib guarded r s w) [
    | inr (_, (field, msg, _, refused)) ↦ inl (edge-sent ∙ ap (λ x. breaker.sent x.0) refused)
    | inl (conforms, passed) ↦ elim (policy_cases unmarshal_object engine query routes r s w) [
      | inr (inl (no_, answered)) ↦ inl (edge-sent ∙ ap (λ x. breaker.sent x.0) (passed ∙ answered))
      | inr (inr (e, failed, answered)) ↦
          inl (edge-sent ∙ ap (λ x. breaker.sent x.0) (passed ∙ answered))
      | inl (ruled, went) ↦
          jwt_sends (conforms.transfer on_transfer) ruled
            (edge-sent ∙ ap (λ x. breaker.sent x.0) (passed ∙ went ∙ routed))
    ]
  ]

  -- When the policy's view of the body has the amount that the decoded transfer has, a transfer of
  -- 1000000 cents or more is not sent by the edge, or the client's token has the scope for high values.
  pub high_value_scoped :
      (n : ℕ)
      → limit ≤ n
      → ((c : Carries lib.unmarshal_transfer ValidTransfer r)
          → (c.payload.amount_cents ≡ pos n)
            × (amount_of (assemble unmarshal_object r).0 ≡ some (number_of c.payload.amount_cents)))
      → (breaker.sent edge.0 ≡ breaker.sent s)
        ⊎ Any (λ x. x ≡ high_value) (assemble unmarshal_object r).0.scopes
  high_value_scoped n high agree = elim edge_forwards [
    | inl same ↦ inl same
    | inr f ↦
        let (is_n, seen) = agree f.carried in
        inr (
          affordable_high (assemble unmarshal_object r).0 n high
            (seen ∙ ap (λ z. some (number_of z)) is_n) f.affordable)
  ]
