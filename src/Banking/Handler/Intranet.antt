-- ===== src/Banking/Handler/Intranet.antt =====
-- POST /private/transfers through the routes of the intranet: schema, policy, handler and service.
use go_api_management.Telemetry.{MetricsLibrary}
use go_api_management.Banking.Handler.Execution.{served_sound, served_complete, IsExecution}
use go_api_management.Policy.Guard.{evaluate_verdict, policy_cases, assemble_path, assemble_method}
use go_api_management.Schema.Valid.{ValidTransfer}
use go_api_management.Telemetry.{metrics}
use go_api_management.Http.Routes.{route, is_route}
use go_api_management.Schema.Passes.{Carries, schema_cases, Conforms}
use go_api_management.Errors.Laws.{ok-injective}
use go_api_management.Banking.Service.Execute.{MayExecute}
use go_api_management.Errors.{ok}
use go_api_management.Policy.{Engine, Input, boolean, Object, evaluate, policy_check, assemble}
use go_api_management.Banking.{TransferPayload}
use go_api_management.Http.{Request, Writer, fresh, Handler}
use go_api_management.Schema.{
  PayloadJson, is_registration, is_transfer, schema_validation, write_schema_error,
}
use go_api_management.Banking.Handler.{BodyDecoder, execute_private_transfer, private_routes}
use go_api_management.Banking.Service.{Ports}
use go_api_management.Base.{
  Bytes, refl, [], ◌∷◌, some, inl, inr, ◌≡◌, ◌++◌, arith, codes, sym, true, ◌∙◌, Option, str_eq,
  ◌↔◌, ap, Any,
}
use go_api_management.Http.Status.{other_status}
use go_api_management.Policy.Rules.{gateway_allow, allow_private_iff}

-- What the intranet relies on: the engine evaluates policies/policy.rego, and `json.NewDecoder` reads
-- what `json.Unmarshal` accepts.
pub record IntranetLaws {W : Type 0} (decoder : BodyDecoder) (lib : PayloadJson) (engine : Engine)
    (query : W → engine.Query) : Type 0 where
  pub eval_rules :
      (s : W) (input : Input)
      → engine.eval (query s) input ≡ ok ((boolean (gateway_allow input) ∷ []) ∷ [])
  pub decode-unmarshal :
      (text : Bytes) (p : TransferPayload)
      → lib.unmarshal_transfer text ≡ ok p
      → decoder.decode_transfer (some (ok text)) ≡ ok p

module _ {W : Type 0} (ports : Ports W) (decoder : BodyDecoder) (meter : MetricsLibrary W)
    (lib : PayloadJson) (engine : Engine) (unmarshal_object : Bytes → Option Object)
    (query : W → engine.Query) (unrouted : Handler W) (laws : IntranetLaws decoder lib engine query)
    (r : Request) (posted : r.method ≡ codes "POST") (on_path : r.path ≡ codes "/private/transfers")
    (s : W) where
  abbrev pub intranet : W × Writer
  intranet =
      private_routes ports decoder meter lib (some (policy_check engine unmarshal_object query))
        unrouted r (s, fresh)

  -- The body is a valid transfer, the policy sees the scope for it, and the bearer token in the header
  -- may execute it.
  pub record IsAdmitted : Type 0 where
    pub carried : Carries lib.unmarshal_transfer ValidTransfer r
    pub token : Bytes
    pub bearer : r.header "Authorization" ≡ codes "Bearer " ++ token
    pub scoped : Any (λ x. x ≡ codes "transfer:execute") (assemble unmarshal_object r).0.scopes
    pub may : MayExecute ports token carried.payload s

  abbrev routes : Handler W
  routes =
      route ((is_route "POST" "/private/transfers", execute_private_transfer ports decoder) ∷ [])
        unrouted

  abbrev guarded : Handler W
  guarded = policy_check engine unmarshal_object query routes

  -- what the schema lets through or answers is the answer
  answered_by :
      (out : W × Writer)
      → schema_validation lib guarded r (s, fresh) ≡ out
      → intranet.1.status ≡ out.1.status
  unfolding private_routes metrics
  answered_by out e = ap (λ x. x.1.status) e

  routed : routes r (s, fresh) ≡ execute_private_transfer ports decoder r (s, fresh)
  unfolding route str_eq
  routed = rw (posted, on_path) refl

  on_transfer : is_transfer r ≡ true
  unfolding str_eq
  on_transfer = rw (posted, on_path) refl

  no_registration : is_registration r ≡ true → ⊥
  unfolding str_eq
  no_registration = rw (posted, on_path) (λ h. absurd (cc h))

  decoded :
      (c : Carries lib.unmarshal_transfer ValidTransfer r)
      → decoder.decode_transfer r.body ≡ ok c.payload
  decoded c =
      ap decoder.decode_transfer c.is_body ∙ laws.decode-unmarshal c.text c.payload c.is_payload

  ruled :
      evaluate engine (query s) (assemble unmarshal_object r).0
      ≡ ok (gateway_allow (assemble unmarshal_object r).0)
  ruled =
      let input = (assemble unmarshal_object r).0 in
      evaluate_verdict engine (query s) input (gateway_allow input) (laws.eval_rules s input)

  allow_iff :
      (gateway_allow (assemble unmarshal_object r).0 ≡ true)
      ↔ Any (λ x. x ≡ codes "transfer:execute") (assemble unmarshal_object r).0.scopes
  allow_iff =
      allow_private_iff (assemble unmarshal_object r).0 (assemble_path unmarshal_object r ∙ on_path)
        (assemble_method unmarshal_object r ∙ posted)

  admitted_sound : intranet.1.status ≡ some 200 → IsAdmitted
  unfolding write_schema_error
  admitted_sound h = elim (schema_cases lib guarded r s fresh) [
    | inr (_, (field, msg, _, refused)) ↦
        absurd (other_status (sym (answered_by _ refused) ∙ h) (omega arith))
    | inl (conforms, passed) ↦
        let c = conforms.transfer on_transfer in
        elim (policy_cases unmarshal_object engine query routes r s fresh) [
          | inr (inl (no_, answered)) ↦
              absurd (other_status (sym (answered_by _ (passed ∙ answered)) ∙ h) (omega arith))
          | inr (inr (e, failed, answered)) ↦
              absurd (other_status (sym (answered_by _ (passed ∙ answered)) ∙ h) (omega arith))
          | inl (allowed, went) ↦
              let x =
                served_sound ports decoder r s (sym (answered_by _ (passed ∙ went ∙ routed)) ∙ h) in
              let same : x.payload ≡ c.payload = ok-injective (sym x.is_payload ∙ decoded c) in
              record {
                carried = c;
                token = x.token;
                bearer = x.bearer;
                scoped = allow_iff.0 (ok-injective (sym ruled ∙ allowed));
                may = rw (← same) x.may;
              }
        ]
  ]

  schema_part : IsAdmitted → Conforms lib r
  schema_part a = record {
    registration = λ is. absurd (no_registration is);
    transfer = λ _. a.carried;
  }

  handler_part : IsAdmitted → IsExecution ports decoder r s
  handler_part a = record {
    token = a.token;
    bearer = a.bearer;
    payload = a.carried.payload;
    is_payload = decoded a.carried;
    may = a.may;
  }

  admitted_complete : IsAdmitted → intranet.1.status ≡ some 200
  admitted_complete a =
      let allowed = ruled ∙ ap ok (allow_iff.1 a.scoped) in
      elim (schema_cases lib guarded r s fresh) [
        | inr (nonconforming, _) ↦ absurd (nonconforming (schema_part a))
        | inl (_, passed) ↦ elim (policy_cases unmarshal_object engine query routes r s fresh) [
          | inr (inl (no_, _)) ↦ absurd (cc (allowed, no_))
          | inr (inr (e, failed, _)) ↦ absurd (cc (allowed, failed))
          | inl (_, went) ↦
              answered_by _ (passed ∙ went ∙ routed)
              ∙ served_complete ports decoder r s (handler_part a)
        ]
      ]

  -- On a fresh response, the intranet answers 200 to a posted transfer exactly if its body is a valid
  -- transfer, the policy sees `transfer:execute` among the scopes of its token, and the token may execute
  -- the transfer: it is authentic, in time and scoped, and a key of its subject signs the transfer.
  pub private_200_iff : (intranet.1.status ≡ some 200) ↔ IsAdmitted
  private_200_iff = (admitted_sound, admitted_complete)
