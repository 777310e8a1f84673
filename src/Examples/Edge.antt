-- ===== src/Examples/Edge.antt =====
-- A transfer through the routes of the edge, and the parts on its way, at concrete inputs.
use go_api_management.Telemetry.{MetricsLibrary}
use go_api_management.Errors.Laws.{ok-injective}
use go_api_management.Http.Body.{read_and_buffer_body}
use go_api_management.Schema.Valid.{ValidTransfer}
use go_api_management.Banking.Service.{Outbound}
use go_api_management.Schema.Passes.{Carries}
use go_api_management.Policy.Rules.{gateway_allow, amount_of, high_value}
use go_api_management.Errors.{ok, err, foreign}
use go_api_management.Examples.Transfers.{transfer, sample_ports, sample_breaker}
use go_api_management.Schema.{PayloadJson}
use go_api_management.Banking.{TransferPayload}
use go_api_management.Banking.Handler.{BodyDecoder}
use go_api_management.Banking.Handler.Edge.{
  EdgeLaws, edge, IsForwarded, edge_forwards, high_value_scoped,
}
use go_api_management.Policy.{Engine, Object, boolean, number_of, text, assemble}
use go_api_management.Http.{Request, fresh, Handler, Writer}
use go_api_management.Base.{
  Bytes, refl, [], ◌∷◌, some, none, inr, ◌≡◌, ◌∙◌, arith, Option, codes, if◌then◌else◌, pos, str_eq,
  ◌⊎◌, Any, List, ap, sym,
}

abbrev pub posted_transfer : Request
posted_transfer = record {
  method = codes "POST";
  path = codes "/transfer/initiate";
  query = λ k. [];
  header = λ k. codes "Bearer h.YXBw.s";
  cookie = λ k. none;
  remote_addr = codes "192.0.2.1:1234";
  body = some (ok (codes "{}"));
  claims = ok none;
  request_id = none;
}

abbrev pub large_transfer : TransferPayload
large_transfer = record transfer { amount_cents = pos 2000000 }

abbrev pub payload_json : PayloadJson
payload_json = record {
  unmarshal_registration = λ t. err (foreign 0);
  unmarshal_transfer = λ t. ok large_transfer;
  unicode_lower = λ s. s;
}

abbrev pub decoder : BodyDecoder
decoder = record {
  decode_registration = λ b. err (foreign 0);
  decode_transfer = λ b. ok large_transfer;
}

-- An engine that runs the rules of policies/policy.rego.
abbrev pub rules_engine : Engine
rules_engine = record {
  Query = Bytes;
  prepare = λ path content. ok content;
  eval = λ q input. ok ((boolean (gateway_allow input) ∷ []) ∷ []);
}

abbrev pub objects : Bytes → Option Object
objects t = some (λ k.
    if str_eq k (codes "amount_cents")
    then some (number_of (pos 2000000))
    else if str_eq k (codes "scope")
    then some (text (codes "openid transfer:high_value"))
    else some (text (codes "u1")))

-- The collectors keep nothing, every token is of one user, and nothing answers other routes.
abbrev pub collect : MetricsLibrary (List Outbound)
collect = record {
  register = λ c s. (ok tt, s);
  observe = λ c labels duration s. s;
  inc = λ c labels s. s;
  now = λ s. 0;
  status_text = λ code. codes "OK";
}

abbrev pub no_query : List Outbound → Bytes
no_query s = []

abbrev one_user : Handler (List Outbound) → Handler (List Outbound)
one_user h r sw = h (record r { claims = ok (some (codes "u1")) }) sw

abbrev pub silent : Handler (List Outbound)
silent r sw = sw

abbrev edge_laws :
    EdgeLaws sample_ports sample_breaker decoder collect payload_json rules_engine no_query one_user
edge_laws = record {
  observe-sent = λ c labels d s. refl;
  inc-sent = λ c labels s. refl;
  eval_rules = λ s input. refl;
  decode-unmarshal = λ t p h. h;
  jwt_cases = λ h r s w. inr (codes "u1", refl, refl);
  subject_of = λ r. some (codes "u1");
}

abbrev outcome : List Outbound × Writer
outcome =
    edge sample_ports sample_breaker decoder collect payload_json rules_engine objects no_query
      one_user silent edge_laws posted_transfer refl refl [] fresh

edge_forwards_example :
    (outcome.0 ≡ [])
    ⊎ IsForwarded sample_ports sample_breaker decoder collect payload_json rules_engine objects
        no_query one_user silent edge_laws posted_transfer refl refl [] fresh
unfolding sample_breaker
edge_forwards_example =
    edge_forwards sample_ports sample_breaker decoder collect payload_json rules_engine objects
      no_query one_user silent edge_laws posted_transfer refl refl [] fresh

amount_seen : amount_of (assemble objects posted_transfer).0 ≡ some (number_of (pos 2000000))
amount_seen =
    unfold amount_of in unfold assemble in unfold str_eq in unfold read_and_buffer_body in refl

agreed :
    (c : Carries payload_json.unmarshal_transfer ValidTransfer posted_transfer)
    → (c.payload.amount_cents ≡ pos 2000000)
      × (amount_of (assemble objects posted_transfer).0 ≡ some (number_of c.payload.amount_cents))
agreed c =
    let same : c.payload.amount_cents ≡ pos 2000000 =
      ap (λ p. p.amount_cents) (sym (ok-injective c.is_payload)) in
    (same, amount_seen ∙ ap (λ z. some (number_of z)) (sym same))

high_value_scoped_example :
    (outcome.0 ≡ []) ⊎ Any (λ x. x ≡ high_value) (assemble objects posted_transfer).0.scopes
unfolding sample_breaker
high_value_scoped_example =
    high_value_scoped sample_ports sample_breaker decoder collect payload_json rules_engine objects
      no_query one_user silent edge_laws posted_transfer refl refl [] fresh 2000000 (omega arith)
      agreed
