-- ===== src/Examples/Policies.antt =====
-- The middleware of the routes and the watcher of the policy at concrete inputs.
use go_api_management.Telemetry.{MetricsLibrary}
use go_api_management.Policy.Reload.Watch.{watch, EndsAt, watch_iff}
use go_api_management.Auth.Handler.SignIn.{IsSignIn, callback_200_iff}
use go_api_management.Schema.{schema_validation}
use go_api_management.Errors.{foreign, ok, err}
use go_api_management.Auth.{AuthSession, UserIdentity, TokenPair}
use go_api_management.Auth.Handler.Cookies.{auth_routes_sealed}
use go_api_management.Examples.Signing.{one_session, session}
use go_api_management.Examples.Edge.{payload_json, rules_engine, posted_transfer}
use go_api_management.Policy.Rules.{gateway_allow, IsAffordable, allow_transfer_iff}
use go_api_management.Auth.Handler.{callback, auth_routes}
use go_api_management.Http.{Handler, fresh}
use go_api_management.Schema.Passes.{Conforms, Refused, schema_cases}
use go_api_management.Policy.{Input, number_of}
use go_api_management.Http.Sealed.{Seals}
use go_api_management.Policy.Reload.{
  Evaluator, start_watcher, watch_error, changed, cancelled, watcher_last_good, Event,
}
use go_api_management.Base.{
  refl, [], ◌∷◌, some, none, true, false, inr, ◌≡◌, ◌≢◌, ◌++◌, codes, ℕ, ◌↔◌, Option, pos, ◌⊎◌,
  zero, suc,
}

abbrev quiet : Handler ℕ
quiet r sw = sw

schema_cases_example :
    (Conforms payload_json posted_transfer
      × (schema_validation payload_json quiet posted_transfer (0, fresh)
          ≡ quiet posted_transfer (0, fresh)))
    ⊎ ((Conforms payload_json posted_transfer → ⊥)
        × Refused payload_json posted_transfer 0 fresh
            (schema_validation payload_json quiet posted_transfer (0, fresh)))
schema_cases_example = schema_cases payload_json quiet posted_transfer 0 fresh

abbrev transfer_input : Input
transfer_input = record {
  path = codes "/transfer/initiate";
  method = codes "POST";
  sub = codes "u1";
  scopes = [];
  body = some (λ k. some (number_of (pos 1500)));
}

allow_transfer_iff_example :
    (gateway_allow transfer_input ≡ true)
    ↔ ((transfer_input.sub ≢ []) × IsAffordable transfer_input)
allow_transfer_iff_example = allow_transfer_iff transfer_input refl refl

abbrev first_policy : Evaluator rules_engine
first_policy = record { query = codes "v1"; policy_path = codes "policy.rego" }

watcher_last_good_example :
    (start_watcher rules_engine
      ((watch_error (foreign 1) ∷ [])
        ++ changed true false (ok (codes "v2"))
          ∷ (changed false true (err (foreign 0)) ∷ cancelled ∷ []))
      first_policy).query
    ≡ codes "v2"
watcher_last_good_example =
    watcher_last_good rules_engine (watch_error (foreign 1) ∷ [])
      (changed false true (err (foreign 0)) ∷ cancelled ∷ []) first_policy true false (codes "v2")
      (codes "v2") (tt, tt) refl refl (inr (λ content query e _. cc), (tt, tt))

callback_200_iff_example :
    ((callback one_session
        (record posted_transfer { cookie = λ k. some (codes "s1") })
        (some session, fresh)).1.status
      ≡ some 200)
    ↔ ((u : UserIdentity) × (t : TokenPair) × IsSignIn one_session
          (record posted_transfer { cookie = λ k. some (codes "s1") })
          (some session)
          u
          t)
callback_200_iff_example =
    callback_200_iff one_session (record posted_transfer { cookie = λ k. some (codes "s1") })
      (some session)

abbrev silent : Handler (Option AuthSession)
silent r sw = sw

abbrev no_metrics : MetricsLibrary (Option AuthSession)
no_metrics = record {
  register = λ c s. (ok tt, s);
  observe = λ c labels duration s. s;
  inc = λ c labels s. s;
  now = λ s. 0;
  status_text = λ code. codes "OK";
}

auth_routes_sealed_example : Seals (
    auth_routes one_session
      (λ s. (record { buffer = []; failure = none }, s))
      no_metrics
      silent
      (λ h. h)
      silent)
auth_routes_sealed_example =
    auth_routes_sealed one_session (λ s. (record { buffer = []; failure = none }, s)) no_metrics
      silent (λ h. h) silent (λ r s w sealed. sealed) (λ h sealed. sealed) (λ r s w sealed. sealed)

-- an error of the watcher, a new policy, and then the context is cancelled
abbrev stream : ℕ → Event
stream zero = watch_error (foreign 1)
stream (suc zero) = changed true false (ok (codes "v2"))
stream (suc (suc n)) = cancelled

watch_iff_example :
    (watch rules_engine 9 stream first_policy
      ≡ some (3, record { query = codes "v2"; policy_path = codes "policy.rego" }))
    ↔ ((n : ℕ) × EndsAt rules_engine n 9 stream first_policy 3
          record { query = codes "v2"; policy_path = codes "policy.rego" })
watch_iff_example =
    watch_iff rules_engine 9 stream first_policy 3
      record { query = codes "v2"; policy_path = codes "policy.rego" }
