-- ===== src/Policy/Guard.antt =====
-- Which requests pass the policy.
use go_api_management.Errors.Laws.{Result-cases}
use go_api_management.Errors.{err, ok, Result, Err}
use go_api_management.Http.Body.{read_and_buffer_body, read_and_buffer_body_lem}
use go_api_management.Policy.{
  Object, policy_body, Engine, assemble, policy_check, evaluate, forbidden, evaluation_failed,
  Input, boolean,
}
use go_api_management.Http.{Request, Handler, Writer}
use go_api_management.Base.{
  Bytes, refl, true, false, inl, inr, ◌≡◌, Option, Option-cases, Bool-cases, str_eq, codes, ap,
  Bool, ◌⊎◌, [], ◌∷◌,
}

-- Reading the body for the policy leaves the request as it was.
buffered_same : (r : Request) → (read_and_buffer_body r).1 ≡ r
buffered_same r = elim (Option-cases r.body) [
  | inl e ↦
      unfold read_and_buffer_body in rw (e, read_and_buffer_body) (λ i. record r { body = e i })
  | inr (err x, e) ↦ unfold read_and_buffer_body in rw (e, read_and_buffer_body) refl
  | inr (ok b, e) ↦ ap (λ p. p.1) (read_and_buffer_body_lem r b e)
]

module _ (unmarshal_object : Bytes → Option Object) where
  policy_body_same : (r : Request) → (policy_body unmarshal_object r).1 ≡ r
  unfolding policy_body
  policy_body_same r = elim (Bool-cases (str_eq r.method (codes "POST"))) [
    | inr e ↦ rw e refl
    | inl e ↦ elim (Result-cases (read_and_buffer_body r).0) [
      | inl (x, f) ↦ rw (e, policy_body, f) (buffered_same r)
      | inr (b, f) ↦ rw (e, policy_body, f) (buffered_same r)
    ]
  ]

  pub assemble_same : (r : Request) → (assemble unmarshal_object r).1 ≡ r
  unfolding assemble
  assemble_same r = policy_body_same r

  module _ {W : Type 0} (engine : Engine) (query : W → engine.Query) (next : Handler W)
      (r : Request) (s : W) (w : Writer) where
    abbrev pub ruling : Result Bool
    ruling = evaluate engine (query s) (assemble unmarshal_object r).0

    abbrev answer : W × Writer
    answer = policy_check engine unmarshal_object query next r (s, w)

    pub policy_cases :
        ((ruling ≡ ok true) × (answer ≡ next r (s, w)))
        ⊎ (((ruling ≡ ok false) × (answer ≡ (s, forbidden w)))
            ⊎ ((e : Err) × (ruling ≡ err e) × (answer ≡ (s, evaluation_failed w))))
    unfolding policy_check
    policy_cases = elim (Result-cases ruling) [
      | inl (e, failed) ↦ inr (inr (e, failed, rw (failed, policy_check) refl))
      | inr (true, yes_) ↦ inl (yes_, rw (yes_, policy_check, assemble_same) refl)
      | inr (false, no_) ↦ inr (inl (no_, rw (no_, policy_check) refl))
    ]

  pub assemble_path : (r : Request) → (assemble unmarshal_object r).0.path ≡ r.path
  unfolding assemble
  assemble_path r = refl

  pub assemble_method : (r : Request) → (assemble unmarshal_object r).0.method ≡ r.method
  unfolding assemble
  assemble_method r = refl

-- A single Boolean result is the verdict.
pub evaluate_verdict :
    (engine : Engine) (query : engine.Query) (input : Input) (b : Bool)
    → engine.eval query input ≡ ok ((boolean b ∷ []) ∷ [])
    → evaluate engine query input ≡ ok b
unfolding evaluate
evaluate_verdict engine query input b e = rw e refl
