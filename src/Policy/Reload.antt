-- ===== src/Policy/Reload.antt =====
-- OPAPolicyEvaluator of internal/adapters/handler/policy_middleware.go: the query in force, and the
-- watcher that replaces it. What is read of the policy's file comes with each event.
pub mod Watch
use go_api_management.Errors.Laws.{>>=-eq-ok, Result-cases, ok-injective}
use go_api_management.Errors.{Result, ok, Err, err, ◌>>=◌}
use go_api_management.Policy.{Engine}
use go_api_management.Base.{
  Bytes, refl, [], ◌∷◌, true, false, inl, inr, ◌≡◌, ◌∙◌, ◌++◌, ◌||◌, Bool, ◌⊎◌, List, Bool-cases,
  All, if◌then◌else◌, ap,
}

pub record Evaluator (engine : Engine) : Type 0 where
  pub query : engine.Query
  pub policy_path : Bytes

-- What the watcher's `select` receives; `changed` with whether the event is a write and a creation,
-- and what reading the file gives then.
pub data Event : Type 0 where
  cancelled events_closed errors_closed : Event
  changed : Bool → Bool → Result Bytes → Event
  watch_error : Err → Event

module _ (engine : Engine) where
  -- reload
  pub reload : Result Bytes → Evaluator engine → Result (Unit {0}) × Evaluator engine
  reload (err x) e = (err x, e)
  reload (ok content) e = elim (engine.prepare e.policy_path content) [
    | err x ↦ (err x, e)
    | ok query ↦ (ok tt, record e { query = query })
  ]

  -- NewOPAPolicyEvaluator
  unfoldable pub new_opa_policy_evaluator : Bytes → Result Bytes → Result (Evaluator engine)
  new_opa_policy_evaluator policy_path read = do
    content ← read
    query ← engine.prepare policy_path content
    ok (record { query = query; policy_path = policy_path })

  -- the routine of StartWatcher, over what it receives; a failed reload is logged
  unfoldable pub start_watcher : List Event → Evaluator engine → Evaluator engine
  unfolding reload
  start_watcher [] e = e
  start_watcher (cancelled ∷ events) e = e
  start_watcher (events_closed ∷ events) e = e
  start_watcher (errors_closed ∷ events) e = e
  start_watcher (watch_error x ∷ events) e = start_watcher events e
  start_watcher (changed write create read ∷ events) e =
      start_watcher events (if write || create then (reload read e).1 else e)

  -- A query that was prepared from some content of the policy's file.
  pub IsCompiled : Evaluator engine → Type 0
  IsCompiled e = (content : Bytes) × (engine.prepare e.policy_path content ≡ ok e.query)

  reload-IsCompiled :
      (read : Result Bytes) (e : Evaluator engine) → IsCompiled e → IsCompiled (reload read e).1
  unfolding reload IsCompiled
  reload-IsCompiled (err x) e c = c
  reload-IsCompiled (ok content) e c = elim (Result-cases (engine.prepare e.policy_path content)) [
    | inl (x, failed) ↦ rw (failed, reload) c
    | inr (query, good) ↦ rw (good, reload) (content, good)
  ]

  watcher-IsCompiled :
      (events : List Event) (e : Evaluator engine)
      → IsCompiled e
      → IsCompiled (start_watcher events e)
  unfolding start_watcher
  watcher-IsCompiled [] e c = c
  watcher-IsCompiled (cancelled ∷ events) e c = c
  watcher-IsCompiled (events_closed ∷ events) e c = c
  watcher-IsCompiled (errors_closed ∷ events) e c = c
  watcher-IsCompiled (watch_error x ∷ events) e c = watcher-IsCompiled events e c
  watcher-IsCompiled (changed write create read ∷ events) e c =
      watcher-IsCompiled events _ (elim (Bool-cases (write || create)) [
        | inl b ↦ rw b (reload-IsCompiled read e c)
        | inr b ↦ rw b c
      ])

  -- Whatever the watcher receives after a start that succeeded, the evaluator holds a query that was
  -- prepared from a content of the file: a policy that does not compile is never in force.
  pub watched-IsCompiled :
      (policy_path : Bytes) (read : Result Bytes) (e : Evaluator engine) (events : List Event)
      → new_opa_policy_evaluator policy_path read ≡ ok e
      → IsCompiled (start_watcher events e)
  unfolding new_opa_policy_evaluator IsCompiled
  watched-IsCompiled policy_path read e events h = watcher-IsCompiled events e (
      let (content, is_content, h1) = >>=-eq-ok read _ h in
      let (query, is_query, h2) = >>=-eq-ok (engine.prepare policy_path content) _ h1 in
      rw (← ok-injective h2) (content, is_query))

  -- An event that does not end the routine.
  abbrev pub IsRunning : Event → Type 0
  IsRunning cancelled = ⊥
  IsRunning events_closed = ⊥
  IsRunning errors_closed = ⊥
  IsRunning (changed write create read) = Unit {0}
  IsRunning (watch_error x) = Unit {0}

  -- An event that brings no new policy that compiles.
  abbrev pub IsSterile : Bytes → Event → Type 0
  IsSterile path (changed write create read) =
      ((write || create) ≡ false)
      ⊎ ((content : Bytes) (query : engine.Query)
          → read ≡ ok content
          → engine.prepare path content ≡ ok query
          → ⊥)
  IsSterile path _ = Unit {0}

  reload_path :
      (read : Result Bytes) (e : Evaluator engine) → (reload read e).1.policy_path ≡ e.policy_path
  unfolding reload
  reload_path (err x) e = refl
  reload_path (ok content) e = elim (Result-cases (engine.prepare e.policy_path content)) [
    | inl (x, failed) ↦ rw (failed, reload) refl
    | inr (query, good) ↦ rw (good, reload) refl
  ]

  reload_sterile :
      (read : Result Bytes) (e : Evaluator engine)
      → ((content : Bytes) (query : engine.Query)
          → read ≡ ok content
          → engine.prepare e.policy_path content ≡ ok query
          → ⊥)
      → (reload read e).1 ≡ e
  unfolding reload
  reload_sterile (err x) e none_good = refl
  reload_sterile (ok content) e none_good =
      elim (Result-cases (engine.prepare e.policy_path content)) [
        | inl (x, failed) ↦ rw (failed, reload) refl
        | inr (query, good) ↦ absurd (none_good content query refl good)
      ]

  watcher_sterile :
      (events : List Event) (e : Evaluator engine)
      → All (IsSterile e.policy_path) events
      → start_watcher events e ≡ e
  unfolding start_watcher
  watcher_sterile [] e all = refl
  watcher_sterile (cancelled ∷ events) e all = refl
  watcher_sterile (events_closed ∷ events) e all = refl
  watcher_sterile (errors_closed ∷ events) e all = refl
  watcher_sterile (watch_error x ∷ events) e (first, rest) = watcher_sterile events e rest
  watcher_sterile (changed write create read ∷ events) e (first, rest) = elim first [
    | inl quiet ↦ rw quiet (watcher_sterile events e rest)
    | inr no_good ↦ elim (Bool-cases (write || create)) [
      | inl b ↦ rw (b, reload_sterile read e no_good) (watcher_sterile events e rest)
      | inr b ↦ rw b (watcher_sterile events e rest)
    ]
  ]

  pub watcher_runs :
      (before after : List Event) (e : Evaluator engine)
      → All IsRunning before
      → start_watcher (before ++ after) e ≡ start_watcher after (start_watcher before e)
  unfolding start_watcher
  watcher_runs [] after e all = refl
  watcher_runs (cancelled ∷ events) after e (first, rest) = absurd first
  watcher_runs (events_closed ∷ events) after e (first, rest) = absurd first
  watcher_runs (errors_closed ∷ events) after e (first, rest) = absurd first
  watcher_runs (watch_error x ∷ events) after e (first, rest) = watcher_runs events after e rest
  watcher_runs (changed write create read ∷ events) after e (first, rest) =
      watcher_runs events after _ rest

  step_path :
      (b : Bool) (read : Result Bytes) (e : Evaluator engine)
      → (if b then (reload read e).1 else e).policy_path ≡ e.policy_path
  step_path true read e = reload_path read e
  step_path false read e = refl

  watcher_path :
      (events : List Event) (e : Evaluator engine)
      → (start_watcher events e).policy_path ≡ e.policy_path
  unfolding start_watcher
  watcher_path [] e = refl
  watcher_path (cancelled ∷ events) e = refl
  watcher_path (events_closed ∷ events) e = refl
  watcher_path (errors_closed ∷ events) e = refl
  watcher_path (watch_error x ∷ events) e = watcher_path events e
  watcher_path (changed write create read ∷ events) e =
      watcher_path events _ ∙ step_path (write || create) read e

  reload_good :
      (content : Bytes) (e : Evaluator engine) (query : engine.Query)
      → engine.prepare e.policy_path content ≡ ok query
      → (reload (ok content) e).1 ≡ record e { query = query }
  unfolding reload
  reload_good content e query good = rw (good, reload) refl

  changed_step :
      (e : Evaluator engine) (after : List Event) (write create : Bool) (content : Bytes)
      (query : engine.Query)
      → (write || create) ≡ true
      → engine.prepare e.policy_path content ≡ ok query
      → start_watcher (changed write create (ok content) ∷ after) e
        ≡ start_watcher after (record e { query = query })
  unfolding start_watcher
  changed_step e after write create content query event good =
      rw (event, reload_good content e query good) refl

  -- After a write or a creation at which the file's content compiles, and events at which none does,
  -- the policy in force is that content's, as long as the routine had not ended before.
  pub watcher_last_good :
      (before after : List Event) (e : Evaluator engine) (write create : Bool) (content : Bytes)
      (query : engine.Query)
      → All IsRunning before
      → (write || create) ≡ true
      → engine.prepare e.policy_path content ≡ ok query
      → All (IsSterile e.policy_path) after
      → (start_watcher (before ++ changed write create (ok content) ∷ after) e).query ≡ query
  watcher_last_good before after e write create content query running event good sterile =
      let m = start_watcher before e in
      let path : m.policy_path ≡ e.policy_path = watcher_path before e in
      ap (λ x. x.query) (watcher_runs before (changed write create (ok content) ∷ after) e running)
      ∙ ap (λ x. x.query) (changed_step m after write create content query event (rw path good))
      ∙ ap (λ x. x.query) (watcher_sterile after (record m { query = query }) (rw path sterile))
