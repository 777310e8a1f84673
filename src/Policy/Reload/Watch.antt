-- ===== src/Policy/Reload/Watch.antt =====
-- The loop of StartWatcher (internal/adapters/handler/policy_middleware.go) over an unbounded sequence of
-- what it receives, on fuel: one unit for each turn.
use go_api_management.Base.{
  ℕ, Option, refl, [], ◌∷◌, some, none, inl, inr, ◌≡◌, ◌∙◌, arith, ◌||◌, zero, suc, List, ◌⊎◌,
  if◌then◌else◌, ◌<◌, Option-cases, All, sym, ◌↔◌, ap,
}
use go_api_management.Policy.{Engine}
use go_api_management.Policy.Reload.{
  Evaluator, Event, cancelled, events_closed, errors_closed, changed, watch_error, start_watcher,
  reload, IsRunning,
}

-- one turn more
counted : {A : Type 0} → Option (ℕ × A) → Option (ℕ × A)
counted none = none
counted (some (n, a)) = some (suc n, a)

-- the first `n` events
abbrev pub received : ℕ → (ℕ → Event) → List Event
received zero stream = []
received (suc n) stream = stream 0 ∷ received n (λ m. stream (suc m))

module _ (engine : Engine) where
  -- The body of the loop: `none` where it returns.
  pub turn : Event → Evaluator engine → Option (Evaluator engine)
  unfolding reload
  turn cancelled e = none
  turn events_closed e = none
  turn errors_closed e = none
  turn (watch_error x) e = some e
  turn (changed write create read) e =
      some (if write || create then (reload engine read e).1 else e)

  -- The number of turns and the evaluator behind the last one, or `none` if it has not returned by then.
  pub watch : ℕ → (ℕ → Event) → Evaluator engine → Option (ℕ × Evaluator engine)
  unfolding turn counted
  watch zero stream e = none
  watch (suc fuel) stream e = elim (turn (stream 0) e) [
    | none ↦ some (1, e)
    | some e' ↦ counted (watch fuel (λ n. stream (suc n)) e')
  ]

  -- what a turn may be
  turn-cases :
      (event : Event) (e : Evaluator engine)
      → ((IsRunning engine event → ⊥) × (turn event e ≡ none))
        ⊎ ((e' : Evaluator engine) × IsRunning engine event
            × (turn event e ≡ some e')
            × ((events : List Event)
                → start_watcher engine (event ∷ events) e ≡ start_watcher engine events e'))
  unfolding turn start_watcher
  turn-cases cancelled e = inl ((λ h. h), refl)
  turn-cases events_closed e = inl ((λ h. h), refl)
  turn-cases errors_closed e = inl ((λ h. h), refl)
  turn-cases (watch_error x) e = inr (e, tt, refl, λ events. refl)
  turn-cases (changed write create read) e = inr (_, tt, refl, λ events. refl)

  -- The event number `n` is the first that ends the routine, which takes one turn for each event up to
  -- it, and the evaluator is that of the events before it.
  pub record EndsAt (n fuel : ℕ) (stream : ℕ → Event) (e : Evaluator engine) (turns : ℕ)
      (e' : Evaluator engine) : Type 0 where
    pub in_time : n < fuel
    pub before : All (IsRunning engine) (received n stream)
    pub ends : IsRunning engine (stream n) → ⊥
    pub is_turns : turns ≡ suc n
    pub is_left : e' ≡ start_watcher engine (received n stream) e

  watch-none :
      (fuel : ℕ) (stream : ℕ → Event) (e : Evaluator engine)
      → turn (stream 0) e ≡ none
      → watch (suc fuel) stream e ≡ some (1, e)
  unfolding watch
  watch-none fuel stream e h = rw (h, watch) refl

  watch-some :
      (fuel : ℕ) (stream : ℕ → Event) (e e' : Evaluator engine)
      → turn (stream 0) e ≡ some e'
      → watch (suc fuel) stream e ≡ counted (watch fuel (λ n. stream (suc n)) e')
  unfolding watch
  watch-some fuel stream e e' h = rw (h, watch) refl

  watch_sound :
      (fuel : ℕ) (stream : ℕ → Event) (e : Evaluator engine) (turns : ℕ) (e' : Evaluator engine)
      → watch fuel stream e ≡ some (turns, e')
      → (n : ℕ) × EndsAt n fuel stream e turns e'
  unfolding watch start_watcher counted
  watch_sound zero stream e turns e' h = absurd (cc h)
  watch_sound (suc fuel) stream e turns e' h = elim (turn-cases (stream 0) e) [
    | inl (ends, none_left) ↦
        let same : some (1, e) ≡ some (turns, e') = sym (watch-none fuel stream e none_left) ∙ h in
        let one_turn : 1 ≡ turns = cc same in
        (
          0,
          record {
            in_time = omega arith;
            before = tt;
            ends = ends;
            is_turns = omega (arith, one_turn);
            is_left = cc same;
          },
        )
    | inr (e1, runs, goes_on, same) ↦ elim (Option-cases (watch fuel (λ n. stream (suc n)) e1)) [
      | inl nothing ↦ absurd (cc (watch-some fuel stream e e1 goes_on, ap counted nothing, h))
      | inr ((k, last), returns) ↦
          let (n, m) = watch_sound fuel (λ n. stream (suc n)) e1 k last returns in
          let given : some (suc k, last) ≡ some (turns, e') =
            sym (ap counted returns) ∙ sym (watch-some fuel stream e e1 goes_on) ∙ h in
          let one_more : suc k ≡ turns = cc given in
          (
            suc n,
            record {
              in_time = omega (arith, m.in_time);
              before = (runs, m.before);
              ends = m.ends;
              is_turns = omega (arith, m.is_turns, one_more);
              is_left =
                  let left : e' ≡ last = cc given in
                  left ∙ m.is_left ∙ sym (same (received n (λ n. stream (suc n))));
            },
          )
    ]
  ]

  watch_complete :
      (n fuel : ℕ) (stream : ℕ → Event) (e : Evaluator engine) (turns : ℕ) (e' : Evaluator engine)
      → EndsAt n fuel stream e turns e'
      → watch fuel stream e ≡ some (turns, e')
  unfolding start_watcher counted
  watch_complete n zero stream e turns e' m = absurd (omega (arith, m.in_time))
  watch_complete zero (suc fuel) stream e turns e' m = elim (turn-cases (stream 0) e) [
    | inl (ends, none_left) ↦
        watch-none fuel stream e none_left ∙ λ i. some (sym m.is_turns i, sym m.is_left i)
    | inr (e1, runs, goes_on, same) ↦ absurd (m.ends runs)
  ]
  watch_complete (suc n) (suc fuel) stream e turns e' m = elim (turn-cases (stream 0) e) [
    | inl (ends, none_left) ↦ absurd (ends m.before.0)
    | inr (e1, runs, goes_on, same) ↦
        watch-some fuel stream e e1 goes_on
        ∙ ap counted (
            watch_complete n fuel (λ n. stream (suc n)) e1 (suc n) e'
              record {
                in_time = omega (arith, m.in_time);
                before = m.before.1;
                ends = m.ends;
                is_turns = refl;
                is_left = m.is_left ∙ same (received n (λ n. stream (suc n)));
              })
        ∙ λ i. some (sym m.is_turns i, e')
  ]

  -- On fuel the routine returns if and only if one of so many events ends it: at the first that does,
  -- in one turn for each event up to it, with the evaluator that start_watcher makes of those before.
  pub watch_iff :
      (fuel : ℕ) (stream : ℕ → Event) (e : Evaluator engine) (turns : ℕ) (e' : Evaluator engine)
      → (watch fuel stream e ≡ some (turns, e')) ↔ ((n : ℕ) × EndsAt n fuel stream e turns e')
  watch_iff fuel stream e turns e' =
      (watch_sound fuel stream e turns e', λ m. watch_complete m.0 fuel stream e turns e' m.1)
