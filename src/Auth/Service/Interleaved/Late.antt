-- ===== src/Auth/Service/Interleaved/Late.antt =====
-- Callbacks of a session that is gone.
use go_api_management.Errors.{ok, err}
use go_api_management.Errors.Laws.{Result-cases}
use go_api_management.Auth.Sessions.{get, delete}
use go_api_management.Auth.Service.{AuthPorts, checked}
use go_api_management.Base.{Bytes, [], ◌∷◌, none, inl, inr, ◌≡◌, zero, suc, List, All, ℕ}
use go_api_management.Auth.Service.Interleaved.{
  Runs, Callback, Stage, move, step, advance, found, removed, exchanged, returned, started,
}
use go_api_management.Auth.Service.Interleaved.{stops, moves, arrives, elsewhere}
use go_api_management.Auth.Service.SingleUse.{TableLaws, get-stored, gone-deleted}

-- A query leaves the table alone, and a deletion brings no row back.
pub record GoneLaws {W : Type 0} (ports : AuthPorts W) (laws : TableLaws ports) : Type 0 where
  pub select-stored : (id : Bytes) (w : W) → laws.stored (ports.table.select id w).1 ≡ laws.stored w
  pub delete-gone :
      (id id' : Bytes) (w : W)
      → laws.stored w id ≡ none
      → laws.stored (ports.table.delete_by_id id' w).1 id ≡ none

-- It has not begun, or it has failed.
abbrev pub IsIdle : Stage → Type 0
IsIdle started = Unit
IsIdle (found session) = ⊥
IsIdle (removed session) = ⊥
IsIdle (exchanged tokens) = ⊥
IsIdle (returned (ok signed)) = ⊥
IsIdle (returned (err e)) = Unit

-- a callback that brings this code for this session
abbrev pub IsIdleFor : Bytes → Bytes → Callback → Type 0
IsIdleFor id code c = c.session_id ≡ id → c.code ≡ code → IsIdle c.stage

module _ {W : Type 0} (ports : AuthPorts W) (laws : TableLaws ports) (more : GoneLaws ports laws)
    (id : Bytes) where
  abbrev Gone : W → Type 0
  Gone w = laws.stored w id ≡ none

  advance-Gone :
      (session_id code state : Bytes) (stage : Stage) (w : W)
      → Gone w
      → Gone (advance ports session_id code state stage w).1
  unfolding advance get delete
  advance-Gone session_id code state started w gone = rw (more.select-stored session_id w) gone
  advance-Gone session_id code state (found s) w gone = more.delete-gone id session_id w gone
  advance-Gone session_id code state (removed s) w gone =
      elim (Result-cases (checked ports s state (ports.now w))) [
        | inl (e, refused) ↦ rw (refused, advance) gone
        | inr (_, passed) ↦
            rw (passed, advance) (rw (laws.exchange-stored code s.code_verifier w) gone)
      ]
  advance-Gone session_id code state (exchanged t) w gone =
      rw (laws.info-stored t.access_token w) gone
  advance-Gone session_id code state (returned r) w gone = gone

  -- while the session is gone a callback for it that has not begun comes to nothing
  advance-IsIdle :
      (code state : Bytes) (stage : Stage) (w : W)
      → Gone w
      → IsIdle stage
      → IsIdle (advance ports id code state stage w).0
  unfolding advance
  advance-IsIdle code state started w gone idle = elim (Result-cases (get ports.table id w).0) [
    | inl (e, missing) ↦ rw (missing, advance) tt
    | inr (s, stored) ↦ absurd (cc (get-stored ports laws id w s stored, gone))
  ]
  advance-IsIdle code state (found s) w gone idle = elim idle [ ]
  advance-IsIdle code state (removed s) w gone idle = elim idle [ ]
  advance-IsIdle code state (exchanged t) w gone idle = elim idle [ ]
  advance-IsIdle code state (returned r) w gone idle = idle

  step-IsIdleFor :
      (code : Bytes) (c : Callback) (w : W)
      → Gone w
      → IsIdleFor id code c
      → IsIdleFor id code (step ports c w).0
  step-IsIdleFor code c w gone idle same_id same_code =
      rw same_id (advance-IsIdle c.code c.state c.stage w gone (idle same_id same_code))

  move-Gone : (k : ℕ) (cs : List Callback) (w : W) → Gone w → Gone (move ports k cs w).1
  unfolding move
  move-Gone k [] w gone = gone
  move-Gone zero (c ∷ cs) w gone = advance-Gone c.session_id c.code c.state c.stage w gone
  move-Gone (suc k) (c ∷ cs) w gone = move-Gone k cs w gone

  move-IsIdleFor :
      (code : Bytes) (k : ℕ) (cs : List Callback) (w : W)
      → Gone w
      → All (IsIdleFor id code) cs
      → All (IsIdleFor id code) (move ports k cs w).0
  unfolding move
  move-IsIdleFor code k [] w gone idle = idle
  move-IsIdleFor code zero (c ∷ cs) w gone (first, idle) =
      (step-IsIdleFor code c w gone first, idle)
  move-IsIdleFor code (suc k) (c ∷ cs) w gone (first, idle) =
      (first, move-IsIdleFor code k cs w gone idle)

  module _ (Other : W → W → Type 0) (away : (w v : W) → Other w v → Gone w → Gone v)
      (code : Bytes) where
    Runs-IsIdleFor :
        {cs' : List Callback} {w' : W} (cs : List Callback) (w : W)
        → Runs ports Other cs' w' cs w
        → Gone w
        → All (IsIdleFor id code) cs
        → All (IsIdleFor id code) cs'
    Runs-IsIdleFor cs w (stops same _) gone idle = rw same idle
    Runs-IsIdleFor cs w (moves k later) gone idle =
        Runs-IsIdleFor (move ports k cs w).0 (move ports k cs w).1 later (move-Gone k cs w gone)
          (move-IsIdleFor code k cs w gone idle)
    Runs-IsIdleFor cs w (arrives c begins later) gone idle =
        Runs-IsIdleFor (c ∷ cs) w later gone ((λ _ _. rw begins tt), idle)
    Runs-IsIdleFor cs w (elsewhere v other later) gone idle =
        Runs-IsIdleFor cs v later (away w v other gone) idle

-- When the deletion of a session did not fail, and no callback for the session that is under way with
-- a code has come past its start, then in every run from there, among any other callbacks, old and new,
-- and any other operations that do not bring the session back, no callback for the session gets tokens
-- for that code: each has not begun or has failed.
pub late_callbacks_fail :
    {W : Type 0} (ports : AuthPorts W) (laws : TableLaws ports) (more : GoneLaws ports laws)
    (Other : W → W → Type 0) (id code : Bytes) (cs cs' : List Callback) (w w' : W)
    → ((u v : W) → Other u v → laws.stored u id ≡ none → laws.stored v id ≡ none)
    → (delete ports.table id w).0 ≡ ok tt
    → All (IsIdleFor id code) cs
    → Runs ports Other cs' w' cs (delete ports.table id w).1
    → All (IsIdleFor id code) cs'
late_callbacks_fail ports laws more Other id code cs cs' w w' away gone idle run =
    Runs-IsIdleFor ports laws more id Other away code cs (delete ports.table id w).1 run
      (gone-deleted ports laws id w gone) idle
