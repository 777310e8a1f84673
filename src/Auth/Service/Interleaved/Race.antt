-- ===== src/Auth/Service/Interleaved/Race.antt =====
-- Two callbacks of one session of which both have found it before one deletes it.
use go_api_management.Auth.Service.Callback.{checked_complete}
use go_api_management.Errors.{ok}
use go_api_management.Auth.Sessions.{delete, get}
use go_api_management.Auth.{AuthSession, TokenPair, is_expired}
use go_api_management.Auth.Service.{AuthPorts}
use go_api_management.Base.{Bytes, refl, [], ◌∷◌, false, ◌≡◌, List, ℕ}
use go_api_management.Auth.Service.Interleaved.{
  Runs, Stage, Callback, advance, move, removed, exchanged, started, found,
}
use go_api_management.Auth.Service.Interleaved.{stops, moves}

abbrev pub callback_at : Bytes → Bytes → Bytes → Stage → Callback
callback_at session_id code state stage = record {
  session_id = session_id;
  code = code;
  state = state;
  stage = stage;
}

module _ {W : Type 0} (ports : AuthPorts W) (session_id code state : Bytes) where
  found_cut :
      (session : AuthSession) (w : W)
      → (get ports.table session_id w).0 ≡ ok session
      → advance ports session_id code state started w
        ≡ (found session, (get ports.table session_id w).1)
  unfolding advance
  found_cut session w stored = rw stored refl

module _ {W : Type 0} (ports : AuthPorts W) (Other : W → W → Type 0) where
  -- what a move leads to is reached by it
  moved :
      {cs' : List Callback} {w' : W} (k : ℕ) (cs next : List Callback) (w v : W)
      → move ports k cs w ≡ (next, v)
      → Runs ports Other cs' w' next v
      → Runs ports Other cs' w' cs w
  moved k cs next w v e run = moves k (rw e run)

  module _ (id state : Bytes) (s : AuthSession) where
    exchanged_cut :
        (code : Bytes) (w : W) (tokens : TokenPair)
        → is_expired (ports.now w) s ≡ false
        → s.state ≡ state
        → (ports.provider.exchange_code code s.code_verifier w).0 ≡ ok tokens
        → advance ports id code state (removed s) w
          ≡ (exchanged tokens, (ports.provider.exchange_code code s.code_verifier w).1)
    unfolding advance
    exchanged_cut code w tokens in_time same good =
        rw (checked_complete ports id code state w s (ports.now w) in_time same, advance, good) refl

    module _ (code code' : Bytes) where
      abbrev two : Stage → Stage → List Callback
      two one other = callback_at id code state one ∷ callback_at id code' state other ∷ []

      left :
          (one next other : Stage) (w v : W)
          → advance ports id code state one w ≡ (next, v)
          → move ports 0 (two one other) w ≡ (two next other, v)
      unfolding move
      left one next other w v e = λ i. (two (e i).0 other, (e i).1)

      right :
          (one other next : Stage) (w v : W)
          → advance ports id code' state other w ≡ (next, v)
          → move ports 1 (two one other) w ≡ (two one next, v)
      unfolding move
      right one other next w v e = λ i. (two one (e i).0, (e i).1)

      module _ (w : W) where
        abbrev pub both_found : W
        both_found = (get ports.table id (get ports.table id w).1).1

        abbrev pub both_removed : W
        both_removed = (delete ports.table id (delete ports.table id both_found).1).1

        abbrev pub one_exchanged : W
        one_exchanged = (ports.provider.exchange_code code s.code_verifier both_removed).1

      -- When two callbacks with the state of a session find it one after the other before either deletes
      -- it, it has not expired when they check it, and the provider exchanges the codes of both, then there
      -- is a run in which both callbacks get tokens for the one session, whatever their deletions return.
      pub callbacks_race :
          (w : W) (tokens tokens' : TokenPair)
          → (get ports.table id w).0 ≡ ok s
          → (get ports.table id (get ports.table id w).1).0 ≡ ok s
          → s.state ≡ state
          → is_expired (ports.now (both_removed w)) s ≡ false
          → is_expired (ports.now (one_exchanged w)) s ≡ false
          → (ports.provider.exchange_code code s.code_verifier (both_removed w)).0 ≡ ok tokens
          → (ports.provider.exchange_code code' s.code_verifier (one_exchanged w)).0 ≡ ok tokens'
          → (v : W) × Runs ports Other
              (two (exchanged tokens) (exchanged tokens'))
              v
              (two started started)
              w
      callbacks_race w tokens tokens' first second same in_time still good good' =
          let found1 = found_cut ports id code state s w first in
          let found2 = found_cut ports id code' state s (get ports.table id w).1 second in
          let gone1 : W = (delete ports.table id (both_found w)).1 in
          let removal1 : advance ports id code state (found s) (both_found w) ≡ (removed s, gone1) =
            unfold advance in refl in
          let removal2 : advance ports id code' state (found s) gone1
              ≡ (removed s, (both_removed w)) =
            unfold advance in refl in
          let exchange1 = exchanged_cut code (both_removed w) tokens in_time same good in
          let exchange2 = exchanged_cut code' (one_exchanged w) tokens' still same good' in
          let last : W = (ports.provider.exchange_code code' s.code_verifier (one_exchanged w)).1 in
          (
            last,
            moved 0 _ _ _ _ (left started (found s) started w _ found1) (
                moved 1 _ _ _ _ (right (found s) started (found s) _ _ found2) (
                  moved 0 _ _ _ _ (left (found s) (removed s) (found s) _ _ removal1) (
                    moved 1 _ _ _ _ (right (removed s) (found s) (removed s) _ _ removal2) (
                      moved 0 _ _ _ _
                        (left (removed s) (exchanged tokens) (removed s) _ _ exchange1)
                        (moved 1 _ _ _ _
                          (right (exchanged tokens) (removed s) (exchanged tokens') _ _ exchange2)
                          (stops refl refl)))))),
          )
