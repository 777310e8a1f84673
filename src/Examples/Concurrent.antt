-- ===== src/Examples/Concurrent.antt =====
-- Callbacks that alternate, at concrete inputs.
use go_api_management.Auth.Service.Interleaved.Race.{callback_at, callbacks_race}
use go_api_management.Auth.Service.Interleaved.{moves, stops}
use go_api_management.Auth.Sessions.{delete, get}
use go_api_management.Auth.{AuthSession}
use go_api_management.Auth.Service.Interleaved.{Callback, move, Runs, started, found, exchanged}
use go_api_management.Auth.Service.Interleaved.Late.{GoneLaws, IsIdleFor, late_callbacks_fail}
use go_api_management.Base.{refl, [], ◌∷◌, some, none, ◌≡◌, All, Option, List, codes}
use go_api_management.Examples.Signing.{session, tokens, one_session, one_session_laws}

one_session_gone : GoneLaws one_session one_session_laws
one_session_gone = record { select-stored = λ id w. refl; delete-gone = λ id id' w gone. refl }

-- one callback has found the session, the other begins
abbrev under_way : List Callback
under_way =
    callback_at (codes "s1") [] (codes "st") (found session)
    ∷ callback_at (codes "s1") (codes "d") (codes "st") started
    ∷ []

late_callbacks_fail_example :
    All (IsIdleFor (codes "s1") (codes "d")) (move one_session 1 under_way none).0
late_callbacks_fail_example =
    late_callbacks_fail one_session one_session_laws one_session_gone (λ u v. u ≡ v) (codes "s1")
      (codes "d") under_way (move one_session 1 under_way none).0 (some session)
      (move one_session 1 under_way none).1 (λ u v same gone. rw (← same) gone)
      (unfold delete in refl) ((λ _ other. absurd (cc other)), ((λ _ _. tt), tt))
      (unfold delete in moves 1 (stops refl refl))

callbacks_race_example :
    (v : Option AuthSession) × Runs one_session
      (λ u v. u ≡ v)
      (callback_at (codes "s1") (codes "c") (codes "st") (exchanged tokens)
        ∷ callback_at (codes "s1") (codes "d") (codes "st") (exchanged tokens)
        ∷ [])
      v
      (callback_at (codes "s1") (codes "c") (codes "st") started
        ∷ callback_at (codes "s1") (codes "d") (codes "st") started
        ∷ [])
      (some session)
callbacks_race_example =
    callbacks_race one_session (λ u v. u ≡ v) (codes "s1") (codes "st") session (codes "c")
      (codes "d") (some session) tokens tokens (unfold get in refl) (unfold get in refl) refl refl
      refl refl refl
