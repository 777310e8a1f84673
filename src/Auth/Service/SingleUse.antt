-- ===== src/Auth/Service/SingleUse.antt =====
-- A second callback for a session, behind the first.
use go_api_management.Base.{◌≡◌, ◌∙◌, refl, ap, Option, none, some, Bytes, inl, inr, ℕ}
use go_api_management.Errors.{Err, ok, err, wrap}
use go_api_management.Errors.Laws.{Result-cases}
use go_api_management.Auth.{AuthSession}
use go_api_management.Auth.Sessions.{Query, row, no_rows, query_failed, get, got, delete}
use go_api_management.Auth.Service.{AuthPorts, checked, sign_in, handle_callback}

-- The rows of the table by their identifier: a query that does not fail gives the row there is, a
-- deletion that does not fail leaves none, and the calls of the provider leave the table alone.
pub record TableLaws {W : Type 0} (ports : AuthPorts W) : Type 0 where
  pub stored : W → Bytes → Option AuthSession
  pub select-row :
      (id : Bytes) (w : W) (s : AuthSession)
      → (ports.table.select id w).0 ≡ row s
      → stored w id ≡ some s
  pub delete-stored :
      (id : Bytes) (w : W) (n : Option ℕ)
      → (ports.table.delete_by_id id w).0 ≡ ok n
      → stored (ports.table.delete_by_id id w).1 id ≡ none
  pub exchange-stored :
      (code verifier : Bytes) (w : W)
      → stored (ports.provider.exchange_code code verifier w).1 ≡ stored w
  pub info-stored :
      (token : Bytes) (w : W) → stored (ports.provider.get_user_info token w).1 ≡ stored w

pub got_row : (id : Bytes) (q : Query) (s : AuthSession) → got id q ≡ ok s → q ≡ row s
got_row id (row t) s e = cc
got_row id no_rows s e = cc
got_row id (query_failed x) s e = cc

module _ {W : Type 0} (ports : AuthPorts W) (laws : TableLaws ports) (id : Bytes) where
  pub get-stored :
      (w : W) (s : AuthSession) → (get ports.table id w).0 ≡ ok s → laws.stored w id ≡ some s
  unfolding get
  get-stored w s h = laws.select-row id w s (got_row id (ports.table.select id w).0 s h)

  pub gone-deleted :
      (w : W)
      → (delete ports.table id w).0 ≡ ok tt
      → laws.stored (delete ports.table id w).1 id ≡ none
  unfolding delete
  gone-deleted w h = elim (Result-cases (ports.table.delete_by_id id w).0) [
    | inl (e, failed) ↦ absurd (cc (failed, h))
    | inr (n, good) ↦ laws.delete-stored id w n good
  ]

  sign_in-stored :
      (code : Bytes) (s : AuthSession) (w : W)
      → laws.stored (sign_in ports code s w).1 ≡ laws.stored w
  unfolding sign_in
  sign_in-stored code s w =
      elim (Result-cases (ports.provider.exchange_code code s.code_verifier w).0) [
        | inl (e, failed) ↦ rw (failed, sign_in) (laws.exchange-stored code s.code_verifier w)
        | inr (t, good) ↦
            rw (good, sign_in)
              (laws.info-stored t.access_token
                  (ports.provider.exchange_code code s.code_verifier w).1
                ∙ laws.exchange-stored code s.code_verifier w)
      ]

  callback-stored :
      (code state : Bytes) (w : W) (s : AuthSession)
      → (get ports.table id w).0 ≡ ok s
      → laws.stored (handle_callback ports id code state w).1
        ≡ laws.stored (delete ports.table id (get ports.table id w).1).1
  unfolding handle_callback
  callback-stored code state w s found =
      let v : W = (delete ports.table id (get ports.table id w).1).1 in
      elim (Result-cases (checked ports s state (ports.now v))) [
        | inl (e, refused) ↦ rw (found, handle_callback, refused) refl
        | inr (_, passed) ↦ rw (found, handle_callback, passed) (sign_in-stored code s v)
      ]

  gone-fails :
      (code state : Bytes) (w : W)
      → laws.stored w id ≡ none
      → (e : Err) × ((handle_callback ports id code state w).0 ≡ err e)
  unfolding handle_callback
  gone-fails code state w gone = elim (Result-cases (get ports.table id w).0) [
    | inl (e, missing) ↦ (wrap "retrieve auth session" e, rw (missing, handle_callback) refl)
    | inr (s, found) ↦ absurd (cc (get-stored w s found, gone))
  ]

  -- When a callback has found its session and the deletion of it did not fail, then whatever came of
  -- the callback, the next callback for the session fails, with any code and state.
  callback_single_use :
      (code state code' state' : Bytes) (w : W) (s : AuthSession)
      → (get ports.table id w).0 ≡ ok s
      → (delete ports.table id (get ports.table id w).1).0 ≡ ok tt
      → (e : Err) × ((handle_callback ports id code' state'
            (handle_callback ports id code state w).1).0
          ≡ err e)
  callback_single_use code state code' state' w s found removed =
      gone-fails code' state' (handle_callback ports id code state w).1 (
        ap (λ f. f id) (callback-stored code state w s found)
        ∙ gone-deleted (get ports.table id w).1 removed)
