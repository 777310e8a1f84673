-- ===== src/Auth/Service/Provenance/Begun.antt =====
-- Runs of the service: where the rows of the session table and the sessions of callbacks come from.
use go_api_management.Auth.Service.Callback.{callback_iff}
use go_api_management.Auth.Service.SingleUse.{got_row}
use go_api_management.Errors.Laws.{Result-cases}
use go_api_management.Errors.{ok}
use go_api_management.Auth.Sessions.{delete_expired, get, save, delete}
use go_api_management.Auth.Pkce.{generate_state, generate_verifier}
use go_api_management.Auth.Service.{
  AuthPorts, initiate_auth, handle_callback, refresh, revoke, new_session, sign_in,
  persist_and_redirect, checked,
}
use go_api_management.Base.{
  Any, here, there, some, ◌≡◌, Bytes, List, ◌⊎◌, none, inl, inr, ◌∙◌, ap, sym,
}
use go_api_management.Auth.{AuthSession, UserIdentity, TokenPair}
use go_api_management.Auth.Service.Provenance.{RowLaws, Runs, Began, Shrinks}
use go_api_management.Auth.Service.Provenance.{
  starts, logs_in, calls_back, refreshes, revokes, sweeps,
}

module _ {W : Type 0} (ports : AuthPorts W) (laws : RowLaws ports) where
  abbrev Fewer : W → W → Type 0
  Fewer = Shrinks laws.stored

  sign_in-Shrinks : (code : Bytes) (s : AuthSession) (w : W) → Fewer w (sign_in ports code s w).1
  unfolding sign_in
  sign_in-Shrinks code s w id t h =
      elim (Result-cases (ports.provider.exchange_code code s.code_verifier w).0) [
        | inl (e, failed) ↦
            laws.exchange-rows code s.code_verifier w id t (rw (failed, sign_in) at h)
        | inr (tokens, good) ↦ laws.exchange-rows code s.code_verifier w id t (
            laws.info-rows tokens.access_token
              (ports.provider.exchange_code code s.code_verifier w).1 id t
              (rw (good, sign_in) at h))
      ]

  callback-Shrinks :
      (session_id code state : Bytes) (w : W)
      → Fewer w (handle_callback ports session_id code state w).1
  unfolding handle_callback get delete
  callback-Shrinks session_id code state w id t h =
      let w1 = (ports.table.select session_id w).1 in
      let w2 = (ports.table.delete_by_id session_id w1).1 in
      elim (Result-cases (get ports.table session_id w).0) [
        | inl (e, missing) ↦ laws.select-rows session_id w id t (rw (missing, handle_callback) at h)
        | inr (s, found) ↦ laws.select-rows session_id w id t (
            laws.delete-rows session_id w1 id t
              (elim (Result-cases (checked ports s state (ports.now w2))) [
                | inl (e, refused) ↦ rw (found, handle_callback, refused) at h
                | inr (done, passed) ↦
                    sign_in-Shrinks code s w2 id t (rw (found, handle_callback, passed) at h)
              ]))
      ]

  -- what a login may add is the row of its session
  save-rows :
      (new : AuthSession) (w : W) (id : Bytes) (s : AuthSession)
      → laws.stored (save ports.table new w).1 id ≡ some s
      → (laws.stored w id ≡ some s)
        ⊎ ((id ≡ new.id) × (s.state ≡ new.state) × (s.code_verifier ≡ new.code_verifier))
  unfolding save
  save-rows new w id s h = laws.insert-rows new w id s h

  persist-rows :
      (new : AuthSession) (w : W) (id : Bytes) (s : AuthSession)
      → laws.stored (persist_and_redirect ports new w).1 id ≡ some s
      → (laws.stored w id ≡ some s)
        ⊎ ((id ≡ new.id) × (s.state ≡ new.state) × (s.code_verifier ≡ new.code_verifier))
  unfolding persist_and_redirect
  persist-rows new w id s h = elim (Result-cases (save ports.table new w).0) [
    | inl (e, failed) ↦ save-rows new w id s (rw (failed, persist_and_redirect) at h)
    | inr (done, saved) ↦
        save-rows new w id s
          (laws.url-rows _ (save ports.table new w).1 id s (rw (saved, persist_and_redirect) at h))
  ]

  initiate-rows :
      (redirect_uri : Bytes) (w : W) (id : Bytes) (s : AuthSession)
      → laws.stored (initiate_auth ports redirect_uri w).1 id ≡ some s
      → (laws.stored w id ≡ some s) ⊎ Began ports id s.state s.code_verifier w
  unfolding initiate_auth new_session
  initiate-rows redirect_uri w id s h =
      let w1 = (ports.random 32 w).1 in
      let w2 = (ports.random 32 w1).1 in
      let w3 = (ports.random 16 w2).1 in
      elim (Result-cases (generate_state (ports.random 32 w).0)) [
        | inl (e, failed) ↦ inl (laws.random-rows 32 w id s (rw (failed, initiate_auth) at h))
        | inr (state, is_state) ↦ elim (Result-cases (generate_verifier (ports.random 32 w1).0)) [
          | inl (e, failed) ↦ inl (
              laws.random-rows 32 w id s
                (laws.random-rows 32 w1 id s (rw (is_state, initiate_auth, failed) at h)))
          | inr (verifier, is_verifier) ↦
              elim (persist-rows _ w3 id s (rw (is_state, initiate_auth, is_verifier) at h)) [
                | inl old ↦ inl (
                    laws.random-rows 32 w id s
                      (laws.random-rows 32 w1 id s (laws.random-rows 16 w2 id s old)))
                | inr (is_id, same_state, same_verifier) ↦ inr record {
                  is_state = is_state ∙ ap ok (sym same_state);
                  is_verifier = is_verifier ∙ ap ok (sym same_verifier);
                  is_id = is_id;
                }
              ]
        ]
      ]

  -- Each row stems from a login of the run.
  Stems : List W → W → Type 0
  Stems begun w =
      (id : Bytes) (s : AuthSession)
      → laws.stored w id ≡ some s
      → Any (Began ports id s.state s.code_verifier) begun

  Runs-Stems :
      (w0 : W) (begun : List W) (w : W)
      → ((id : Bytes) → laws.stored w0 id ≡ none)
      → Runs ports w0 begun w
      → Stems begun w
  unfolding Stems
  Runs-Stems w0 begun w empty (starts none_begun same) id s h = absurd (cc (empty id, rw same at h))
  Runs-Stems w0 begun w empty (logs_in redirect_uri before v run more same) id s h =
      elim (initiate-rows redirect_uri v id s (rw same at h)) [
        | inl old ↦ rw more (there (Runs-Stems w0 before v empty run id s old))
        | inr new ↦ rw more (here new)
      ]
  Runs-Stems w0 begun w empty (calls_back session_id code state v run same) id s h =
      Runs-Stems w0 begun v empty run id s
        (callback-Shrinks session_id code state v id s (rw same at h))
  Runs-Stems w0 begun w empty (refreshes token v run same) id s h =
      Runs-Stems w0 begun v empty run id s
        (laws.refresh-rows token v id s (unfold refresh in rw same at h))
  Runs-Stems w0 begun w empty (revokes token v run same) id s h =
      Runs-Stems w0 begun v empty run id s
        (laws.revoke-rows token v id s (unfold revoke in rw same at h))
  Runs-Stems w0 begun w empty (sweeps v run same) id s h =
      Runs-Stems w0 begun v empty run id s
        (laws.sweep-rows (ports.now v) v id s (unfold delete_expired in rw same at h))

  got-row :
      (id : Bytes) (w : W) (s : AuthSession)
      → (get ports.table id w).0 ≡ ok s
      → laws.stored w id ≡ some s
  unfolding get
  got-row id w s h = laws.select-row id w s (got_row id (ports.table.select id w).0 s h)

  -- In a run from an empty table, a callback that signs a user in brings an identifier and a state that
  -- one login of the run generated together, and exchanges its code with the verifier that the same
  -- login generated.
  pub callback_begun :
      (w0 : W) (begun : List W) (w : W) (id code state : Bytes) (user : UserIdentity)
      (tokens : TokenPair)
      → ((id' : Bytes) → laws.stored w0 id' ≡ none)
      → Runs ports w0 begun w
      → (handle_callback ports id code state w).0 ≡ ok (user, tokens)
      → (verifier : Bytes) × Any (Began ports id state verifier) begun
        × ((ports.provider.exchange_code code verifier
              (delete ports.table id (get ports.table id w).1).1).0
            ≡ ok tokens)
  unfolding Stems
  callback_begun w0 begun w id code state user tokens empty run signed =
      let m = (callback_iff ports id code state w user tokens).0 signed in
      let stems = Runs-Stems w0 begun w empty run id m.session (got-row id w m.session m.stored) in
      (m.session.code_verifier, rw m.same_state at stems, m.exchanged)
