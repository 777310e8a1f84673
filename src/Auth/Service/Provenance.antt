-- ===== src/Auth/Service/Provenance.antt =====
-- Where the session of a callback comes from, over runs of the service: logins, callbacks, refreshes,
-- revocations and sweeps of the table, one behind the other.
pub mod Begun
use go_api_management.Auth.Service.Callback.{callback_iff}
use go_api_management.Auth.Service.SingleUse.{got_row}
use go_api_management.Errors.Laws.{Result-cases}
use go_api_management.Errors.{ok}
use go_api_management.Auth.Sessions.{row, delete_expired, get, save, delete}
use go_api_management.Auth.Pkce.{generate_uuid_v4, generate_state, generate_verifier}
use go_api_management.Auth.Service.{
  AuthPorts, initiate_auth, handle_callback, refresh, revoke, new_session, sign_in,
  persist_and_redirect, checked,
}
use go_api_management.Base.{
  Any, here, there, ℕ, [], ◌∷◌, some, ◌≡◌, Bytes, Option, List, ◌⊎◌, none, inl, inr, ◌∙◌, ap, sym,
  refl, true, false, ◌≢◌, ◌++◌, arith, ◌||◌, ◌&&◌, zero, suc,
}
use go_api_management.Auth.{AuthSession, UserIdentity, TokenPair}

-- The rows in the second table were in the first.
abbrev pub Shrinks : {W : Type 0} → (W → Bytes → Option AuthSession) → W → W → Type 0
Shrinks stored w w' = (id : Bytes) (s : AuthSession) → stored w' id ≡ some s → stored w id ≡ some s

-- The rows of the table by their identifier. A query that finds a row gives the one there is; an
-- insertion, failed or not, adds at most its row, of which the database may round the times; and no
-- other call adds any.
pub record RowLaws {W : Type 0} (ports : AuthPorts W) : Type 0 where
  pub stored : W → Bytes → Option AuthSession
  pub select-row :
      (id : Bytes) (w : W) (s : AuthSession)
      → (ports.table.select id w).0 ≡ row s
      → stored w id ≡ some s
  pub insert-rows :
      (new : AuthSession) (w : W) (id : Bytes) (s : AuthSession)
      → stored (ports.table.insert new w).1 id ≡ some s
      → (stored w id ≡ some s)
        ⊎ ((id ≡ new.id) × (s.state ≡ new.state) × (s.code_verifier ≡ new.code_verifier))
  pub select-rows : (id : Bytes) (w : W) → Shrinks stored w (ports.table.select id w).1
  pub delete-rows : (id : Bytes) (w : W) → Shrinks stored w (ports.table.delete_by_id id w).1
  pub sweep-rows : (time : ℕ) (w : W) → Shrinks stored w (ports.table.delete_before time w).1
  pub random-rows : (n : ℕ) (w : W) → Shrinks stored w (ports.random n w).1
  pub url-rows :
      (s : AuthSession) (w : W) → Shrinks stored w (ports.provider.get_authorization_url s w).1
  pub exchange-rows :
      (code verifier : Bytes) (w : W)
      → Shrinks stored w (ports.provider.exchange_code code verifier w).1
  pub refresh-rows :
      (token : Bytes) (w : W) → Shrinks stored w (ports.provider.refresh_token token w).1
  pub revoke-rows :
      (token : Bytes) (w : W) → Shrinks stored w (ports.provider.revoke_token token w).1
  pub info-rows :
      (token : Bytes) (w : W) → Shrinks stored w (ports.provider.get_user_info token w).1

module _ {W : Type 0} (ports : AuthPorts W) where
  -- The runs from the world `w0`, with the worlds in which a login began, the last one first.
  pub data Runs (w0 : W) : List W → W → Type 0 where
    starts : {begun : List W} {w : W} → begun ≡ [] → w ≡ w0 → Runs w0 begun w
    logs_in :
        {begun : List W} {w : W}
        → (redirect_uri : Bytes) (before : List W) (v : W) → Runs w0 before v
        → begun ≡ v ∷ before
        → w ≡ (initiate_auth ports redirect_uri v).1
        → Runs w0 begun w
    calls_back :
        {begun : List W} {w : W}
        → (id code state : Bytes) (v : W) → Runs w0 begun v
        → w ≡ (handle_callback ports id code state v).1
        → Runs w0 begun w
    refreshes :
        {begun : List W} {w : W}
        → (token : Bytes) (v : W) → Runs w0 begun v
        → w ≡ (refresh ports token v).1
        → Runs w0 begun w
    revokes :
        {begun : List W} {w : W}
        → (token : Bytes) (v : W) → Runs w0 begun v
        → w ≡ (revoke ports token v).1
        → Runs w0 begun w
    sweeps :
        {begun : List W} {w : W}
        → (v : W) → Runs w0 begun v
        → w ≡ (delete_expired ports.table (ports.now v) v).1
        → Runs w0 begun w

  -- The login that began in the world `v` generated the three values.
  pub record Began (id state verifier : Bytes) (v : W) : Type 0 where
    pub is_state : generate_state (ports.random 32 v).0 ≡ ok state
    pub is_verifier : generate_verifier (ports.random 32 (ports.random 32 v).1).0 ≡ ok verifier
    pub is_id : id ≡ generate_uuid_v4 (ports.random 16 (ports.random 32 (ports.random 32 v).1).1).0
