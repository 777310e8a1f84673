-- ===== src/Banking/KeyRepository/Origin.antt =====
-- Runs of the banking engine over the key repository: registrations, deletions and executions, and where
-- the key that signs a transfer comes from.
use go_api_management.Errors.{ok}
use go_api_management.Errors.Laws.{Result-cases, wrapping-eq-ok}
use go_api_management.Banking.{SecureEnclaveKey, TransferPayload}
use go_api_management.Banking.Service.{
  Ports, execute_intranet_transfer, register_device_key, authorize,
}
use go_api_management.Banking.Service.Execute.{Signs, execute_iff}
use go_api_management.Banking.Jwt.{InternalJwtClaims}
use go_api_management.Banking.Jwt.Verify.{IsAuthentic}
use go_api_management.Banking.KeyRepository.{
  KeyTable, with_repository, get_keys_by_user_id, delete_key, save_key,
}
use go_api_management.Banking.KeyRepository.Revoked.{both_of}
use go_api_management.Base.{List, Any, All, here, there, [], ◌∷◌, inl, inr, ◌≡◌, Bytes}

-- The row that the table keeps of a key, but for the time of its registration.
pub record IsRowOf (key kept : SecureEnclaveKey) : Type 0 where
  pub same_id : kept.id ≡ key.id
  pub same_user : kept.user_id ≡ key.user_id
  pub same_pem : kept.public_key_pem ≡ key.public_key_pem

-- Whether it fails or not, an insertion adds at most its row, and no other statement adds any; a query
-- for a user's keys finds rows of that user.
pub record RowLaws {W : Type 0} (table : KeyTable W) : Type 1 where
  pub rows : W → List SecureEnclaveKey
  pub insert-rows :
      (key : SecureEnclaveKey) (w : W) (P : SecureEnclaveKey → Type 0)
      → ((kept : SecureEnclaveKey) → IsRowOf key kept → P kept)
      → All P (rows w)
      → All P (rows (table.insert_row key w).1)
  pub delete-rows :
      (id : Bytes) (w : W) (P : SecureEnclaveKey → Type 0)
      → All P (rows w)
      → All P (rows (table.delete_row id w).1)
  pub select-rows :
      (user_id : Bytes) (w : W) (P : SecureEnclaveKey → Type 0)
      → All P (rows w)
      → All P (rows (table.select_of_user user_id w).1)
  pub select-All :
      (user_id : Bytes) (w : W) (keys : List SecureEnclaveKey) (P : SecureEnclaveKey → Type 0)
      → All P (rows w)
      → (table.select_of_user user_id w).0 ≡ ok keys
      → All (λ k. P k × (k.user_id ≡ user_id)) keys

-- What RegisterDeviceKey was called with.
pub record Registration : Type 0 where
  pub user_id : Bytes
  pub key : SecureEnclaveKey
  pub platform : Bytes
  pub attestation_token : Bytes

module _ {W : Type 0} (table : KeyTable W) (ports : Ports W) where
  abbrev pub engine : Ports W
  engine = with_repository table ports

  -- The runs from the world `w0`, with the registrations that were asked for, the last one first.
  pub data Runs (w0 : W) : List Registration → W → Type 0 where
    starts : {asked : List Registration} {w : W} → asked ≡ [] → w ≡ w0 → Runs w0 asked w
    registers :
        {asked : List Registration} {w : W}
        → (r : Registration) (before : List Registration) (v : W) → Runs w0 before v
        → asked ≡ r ∷ before
        → w ≡ (register_device_key engine r.user_id r.key r.platform r.attestation_token v).1
        → Runs w0 asked w
    executes :
        {asked : List Registration} {w : W}
        → (token : Bytes) (payload : TransferPayload) (v : W) → Runs w0 asked v
        → w ≡ (execute_intranet_transfer engine token payload v).1
        → Runs w0 asked w
    deletes :
        {asked : List Registration} {w : W}
        → (id : Bytes) (v : W) → Runs w0 asked v
        → w ≡ (delete_key table id v).1
        → Runs w0 asked w

  -- The key was registered so, for the user that it is bound to, and the attestation was accepted.
  pub record IsFrom (kept : SecureEnclaveKey) (r : Registration) : Type 0 where
    pub attested : ports.verify_attestation r.platform r.attestation_token ≡ ok tt
    pub bound : kept.user_id ≡ r.user_id
    pub is_id : kept.id ≡ r.key.id
    pub is_pem : kept.public_key_pem ≡ r.key.public_key_pem

All-imply : {A : Type 0} {P Q : A → Type 0} (l : List A) → ((a : A) → P a → Q a) → All P l → All Q l
All-imply [] f all = tt
All-imply (a ∷ l) f (p, all) = (f a p, All-imply l f all)

module _ {W : Type 0} (table : KeyTable W) (ports : Ports W) (laws : RowLaws table) where
  abbrev Known : List Registration → SecureEnclaveKey → Type 0
  Known asked k = Any (IsFrom table ports k) asked

  register-All :
      (r : Registration) (w : W) (P : SecureEnclaveKey → Type 0)
      → ((kept : SecureEnclaveKey) → IsFrom table ports kept r → P kept)
      → All P (laws.rows w)
      → All P (
          laws.rows
            (register_device_key
              (engine table ports)
              r.user_id
              r.key
              r.platform
              r.attestation_token
              w).1)
  unfolding register_device_key with_repository save_key
  register-All r w P new all =
      elim (Result-cases (ports.verify_attestation r.platform r.attestation_token)) [
        | inl (e, rejected) ↦ rw (rejected, register_device_key) all
        | inr (_, passed) ↦
            rw (passed, register_device_key)
              (laws.insert-rows (record r.key { user_id = r.user_id; registered_at = ports.now w })
                w P
                (λ kept same. new kept record {
                  attested = passed;
                  bound = same.same_user;
                  is_id = same.same_id;
                  is_pem = same.same_pem;
                })
                all)
      ]

  execute-All :
      (token : Bytes) (payload : TransferPayload) (w : W) (P : SecureEnclaveKey → Type 0)
      → All P (laws.rows w)
      → All P (laws.rows (execute_intranet_transfer (engine table ports) token payload w).1)
  unfolding execute_intranet_transfer with_repository get_keys_by_user_id
  execute-All token payload w P all =
      elim (Result-cases (authorize (engine table ports) token (ports.now w))) [
        | inl (e, refused) ↦ rw (refused, execute_intranet_transfer) all
        | inr (claims, allowed) ↦
            rw (allowed, execute_intranet_transfer) (laws.select-rows claims.subject w P all)
      ]

  Runs-All :
      (w0 : W) (asked : List Registration) (w : W)
      → laws.rows w0 ≡ []
      → Runs table ports w0 asked w
      → All (Known asked) (laws.rows w)
  unfolding delete_key
  Runs-All w0 asked w empty (starts none_asked same) = rw (same, empty) tt
  Runs-All w0 asked w empty (registers r before v run more same) =
      rw (more, same)
        (register-All r v (Known (r ∷ before)) (λ kept from. here from)
          (All-imply (laws.rows v) (λ k known. there known) (Runs-All w0 before v empty run)))
  Runs-All w0 asked w empty (executes token payload v run same) =
      rw same (execute-All token payload v (Known asked) (Runs-All w0 asked v empty run))
  Runs-All w0 asked w empty (deletes id v run same) =
      rw same (laws.delete-rows id v (Known asked) (Runs-All w0 asked v empty run))

  selected :
      (user_id : Bytes) (keys : List SecureEnclaveKey) (w : W)
      → ((engine table ports).get_keys_by_user_id user_id w).0 ≡ ok keys
      → (table.select_of_user user_id w).0 ≡ ok keys
  unfolding with_repository get_keys_by_user_id
  selected user_id keys w h = wrapping-eq-ok _ _ h

  -- In a run from an empty table, a transfer is executed only for the subject of an authentic token of the
  -- moment, and under the signature of a key that was registered in the run for that user, with an
  -- attestation that was accepted.
  pub executed_registered :
      (w0 : W) (asked : List Registration) (w : W) (token : Bytes) (payload : TransferPayload)
      → laws.rows w0 ≡ []
      → Runs table ports w0 asked w
      → (execute_intranet_transfer (engine table ports) token payload w).0 ≡ ok tt
      → (claims : InternalJwtClaims) × (key : SecureEnclaveKey) × IsAuthentic ports.tokens token
          ports.shared_secret
          (ports.now w)
          claims
        × Signs ports.keys payload key
        × (key.user_id ≡ claims.subject)
        × Any (IsFrom table ports key) asked
  unfolding with_repository
  executed_registered w0 asked w token payload empty run executed =
      let may = (execute_iff (engine table ports) token payload w).0 executed in
      let (key, signed, kept) = both_of may.keys may.signed (
        laws.select-All may.claims.subject w may.keys (Known asked) (Runs-All w0 asked w empty run)
          (selected may.claims.subject may.keys w may.found)) in
      (may.claims, key, may.authentic, signed, kept.1, kept.0)
