-- ===== src/Banking/KeyRepository/Registered.antt =====
-- RegisterDeviceKey over the repository: a registered key is found.
use go_api_management.Base.{◌≡◌, refl, List, ◌∷◌, Bytes, Any, here, inl, inr, [], ◌<◌, there, ◌+◌}
use go_api_management.Errors.{Result, ok}
use go_api_management.Errors.Laws.{wrapping-eq-ok, Result-cases}
use go_api_management.Banking.{SecureEnclaveKey}
use go_api_management.Banking.Service.{Ports, register_device_key}
use go_api_management.Banking.KeyRepository.{
  KeyTable, save_key, get_keys_by_user_id, with_repository,
}

-- The row that is kept of a key: the column of the time has microseconds.
pub record IsKeptAs (key kept : SecureEnclaveKey) : Type 0 where
  pub same_id : kept.id ≡ key.id
  pub same_user : kept.user_id ≡ key.user_id
  pub same_pem : kept.public_key_pem ≡ key.public_key_pem
  pub same_algorithm : kept.algorithm ≡ key.algorithm
  pub not_later : kept.registered_at < key.registered_at + 1000
  pub not_earlier : key.registered_at < kept.registered_at + 1000

-- An insertion that succeeds adds a row for the key, and a query that succeeds finds every row of
-- the user.
pub record KeyTableLaws {W : Type 0} (table : KeyTable W) : Type 0 where
  pub rows : W → List SecureEnclaveKey
  pub insert-rows :
      (key : SecureEnclaveKey) (w : W)
      → (table.insert_row key w).0 ≡ ok tt
      → (kept : SecureEnclaveKey) × IsKeptAs key kept
        × (rows (table.insert_row key w).1 ≡ kept ∷ rows w)
  pub select-rows :
      (key : SecureEnclaveKey) (w : W) (keys : List SecureEnclaveKey)
      → Any (λ k. k ≡ key) (rows w)
      → (table.select_of_user key.user_id w).0 ≡ ok keys
      → Any (λ k. k ≡ key) keys

Any-kept :
    {P : SecureEnclaveKey → Type 0} {kept : SecureEnclaveKey} (keys : List SecureEnclaveKey)
    → P kept
    → Any (λ k. k ≡ kept) keys
    → Any P keys
Any-kept [] p x = elim x [ ]
Any-kept (k ∷ keys) p (here e) = here (rw e p)
Any-kept (k ∷ keys) p (there later) = there (Any-kept keys p later)

module _ {W : Type 0} (table : KeyTable W) (laws : KeyTableLaws table) (ports : Ports W)
    (user_id : Bytes) (key : SecureEnclaveKey) (platform attestation_token : Bytes) (w : W) where
  abbrev pub registered : SecureEnclaveKey
  registered = record key { user_id = user_id; registered_at = ports.now w }

  abbrev pub registration : Result (Unit {0}) × W
  registration =
      register_device_key (with_repository table ports) user_id key platform attestation_token w

  register_sound :
      registration.0 ≡ ok tt
      → (ports.verify_attestation platform attestation_token ≡ ok tt)
        × (kept : SecureEnclaveKey) × IsKeptAs registered kept
        × (laws.rows registration.1 ≡ kept ∷ laws.rows w)
  unfolding register_device_key with_repository save_key
  register_sound h = elim (Result-cases (ports.verify_attestation platform attestation_token)) [
    | inl (e, rejected) ↦ absurd (cc (rejected, h))
    | inr (_, passed) ↦
        let inserted =
          laws.insert-rows registered w
            (wrapping-eq-ok _ _ (wrapping-eq-ok _ _ (rw (passed, register_device_key) at h))) in
        (passed, inserted.0, inserted.1, rw (passed, register_device_key) inserted.2)
  ]

  -- If a device key is registered without an error, then its attestation was accepted, and a query
  -- for the user's keys that succeeds right after finds a row with the key's identifier, key material
  -- and algorithm, bound to that user, and with the time of the registration to the microsecond.
  pub registered_found :
      registration.0 ≡ ok tt
      → (keys : List SecureEnclaveKey)
      → (get_keys_by_user_id table user_id registration.1).0 ≡ ok keys
      → (ports.verify_attestation platform attestation_token ≡ ok tt)
        × Any (IsKeptAs registered) keys
  unfolding get_keys_by_user_id
  registered_found h keys found =
      let (passed, kept, is_kept, stored) = register_sound h in
      let inserted : Any (λ k. k ≡ kept) (laws.rows registration.1) = rw stored (here refl) in
      (
        passed,
        Any-kept keys is_kept (
            laws.select-rows kept registration.1 keys inserted
              (rw is_kept.same_user (wrapping-eq-ok _ _ found))),
      )
