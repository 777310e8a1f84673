-- ===== src/Banking/KeyRepository.antt =====
-- internal/banking/repository/sql_key_repository.go. The database is a parameter: a type `W` of
-- worlds and the four statements that the repository executes on it.
pub mod Registered
pub mod Revoked
pub mod Origin
use go_api_management.Base.{
  ℕ, List, Option, none, some, Bytes, if◌then◌else◌, ◌==◌, refl, [], ◌∷◌, true, false, inl, inr,
  ◌≡◌, ◌≢◌, ◌∙◌, ◌++◌, arith, ◌||◌, ◌&&◌, zero, suc,
}
use go_api_management.Errors.{Err, message_of, wrap, Result, ok, err, wrapping}
use go_api_management.Banking.{SecureEnclaveKey}
use go_api_management.Banking.Service.{Action, Ports}

-- What `GetContext` gives: a row, `sql.ErrNoRows`, or another error.
pub data KeyQuery : Type 0 where
  key_row : SecureEnclaveKey → KeyQuery
  no_key : KeyQuery
  key_query_failed : Err → KeyQuery

-- The statements; a deletion gives the number of rows affected where the driver knows it.
pub record KeyTable (W : Type 0) : Type 0 where
  pub insert_row : SecureEnclaveKey → Action W (Result (Unit {0}))
  pub select_row : Bytes → Action W KeyQuery
  pub select_of_user : Bytes → Action W (Result (List SecureEnclaveKey))
  pub delete_row : Bytes → Action W (Result (Option ℕ))

abbrev key_of : Bytes → KeyQuery → Result SecureEnclaveKey
key_of id (key_row k) = ok k
key_of id no_key = err (message_of "enclave key not found" id)
key_of id (key_query_failed e) = err (wrap "failed to query enclave key" e)

abbrev key_deleted : Bytes → Result (Option ℕ) → Result (Unit {0})
key_deleted id (err e) = err (wrap "failed to delete enclave key" e)
key_deleted id (ok none) = ok tt
key_deleted id (ok (some n)) = if n == 0 then err (message_of "enclave key not found" id) else ok tt

-- The interface EnclaveKeyRepository of internal/banking/ports/banking_ports.go
pub record EnclaveKeyRepository (W : Type 0) : Type 0 where
  pub save : SecureEnclaveKey → Action W (Result (Unit {0}))
  pub get : Bytes → Action W (Result SecureEnclaveKey)
  pub get_by_user_id : Bytes → Action W (Result (List SecureEnclaveKey))
  pub delete : Bytes → Action W (Result (Unit {0}))

-- the banking service over a repository
abbrev over_repository : {W : Type 0} → EnclaveKeyRepository W → Ports W → Ports W
over_repository repository ports = record ports {
  save_key = repository.save;
  get_keys_by_user_id = repository.get_by_user_id;
}

module _ {W : Type 0} (table : KeyTable W) where
  -- SaveKey
  unfoldable pub save_key : SecureEnclaveKey → Action W (Result (Unit {0}))
  save_key key w =
      let (r, w') = table.insert_row key w in (wrapping "failed to insert enclave key" r, w')

  -- GetKey
  pub get_key : Bytes → Action W (Result SecureEnclaveKey)
  get_key id w = let (q, w') = table.select_row id w in (key_of id q, w')

  -- GetKeysByUserID
  unfoldable pub get_keys_by_user_id : Bytes → Action W (Result (List SecureEnclaveKey))
  get_keys_by_user_id user_id w =
      let (r, w') = table.select_of_user user_id w in
      (wrapping "failed to select enclave keys by user ID" r, w')

  -- DeleteKey
  unfoldable pub delete_key : Bytes → Action W (Result (Unit {0}))
  delete_key id w = let (r, w') = table.delete_row id w in (key_deleted id r, w')

  -- SQLEnclaveKeyRepository
  unfoldable pub sql_enclave_key_repository : EnclaveKeyRepository W
  sql_enclave_key_repository = record {
    save = save_key;
    get = get_key;
    get_by_user_id = get_keys_by_user_id;
    delete = delete_key;
  }

  -- The banking service over this repository.
  unfoldable pub with_repository : Ports W → Ports W
  unfolding sql_enclave_key_repository
  with_repository ports = over_repository sql_enclave_key_repository ports
