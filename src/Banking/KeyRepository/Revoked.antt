-- ===== src/Banking/KeyRepository/Revoked.antt =====
-- DeleteKey, and the transfers behind it.
use go_api_management.Banking.Service.Execute.{Signs, execute_iff}
use go_api_management.Errors.Laws.{Result-cases, wrapping-eq-ok}
use go_api_management.Errors.{ok}
use go_api_management.Banking.{SecureEnclaveKey, TransferPayload}
use go_api_management.Banking.Service.{Ports, execute_intranet_transfer}
use go_api_management.Banking.KeyRepository.{
  KeyTable, with_repository, get_keys_by_user_id, delete_key,
}
use go_api_management.Base.{
  Bytes, [], ◌∷◌, inl, inr, ◌≡◌, ◌≢◌, List, Any, Option, All, ℕ, here, there, refl,
}

-- A deletion that succeeds leaves no row with the identifier, and a query finds rows only.
pub record RevokeLaws {W : Type 0} (table : KeyTable W) : Type 1 where
  pub rows : W → List SecureEnclaveKey
  pub delete-rows :
      (id : Bytes) (w : W) (n : Option ℕ)
      → (table.delete_row id w).0 ≡ ok n
      → All (λ k. k.id ≢ id) (rows (table.delete_row id w).1)
  pub select-All :
      (user_id : Bytes) (w : W) (keys : List SecureEnclaveKey) (P : SecureEnclaveKey → Type 0)
      → All P (rows w)
      → (table.select_of_user user_id w).0 ≡ ok keys
      → All P keys

-- an element that has one property of some and one of all
pub both_of : {A : Type 0} {P Q : A → Type 0} (l : List A) → Any P l → All Q l → (a : A) × P a × Q a
both_of [] x all = elim x [ ]
both_of (a ∷ l) (here p) (q, all) = (a, p, q)
both_of (a ∷ l) (there later) (q, all) = both_of l later all

All-both : {A : Type 0} (P Q : A → Type 0) (l : List A) → All P l → All Q l → All (λ a. P a × Q a) l
All-both P Q [] p q = tt
All-both P Q (a ∷ l) (p, ps) (q, qs) = ((p, q), All-both P Q l ps qs)

All-there :
    {A : Type 0} (a : A) (l xs : List A)
    → All (λ x. Any (λ y. y ≡ x) l) xs
    → All (λ x. Any (λ y. y ≡ x) (a ∷ l)) xs
All-there a l [] h = tt
All-there a l (x ∷ xs) (h, hs) = (there h, All-there a l xs hs)

-- all elements are elements
All-self : {A : Type 0} (l : List A) → All (λ x. Any (λ y. y ≡ x) l) l
All-self [] = tt
All-self (a ∷ l) = (here refl, All-there a l l (All-self l))

module _ {W : Type 0} (table : KeyTable W) (laws : RevokeLaws table) (ports : Ports W) (id : Bytes)
    (w : W) where
  abbrev pub revoked : W
  revoked = (delete_key table id w).1

  gone : (delete_key table id w).0 ≡ ok tt → All (λ k. k.id ≢ id) (laws.rows revoked)
  unfolding delete_key
  gone h = elim (Result-cases (table.delete_row id w).0) [
    | inl (e, failed) ↦ absurd (cc (failed, h))
    | inr (n, good) ↦ laws.delete-rows id w n good
  ]

  stored : All (λ k. Any (λ row. row ≡ k) (laws.rows revoked)) (laws.rows revoked)
  stored = All-self (laws.rows revoked)

  selected :
      (user_id : Bytes) (keys : List SecureEnclaveKey)
      → (get_keys_by_user_id table user_id revoked).0 ≡ ok keys
      → (table.select_of_user user_id revoked).0 ≡ ok keys
  unfolding get_keys_by_user_id
  selected user_id keys h = wrapping-eq-ok _ _ h

  -- When DeleteKey returned without an error, then a transfer that is executed right after, for whatever
  -- token, is signed by a key that is one of the rows still there, and has another identifier.
  pub revoked_unused :
      (token : Bytes) (payload : TransferPayload)
      → (delete_key table id w).0 ≡ ok tt
      → (execute_intranet_transfer
          (with_repository table ports)
          token
          payload
          (delete_key table id w).1).0
        ≡ ok tt
      → (key : SecureEnclaveKey) × Signs ports.keys payload key
        × (key.id ≢ id)
        × Any (λ row. row ≡ key) (laws.rows revoked)
  unfolding with_repository
  revoked_unused token payload deleted executed =
      let may = (execute_iff (with_repository table ports) token payload revoked).0 executed in
      let found = selected may.claims.subject may.keys may.found in
      let others = laws.select-All may.claims.subject revoked may.keys _ (gone deleted) found in
      let rows = laws.select-All may.claims.subject revoked may.keys _ stored found in
      let (key, signs, (other, row)) =
        both_of may.keys may.signed (All-both _ _ may.keys others rows) in
      (key, signs, other, row)
