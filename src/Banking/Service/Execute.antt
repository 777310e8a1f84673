-- ===== src/Banking/Service/Execute.antt =====
-- ExecuteIntranetTransfer: when a transfer is executed.
use go_api_management.Base.{
  or-true, true, false, not, ◌≡◌, ◌∙◌, ◌↔◌, refl, ap, List, [], ◌∷◌, Bytes, some, str_eq,
  str_eq_iff, str_eq_refl, Bool-cases, inl, inr, not-eq-false, Any, here, there,
}
use go_api_management.Errors.{Result, ok, err, refuse, wrapping}
use go_api_management.Errors.Laws.{
  >>=-eq-ok, refuse-eq-ok, wrapping-eq-ok, ok-injective, Result-cases,
}
use go_api_management.Banking.{SecureEnclaveKey, TransferPayload}
use go_api_management.Banking.Jwt.{InternalJwtClaims, verify_internal_jwt}
use go_api_management.Banking.Jwt.Verify.{IsAuthentic, verify_jwt_iff}
use go_api_management.Banking.Signature.{KeyLibrary, verify_enclave_signature}
use go_api_management.Banking.Signature.Accepts.{Accepts, verify_iff}
use go_api_management.Banking.Service.{
  execute_intranet_transfer, Ports, execute_scope, has_scope, is_ok, signature_valid, no_keys,
  authorize, check_signature,
}

has_scope_sound :
    (scopes : List Bytes) → has_scope scopes ≡ true → Any (λ s. s ≡ execute_scope) scopes
unfolding has_scope
has_scope_sound [] h = cc
has_scope_sound (s ∷ scopes) h = elim (Bool-cases (str_eq s execute_scope)) [
  | inl same ↦ here ((str_eq_iff s execute_scope).0 same)
  | inr other ↦ there (has_scope_sound scopes (rw other at h))
]

has_scope_complete :
    (scopes : List Bytes) → Any (λ s. s ≡ execute_scope) scopes → has_scope scopes ≡ true
unfolding has_scope
has_scope_complete [] x = elim x [ ]
has_scope_complete (s ∷ scopes) (here e) = rw (e, str_eq_refl)
has_scope_complete (s ∷ scopes) (there later) = rw (has_scope_complete scopes later) (or-true _)

module _ (lib : KeyLibrary) (payload : TransferPayload) where
  abbrev pub Signs : SecureEnclaveKey → Type 0
  Signs key = Accepts lib key.public_key_pem payload

  is_ok-eq : (r : Result (Unit {0})) → is_ok r ≡ true → r ≡ ok tt
  is_ok-eq (ok done) h = refl
  is_ok-eq (err e) h = cc

  signature_valid_sound :
      (keys : List SecureEnclaveKey) → signature_valid lib payload keys ≡ true → Any Signs keys
  unfolding signature_valid
  signature_valid_sound [] h = cc
  signature_valid_sound (key ∷ keys) h =
      elim (Bool-cases (is_ok (verify_enclave_signature lib key.public_key_pem (some payload)))) [
        | inl good ↦ here ((verify_iff lib key.public_key_pem payload).0 (is_ok-eq _ good))
        | inr bad ↦ there (signature_valid_sound keys (rw bad at h))
      ]

  signature_valid_complete :
      (keys : List SecureEnclaveKey) → Any Signs keys → signature_valid lib payload keys ≡ true
  unfolding signature_valid
  signature_valid_complete [] x = elim x [ ]
  signature_valid_complete (key ∷ keys) (here a) =
      rw ((verify_iff lib key.public_key_pem payload).1 a)
  signature_valid_complete (key ∷ keys) (there later) =
      rw (signature_valid_complete keys later) (or-true _)

module _ {W : Type 0} (ports : Ports W) (token : Bytes) (payload : TransferPayload) (w : W) where
  -- An authentic token in time with the execute scope, and a key of its subject that signs the payload.
  pub record MayExecute : Type 0 where
    pub claims : InternalJwtClaims
    pub authentic : IsAuthentic ports.tokens token ports.shared_secret (ports.now w) claims
    pub scoped : Any (λ s. s ≡ execute_scope) claims.scopes
    pub keys : List SecureEnclaveKey
    pub found : (ports.get_keys_by_user_id claims.subject w).0 ≡ ok keys
    pub signed : Any (Signs ports.keys payload) keys

  authorize_sound :
      (c : InternalJwtClaims)
      → authorize ports token (ports.now w) ≡ ok c
      → IsAuthentic ports.tokens token ports.shared_secret (ports.now w) c
        × Any (λ s. s ≡ execute_scope) c.scopes
  unfolding authorize
  authorize_sound c h =
      let (claims, valid, h1) =
        >>=-eq-ok
          (wrapping _ (verify_internal_jwt ports.tokens token ports.shared_secret (ports.now w))) _
          h in
      let (_, scoped, h2) = >>=-eq-ok (refuse (not (has_scope claims.scopes)) _) _ h1 in
      let same : claims ≡ c = ok-injective h2 in
      (
        (verify_jwt_iff ports.tokens token ports.shared_secret (ports.now w) c).0
            (wrapping-eq-ok _ _ valid ∙ ap ok same),
        has_scope_sound c.scopes (rw (← same) (not-eq-false _ (refuse-eq-ok _ _ scoped))),
      )

  check_sound :
      (found : Result (List SecureEnclaveKey))
      → check_signature ports payload found ≡ ok tt
      → (keys : List SecureEnclaveKey) × (found ≡ ok keys) × Any (Signs ports.keys payload) keys
  unfolding check_signature
  check_sound found h =
      let (keys, is_found, h1) = >>=-eq-ok (wrapping _ found) _ h in
      let (_, some_key, h2) = >>=-eq-ok (refuse (no_keys keys) _) _ h1 in
      (
        keys,
        wrapping-eq-ok _ _ is_found,
        signature_valid_sound ports.keys payload keys (not-eq-false _ (refuse-eq-ok _ _ h2)),
      )

  execute_sound : (execute_intranet_transfer ports token payload w).0 ≡ ok tt → MayExecute
  unfolding execute_intranet_transfer
  execute_sound h = elim (Result-cases (authorize ports token (ports.now w))) [
    | inl (e, refused) ↦ absurd (cc (refused, h))
    | inr (claims, allowed) ↦
        let (authentic, scoped) = authorize_sound claims allowed in
        let (keys, found, signed) =
          check_sound (ports.get_keys_by_user_id claims.subject w).0
            (rw (allowed, execute_intranet_transfer) at h) in
        record {
          claims = claims;
          authentic = authentic;
          scoped = scoped;
          keys = keys;
          found = found;
          signed = signed;
        }
  ]

  authorize_complete :
      (c : InternalJwtClaims)
      → IsAuthentic ports.tokens token ports.shared_secret (ports.now w) c
      → Any (λ s. s ≡ execute_scope) c.scopes
      → authorize ports token (ports.now w) ≡ ok c
  unfolding authorize
  authorize_complete c a s = rw (
    (verify_jwt_iff ports.tokens token ports.shared_secret (ports.now w) c).1 a,
    has_scope_complete c.scopes s,
  )

  no_keys-Any :
      (keys : List SecureEnclaveKey) → Any (Signs ports.keys payload) keys → no_keys keys ≡ false
  no_keys-Any [] x = elim x [ ]
  no_keys-Any (k ∷ keys) x = refl

  pub check_complete :
      (keys : List SecureEnclaveKey)
      → Any (Signs ports.keys payload) keys
      → check_signature ports payload (ok keys) ≡ ok tt
  unfolding check_signature
  check_complete keys x =
      rw (no_keys-Any keys x, signature_valid_complete ports.keys payload keys x)

  execute_complete : MayExecute → (execute_intranet_transfer ports token payload w).0 ≡ ok tt
  unfolding execute_intranet_transfer
  execute_complete m =
      rw (authorize_complete m.claims m.authentic m.scoped, execute_intranet_transfer, m.found)
        (check_complete m.keys m.signed)

  -- A transfer is executed exactly if the token is authentic under the shared secret, in time and has
  -- the execute scope, and one of the keys found for its subject signs the payload.
  pub execute_iff : ((execute_intranet_transfer ports token payload w).0 ≡ ok tt) ↔ MayExecute
  execute_iff = (execute_sound, execute_complete)
