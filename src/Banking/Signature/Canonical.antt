-- ===== src/Banking/Signature/Canonical.antt =====
-- What the signed bytes tell of a transfer.
use go_api_management.Base.{
  ℕ, zero, suc, ◌≡◌, ◌∙◌, sym, refl, ap, List, [], ◌∷◌, ◌++◌, append_assoc, Bytes, Lacks, some,
}
use go_api_management.Strings.{split}
use go_api_management.Strings.Split.{split-append-Lacks, split_whole}
use go_api_management.Encoding.Decimal.{format_int, format_int-injective, format_int-Lacks_colon}
use go_api_management.Banking.{TransferPayload}
use go_api_management.Banking.Signature.{
  canonical_transfer_bytes, KeyLibrary, verify_enclave_signature,
}

-- No colon in the texts that are signed.
pub record IsColonFree (p : TransferPayload) : Type 0 where
  pub sender : Lacks b':' p.sender_account
  pub receiver : Lacks b':' p.receiver_account
  pub currency : Lacks b':' p.currency

abbrev signed_fields : TransferPayload → List Bytes
signed_fields p =
    p.sender_account
    ∷ p.receiver_account
    ∷ format_int p.amount_cents
    ∷ p.currency
    ∷ format_int p.timestamp.unix
    ∷ []

abbrev part : ℕ → List Bytes → Bytes
part i [] = []
part zero (s ∷ ss) = s
part (suc i) (s ∷ ss) = part i ss

split-canonical :
    (p : TransferPayload)
    → IsColonFree p
    → split b':' (canonical_transfer_bytes p) ≡ signed_fields p
unfolding canonical_transfer_bytes
split-canonical p h = rw (
  split-append-Lacks b':' _ _ h.sender,
  split-append-Lacks b':' _ _ h.receiver,
  split-append-Lacks b':' _ _ (format_int-Lacks_colon p.amount_cents),
  split-append-Lacks b':' _ _ h.currency,
  split_whole b':' _ (format_int-Lacks_colon p.timestamp.unix),
)

-- Two transfers whose texts hold no colon are signed alike only if sender, receiver, amount,
-- currency and the second of the timestamp are the same.
pub canonical_injective :
    (p q : TransferPayload)
    → IsColonFree p
    → IsColonFree q
    → canonical_transfer_bytes p ≡ canonical_transfer_bytes q
    → (p.sender_account ≡ q.sender_account)
      × (p.receiver_account ≡ q.receiver_account)
      × (p.amount_cents ≡ q.amount_cents)
      × (p.currency ≡ q.currency)
      × (p.timestamp.unix ≡ q.timestamp.unix)
canonical_injective p q hp hq e =
    let fs : signed_fields p ≡ signed_fields q =
      sym (split-canonical p hp) ∙ ap (split b':') e ∙ split-canonical q hq in
    (
      ap (part 0) fs,
      ap (part 1) fs,
      format_int-injective p.amount_cents q.amount_cents (ap (part 2) fs),
      ap (part 3) fs,
      format_int-injective p.timestamp.unix q.timestamp.unix (ap (part 4) fs),
    )

accounts_shift :
    (p : TransferPayload) (a b c other : Bytes)
    → canonical_transfer_bytes (record p { sender_account = a ++ b':' ∷ b; receiver_account = c })
      ≡ canonical_transfer_bytes
          (record p { id = other; sender_account = a; receiver_account = b ++ b':' ∷ c })
unfolding canonical_transfer_bytes
accounts_shift p a b c other = simp append_assoc

module _ (lib : KeyLibrary) (pem : Bytes) where
  -- The verdict rests on the signed bytes and the signature alone.
  verify-canonical :
      (p q : TransferPayload)
      → canonical_transfer_bytes p ≡ canonical_transfer_bytes q
      → p.signature ≡ q.signature
      → verify_enclave_signature lib pem (some p) ≡ verify_enclave_signature lib pem (some q)
  unfolding verify_enclave_signature
  verify-canonical p q e s = rw (e, s) refl

  -- A signature does not tell sender `a:b` and receiver `c` from sender `a` and receiver `b:c`, and
  -- does not cover the transaction's identifier.
  pub verify_ambiguous :
      (p : TransferPayload) (a b c other : Bytes)
      → verify_enclave_signature lib pem
          (some (record p { sender_account = a ++ b':' ∷ b; receiver_account = c }))
        ≡ verify_enclave_signature lib pem
            (some (record p { id = other; sender_account = a; receiver_account = b ++ b':' ∷ c }))
  verify_ambiguous p a b c other = verify-canonical _ _ (accounts_shift p a b c other) refl
