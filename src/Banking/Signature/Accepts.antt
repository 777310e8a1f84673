-- ===== src/Banking/Signature/Accepts.antt =====
-- When a signature is accepted.
use go_api_management.Encoding.Base64.{decode_padded, std}
use native.Mathlib.Nat.{pow-succ'}
use go_api_management.Encoding.Hex
use go_api_management.Base.{
  not_empty, is_empty-ne, not-eq-false, true, ◌≡◌, ◌≢◌, ◌↔◌, ◌∙◌, ap, [], Bytes, is_empty, Option,
  some, none, str_eq_iff, str_eq_refl, arith, refl, ◌∷◌, false, inl, inr, ◌++◌, ◌||◌, ℕ, length,
  pos, ◌*◌, length-append, ℤ, take, ◌^◌, Bool-cases, ◌+◌, take-length-append, Option-cases, drop,
  ◌==◌, ==_iff, drop-length-append, sym, take-append-drop, length-take, length-drop, or-true, ◌⊎◌,
}
use go_api_management.Errors.{Err, ok, refuse, wrapping}
use go_api_management.Errors.Laws.{>>=-eq-ok, refuse-eq-ok, wrapping-eq-ok, ok-injective}
use go_api_management.Banking.{TransferPayload}
use go_api_management.Banking.Signature.{
  PublicKey, ecdsa, other_key, KeyLibrary, canonical_transfer_bytes, decode_signature, from_option,
  p256, ecdsa_p256, verified, verify_enclave_signature, set_bytes, big_endian, fallback,
}

-- The number that the bytes are the digits of, to the base 256, the highest first.
pub number_of_bytes : Bytes → ℕ
number_of_bytes [] = 0
number_of_bytes (c ∷ s) = c * 256 ^ length s + number_of_bytes s

-- How a signature verifies: as two numbers of 32 bytes each, or in DER, read strictly, or as a pair of
-- numbers that the ASN.1 library reads.
pub data Verifies (lib : KeyLibrary) (key : lib.Key) (hash sig : Bytes) : Type 0 where
  raw :
      (r s : Bytes)
      → sig ≡ r ++ s
      → length r ≡ 32
      → length s ≡ 32
      → lib.verify key hash (pos (number_of_bytes r)) (pos (number_of_bytes s)) ≡ true
      → Verifies lib key hash sig
  strict : length sig ≢ 64 → lib.verify_asn1 key hash sig ≡ true → Verifies lib key hash sig
  lenient :
      (r s : ℤ)
      → length sig ≢ 64
      → lib.asn1_pair sig ≡ some (r, s)
      → lib.verify key hash r s ≡ true
      → Verifies lib key hash sig

-- The text of a signature is in hexadecimal, or is not and is in Base64 with padding.
abbrev pub IsTextOf : Bytes → Bytes → Type 0
IsTextOf text sig =
    (Hex.decode text ≡ some sig) ⊎ ((Hex.decode text ≡ none) × (decode_padded std text ≡ some sig))

-- The key is an ECDSA key on P-256, and verifies the decoded signature over the SHA-256 sum of the
-- signed bytes.
pub record Accepts (lib : KeyLibrary) (pem : Bytes) (p : TransferPayload) : Type 0 where
  pub pem_given : pem ≢ []
  pub signature_given : p.signature ≢ []
  pub block : Bytes
  pub is_block : lib.pem_decode pem ≡ some block
  pub key : lib.Key
  pub is_key : lib.parse_pkix block ≡ ok (ecdsa p256 key)
  pub sig : Bytes
  pub is_sig : IsTextOf p.signature sig
  pub verifies : Verifies lib key (lib.sha256 (canonical_transfer_bytes p)) sig

from_option-eq-ok {ℓ} :
    {A : Type ℓ} (e : Err) (o : Option A) {a : A} → from_option e o ≡ ok a → o ≡ some a
from_option-eq-ok e none h = cc
from_option-eq-ok e (some a) h = cc

shift : (n c p v : ℕ) → (n * 256 + c) * p + v ≡ n * (256 * p) + (c * p + v)
shift n c p v = grind arith

big_endian_lem : (s : Bytes) (n : ℕ) → big_endian n s ≡ n * 256 ^ length s + number_of_bytes s
unfolding big_endian number_of_bytes
big_endian_lem [] n = omega arith
big_endian_lem (c ∷ s) n =
    let higher : 256 ^ length (c ∷ s) ≡ 256 * 256 ^ length s = pow-succ' 256 (length s) in
    big_endian_lem s (n * 256 + c)
    ∙ shift n c (256 ^ length s) (number_of_bytes s)
    ∙ ap (λ p. n * p + (c * 256 ^ length s + number_of_bytes s)) (sym higher)

set_bytes_lem : (s : Bytes) → set_bytes s ≡ pos (number_of_bytes s)
set_bytes_lem s = ap pos (big_endian_lem s 0 ∙ omega arith)

==-ne : {a b : ℕ} → a ≢ b → (a == b) ≡ false
==-ne h = ground arith

decode_sound : (text sig : Bytes) → decode_signature text ≡ ok sig → IsTextOf text sig
unfolding decode_signature
decode_sound text sig h = elim (Option-cases (Hex.decode text)) [
  | inl e ↦ inr (e, from_option-eq-ok _ _ (rw (e, decode_signature) at h))
  | inr (b, e) ↦
      let same : ok b ≡ ok sig = rw (e, decode_signature) at h in
      inl (e ∙ ap some (ok-injective same))
]

decode_complete : (text sig : Bytes) → IsTextOf text sig → decode_signature text ≡ ok sig
unfolding decode_signature
decode_complete text sig (inl e) = rw (e, decode_signature) refl
decode_complete text sig (inr (no_hex, e)) = rw (no_hex, decode_signature, e) refl

module _ (lib : KeyLibrary) where
  verified_sound :
      (key : lib.Key) (hash sig : Bytes)
      → verified lib key hash sig ≡ true
      → Verifies lib key hash sig
  unfolding verified
  verified_sound key hash sig h = elim (Bool-cases (length sig == 64)) [
    | inl e ↦
        let long : length sig ≡ 64 = (==_iff _ _).0 e in
        raw (take 32 sig) (drop 32 sig) (sym (take-append-drop 32 sig))
          (length-take 32 sig ∙ omega (arith, long)) (length-drop 32 sig ∙ omega (arith, long))
          (rw (← set_bytes_lem (take 32 sig), ← set_bytes_lem (drop 32 sig)) (rw e at h))
    | inr e ↦ not_raw (λ long. cc ((==_iff (length sig) 64).1 long, e)) (rw e at h)
  ]
    where
      not_raw :
          length sig ≢ 64
          → (lib.verify_asn1 key hash sig || fallback lib key hash (lib.asn1_pair sig)) ≡ true
          → Verifies lib key hash sig
      not_raw other h' = elim (Bool-cases (lib.verify_asn1 key hash sig)) [
        | inl e ↦ strict other e
        | inr e ↦ elim (Option-cases (lib.asn1_pair sig)) [
          | inl no_pair ↦ absurd (unfold fallback in cc (rw (e, no_pair) at h'))
          | inr ((r, s), pair) ↦ lenient r s other pair (unfold fallback in rw (e, pair) at h')
        ]
      ]

  verified_complete :
      (key : lib.Key) (hash sig : Bytes)
      → Verifies lib key hash sig
      → verified lib key hash sig ≡ true
  unfolding verified
  verified_complete key hash sig (raw r s is r_long s_long good) =
      let long : length sig ≡ 64 =
        ap length is ∙ length-append r s ∙ omega (arith, r_long, s_long) in
      let front : take 32 sig ≡ r = rw (is, ← r_long) (take-length-append r s) in
      let back : drop 32 sig ≡ s = rw (is, ← r_long) (drop-length-append r s) in
      rw ((==_iff (length sig) 64).1 long, front, back, set_bytes_lem r, set_bytes_lem s) good
  verified_complete key hash sig (strict other good) = rw (==-ne other, good) refl
  verified_complete key hash sig (lenient r s other pair good) =
      rw (==-ne other, pair) (unfold fallback in rw good (or-true _))

  ecdsa_p256-eq-ok :
      (k : PublicKey lib.Key) {key : lib.Key} → ecdsa_p256 lib k ≡ ok key → k ≡ ecdsa p256 key
  unfolding ecdsa_p256
  ecdsa_p256-eq-ok other_key h = cc
  ecdsa_p256-eq-ok (ecdsa curve k) h = ground (arith, str_eq_iff curve p256)

  ecdsa_p256_lem : (key : lib.Key) → ecdsa_p256 lib (ecdsa p256 key) ≡ ok key
  unfolding ecdsa_p256
  ecdsa_p256_lem key = rw str_eq_refl

  verify_sound :
      (pem : Bytes) (p : TransferPayload)
      → verify_enclave_signature lib pem (some p) ≡ ok tt
      → Accepts lib pem p
  unfolding verify_enclave_signature
  verify_sound pem p h =
      let (_, given, h1) = >>=-eq-ok (refuse (is_empty pem) _) _ h in
      let (_, signed, h2) = >>=-eq-ok (refuse (is_empty p.signature) _) _ h1 in
      let (block, is_block, h3) = >>=-eq-ok (from_option _ (lib.pem_decode pem)) _ h2 in
      let (k, parsed, h4) = >>=-eq-ok (wrapping _ (lib.parse_pkix block)) _ h3 in
      let (key, on_curve, h5) = >>=-eq-ok (ecdsa_p256 lib k) _ h4 in
      let (sig, is_sig, h6) = >>=-eq-ok (decode_signature p.signature) _ h5 in
      record {
        pem_given = not_empty pem (refuse-eq-ok _ _ given);
        signature_given = not_empty p.signature (refuse-eq-ok _ _ signed);
        block = block;
        is_block = from_option-eq-ok _ _ is_block;
        key = key;
        is_key = wrapping-eq-ok _ _ parsed ∙ ap ok (ecdsa_p256-eq-ok k on_curve);
        sig = sig;
        is_sig = decode_sound p.signature sig is_sig;
        verifies = verified_sound key _ sig (not-eq-false _ (refuse-eq-ok _ _ h6));
      }

  verify_complete :
      (pem : Bytes) (p : TransferPayload)
      → Accepts lib pem p
      → verify_enclave_signature lib pem (some p) ≡ ok tt
  unfolding verify_enclave_signature
  verify_complete pem p a = rw (
    is_empty-ne pem a.pem_given,
    is_empty-ne p.signature a.signature_given,
    a.is_block,
    a.is_key,
    ecdsa_p256_lem,
    decode_complete p.signature a.sig a.is_sig,
    verified_complete a.key _ a.sig a.verifies,
  )

  -- For a payload that is not nil, the check passes exactly if the key material and the signature are
  -- there and well formed, the key is ECDSA on P-256, and the signature verifies under it: of 64 bytes,
  -- as the two numbers of its halves, and else in DER or as the pair of numbers it is read as.
  pub verify_iff :
      (pem : Bytes) (p : TransferPayload)
      → (verify_enclave_signature lib pem (some p) ≡ ok tt) ↔ Accepts lib pem p
  verify_iff pem p = (verify_sound pem p, verify_complete pem p)
