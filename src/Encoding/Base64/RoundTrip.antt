-- ===== src/Encoding/Base64/RoundTrip.antt =====
-- A text that was encoded is read back, and holds none of the bytes that part a token.
use go_api_management.Base.{
  ℕ, ◌+◌, ◌*◌, ◌/◌, ◌%◌, ◌<◌, ◌≡◌, ◌≢◌, refl, some, [], ◌∷◌, arith, Bytes, All, Lacks,
}
use go_api_management.Encoding.Base64.{
  url, letter, value_of, encode_raw, strip, decode_groups, decode_raw,
}

abbrev pub IsBytes : Bytes → Type 0
IsBytes = All (λ c. c < 256)

value_of-letter : (n : ℕ) → n < 64 → value_of url (letter url n) ≡ some n
unfolding value_of letter
value_of-letter n h = ground arith

-- A letter of the URL alphabet is no dot and no line end.
abbrev IsPlain : ℕ → Type 0
IsPlain c = (c ≢ b'.') × (c ≢ 10) × (c ≢ 13)

letter-IsPlain : (n : ℕ) → IsPlain (letter url n)
unfolding letter
letter-IsPlain n = ground arith

pub encode_raw-All :
    (P : ℕ → Type 0) → ((n : ℕ) → P (letter url n)) → (s : Bytes) → All P (encode_raw url s)
unfolding encode_raw
encode_raw-All P h [] = tt
encode_raw-All P h (x ∷ []) = (h (x / 4), (h (x % 4 * 16), tt))
encode_raw-All P h (x ∷ y ∷ []) = (h (x / 4), (h (x % 4 * 16 + y / 16), (h (y % 16 * 4), tt)))
encode_raw-All P h (x ∷ y ∷ z ∷ s) = (
  h (x / 4),
  (h (x % 4 * 16 + y / 16), (h (y % 16 * 4 + z / 64), (h (z % 64), encode_raw-All P h s))),
)

pub encode_raw-Lacks_dot : (s : Bytes) → Lacks b'.' (encode_raw url s)
encode_raw-Lacks_dot = encode_raw-All _ (λ n. (letter-IsPlain n).0)

strip_plain : (s : Bytes) → All IsPlain s → strip s ≡ s
unfolding strip
strip_plain [] h = refl
strip_plain (c ∷ s) (hc, hs) = ground (arith, strip_plain s hs)

decode-encode_groups : (s : Bytes) → IsBytes s → decode_groups url (encode_raw url s) ≡ some s
unfolding decode_groups encode_raw
decode-encode_groups [] h = refl
decode-encode_groups (x ∷ []) h =
    ground (arith, value_of-letter (x / 4), value_of-letter (x % 4 * 16))
decode-encode_groups (x ∷ y ∷ []) h = ground (
  arith,
  value_of-letter (x / 4),
  value_of-letter (x % 4 * 16 + y / 16),
  value_of-letter (y % 16 * 4),
)
decode-encode_groups (x ∷ y ∷ z ∷ s) h = ground (
  arith,
  value_of-letter (x / 4),
  value_of-letter (x % 4 * 16 + y / 16),
  value_of-letter (y % 16 * 4 + z / 64),
  value_of-letter (z % 64),
  decode-encode_groups s,
)

pub decode_raw-encode_raw : (s : Bytes) → IsBytes s → decode_raw url (encode_raw url s) ≡ some s
unfolding decode_raw
decode_raw-encode_raw s h =
    rw (strip_plain (encode_raw url s) (encode_raw-All IsPlain letter-IsPlain s))
      (decode-encode_groups s h)
