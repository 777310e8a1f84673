-- ===== src/Auth/Pkce/Shape.antt =====
-- The length of the values that leave pkce.go.
use go_api_management.Base.{
  ℕ, Bool, true, leb, ◌==◌, ◌&&◌, ◌||◌, All, ◌∙◌, ◌+◌, ◌*◌, ◌/◌, ◌≡◌, refl, [], ◌∷◌, Bytes, length,
  arith, some, none,
}
use go_api_management.Errors.{ok}
use go_api_management.Auth.Pkce.{Filled, generate_verifier}
use go_api_management.Encoding.Base64.{url, letter, encode_raw, decode_raw}
use go_api_management.Encoding.Base64.RoundTrip.{IsBytes, encode_raw-All, decode_raw-encode_raw}

length-encode_raw : (s : Bytes) → length (encode_raw url s) ≡ (4 * length s + 2) / 3
unfolding encode_raw
length-encode_raw [] = refl
length-encode_raw (x ∷ []) = refl
length-encode_raw (x ∷ y ∷ []) = refl
length-encode_raw (x ∷ y ∷ z ∷ s) = omega (arith, length-encode_raw s)

-- the letters that RFC 7636 allows in a verifier, without `.` and `~`
pub is_unreserved : ℕ → Bool
is_unreserved c =
    (leb b'A' c && leb c b'Z')
    || (leb b'a' c && leb c b'z')
    || (leb b'0' c && leb c b'9')
    || (c == b'-')
    || (c == b'_')

abbrev pub IsUnreserved : ℕ → Type 0
IsUnreserved c = is_unreserved c ≡ true

letter-IsUnreserved : (n : ℕ) → IsUnreserved (letter url n)
unfolding letter is_unreserved
letter-IsUnreserved n = ground arith

-- From 32 random bytes come 43 letters, which RFC 7636 allows in a verifier, and from which the bytes
-- can be read back, so that different bytes give different verifiers.
pub verifier_conforms :
    (r : Filled)
    → r.failure ≡ none
    → length r.buffer ≡ 32
    → IsBytes r.buffer
    → (v : Bytes) × (generate_verifier r ≡ ok v)
      × (length v ≡ 43)
      × All IsUnreserved v
      × (decode_raw url v ≡ some r.buffer)
unfolding generate_verifier
verifier_conforms r works full bytes = (
  encode_raw url r.buffer,
  rw works refl,
  length-encode_raw r.buffer ∙ rw full refl,
  encode_raw-All IsUnreserved letter-IsUnreserved r.buffer,
  decode_raw-encode_raw r.buffer bytes,
)
