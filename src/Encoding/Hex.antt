-- ===== src/Encoding/Hex.antt =====
-- `encoding/hex`: DecodeString, and the digits that `%x` prints for bytes.
use go_api_management.Base.{
  sym, ap, ◌∙◌, ℕ, ◌+◌, ◌-◌, ◌*◌, ◌/◌, ◌%◌, ◌<◌, ◌≡◌, refl, ◌&&◌, Option, none, some, [], ◌∷◌,
  Bytes, ltb, leb, if◌then◌else◌, arith, All, length, ◌≤◌, ◌⊎◌,
}
use go_api_management.Encoding.Base64.{◌>>=◌}

pub digit : ℕ → ℕ
digit n = if ltb n 10 then b'0' + n else b'a' + (n - 10)

pub digit_value : ℕ → Option ℕ
digit_value c =
    if leb b'0' c && leb c b'9'
    then some (c - b'0')
    else if leb b'a' c && leb c b'f'
    then some (c - b'a' + 10)
    else if leb b'A' c && leb c b'F'
    then some (c - b'A' + 10)
    else none

-- `hex.EncodeToString`, and `%x`
unfoldable pub encode : Bytes → Bytes
unfolding digit
encode [] = []
encode (x ∷ s) = digit (x / 16) ∷ digit (x % 16) ∷ encode s

-- `hex.DecodeString`
unfoldable pub decode : Bytes → Option Bytes
unfolding digit_value
decode [] = some []
decode (p ∷ []) = none
decode (p ∷ q ∷ s) = do
  x ← digit_value p
  y ← digit_value q
  rest ← decode s
  some ((x * 16 + y) ∷ rest)

digit_value-digit : (n : ℕ) → n < 16 → digit_value (digit n) ≡ some n
unfolding digit_value digit
digit_value-digit n h = ground arith

pub decode-encode : (s : Bytes) → All (λ c. c < 256) s → decode (encode s) ≡ some s
unfolding decode encode
decode-encode [] h = refl
decode-encode (x ∷ s) (hx, hs) =
    ground (arith, digit_value-digit (x / 16), digit_value-digit (x % 16), decode-encode s hs)

-- The same digits stand for the same bytes.
pub encode-injective :
    (s t : Bytes) → All (λ c. c < 256) s → All (λ c. c < 256) t → encode s ≡ encode t → s ≡ t
encode-injective s t hs ht e =
    let same : some s ≡ some t = sym (decode-encode s hs) ∙ ap decode e ∙ decode-encode t ht in
    cc same

pub length-encode : (s : Bytes) → length (encode s) ≡ 2 * length s
unfolding encode
length-encode [] = refl
length-encode (x ∷ s) = omega (arith, length-encode s)

-- a lower-case digit
pub IsHexDigit : ℕ → Type 0
IsHexDigit c = ((b'0' ≤ c) × (c ≤ b'9')) ⊎ ((b'a' ≤ c) × (c ≤ b'f'))

pub digit-IsHexDigit : (n : ℕ) → n < 16 → IsHexDigit (digit n)
unfolding digit IsHexDigit
digit-IsHexDigit n h = ground arith

pub encode-IsHexDigit : (s : Bytes) → All (λ c. c < 256) s → All IsHexDigit (encode s)
unfolding encode
encode-IsHexDigit [] h = tt
encode-IsHexDigit (x ∷ s) (hx, hs) = (
  digit-IsHexDigit (x / 16) (omega arith),
  (digit-IsHexDigit (x % 16) (omega arith), encode-IsHexDigit s hs),
)

-- The digits of a byte of which the upper half is set to 4, and of one of which the upper two bits are
-- set to 10.
pub encode_version :
    (x : ℕ) (s : Bytes) → encode ((x % 16 + 64) ∷ s) ≡ b'4' ∷ digit (x % 16) ∷ encode s
unfolding encode digit
encode_version x s =
    let high : (x % 16 + 64) / 16 ≡ 4 = omega arith in
    let low : (x % 16 + 64) % 16 ≡ x % 16 = omega arith in rw (high, low) refl

pub encode_variant :
    (x : ℕ) (s : Bytes)
    → encode ((x % 64 + 128) ∷ s) ≡ digit (8 + x % 64 / 16) ∷ digit (x % 16) ∷ encode s
unfolding encode
encode_variant x s =
    let high : (x % 64 + 128) / 16 ≡ 8 + x % 64 / 16 = omega arith in
    let low : (x % 64 + 128) % 16 ≡ x % 16 = omega arith in rw (high, low) refl

pub variant_digit :
    (x : ℕ)
    → (digit (8 + x % 64 / 16) ≡ b'8')
      ⊎ (digit (8 + x % 64 / 16) ≡ b'9')
      ⊎ (digit (8 + x % 64 / 16) ≡ b'a')
      ⊎ (digit (8 + x % 64 / 16) ≡ b'b')
unfolding digit
variant_digit x = ground arith
