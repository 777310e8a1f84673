-- ===== src/Encoding/Base64.antt =====
-- `encoding/base64`: RawURLEncoding, URLEncoding and StdEncoding.
pub mod RoundTrip
use go_api_management.Base.{
  ℕ, ◌+◌, ◌-◌, ◌*◌, ◌/◌, ◌%◌, Bool, true, false, ◌&&◌, ◌||◌, Option, none, some, List, [], ◌∷◌,
  ◌++◌, Bytes, ltb, leb, ◌==◌, if◌then◌else◌,
}

infixl 5 ◌>>=◌
abbrev pub ◌>>=◌ {ℓ κ} : {A : Type ℓ} {B : Type κ} → Option A → (A → Option B) → Option B
none >>= f = none
some a >>= f = f a

-- the last two letters of an alphabet
pub record Alphabet : Type 0 where
  pub letter_62 : ℕ
  pub letter_63 : ℕ

abbrev pub url : Alphabet
url = record { letter_62 = b'-'; letter_63 = b'_' }

abbrev pub std : Alphabet
std = record { letter_62 = b'+'; letter_63 = b'/' }

unfoldable pub letter : Alphabet → ℕ → ℕ
letter a n =
    if ltb n 26
    then b'A' + n
    else if ltb n 52
    then b'a' + (n - 26)
    else if ltb n 62
    then b'0' + (n - 52)
    else if n == 62
    then a.letter_62
    else a.letter_63

pub value_of : Alphabet → ℕ → Option ℕ
value_of a c =
    if leb b'A' c && leb c b'Z'
    then some (c - b'A')
    else if leb b'a' c && leb c b'z'
    then some (c - b'a' + 26)
    else if leb b'0' c && leb c b'9'
    then some (c - b'0' + 52)
    else if c == a.letter_62
    then some 62
    else if c == a.letter_63
    then some 63
    else none

-- `EncodeToString` without padding
unfoldable pub encode_raw : Alphabet → Bytes → Bytes
unfolding letter
encode_raw a [] = []
encode_raw a (x ∷ []) = letter a (x / 4) ∷ letter a (x % 4 * 16) ∷ []
encode_raw a (x ∷ y ∷ []) =
    letter a (x / 4) ∷ letter a (x % 4 * 16 + y / 16) ∷ letter a (y % 16 * 4) ∷ []
encode_raw a (x ∷ y ∷ z ∷ s) =
    letter a (x / 4)
    ∷ letter a (x % 4 * 16 + y / 16)
    ∷ letter a (y % 16 * 4 + z / 64)
    ∷ letter a (z % 64)
    ∷ encode_raw a s

is_line_end : ℕ → Bool
is_line_end c = (c == 10) || (c == 13)

pub strip : Bytes → Bytes
unfolding is_line_end
strip [] = []
strip (c ∷ s) = let rest = strip s in if is_line_end c then rest else c ∷ rest

-- Groups of four letters; a last group of two or three stands for one or two bytes.
pub decode_groups : Alphabet → Bytes → Option Bytes
unfolding value_of
decode_groups a [] = some []
decode_groups a (p ∷ []) = none
decode_groups a (p ∷ q ∷ []) = do x ← value_of a p; y ← value_of a q; some ((x * 4 + y / 16) ∷ [])
decode_groups a (p ∷ q ∷ r ∷ []) = do
  x ← value_of a p
  y ← value_of a q
  z ← value_of a r
  some ((x * 4 + y / 16) ∷ (y % 16 * 16 + z / 4) ∷ [])
decode_groups a (p ∷ q ∷ r ∷ t ∷ s) = do
  x ← value_of a p
  y ← value_of a q
  z ← value_of a r
  w ← value_of a t
  rest ← decode_groups a s
  some ((x * 4 + y / 16) ∷ (y % 16 * 16 + z / 4) ∷ (z % 4 * 64 + w) ∷ rest)

-- `DecodeString` of an encoding without padding
unfoldable pub decode_raw : Alphabet → Bytes → Option Bytes
unfolding decode_groups strip
decode_raw a s = decode_groups a (strip s)

-- The last group of a padded text; padding stands nowhere else, since `=` is no letter.
decode_last : Alphabet → ℕ → ℕ → ℕ → ℕ → Option Bytes
unfolding decode_groups
decode_last a p q r t =
    if t == b'='
    then (if r == b'=' then decode_groups a (p ∷ q ∷ []) else decode_groups a (p ∷ q ∷ r ∷ []))
    else decode_groups a (p ∷ q ∷ r ∷ t ∷ [])

decode_padded_groups : Alphabet → Bytes → Option Bytes
unfolding decode_last
decode_padded_groups a [] = some []
decode_padded_groups a (p ∷ q ∷ r ∷ t ∷ []) = decode_last a p q r t
decode_padded_groups a (p ∷ q ∷ r ∷ t ∷ s) = do
  group ← decode_groups a (p ∷ q ∷ r ∷ t ∷ [])
  rest ← decode_padded_groups a s
  some (group ++ rest)
decode_padded_groups a _ = none

-- `DecodeString` of an encoding with padding
unfoldable pub decode_padded : Alphabet → Bytes → Option Bytes
unfolding decode_padded_groups strip
decode_padded a s = decode_padded_groups a (strip s)
