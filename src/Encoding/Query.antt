-- ===== src/Encoding/Query.antt =====
-- `net/url`: QueryEscape, and Encode of Values; with the reading of a query, for the theorems.
pub mod RoundTrip
use go_api_management.Strings.{join, split}
use go_api_management.Base.{
  Bytes, refl, [], ◌∷◌, some, none, true, false, inl, inr, ◌≡◌, ◌≢◌, ◌∙◌, ◌++◌, arith, ◌||◌, ◌&&◌,
  zero, suc, map, Bool, List, if◌then◌else◌, ℕ, ltb, str_eq, leb, ◌==◌, ◌/◌, ◌*◌, ◌+◌, ◌-◌, ◌%◌,
}

-- a byte that QueryEscape leaves as it is
is_kept : ℕ → Bool
is_kept c =
    (leb b'A' c && leb c b'Z')
    || (leb b'a' c && leb c b'z')
    || (leb b'0' c && leb c b'9')
    || (c == b'-')
    || (c == b'_')
    || (c == b'.')
    || (c == b'~')

upper_digit : ℕ → ℕ
upper_digit n = if ltb n 10 then b'0' + n else b'A' + (n - 10)

escape_byte : ℕ → Bytes
unfolding is_kept upper_digit
escape_byte c =
    if is_kept c
    then c ∷ []
    else if c == b' '
    then b'+' ∷ []
    else b'%' ∷ upper_digit (c / 16) ∷ upper_digit (c % 16) ∷ []

-- QueryEscape
pub query_escape : Bytes → Bytes
unfolding escape_byte
query_escape [] = []
query_escape (c ∷ s) = escape_byte c ++ query_escape s

-- `s < t` on strings
lt_bytes : Bytes → Bytes → Bool
lt_bytes [] [] = false
lt_bytes [] (d ∷ t) = true
lt_bytes (c ∷ s) [] = false
lt_bytes (c ∷ s) (d ∷ t) = ltb c d || ((c == d) && lt_bytes s t)

-- Values with one value for each key, in the order of the keys.
abbrev pub Values : Type 0
Values = List (Bytes × Bytes)

-- `q.Set(k, v)`
unfoldable pub set_value : Bytes → Bytes → Values → Values
unfolding lt_bytes
set_value k v [] = (k, v) ∷ []
set_value k v ((j, w) ∷ q) =
    let rest = set_value k v q in
    if str_eq k j then (k, v) ∷ q else if lt_bytes k j then (k, v) ∷ (j, w) ∷ q else (j, w) ∷ rest

pair_text : Bytes × Bytes → Bytes
pair_text (k, v) = query_escape k ++ b'=' ∷ query_escape v

-- Encode
pub encode_values : Values → Bytes
unfolding pair_text
encode_values q = join (b'&' ∷ []) (map pair_text q)

-- how a query is read back: parts at `&`, each with `=` between its two escaped texts
upper_value : ℕ → ℕ
upper_value c = if leb c b'9' then c - b'0' else c - b'A' + 10

pub query_unescape : Bytes → Bytes
unfolding upper_value
query_unescape [] = []
query_unescape (c ∷ []) = (if c == b'+' then b' ' else c) ∷ []
query_unescape (c ∷ a ∷ []) = (if c == b'+' then b' ' else c) ∷ query_unescape (a ∷ [])
query_unescape (c ∷ a ∷ b ∷ s) =
    let coded = (16 * upper_value a + upper_value b) ∷ query_unescape s in
    let plain = (if c == b'+' then b' ' else c) ∷ query_unescape (a ∷ b ∷ s) in
    if c == b'%' then coded else plain

read_pair : List Bytes → Bytes × Bytes
read_pair (k ∷ v ∷ []) = (query_unescape k, query_unescape v)
read_pair _ = ([], [])

pub parse_query : Bytes → Values
unfolding read_pair
parse_query s = map (λ p. read_pair (split b'=' p)) (split b'&' s)
