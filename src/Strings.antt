-- ===== src/Strings.antt =====
-- What the program uses of Go's package `strings`, over bytes: prefixes, splitting, joining, white
-- space and case. `unicode.ToLower` beyond ASCII is a parameter of `to_lower`.
pub mod Split
pub mod Prefix
pub mod Space
pub mod Contains
use mathlib.Core.Option
use mathlib.Core.List.{reverse}
use go_api_management.Base.{
  Option, none, some, ℕ, zero, suc, ◌+◌, ◌-◌, Bool, true, false, ◌&&◌, ◌||◌, List, [], ◌∷◌, ◌++◌,
  map, Bytes, leb, ltb, ◌==◌, if◌then◌else◌, length, drop,
}

-- `strings.HasPrefix(s, p)`
unfoldable pub has_prefix : Bytes → Bytes → Bool
has_prefix s [] = true
has_prefix [] (d ∷ p) = false
has_prefix (c ∷ s) (d ∷ p) = (c == d) && has_prefix s p

-- `strings.TrimPrefix(s, p)`
unfoldable pub trim_prefix : Bytes → Bytes → Bytes
unfolding has_prefix
trim_prefix s p = if has_prefix s p then drop (length p) s else s

-- `strings.Contains(s, p)`
unfoldable pub contains : Bytes → Bytes → Bool
unfolding has_prefix
contains [] p = has_prefix [] p
contains (c ∷ s) p = has_prefix (c ∷ s) p || contains s p

-- The byte goes to the front of the first part.
abbrev push : ℕ → List Bytes → List Bytes
push c [] = (c ∷ []) ∷ []
push c (p ∷ ps) = (c ∷ p) ∷ ps

-- `strings.Split(s, sep)` for a separator of one byte
unfoldable pub split : ℕ → Bytes → List Bytes
split sep [] = [] ∷ []
split sep (c ∷ s) = let rest = split sep s in if c == sep then [] ∷ rest else push c rest

-- `strings.SplitN(s, sep, n)` for a separator of one byte and a positive `n`
unfoldable pub split_n : ℕ → ℕ → Bytes → List Bytes
split_n sep zero s = []
split_n sep (suc zero) s = s ∷ []
split_n sep (suc (suc n)) [] = [] ∷ []
split_n sep (suc (suc n)) (c ∷ s) = elim (c == sep) [
  | true ↦ [] ∷ split_n sep (suc n) s
  | false ↦ push c (split_n sep (suc (suc n)) s)
]

-- `strings.Join(parts, sep)`
unfoldable pub join : Bytes → List Bytes → Bytes
join sep [] = []
join sep (p ∷ []) = p
join sep (p ∷ q ∷ ps) = p ++ (sep ++ join sep (q ∷ ps))

is_ascii_space : ℕ → Bool
is_ascii_space c = (leb 9 c && leb c 13) || (c == 32)

-- U+0085 and U+00A0 in UTF-8
is_space_2 : ℕ → ℕ → Bool
is_space_2 c d = (c == 0xC2) && ((d == 0x85) || (d == 0xA0))

-- U+1680, U+2000 to U+200A, U+2028, U+2029, U+202F, U+205F and U+3000 in UTF-8
is_space_3 : ℕ → ℕ → ℕ → Bool
is_space_3 c d e =
    ((c == 0xE1) && (d == 0x9A) && (e == 0x80))
    || ((c == 0xE2)
        && (d == 0x80)
        && ((leb 0x80 e && leb e 0x8A) || (e == 0xA8) || (e == 0xA9) || (e == 0xAF)))
    || ((c == 0xE2) && (d == 0x81) && (e == 0x9F))
    || ((c == 0xE3) && (d == 0x80) && (e == 0x80))

-- How many bytes the white space character at the front takes; 0 if there is none.
pub space_width : Bytes → ℕ
unfolding is_ascii_space is_space_2 is_space_3
space_width [] = 0
space_width (c ∷ []) = if is_ascii_space c then 1 else 0
space_width (c ∷ d ∷ []) = if is_ascii_space c then 1 else if is_space_2 c d then 2 else 0
space_width (c ∷ d ∷ e ∷ s) =
    if is_ascii_space c then 1 else if is_space_2 c d then 2 else if is_space_3 c d e then 3 else 0

abbrev flush : Bytes → List Bytes → List Bytes
flush [] ps = ps
flush (c ∷ cur) ps = (c ∷ cur) ∷ ps

-- `skip` bytes of a white space character are still to be read; `cur` is the field so far.
fields_from : ℕ → Bytes → Bytes → List Bytes
unfolding space_width
fields_from skip cur [] = flush cur []
fields_from (suc skip) cur (c ∷ s) = fields_from skip cur s
fields_from zero cur (c ∷ s) = elim (space_width (c ∷ s)) [
  | zero ↦ fields_from zero (cur ++ c ∷ []) s
  | suc skip ↦ flush cur (fields_from skip [] s)
]

-- `strings.Fields(s)`
unfoldable pub fields : Bytes → List Bytes
unfolding fields_from
fields s = fields_from zero [] s

-- White space at the end of a text, of which the bytes come last first.
pub space_width_back : Bytes → ℕ
unfolding is_ascii_space is_space_2 is_space_3
space_width_back [] = 0
space_width_back (e ∷ []) = if is_ascii_space e then 1 else 0
space_width_back (e ∷ d ∷ []) = if is_ascii_space e then 1 else if is_space_2 d e then 2 else 0
space_width_back (e ∷ d ∷ c ∷ s) =
    if is_ascii_space e then 1 else if is_space_2 d e then 2 else if is_space_3 c d e then 3 else 0

skip_space : (Bytes → ℕ) → ℕ → Bytes → Bytes
skip_space width skip [] = []
skip_space width (suc skip) (c ∷ s) = skip_space width skip s
skip_space width zero (c ∷ s) = elim (width (c ∷ s)) [
  | zero ↦ c ∷ s
  | suc skip ↦ skip_space width skip s
]

-- `strings.TrimSpace(s)`
unfoldable pub trim_space : Bytes → Bytes
unfolding skip_space space_width space_width_back
trim_space s = reverse (skip_space space_width_back 0 (reverse (skip_space space_width 0 s)))

-- `strings.IndexByte(s, b)`
unfoldable pub index_byte : ℕ → Bytes → Option ℕ
index_byte b [] = none
index_byte b (c ∷ s) = let rest = index_byte b s in if c == b then some 0 else Option.map suc rest

-- `strings.LastIndexByte(s, b)`
unfoldable pub last_index_byte : ℕ → Bytes → Option ℕ
last_index_byte b [] = none
last_index_byte b (c ∷ s) = elim (last_index_byte b s) [
  | some i ↦ some (suc i)
  | none ↦ if c == b then some 0 else none
]

is_upper : ℕ → Bool
is_upper c = leb b'A' c && leb c b'Z'

pub lower_byte : ℕ → ℕ
unfolding is_upper
lower_byte c = if is_upper c then c + 32 else c

-- `hasUpper` and `isASCII` of the source of `strings.ToLower`
pub is_ascii : Bytes → Bool
is_ascii [] = true
is_ascii (c ∷ s) = ltb c 128 && is_ascii s

-- `strings.ToLower(s)`; a text with a byte outside ASCII goes through `unicode.ToLower`
unfoldable pub to_lower : (Bytes → Bytes) → Bytes → Bytes
unfolding lower_byte is_ascii
to_lower unicode_lower s = if is_ascii s then map lower_byte s else unicode_lower s
