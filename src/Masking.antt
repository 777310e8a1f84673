-- ===== src/Masking.antt =====
-- The wrapper types whose `String` and `LogValue` redact personal data: MaskedEmail and MaskedName of
-- internal/core/domain/user.go, MaskedAccount of internal/banking/domain/banking.go. `len` and
-- slices count bytes, as in the source.
pub mod Account
pub mod Email
pub mod Name
use go_api_management.Base.{
  ℕ, zero, suc, ◌+◌, ◌-◌, List, [], ◌∷◌, ◌++◌, Bytes, codes, ltb, leb, if◌then◌else◌, length, take,
  drop,
}
use go_api_management.Strings.{split_n, fields, join}

abbrev pub stars : Bytes
stars = codes "***"

abbrev pub stars_at : Bytes
stars_at = codes "***@"

-- The part of `MaskedEmail.String` behind `SplitN`.
mask_email_parts : List Bytes → Bytes
mask_email_parts (prefix ∷ domain ∷ []) =
    if leb (length prefix) 1
    then prefix ++ (stars_at ++ domain)
    else take 1 prefix ++ (stars_at ++ domain)
mask_email_parts _ = stars

-- `MaskedEmail.String`
unfoldable pub mask_email : Bytes → Bytes
unfolding mask_email_parts
mask_email e = mask_email_parts (split_n b'@' 2 e)

-- One round of the loop of `MaskedName.String`.
mask_segment : Bytes → Bytes
mask_segment part = if leb (length part) 1 then part ++ stars else take 1 part ++ stars

mask_segments : List Bytes → List Bytes
unfolding mask_segment
mask_segments [] = []
mask_segments (part ∷ parts) = mask_segment part ∷ mask_segments parts

mask_name_parts : List Bytes → Bytes
unfolding mask_segments
mask_name_parts [] = stars
mask_name_parts (part ∷ parts) = join (codes " ") (mask_segments (part ∷ parts))

-- `MaskedName.String`
unfoldable pub mask_name : Bytes → Bytes
unfolding mask_name_parts
mask_name n = mask_name_parts (fields n)

-- The loop of `MaskedAccount.String`: `mask` grows by one star in each of the rounds left.
star_loop : ℕ → Bytes → Bytes
star_loop zero mask = mask
star_loop (suc rounds) mask = star_loop rounds (mask ++ codes "*")

-- `MaskedAccount.String`
unfoldable pub mask_account : Bytes → Bytes
unfolding star_loop
mask_account str =
    if ltb (length str) 6
    then stars
    else take 2 str ++ (star_loop (length str - 6) [] ++ drop (length str - 4) str)
