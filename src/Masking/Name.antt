-- ===== src/Masking/Name.antt =====
-- `MaskedName.String` (internal/core/domain/user.go).
use go_api_management.Base.{
  ◌≡◌, refl, ap, sym, ◌∙◌, List, [], ◌∷◌, ◌++◌, arith, Bytes, codes, take, map,
}
use go_api_management.Strings.{fields, join}
use go_api_management.Masking.{stars, mask_name, mask_segment, mask_segments, mask_name_parts}

-- The mask as a function of the first bytes.
abbrev mask_firsts : List Bytes → Bytes
mask_firsts [] = stars
mask_firsts (first ∷ firsts) = join (codes " ") (map (λ p. p ++ stars) (first ∷ firsts))

map-map :
    (parts : List Bytes)
    → map (λ p. take 1 p ++ stars) parts ≡ map (λ p. p ++ stars) (map (take 1) parts)
map-map [] = refl
map-map (part ∷ parts) = ap (λ l. (take 1 part ++ stars) ∷ l) (map-map parts)

mask_segment_lem : (part : Bytes) → mask_segment part ≡ take 1 part ++ stars
unfolding mask_segment
mask_segment_lem [] = refl
mask_segment_lem (c ∷ []) = refl
mask_segment_lem (c ∷ d ∷ part) = ground arith

mask_segments-map : (parts : List Bytes) → mask_segments parts ≡ map (λ p. take 1 p ++ stars) parts
unfolding mask_segments
mask_segments-map [] = refl
mask_segments-map (part ∷ parts) = cc (mask_segment_lem part, mask_segments-map parts)

mask_name_parts-map :
    (parts : List Bytes) → mask_name_parts parts ≡ mask_firsts (map (take 1) parts)
unfolding mask_name_parts
mask_name_parts-map [] = refl
mask_name_parts-map (part ∷ parts) =
    ap (join (codes " ")) (cc (mask_segment_lem part, mask_segments-map parts, map-map parts))

-- Two names whose fields begin with the same bytes have the same mask.
mask_name_hides :
    (n m : Bytes) → map (take 1) (fields n) ≡ map (take 1) (fields m) → mask_name n ≡ mask_name m
unfolding mask_name
mask_name_hides n m h =
    mask_name_parts-map (fields n) ∙ ap mask_firsts h ∙ sym (mask_name_parts-map (fields m))
