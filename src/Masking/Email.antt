-- ===== src/Masking/Email.antt =====
-- `MaskedEmail.String` (internal/core/domain/user.go).
use go_api_management.Base.{◌≡◌, refl, [], ◌∷◌, ◌++◌, arith, Bytes, take, Lacks}
use go_api_management.Strings.Split.{split_n_two, split_n_whole}
use go_api_management.Masking.{stars, stars_at, mask_email, mask_email_parts}

mask_parts_two :
    (p domain : Bytes) → mask_email_parts (p ∷ domain ∷ []) ≡ take 1 p ++ (stars_at ++ domain)
unfolding mask_email_parts
mask_parts_two [] domain = refl
mask_parts_two (c ∷ []) domain = refl
mask_parts_two (c ∷ d ∷ p) domain = ground arith

-- Of the text before the first `@` at most the first byte is shown, then the stars and the domain;
-- text with no `@` is not shown at all.
pub mask_email_shape :
    (p domain : Bytes)
    → Lacks b'@' p
    → (mask_email (p ++ b'@' ∷ domain) ≡ take 1 p ++ (stars_at ++ domain)) × (mask_email p ≡ stars)
unfolding mask_email
mask_email_shape p domain h = (
  rw (split_n_two b'@' p domain h) (mask_parts_two p domain),
  rw (split_n_whole b'@' p h) (unfold mask_email_parts in refl),
)
