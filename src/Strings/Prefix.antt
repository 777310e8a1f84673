-- ===== src/Strings/Prefix.antt =====
-- Prefixes.
use go_api_management.Base.{
  ◌≡◌, refl, true, [], ◌∷◌, ◌++◌, arith, Bytes, length, drop, drop-length-append,
}
use go_api_management.Strings.{has_prefix, trim_prefix}

pub has_prefix-append : (p s : Bytes) → has_prefix (p ++ s) p ≡ true
unfolding has_prefix
has_prefix-append [] [] = refl
has_prefix-append [] (c ∷ s) = refl
has_prefix-append (c ∷ p) s = ground (arith, has_prefix-append p s)

pub trim_prefix-append : (p s : Bytes) → trim_prefix (p ++ s) p ≡ s
unfolding trim_prefix
trim_prefix-append p s = rw has_prefix-append (drop-length-append p s)

-- A text with the prefix is the prefix and the rest.
pub append-trim_prefix : (s p : Bytes) → has_prefix s p ≡ true → p ++ drop (length p) s ≡ s
unfolding has_prefix
append-trim_prefix [] [] h = refl
append-trim_prefix (c ∷ s) [] h = refl
append-trim_prefix [] (d ∷ p) h = cc
append-trim_prefix (c ∷ s) (d ∷ p) h = ground (arith, append-trim_prefix s p)

pub append-trimmed : (s p : Bytes) → has_prefix s p ≡ true → p ++ trim_prefix s p ≡ s
unfolding trim_prefix
append-trimmed s p h = rw h (append-trim_prefix s p h)
