-- ===== src/Strings/Contains.antt =====
-- Substrings.
use go_api_management.Strings.Prefix.{append-trim_prefix, has_prefix-append}
use go_api_management.Strings.{contains, has_prefix}
use go_api_management.Base.{
  Bytes, refl, [], ◌∷◌, true, inl, inr, ◌≡◌, ◌∙◌, ◌++◌, or-true, ◌↔◌, Bool-cases, ap, drop, length,
  sym,
}

contains_sound :
    (s p : Bytes) → contains s p ≡ true → (pre : Bytes) × (post : Bytes) × (s ≡ pre ++ p ++ post)
unfolding contains
contains_sound [] p h = ([], [], prefix_nil p h)
  where
    prefix_nil : (q : Bytes) → has_prefix [] q ≡ true → [] ≡ q ++ []
    prefix_nil [] e = refl
    prefix_nil (d ∷ q) e = cc
contains_sound (c ∷ s) p h = elim (Bool-cases (has_prefix (c ∷ s) p)) [
  | inl e ↦ ([], drop (length p) (c ∷ s), sym (append-trim_prefix (c ∷ s) p e))
  | inr e ↦
      let (pre, post, q) = contains_sound s p (rw e at h) in (c ∷ pre, post, ap (λ t. c ∷ t) q)
]

contains_prefix : (t p : Bytes) → has_prefix t p ≡ true → contains t p ≡ true
unfolding contains
contains_prefix [] p h = h
contains_prefix (c ∷ t) p h = rw h refl

contains_complete : (pre p post : Bytes) → contains (pre ++ p ++ post) p ≡ true
unfolding contains
contains_complete [] p post = contains_prefix (p ++ post) p (has_prefix-append p post)
contains_complete (c ∷ pre) p post = rw (contains_complete pre p post) (or-true _)

-- A text contains another if this stands somewhere in it.
pub contains_iff :
    (s p : Bytes)
    → (contains s p ≡ true) ↔ ((pre : Bytes) × (post : Bytes) × (s ≡ pre ++ p ++ post))
contains_iff s p =
    (contains_sound s p, λ (pre, post, e). ap (λ t. contains t p) e ∙ contains_complete pre p post)
