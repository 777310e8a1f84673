-- ===== src/Strings/Split.antt =====
-- Splitting and joining at one byte.
use go_api_management.Base.{ℕ, ◌≡◌, ◌≢◌, refl, List, [], ◌∷◌, ◌++◌, arith, Bytes, All, Lacks}
use go_api_management.Strings.{push, split, split_n, join}

split-ne-nil : (sep : ℕ) (s : Bytes) → split sep s ≢ []
unfolding split
split-ne-nil sep [] = cc
split-ne-nil sep (c ∷ s) = ground arith

-- Text without the separator stands in the first part.
pub split-append-Lacks :
    (sep : ℕ) (p s : Bytes) → Lacks sep p → split sep (p ++ sep ∷ s) ≡ p ∷ split sep s
unfolding split
split-append-Lacks sep [] s h = ground arith
split-append-Lacks sep (c ∷ p) s (hc, hp) = ground (arith, split-append-Lacks sep p s hp)

pub split_whole : (sep : ℕ) (p : Bytes) → Lacks sep p → split sep p ≡ p ∷ []
unfolding split
split_whole sep [] h = refl
split_whole sep (c ∷ p) (hc, hp) = ground (arith, split_whole sep p hp)

join-push : (sep c : ℕ) (ps : List Bytes) → join (sep ∷ []) (push c ps) ≡ c ∷ join (sep ∷ []) ps
unfolding join
join-push sep c [] = refl
join-push sep c (p ∷ []) = refl
join-push sep c (p ∷ q ∷ ps) = refl

join-nil_cons :
    (sep : ℕ) (ps : List Bytes) → ps ≢ [] → join (sep ∷ []) ([] ∷ ps) ≡ sep ∷ join (sep ∷ []) ps
unfolding join
join-nil_cons sep [] h = absurd (h refl)
join-nil_cons sep (p ∷ ps) h = refl

push-Lacks :
    (sep c : ℕ) (ps : List Bytes) → c ≢ sep → All (Lacks sep) ps → All (Lacks sep) (push c ps)
push-Lacks sep c [] hc h = ((hc, tt), tt)
push-Lacks sep c (p ∷ ps) hc (hp, hps) = ((hc, hp), hps)

pub join-split : (sep : ℕ) (s : Bytes) → join (sep ∷ []) (split sep s) ≡ s
unfolding split
join-split sep [] = unfold join in refl
join-split sep (c ∷ s) = ground (
  arith,
  join-split sep s,
  join-push sep c (split sep s),
  join-nil_cons sep (split sep s) (split-ne-nil sep s),
)

-- No part of a split holds the separator.
pub split-Lacks : (sep : ℕ) (s : Bytes) → All (Lacks sep) (split sep s)
unfolding split
split-Lacks sep [] = (tt, tt)
split-Lacks sep (c ∷ s) = ground (arith, split-Lacks sep s, push-Lacks sep c (split sep s))

pub split_n_two : (sep : ℕ) (p s : Bytes) → Lacks sep p → split_n sep 2 (p ++ sep ∷ s) ≡ p ∷ s ∷ []
unfolding split_n
split_n_two sep [] s h = ground arith
split_n_two sep (c ∷ p) s (hc, hp) = ground (arith, split_n_two sep p s hp)

pub split_n_whole : (sep : ℕ) (p : Bytes) → Lacks sep p → split_n sep 2 p ≡ p ∷ []
unfolding split_n
split_n_whole sep [] h = refl
split_n_whole sep (c ∷ p) (hc, hp) = ground (arith, split_n_whole sep p hp)
