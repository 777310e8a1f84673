-- ===== src/Banking/Jwt/Parts.antt =====
-- The three parts of a token.
use mathlib.Core.Path.{subst}
use go_api_management.Base.{ℕ, ◌≡◌, ◌∙◌, sym, ap, [], ◌∷◌, ◌++◌, append_assoc, Bytes, Lacks, All}
use go_api_management.Strings.{split, join}
use go_api_management.Strings.Split.{split-append-Lacks, split_whole, split-Lacks, join-split}

module _ (sep : ℕ) (h b s : Bytes) where
  pub split_three :
      Lacks sep h
      → Lacks sep b
      → Lacks sep s
      → split sep ((h ++ sep ∷ b) ++ sep ∷ s) ≡ h ∷ b ∷ s ∷ []
  split_three lh lb ls = rw (
    append_assoc,
    split-append-Lacks sep h (b ++ sep ∷ s) lh,
    split-append-Lacks sep b s lb,
    split_whole sep s ls,
  )

  pub of_split_three :
      (token : Bytes) → split sep token ≡ h ∷ b ∷ s ∷ [] → token ≡ (h ++ sep ∷ b) ++ sep ∷ s
  unfolding join
  of_split_three token e =
      sym (join-split sep token) ∙ ap (join (sep ∷ [])) e ∙ sym (append_assoc h (sep ∷ b) (sep ∷ s))

  pub parts-Lacks :
      (token : Bytes) → split sep token ≡ h ∷ b ∷ s ∷ [] → Lacks sep h × Lacks sep b × Lacks sep s
  parts-Lacks token e =
      let all = subst (All (Lacks sep)) e (split-Lacks sep token) in (all.0, all.1.0, all.1.1.0)
