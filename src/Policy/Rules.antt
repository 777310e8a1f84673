-- ===== src/Policy/Rules.antt =====
-- policies/policy.rego: the rules of `gateway.authz`, and what they allow.
use go_api_management.Policy.{Input, Json, boolean, number_of, null}
use go_api_management.Base.{
  Bytes, [], ◌∷◌, some, none, true, false, inl, inr, ◌≡◌, ◌≢◌, arith, ◌||◌, ◌&&◌, ℕ, List, Option,
  codes, Bool, String, ◌↔◌, Any, str_eq, not, is_empty, pos, ltb, negsuc, ◌⊎◌, here, Bool-cases,
  str_eq_refl, str_eq_iff, there, or-true, Option-cases, not_empty, is_empty-ne, ◌≤◌, ◌∙◌, sym,
  refl, ◌<◌,
}

-- OPA orders null, booleans, numbers, texts, arrays and objects, in this order; a comparison with a
-- value that is missing does not hold.
below : ℕ → Json → Bool
below limit null = true
below limit (boolean b) = true
below limit (number_of (pos n)) = ltb n limit
below limit (number_of (negsuc n)) = true
below limit _ = false

-- `input.body.amount_cents`
unfoldable pub amount_of : Input → Option Json
amount_of input = elim input.body [ none ↦ none | some body ↦ body (codes "amount_cents") ]

abbrev pub limit : ℕ
limit = 1000000

-- amount_cents_under_limit
amount_under_limit : Option Json → Bool
unfolding below
amount_under_limit none = false
amount_under_limit (some v) = below limit v

-- `input.body.amount_cents >= 1000000`
amount_over : Option Json → Bool
unfolding below
amount_over none = false
amount_over (some v) = not (below limit v)

-- has_scope
pub holds_scope : List Bytes → Bytes → Bool
holds_scope [] required = false
holds_scope (s ∷ scopes) required = str_eq s required || holds_scope scopes required

abbrev pub high_value : Bytes
high_value = codes "transfer:high_value"

abbrev is_post : Input → String → Bool
is_post input path = str_eq input.path (codes path) && str_eq input.method (codes "POST")

-- `allow`: one of the four rules
pub gateway_allow : Input → Bool
unfolding amount_under_limit amount_over holds_scope
gateway_allow input =
    str_eq input.path (codes "/auth/register-device")
    || (is_post input "/transfer/initiate"
        && not (is_empty input.sub)
        && amount_under_limit (amount_of input))
    || (is_post input "/transfer/initiate"
        && not (is_empty input.sub)
        && amount_over (amount_of input)
        && holds_scope input.scopes high_value)
    || (is_post input "/private/transfers" && holds_scope input.scopes (codes "transfer:execute"))

holds_scope_sound :
    (scopes : List Bytes) (required : Bytes)
    → holds_scope scopes required ≡ true
    → Any (λ s. s ≡ required) scopes
unfolding holds_scope
holds_scope_sound [] required h = cc
holds_scope_sound (s ∷ scopes) required h = elim (Bool-cases (str_eq s required)) [
  | inl same ↦ here ((str_eq_iff s required).0 same)
  | inr other ↦ there (holds_scope_sound scopes required (rw other at h))
]

holds_scope_complete :
    (scopes : List Bytes) (required : Bytes)
    → Any (λ s. s ≡ required) scopes
    → holds_scope scopes required ≡ true
unfolding holds_scope
holds_scope_complete [] required x = elim x [ ]
holds_scope_complete (s ∷ scopes) required (here e) = rw (e, str_eq_refl)
holds_scope_complete (s ∷ scopes) required (there later) =
    rw (holds_scope_complete scopes required later) (or-true _)

either_rule :
    (a b c : Bool)
    → ((not a && b) || (not a && not b && c)) ≡ true
    → (a ≡ false) × ((b ≡ true) ⊎ (c ≡ true))
either_rule a b c h = ground arith

no_rule : (a c : Bool) → ((not a && false) || (not a && false && c)) ≡ true → ⊥
no_rule a c h = ground arith

rule_holds :
    (a b c : Bool)
    → a ≡ false
    → (b ≡ true) ⊎ (c ≡ true)
    → ((not a && b) || (not a && not b && c)) ≡ true
rule_holds a b c na bc = ground arith

-- A whole number below 1000000, or null or a boolean, which OPA orders before every number.
abbrev pub IsUnderLimit : Json → Type 0
IsUnderLimit null = Unit
IsUnderLimit (boolean b) = Unit
IsUnderLimit (number_of (pos n)) = n < 1000000
IsUnderLimit (number_of (negsuc n)) = Unit
IsUnderLimit _ = ⊥

below_iff : (v : Json) → (below limit v ≡ true) ↔ IsUnderLimit v
unfolding below
below_iff null = ((λ h. tt), (λ u. refl))
below_iff (boolean b) = ((λ h. tt), (λ u. refl))
below_iff (number_of (pos n)) = ((λ h. ground arith), (λ u. ground arith))
below_iff (number_of (negsuc n)) = ((λ h. tt), (λ u. refl))
below_iff _ = ((λ h. cc h), (λ u. absurd u))

-- The amount is there, and is under the limit or comes with the scope for high values.
pub IsAffordable : Input → Type 0
IsAffordable input =
    (v : Json) × (amount_of input ≡ some v)
    × (IsUnderLimit v ⊎ Any (λ s. s ≡ high_value) input.scopes)

module _ (input : Input) (on_path : input.path ≡ codes "/transfer/initiate")
    (posted : input.method ≡ codes "POST") where
  allow_computed : gateway_allow input ≡ (
      (not (is_empty input.sub) && amount_under_limit (amount_of input))
      || (not (is_empty input.sub)
          && amount_over (amount_of input)
          && holds_scope input.scopes high_value))
  unfolding gateway_allow
  allow_computed = rw (on_path, posted) (unfold str_eq in ground arith)

  -- The policy allows a transfer at the edge exactly if the token names a subject and the amount is
  -- there, and is a number under 1000000 or null or a boolean, or is covered by the scope for high
  -- values.
  pub allow_transfer_iff : (gateway_allow input ≡ true) ↔ ((input.sub ≢ []) × IsAffordable input)
  unfolding IsAffordable amount_under_limit amount_over
  allow_transfer_iff = (
    λ h. elim (Option-cases (amount_of input)) [
      | inl e ↦ absurd (no_rule _ _ (rw (allow_computed, e) at h))
      | inr (v, e) ↦
          let (named, by) =
            either_rule (is_empty input.sub) (below limit v) (holds_scope input.scopes high_value)
              (rw (allow_computed, e) at h) in
          (
            not_empty _ named,
            (
              v,
              e,
              elim by [
                | inl under ↦ inl ((below_iff v).0 under)
                | inr scoped ↦ inr (holds_scope_sound _ _ scoped)
              ],
            ),
          )
    ],
    λ p.
        let (named, (v, e, by)) = p in
        rw (allow_computed, e)
          (rule_holds (is_empty input.sub) (below limit v) (holds_scope input.scopes high_value)
            (is_empty-ne _ named)
            (elim by [
              | inl under ↦ inl ((below_iff v).1 under)
              | inr scoped ↦ inr (holds_scope_complete _ _ scoped)
            ])),
  )

-- A number from the limit on needs the scope.
pub affordable_high :
    (input : Input) (n : ℕ)
    → limit ≤ n
    → amount_of input ≡ some (number_of (pos n))
    → IsAffordable input
    → Any (λ s. s ≡ high_value) input.scopes
unfolding IsAffordable
affordable_high input n high e (v, f, by) = elim by [
  | inl under ↦ absurd (not_below v (cc (e, f)) under)
  | inr scoped ↦ scoped
]
  where
    not_below : (u : Json) → u ≡ number_of (pos n) → IsUnderLimit u → ⊥
    not_below u same under =
        let small : n < 1000000 = rw same at under in omega (arith, high, small)

module _ (input : Input) (on_path : input.path ≡ codes "/private/transfers")
    (posted : input.method ≡ codes "POST") where
  private_computed : gateway_allow input ≡ holds_scope input.scopes (codes "transfer:execute")
  unfolding gateway_allow
  private_computed = rw (on_path, posted) (unfold str_eq in ground arith)

  -- The policy allows a private transfer exactly if the scopes have `transfer:execute`.
  pub allow_private_iff :
      (gateway_allow input ≡ true) ↔ Any (λ s. s ≡ codes "transfer:execute") input.scopes
  allow_private_iff = (
    λ h. holds_scope_sound input.scopes _ (sym private_computed ∙ h),
    λ x. private_computed ∙ holds_scope_complete input.scopes _ x,
  )
