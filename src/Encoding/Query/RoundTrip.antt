-- ===== src/Encoding/Query/RoundTrip.antt =====
-- A query that was encoded, read back.
use go_api_management.Strings.Split.{split-append-Lacks, split_whole}
use go_api_management.Strings.{join, split}
use go_api_management.Encoding.Base64.RoundTrip.{IsBytes}
use go_api_management.Encoding.Query.{
  upper_value, escape_byte, query_unescape, upper_digit, is_kept, pair_text, query_escape,
  parse_query, read_pair, encode_values, Values,
}
use go_api_management.Base.{
  Bytes, refl, [], ◌∷◌, false, ◌≡◌, ◌≢◌, arith, ℕ, ◌<◌, ◌*◌, ◌==◌, All, ◌+◌, if◌then◌else◌, true,
  inl, inr, ◌∙◌, ◌++◌, List, Bool-cases, Lacks, All-append, ap, ◌/◌, ◌%◌,
}

-- Escaped texts hold no separator.
abbrev IsClean : ℕ → Type 0
IsClean c = (c ≢ b'&') × (c ≢ b'=')

escape_byte-All : (c : ℕ) → c < 256 → All IsClean (escape_byte c)
unfolding escape_byte
escape_byte-All c h = ground arith

unescape_plain :
    (c : ℕ) (t : Bytes)
    → (c == b'%') ≡ false
    → query_unescape (c ∷ t) ≡ (if c == b'+' then b' ' else c) ∷ query_unescape t
unfolding query_unescape
unescape_plain c [] h = refl
unescape_plain c (a ∷ []) h = refl
unescape_plain c (a ∷ b ∷ t) h = rw h refl

unescape_coded :
    (a b : ℕ) (t : Bytes)
    → query_unescape (b'%' ∷ a ∷ b ∷ t) ≡ (16 * upper_value a + upper_value b) ∷ query_unescape t
unfolding query_unescape
unescape_coded a b t = refl

upper_back : (n : ℕ) → n < 16 → upper_value (upper_digit n) ≡ n
unfolding upper_value upper_digit
upper_back n h = ground arith

unescape_byte :
    (c : ℕ) (t : Bytes) → c < 256 → query_unescape (escape_byte c ++ t) ≡ c ∷ query_unescape t
unfolding escape_byte
unescape_byte c t h = elim (Bool-cases (is_kept c)) [
  | inl kept ↦ rw kept (
      unescape_plain c t (kept_not_percent c kept)
      ∙ ap (λ d. d ∷ query_unescape t) (kept_not_plus c kept))
  | inr other ↦ elim (Bool-cases (c == b' ')) [
    | inl space ↦
        rw (other, space)
          (unescape_plain b'+' t refl ∙ ap (λ d. d ∷ query_unescape t) (ground arith))
    | inr coded ↦
        rw (other, coded)
          (unescape_coded (upper_digit (c / 16)) (upper_digit (c % 16)) t
            ∙ ap (λ d. d ∷ query_unescape t)
                (omega (arith, upper_back (c / 16), upper_back (c % 16))))
  ]
]
  where
    kept_not_percent : (d : ℕ) → is_kept d ≡ true → (d == b'%') ≡ false
    kept_not_percent d kept = unfold is_kept in ground arith

    kept_not_plus : (d : ℕ) → is_kept d ≡ true → (if d == b'+' then b' ' else d) ≡ d
    kept_not_plus d kept = unfold is_kept in ground arith

pub query_unescape-query_escape : (s : Bytes) → IsBytes s → query_unescape (query_escape s) ≡ s
unfolding query_escape
query_unescape-query_escape [] h = unfold query_unescape in refl
query_unescape-query_escape (c ∷ s) (hc, hs) =
    unescape_byte c (query_escape s) hc ∙ ap (λ t. c ∷ t) (query_unescape-query_escape s hs)

escape-All : (s : Bytes) → IsBytes s → All IsClean (query_escape s)
unfolding query_escape
escape-All [] h = tt
escape-All (c ∷ s) (hc, hs) =
    All-append IsClean (escape_byte c) _ (escape_byte-All c hc) (escape-All s hs)

All-map {ℓ} :
    {A : Type ℓ} (P Q : A → Type 0) (l : List A) → ((a : A) → P a → Q a) → All P l → All Q l
All-map P Q [] f h = tt
All-map P Q (a ∷ l) f (ha, hl) = (f a ha, All-map P Q l f hl)

escape-Lacks : (s : Bytes) → IsBytes s → Lacks b'&' (query_escape s) × Lacks b'=' (query_escape s)
escape-Lacks s h = (
  All-map IsClean (λ c. c ≢ b'&') (query_escape s) (λ c p. p.0) (escape-All s h),
  All-map IsClean (λ c. c ≢ b'=') (query_escape s) (λ c p. p.1) (escape-All s h),
)

-- Keys and values that are bytes.
abbrev pub IsText : Bytes × Bytes → Type 0
IsText (k, v) = IsBytes k × IsBytes v

pair_text-Lacks : (p : Bytes × Bytes) → IsText p → Lacks b'&' (pair_text p)
unfolding pair_text
pair_text-Lacks (k, v) (hk, hv) =
    All-append (λ c. c ≢ b'&') (query_escape k) (b'=' ∷ query_escape v) (escape-Lacks k hk).0
      (omega arith, (escape-Lacks v hv).0)

read_pair-pair_text : (p : Bytes × Bytes) → IsText p → read_pair (split b'=' (pair_text p)) ≡ p
unfolding pair_text read_pair
read_pair-pair_text (k, v) (hk, hv) =
    rw
      (
        split-append-Lacks b'=' (query_escape k) (query_escape v) (escape-Lacks k hk).1,
        split_whole b'=' (query_escape v) (escape-Lacks v hv).1,
        query_unescape-query_escape k hk,
        query_unescape-query_escape v hv,
      )
      refl

-- The values come back from their encoding.
pub parse_query-encode_values :
    (p : Bytes × Bytes) (q : Values)
    → All IsText (p ∷ q)
    → parse_query (encode_values (p ∷ q)) ≡ p ∷ q
unfolding parse_query encode_values join
parse_query-encode_values p [] (hp, _) =
    rw (split_whole b'&' (pair_text p) (pair_text-Lacks p hp), read_pair-pair_text p hp) refl
parse_query-encode_values p (p' ∷ q) (hp, hq) =
    rw
      (
        split-append-Lacks b'&' (pair_text p) (encode_values (p' ∷ q)) (pair_text-Lacks p hp),
        read_pair-pair_text p hp,
      )
      (ap (λ l. p ∷ l) (parse_query-encode_values p' q hq))
