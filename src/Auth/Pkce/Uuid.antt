-- ===== src/Auth/Pkce/Uuid.antt =====
-- The identifiers that generateUUIDv4 makes.
use mathlib.Core.Path.{subst}
use go_api_management.Auth.Pkce.{generate_uuid_v4, stamped, Filled}
use go_api_management.Errors.{Err}
use go_api_management.Base.{
  Bytes, refl, [], ◌∷◌, ◌≡◌, ◌++◌, ℕ, length, All, ◌⊎◌, ◌<◌, Option, ◌%◌, ◌+◌, ◌/◌, ◌∙◌, arith, suc,
  ap, sym,
}
use go_api_management.Encoding.Hex.{
  digit, encode, IsHexDigit, encode_version, encode_variant, length-encode, encode-IsHexDigit,
  digit-IsHexDigit, variant_digit,
}

-- Five groups of 8, 4, 4, 4 and 12 digits, the third with the version 4 before its digits and the fourth
-- with the variant, 8, 9, a or b.
pub record IsUuidV4 (s : Bytes) : Type 0 where
  pub time_low : Bytes
  pub time_mid : Bytes
  pub time_high : Bytes
  pub clock : Bytes
  pub node : Bytes
  pub variant : ℕ
  pub groups :
      s
      ≡ time_low
        ++ b'-' ∷ time_mid
        ++ b'-' ∷ b'4' ∷ time_high
        ++ b'-' ∷ variant ∷ clock
        ++ b'-' ∷ node
  pub lengths :
      (length time_low ≡ 8)
      × (length time_mid ≡ 4)
      × (length time_high ≡ 3)
      × (length clock ≡ 3)
      × (length node ≡ 12)
  pub digits :
      All IsHexDigit time_low
      × All IsHexDigit time_mid
      × All IsHexDigit time_high
      × All IsHexDigit clock
      × All IsHexDigit node
  pub is_variant : (variant ≡ b'8') ⊎ (variant ≡ b'9') ⊎ (variant ≡ b'a') ⊎ (variant ≡ b'b')

module _ (a b c d e f g h i j : ℕ) (node : Bytes) (six : length node ≡ 6)
    (small : All (λ x. x < 256) (a ∷ b ∷ c ∷ d ∷ e ∷ f ∷ g ∷ h ∷ i ∷ j ∷ node))
    (failure : Option Err) where
  printed :
      generate_uuid_v4
        (record { buffer = a ∷ b ∷ c ∷ d ∷ e ∷ f ∷ g ∷ h ∷ i ∷ j ∷ node; failure = failure })
      ≡ encode (a ∷ b ∷ c ∷ d ∷ [])
        ++ b'-' ∷ encode (e ∷ f ∷ [])
        ++ b'-' ∷ b'4' ∷ (digit (g % 16) ∷ encode (h ∷ []))
        ++ b'-' ∷ digit (8 + i % 64 / 16) ∷ (digit (i % 16) ∷ encode (j ∷ []))
        ++ b'-' ∷ encode node
  unfolding generate_uuid_v4 stamped
  printed = rw (encode_version g (h ∷ []), encode_variant i (j ∷ [])) refl

  sixteen-IsUuidV4 : IsUuidV4 (
      generate_uuid_v4
        (record { buffer = a ∷ b ∷ c ∷ d ∷ e ∷ f ∷ g ∷ h ∷ i ∷ j ∷ node; failure = failure }))
  sixteen-IsUuidV4 =
      let (ha, (hb, (hc, (hd, (he, (hf, (hg, (hh, (hi, (hj, hn)))))))))) = small in
      record {
        time_low = encode (a ∷ b ∷ c ∷ d ∷ []);
        time_mid = encode (e ∷ f ∷ []);
        time_high = digit (g % 16) ∷ encode (h ∷ []);
        clock = digit (i % 16) ∷ encode (j ∷ []);
        node = encode node;
        variant = digit (8 + i % 64 / 16);
        groups = printed;
        lengths = (
          length-encode (a ∷ b ∷ c ∷ d ∷ []),
          length-encode (e ∷ f ∷ []),
          omega (arith, length-encode (h ∷ [])),
          omega (arith, length-encode (j ∷ [])),
          omega (arith, length-encode node, six),
        );
        digits = (
          encode-IsHexDigit (a ∷ b ∷ c ∷ d ∷ []) (ha, (hb, (hc, (hd, tt)))),
          encode-IsHexDigit (e ∷ f ∷ []) (he, (hf, tt)),
          (digit-IsHexDigit (g % 16) (omega arith), encode-IsHexDigit (h ∷ []) (hh, tt)),
          (digit-IsHexDigit (i % 16) (omega arith), encode-IsHexDigit (j ∷ []) (hj, tt)),
          encode-IsHexDigit node hn,
        );
        is_variant = variant_digit i;
      }

first_of :
    (n : ℕ) (s : Bytes) → length s ≡ suc n → (c : ℕ) × (t : Bytes) × (s ≡ c ∷ t) × (length t ≡ n)
first_of n [] h = absurd (omega arith)
first_of n (c ∷ t) h = (c, t, refl, omega arith)

-- From sixteen bytes, whatever they are, generateUUIDv4 makes a UUID of version 4: 32 digits in its five
-- groups, with the version and the variant in their places.
pub uuid-IsUuidV4 :
    (r : Filled)
    → length r.buffer ≡ 16
    → All (λ x. x < 256) r.buffer
    → IsUuidV4 (generate_uuid_v4 r)
uuid-IsUuidV4 r sixteen small =
    let (a, s1, e1, h1) = first_of 15 r.buffer sixteen in
    let (b, s2, e2, h2) = first_of 14 s1 h1 in
    let (c, s3, e3, h3) = first_of 13 s2 h2 in
    let (d, s4, e4, h4) = first_of 12 s3 h3 in
    let (e, s5, e5, h5) = first_of 11 s4 h4 in
    let (f, s6, e6, h6) = first_of 10 s5 h5 in
    let (g, s7, e7, h7) = first_of 9 s6 h6 in
    let (h, s8, e8, h8) = first_of 8 s7 h7 in
    let (i, s9, e9, h9) = first_of 7 s8 h8 in
    let (j, node, e10, six) = first_of 6 s9 h9 in
    let whole : r.buffer ≡ a ∷ b ∷ c ∷ d ∷ e ∷ f ∷ g ∷ h ∷ i ∷ j ∷ node =
      e1
      ∙ ap (λ t. a ∷ t)
          (e2
            ∙ ap (λ t. b ∷ t)
                (e3
                  ∙ ap (λ t. c ∷ t)
                      (e4
                        ∙ ap (λ t. d ∷ t)
                            (e5
                              ∙ ap (λ t. e ∷ t)
                                  (e6
                                    ∙ ap (λ t. f ∷ t)
                                        (e7
                                          ∙ ap (λ t. g ∷ t)
                                              (e8
                                                ∙ ap (λ t. h ∷ t)
                                                    (e9 ∙ ap (λ t. i ∷ t) e10)))))))) in
    subst IsUuidV4
      (ap (λ t. generate_uuid_v4 (record { buffer = t; failure = r.failure })) (sym whole))
      (sixteen-IsUuidV4 a b c d e f g h i j node six (subst (All (λ x. x < 256)) whole small)
        r.failure)
