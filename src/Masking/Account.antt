-- ===== src/Masking/Account.antt =====
-- `MaskedAccount.String` (internal/banking/domain/banking.go).
use go_api_management.Base.{
  ℕ, zero, suc, ◌+◌, ◌-◌, ◌<◌, ◌≡◌, refl, sym, ◌∙◌, ap, [], ◌∷◌, ◌++◌, arith, Bytes, codes, length,
  take, drop, take-length-append, drop-length-append, Lacks, ◌↔◌, replicate, length-append,
  take-length-append, drop-length-append, Lacks, ◌↔◌, append_assoc, take-append-drop,
  take-length-append, drop-length-append, Lacks, ◌↔◌, append-nil,
}
use go_api_management.Masking.{stars, star_loop, mask_account}

star_loop-append : (n : ℕ) (mask : Bytes) → star_loop n mask ≡ mask ++ replicate n b'*'
unfolding star_loop
star_loop-append zero mask = sym (append-nil mask)
star_loop-append (suc n) mask = star_loop-append n (mask ++ codes "*") ∙ append_assoc mask _ _

drop_last :
    (p last : Bytes) (n : ℕ) → length last ≡ n → drop (length (p ++ last) - n) (p ++ last) ≡ last
drop_last p last n h =
    let e : length (p ++ last) - n ≡ length p = omega (arith, length-append p last) in
    rw e (drop-length-append p last)

take_first : (p s : Bytes) (n : ℕ) → length p ≡ n → take n (p ++ s) ≡ p
take_first p s n h = rw (← h) (take-length-append p s)

-- An account of at least six bytes, whatever they are: the first two, a star for each byte between,
-- the last four.
pub mask_account_parts :
    (first middle last : Bytes)
    → length first ≡ 2
    → length last ≡ 4
    → mask_account (first ++ (middle ++ last)) ≡ first ++ (replicate (length middle) b'*' ++ last)
unfolding mask_account
mask_account_parts first middle last h2 h4 =
    let a : Bytes = first ++ (middle ++ last) in
    let len : length a ≡ 2 + length middle + 4 =
      omega (arith, length-append first (middle ++ last), length-append middle last) in
    let loop : star_loop (length a - 6) [] ≡ replicate (length middle) b'*' =
      star_loop-append (length a - 6) [] ∙ ap (λ n. replicate n b'*') (omega arith) in
    let tail : drop (length a - 4) a ≡ last =
      rw (← append_assoc) (drop_last (first ++ middle) last 4 h4) in
    ground (arith, loop, tail, take_first first (middle ++ last) 2 h2, len)

-- Shorter ones show nothing.
pub mask_account_short : (a : Bytes) → length a < 6 → mask_account a ≡ stars
unfolding mask_account
mask_account_short a h = ground arith

star_loop-cons : (n : ℕ) → star_loop (suc n) [] ≡ b'*' ∷ replicate n b'*'
star_loop-cons n = star_loop-append (suc n) []

visible_six : (a : Bytes) → Lacks b'*' a → mask_account a ≡ a → length a ≡ 6
unfolding mask_account
visible_six [] h e = cc
visible_six (c ∷ []) h e = cc
visible_six (c ∷ d ∷ []) h e = cc
visible_six (c ∷ d ∷ f ∷ []) h e = ground arith
visible_six (c ∷ d ∷ f ∷ g ∷ []) h e = cc
visible_six (c ∷ d ∷ f ∷ g ∷ i ∷ []) h e = cc
visible_six (c ∷ d ∷ f ∷ g ∷ i ∷ j ∷ []) h e = refl
visible_six (c ∷ d ∷ f ∷ g ∷ i ∷ j ∷ k ∷ a) (_, (_, (hf, _))) e =
    let rest : length (c ∷ d ∷ f ∷ g ∷ i ∷ j ∷ k ∷ a) - 6 ≡ suc (length a) = omega arith in
    absurd (hf (ground (arith, rest, star_loop-cons (length a))))

six_visible : (a : Bytes) → length a ≡ 6 → mask_account a ≡ a
unfolding mask_account
six_visible a six =
    let zero_rounds : length a - 6 ≡ 0 = omega arith in
    let two : length a - 4 ≡ 2 = omega arith in
    let none_between : star_loop (length a - 6) [] ≡ [] = rw zero_rounds (star_loop-append 0 []) in
    ground (arith, none_between, two, take-append-drop 2 a)

-- An account that holds no star is printed as it is exactly if it has six bytes.
pub mask_account_visible_iff : (a : Bytes) → Lacks b'*' a → (mask_account a ≡ a) ↔ (length a ≡ 6)
mask_account_visible_iff a h = (visible_six a h, six_visible a)
