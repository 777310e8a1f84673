-- ===== src/Encoding/Decimal.antt =====
-- `%d`: the decimal digits of an integer.
use go_api_management.Base.{
  ℕ, zero, suc, ◌+◌, ◌-◌, ◌*◌, ◌/◌, ◌%◌, ◌≤◌, ◌≡◌, ◌≢◌, refl, ap, sym, Bool-cases, inl, inr, tests,
  drop, [], ◌∷◌, ◌++◌, Bytes, ltb, if◌then◌else◌, arith, All, All-append, Lacks, ℤ, pos, negsuc,
}

-- The fuel is the number itself, which has no more digits than that and one.
unfoldable pub digits : ℕ → ℕ → Bytes
digits zero n = (b'0' + n % 10) ∷ []
digits (suc fuel) n =
    let front = digits fuel (n / 10) in
    if ltb n 10 then (b'0' + n % 10) ∷ [] else front ++ (b'0' + n % 10) ∷ []

unfoldable pub format : ℕ → Bytes
unfolding digits
format n = digits n n

unfoldable pub format_int : ℤ → Bytes
unfolding format
format_int (pos n) = format n
format_int (negsuc n) = b'-' ∷ format (suc n)

-- the number that digits spell behind `n`
unfoldable pub value : ℕ → Bytes → ℕ
value n [] = n
value n (c ∷ s) = value (n * 10 + (c - b'0')) s

value-append : (n : ℕ) (s t : Bytes) → value n (s ++ t) ≡ value (value n s) t
unfolding value
value-append n [] t = refl
value-append n (c ∷ s) t = value-append (n * 10 + (c - b'0')) s t

value-digits : (fuel n : ℕ) → n ≤ fuel → value 0 (digits fuel n) ≡ n
unfolding digits
value-digits zero n h = unfold value in omega arith
value-digits (suc fuel) n h = elim (Bool-cases (ltb n 10)) [
  | inl small ↦ rw small (unfold value in omega (tests, small))
  | inr large ↦
      rw (large, value-append, value-digits fuel (n / 10) (ground arith))
        (unfold value in omega arith)
]

-- What is printed is read back.
pub value-format : (n : ℕ) → value 0 (format n) ≡ n
unfolding format
value-format n = value-digits n n (omega arith)

abbrev IsDigit : ℕ → Type 0
IsDigit c = (b'0' ≤ c) × (c ≤ b'9')

digits-All : (fuel n : ℕ) → All IsDigit (digits fuel n)
unfolding digits
digits-All zero n = omega arith
digits-All (suc fuel) n = elim (Bool-cases (ltb n 10)) [
  | inl small ↦ rw small (omega arith)
  | inr large ↦
      rw large
        (All-append IsDigit (digits fuel (n / 10)) _ (digits-All fuel (n / 10)) (omega arith))
]

format-All : (n : ℕ) → All IsDigit (format n)
unfolding format
format-All n = digits-All n n

format-injective : (n m : ℕ) → format n ≡ format m → n ≡ m
unfolding format
format-injective n m h =
    omega (arith, value-digits n n (omega arith), value-digits m m (omega arith), ap (value 0) h)

first : Bytes → ℕ
first [] = 0
first (c ∷ s) = c

minus-ne-digits : (s t : Bytes) → All IsDigit s → s ≢ b'-' ∷ t
unfolding first
minus-ne-digits [] t h e = cc
minus-ne-digits (c ∷ s) t (hc, hs) e = let same : c ≡ b'-' = ap first e in omega arith

-- Different integers are printed differently.
pub format_int-injective : (a b : ℤ) → format_int a ≡ format_int b → a ≡ b
unfolding format_int
format_int-injective (pos n) (pos m) h = ap pos (format-injective n m h)
format_int-injective (pos n) (negsuc m) h = absurd (minus-ne-digits _ _ (format-All n) h)
format_int-injective (negsuc n) (pos m) h = absurd (minus-ne-digits _ _ (format-All m) (sym h))
format_int-injective (negsuc n) (negsuc m) h =
    ap negsuc (omega (arith, format-injective (suc n) (suc m) (ap (drop 1) h)))

digit-ne : (s : Bytes) → All IsDigit s → Lacks b':' s
digit-ne [] h = tt
digit-ne (c ∷ s) (hc, hs) = (omega arith, digit-ne s hs)

pub format_int-Lacks_colon : (z : ℤ) → Lacks b':' (format_int z)
unfolding format_int
format_int-Lacks_colon (pos n) = digit-ne (format n) (format-All n)
format_int-Lacks_colon (negsuc n) = (omega arith, digit-ne (format (suc n)) (format-All (suc n)))
