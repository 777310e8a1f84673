-- ===== src/Banking/Jwt/Sample.antt =====
-- A concrete token library for the examples: numbers in unary behind one another stand for the JSON
-- of the claims, and the key before the message for the HMAC.
use native.Mathlib.Nat.{zero-add, add-zero}
use go_api_management.Base.{
  ℕ, zero, suc, ◌+◌, ◌≡◌, ◌∙◌, refl, ap, List, [], ◌∷◌, ◌++◌, append_assoc, append-nil, Bytes, ℤ,
  pos, negsuc, arith, All-append, replicate,
}
use go_api_management.Errors.{Result, ok, err, foreign}
use go_api_management.Encoding.Base64.RoundTrip.{IsBytes}
use go_api_management.Banking.Jwt.{TokenLibrary, InternalJwtClaims}
use go_api_management.Banking.Jwt.RoundTrip.{JsonLaws}

print_numbers : List ℕ → Bytes
print_numbers [] = 2 ∷ []
print_numbers (n ∷ ns) = replicate n 1 ++ (0 ∷ print_numbers ns)

print_lists : List (List ℕ) → Bytes
print_lists [] = []
print_lists (l ∷ ls) = print_numbers l ++ print_lists ls

-- the number, the list and the lists so far
scan : ℕ → List ℕ → List (List ℕ) → Bytes → List (List ℕ)
scan n l ls [] = ls
scan n l ls (zero ∷ s) = scan 0 (l ++ n ∷ []) ls s
scan n l ls (suc zero ∷ s) = scan (suc n) l ls s
scan n l ls (suc (suc c) ∷ s) = scan 0 [] (ls ++ l ∷ []) s

int_list : ℤ → List ℕ
int_list (pos n) = 0 ∷ n ∷ []
int_list (negsuc n) = 1 ∷ n ∷ []

int_of_list : List ℕ → ℤ
int_of_list (zero ∷ n ∷ []) = pos n
int_of_list (suc s ∷ n ∷ []) = negsuc n
int_of_list _ = pos 0

claim_lists : InternalJwtClaims → List (List ℕ)
claim_lists c = int_list c.expires_at ∷ int_list c.issued_at ∷ c.subject ∷ c.scopes

claims_of : List (List ℕ) → Result InternalJwtClaims
claims_of (e ∷ i ∷ subject ∷ scopes) = ok (record {
  subject = subject;
  expires_at = int_of_list e;
  issued_at = int_of_list i;
  scopes = scopes;
})
claims_of _ = err (foreign 1)

unfoldable pub sample_library : TokenLibrary
unfolding print_numbers print_lists int_list int_of_list claim_lists claims_of scan
sample_library = record {
  hmac_sha256 = λ key message. key ++ message;
  marshal_claims = λ c. print_lists (claim_lists c);
  unmarshal_claims = λ s. claims_of (scan 0 [] [] s);
}

ones-IsBytes : (n : ℕ) → IsBytes (replicate n 1)
ones-IsBytes zero = tt
ones-IsBytes (suc n) = (omega arith, ones-IsBytes n)

numbers-IsBytes : (l : List ℕ) → IsBytes (print_numbers l)
unfolding print_numbers
numbers-IsBytes [] = omega arith
numbers-IsBytes (n ∷ l) =
    All-append _ (replicate n 1) _ (ones-IsBytes n) (omega arith, numbers-IsBytes l)

lists-IsBytes : (ls : List (List ℕ)) → IsBytes (print_lists ls)
unfolding print_lists
lists-IsBytes [] = tt
lists-IsBytes (l ∷ ls) = All-append _ (print_numbers l) _ (numbers-IsBytes l) (lists-IsBytes ls)

scan-ones :
    (m n : ℕ) (l : List ℕ) (ls : List (List ℕ)) (s : Bytes)
    → scan n l ls (replicate m 1 ++ s) ≡ scan (m + n) l ls s
unfolding scan
scan-ones zero n l ls s = rw zero-add
scan-ones (suc m) n l ls s = scan-ones m (suc n) l ls s ∙ ap (λ k. scan k l ls s) (omega arith)

scan_zero :
    (n : ℕ) (l : List ℕ) (ls : List (List ℕ)) (s : Bytes)
    → scan n l ls (0 ∷ s) ≡ scan 0 (l ++ n ∷ []) ls s
unfolding scan
scan_zero n l ls s = refl

scan-numbers :
    (l done : List ℕ) (ls : List (List ℕ)) (s : Bytes)
    → scan 0 done ls (print_numbers l ++ s) ≡ scan 0 [] (ls ++ (done ++ l) ∷ []) s
unfolding print_numbers
scan-numbers [] done ls s = unfold scan in rw append-nil
scan-numbers (n ∷ l) done ls s =
    rw (append_assoc, scan-ones, add-zero) (scan_zero n done ls _)
    ∙ scan-numbers l (done ++ n ∷ []) ls s
    ∙ ap (λ k. scan 0 [] (ls ++ k ∷ []) s) (append_assoc done (n ∷ []) l)

scan-lists : (ls done : List (List ℕ)) → scan 0 [] done (print_lists ls) ≡ done ++ ls
unfolding print_lists
scan-lists [] done = unfold scan in rw append-nil
scan-lists (l ∷ ls) done =
    scan-numbers l [] done (print_lists ls)
    ∙ scan-lists ls (done ++ l ∷ [])
    ∙ append_assoc done (l ∷ []) ls

int_of_list-int_list : (z : ℤ) → int_of_list (int_list z) ≡ z
unfolding int_of_list int_list
int_of_list-int_list (pos n) = refl
int_of_list-int_list (negsuc n) = refl

claims_back : (c : InternalJwtClaims) → claims_of (claim_lists c) ≡ ok c
unfolding claims_of claim_lists
claims_back c = λ i. ok (record {
  subject = c.subject;
  expires_at = int_of_list-int_list c.expires_at i;
  issued_at = int_of_list-int_list c.issued_at i;
  scopes = c.scopes;
})

pub sample_laws : JsonLaws sample_library
unfolding sample_library
sample_laws = record {
  IsText = λ s. Unit;
  marshal-IsBytes = λ c. lists-IsBytes (claim_lists c);
  unmarshal-marshal = λ c _ _. ap claims_of (scan-lists (claim_lists c) []) ∙ claims_back c;
}

pub sample-IsText : (s : Bytes) → sample_laws.IsText s
unfolding sample_laws
sample-IsText s = tt
