-- ===== src/Errors/Laws.antt =====
-- Fallible calls that succeed.
use go_api_management.Base.{◌⊎◌, inl, inr, ◌≡◌, refl, Bool, true, false, String}
use go_api_management.Errors.{Err, Result, ok, err, ◌>>=◌, refuse, wrapping}

-- What a block of steps that succeeded has behind its first step.
module _ {ℓ κ} {X : Type ℓ} {Y : Type κ} where
  pub >>=-eq-ok :
      (step : Result X) (rest : X → Result Y) {y : Y} (done : (step >>= rest) ≡ ok y)
      → (x : X) × (step ≡ ok x) × (rest x ≡ ok y)
  >>=-eq-ok (err why) rest done = cc
  >>=-eq-ok (ok x) rest done = (x, refl, done)

pub refuse-eq-ok : (b : Bool) (e : Err) {u : Unit {0}} → refuse b e ≡ ok u → b ≡ false
refuse-eq-ok true e h = cc
refuse-eq-ok false e h = refl

pub wrapping-eq-ok {ℓ} :
    {A : Type ℓ} (text : String) (m : Result A) {a : A} → wrapping text m ≡ ok a → m ≡ ok a
wrapping-eq-ok text (ok a) h = h
wrapping-eq-ok text (err e) h = cc

pub ok-injective {ℓ} : {A : Type ℓ} {a b : A} → ok a ≡ ok b → a ≡ b
ok-injective h = cc

pub Result-cases {ℓ} :
    {A : Type ℓ} (r : Result A) → ((e : Err) × (r ≡ err e)) ⊎ ((a : A) × (r ≡ ok a))
Result-cases (ok a) = inr (a, refl)
Result-cases (err e) = inl (e, refl)
