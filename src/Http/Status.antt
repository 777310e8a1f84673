-- ===== src/Http/Status.antt =====
-- Statuses of responses.
use go_api_management.Base.{some, none, ◌≡◌, ◌≢◌, ℕ, ap}

-- A response with another status is not one with this.
pub other_status : {n k : ℕ} → some n ≡ some k → n ≢ k → ⊥
other_status h ne = absurd (ne (ap (λ o. elim o [ none ↦ 0 | some m ↦ m ]) h))
