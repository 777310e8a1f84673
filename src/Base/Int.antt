-- ===== src/Base/Int.antt =====
-- Signed integers (Go's int64, within its range) over the native numbers.
use Prim.Native.Nat.{ℕ}
use mathlib.Core.Path.{◌≡◌}
use mathlib.Core.Logic.{◌↔◌}
use mathlib.Core.Bool.{Bool, true, false}
use native.Mathlib.Omega.{arith}
use go_api_management.Base.Tests.{◌==◌}

-- `negsuc n` is -(n + 1).
pub data ℤ : Type 0 where
  pos : ℕ → ℤ
  negsuc : ℕ → ℤ

-- `z <= 0`
abbrev pub is_nonpositive : ℤ → Bool
is_nonpositive (pos n) = n == 0
is_nonpositive (negsuc n) = true

-- `z == n` for a constant `n` that is not negative
abbrev pub is_nat : ℤ → ℕ → Bool
is_nat (pos m) n = m == n
is_nat (negsuc m) n = false

pub is_nat_iff : (z : ℤ) (n : ℕ) → (is_nat z n ≡ true) ↔ (z ≡ pos n)
is_nat_iff (pos m) n = ground arith
is_nat_iff (negsuc m) n = ground arith
