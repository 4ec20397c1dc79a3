-- ===== src/Common/Integers.antt =====
-- The integers over the native natural numbers, with the tests of the configuration.
use Prim.Native.Nat.{ℕ}
use mathlib.Core.Bool.{Bool, true, false, not}
use go_pkg.Common.Tests.{leb, ltb, ◌==◌}

-- `negsuc n` is -(n + 1).
pub data ℤ : Type 0 where
  pos : ℕ → ℤ
  negsuc : ℕ → ℤ

abbrev pub is_positive : ℤ → Bool
is_positive (pos n) = ltb 0 n
is_positive (negsuc n) = false

abbrev pub is_zero : ℤ → Bool
is_zero (pos n) = n == 0
is_zero (negsuc n) = false

abbrev pub is_negative : ℤ → Bool
is_negative (pos n) = false
is_negative (negsuc n) = true

-- `x <= y`.
unfoldable pub lez : ℤ → ℤ → Bool
lez (pos m) (pos n) = leb m n
lez (pos m) (negsuc n) = false
lez (negsuc m) (pos n) = true
lez (negsuc m) (negsuc n) = leb n m

abbrev pub ltz : ℤ → ℤ → Bool
ltz x y = not (lez y x)
