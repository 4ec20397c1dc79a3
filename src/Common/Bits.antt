-- ===== src/Common/Bits.antt =====
-- The bitwise union of a byte shifted left and a byte below it, as a sum.
use Prim.Native.Nat.{
  ℕ, zero, suc, ◌+◌, ◌*◌, ◌/◌, ◌%◌, ◌≤◌, ◌<◌, max, bit_or, digits, bit_or-bitwise,
}
use mathlib.Core.Path.{◌≡◌, refl}
use native.Mathlib.Omega.{arith}

abbrev merged : ℕ → ℕ → ℕ → ℕ
merged n a b = digits (λ y. y) max n a b

-- The digit loop does not depend on fuel beyond its first argument.
merged_fuel : (n m a b : ℕ) → a ≤ n → a ≤ m → merged n a b ≡ merged m a b
merged_fuel zero zero a b p q = refl
merged_fuel zero (suc m) zero b p q = refl
merged_fuel zero (suc m) (suc a) b p q = absurd (omega arith)
merged_fuel (suc n) zero zero b p q = refl
merged_fuel (suc n) zero (suc a) b p q = absurd (omega arith)
merged_fuel (suc n) (suc m) zero b p q = refl
merged_fuel (suc n) (suc m) (suc a) b p q =
    omega (arith, merged_fuel n m (suc a / 2) (b / 2) (omega arith) (omega arith))

zero-bit_or : (b : ℕ) → bit_or 0 b ≡ b
zero-bit_or b = bit_or-bitwise 0 b

low_digit : (a b : ℕ) → bit_or a b ≡ bit_or (a / 2) (b / 2) * 2 + max (a % 2) (b % 2)
low_digit zero b = omega (arith, zero-bit_or b, zero-bit_or (b / 2))
low_digit (suc a) b = omega (
  arith,
  bit_or-bitwise (suc a) b,
  bit_or-bitwise (suc a / 2) (b / 2),
  merged_fuel a (suc a / 2) (suc a / 2) (b / 2) (omega arith) (omega arith),
)

bit_or-zero_below : (n a : ℕ) → a ≤ n → bit_or a 0 ≡ a
bit_or-zero_below n zero h = refl
bit_or-zero_below zero (suc a) h = absurd (omega arith)
bit_or-zero_below (suc n) (suc a) h =
    omega (arith, low_digit (suc a) 0, bit_or-zero_below n (suc a / 2) (omega arith))

-- Shifting by a factor `p` leaves the room below `p` free.
abbrev Shifted : ℕ → Type 0
Shifted p = (a b : ℕ) → b < p → bit_or (a * p) b ≡ a * p + b

Shifted-one : Shifted 1
Shifted-one a zero h = ground (arith, bit_or-zero_below a a (omega arith))
Shifted-one a (suc b) h = absurd (omega arith)

Shifted-double : (p : ℕ) → Shifted p → Shifted (p * 2)
Shifted-double p ih a b h = ground (arith, ih a (b / 2) (omega arith), low_digit (a * (p * 2)) b)

pub bit_or-shifted : (a b : ℕ) → b < 256 → bit_or (a * 256) b ≡ a * 256 + b
bit_or-shifted = Shifted-double 128 (
    Shifted-double 64 (
      Shifted-double 32 (
        Shifted-double 16
          (Shifted-double 8 (Shifted-double 4 (Shifted-double 2 (Shifted-double 1 Shifted-one)))))))
