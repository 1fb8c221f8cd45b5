-- ===== src/Base/Ors.antt =====
-- `bit_or` from its lowest binary digit.
use Prim.Native.Nat.{ℕ, zero, suc, ◌+◌, ◌*◌, ◌/◌, ◌%◌, ◌≤◌, max, bit_or, digits, bit_or-bitwise}
use mathlib.Core.Path.{◌≡◌, refl}
use native.Mathlib.Omega.{arith}

-- The recursion behind `bit_or` does not see its fuel, once that reaches the first operand.
fuel_irrelevant :
    (n m a b : ℕ) → a ≤ n → a ≤ m → digits (λ y. y) max n a b ≡ digits (λ y. y) max m a b
fuel_irrelevant zero zero a b p q = refl
fuel_irrelevant zero (suc m) zero b p q = refl
fuel_irrelevant zero (suc m) (suc a) b p q = absurd (omega arith)
fuel_irrelevant (suc n) zero zero b p q = refl
fuel_irrelevant (suc n) zero (suc a) b p q = absurd (omega arith)
fuel_irrelevant (suc n) (suc m) zero b p q = refl
fuel_irrelevant (suc n) (suc m) (suc a) b p q =
    omega (arith, fuel_irrelevant n m (suc a / 2) (b / 2) (omega arith) (omega arith))

pub bit_or-halves : (a b : ℕ) → bit_or a b ≡ bit_or (a / 2) (b / 2) * 2 + max (a % 2) (b % 2)
bit_or-halves zero b = omega (arith, bit_or-bitwise 0 b, bit_or-bitwise 0 (b / 2))
bit_or-halves (suc a) b = omega (
  arith,
  bit_or-bitwise (suc a) b,
  bit_or-bitwise (suc a / 2) (b / 2),
  fuel_irrelevant a (suc a / 2) (suc a / 2) (b / 2) (omega arith) (omega arith),
)
