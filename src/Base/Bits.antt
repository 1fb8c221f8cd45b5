-- ===== src/Base/Bits.antt =====
-- The masks that the code uses, as arithmetic.
use Prim.Native.Nat.{
  ℕ, zero, suc, ◌+◌, ◌-◌, ◌*◌, ◌/◌, ◌%◌, ◌^◌, ◌≤◌, ◌<◌, min, bit_and, digits, bit_and-bitwise,
}
use mathlib.Core.Path.{◌≡◌, refl, ap, ◌≡⟨◌⟩◌, ◌∎}
use native.Mathlib.Omega.{arith}
use native.Mathlib.Nat.{
  pow-suc, one-le-pow, mod-lt, mod-eq_of_lt, mul-add-mod_self_right, div-add-mod,
}

-- The recursion behind `bit_and` does not see its fuel, once that reaches the first operand.
fuel_irrelevant :
    (n m a b : ℕ) → a ≤ n → a ≤ m → digits (λ y. zero) min n a b ≡ digits (λ y. zero) min m a b
fuel_irrelevant zero zero a b p q = refl
fuel_irrelevant zero (suc m) zero b p q = refl
fuel_irrelevant zero (suc m) (suc a) b p q = absurd (omega arith)
fuel_irrelevant (suc n) zero zero b p q = refl
fuel_irrelevant (suc n) zero (suc a) b p q = absurd (omega arith)
fuel_irrelevant (suc n) (suc m) zero b p q = refl
fuel_irrelevant (suc n) (suc m) (suc a) b p q =
    omega (arith, fuel_irrelevant n m (suc a / 2) (b / 2) (omega arith) (omega arith))

-- `bit_and` from its lowest binary digit.
pub bit_and-halves : (a b : ℕ) → bit_and a b ≡ bit_and (a / 2) (b / 2) * 2 + min (a % 2) (b % 2)
bit_and-halves zero b = omega (arith, bit_and-bitwise 0 b, bit_and-bitwise 0 (b / 2))
bit_and-halves (suc a) b = omega (
  arith,
  bit_and-bitwise (suc a) b,
  bit_and-bitwise (suc a / 2) (b / 2),
  fuel_irrelevant a (suc a / 2) (suc a / 2) (b / 2) (omega arith) (omega arith),
)

bit_and-zero_below : (n a : ℕ) → a ≤ n → bit_and a 0 ≡ 0
bit_and-zero_below n zero h = refl
bit_and-zero_below zero (suc a) h = absurd (omega arith)
bit_and-zero_below (suc n) (suc a) h =
    omega (arith, bit_and-halves (suc a) 0, bit_and-zero_below n (suc a / 2) (omega arith))

-- A remainder by an even number, from that of the half.
mod_double : (a m : ℕ) → 0 < m → a % (m * 2) ≡ a / 2 % m * 2 + a % 2
mod_double a m h =
    a % (m * 2)
    ≡⟨ ap (λ (t : ℕ). t % (m * 2)) whole ⟩ (q * (m * 2) + r) % (m * 2)
    ≡⟨ mul-add-mod_self_right q (m * 2) r ⟩ r % (m * 2)
    ≡⟨ mod-eq_of_lt (omega (arith, mod-lt (a / 2) h)) ⟩ r ∎
  where
    q : ℕ
    q = a / 2 / m

    r : ℕ
    r = a / 2 % m * 2 + a % 2

    whole : a ≡ q * (m * 2) + r
    whole = omega (arith, div-add-mod (a / 2) m)

-- A mask of `k` ones keeps the remainder by `2 ^ k`.
pub bit_and_ones : (k a : ℕ) → bit_and a (2 ^ k - 1) ≡ a % 2 ^ k
bit_and_ones zero a = omega (arith, bit_and-zero_below a a (omega arith))
bit_and_ones (suc k) a =
    rw (pow-suc 2 k) (step (2 ^ k) (one-le-pow k 2 (omega arith)) (bit_and_ones k))
  where
    step :
        (m : ℕ)
        → 0 < m
        → ((b : ℕ) → bit_and b (m - 1) ≡ b % m)
        → bit_and a (m * 2 - 1) ≡ a % (m * 2)
    step m pos ih =
        let half : (m * 2 - 1) / 2 ≡ m - 1 = omega arith in
        omega (
          arith,
          bit_and-halves a (m * 2 - 1),
          ap (λ (t : ℕ). bit_and (a / 2) t) half,
          ih (a / 2),
          mod_double a m pos,
        )

bit_and-le_below : (n a b : ℕ) → a ≤ n → bit_and a b ≤ a
bit_and-le_below n zero b h = omega (arith, bit_and-bitwise 0 b)
bit_and-le_below zero (suc a) b h = absurd (omega arith)
bit_and-le_below (suc n) (suc a) b h =
    omega (arith, bit_and-halves (suc a) b, bit_and-le_below n (suc a / 2) (b / 2) (omega arith))

-- A mask keeps no more than there is.
pub bit_and-le : (a b : ℕ) → bit_and a b ≤ a
bit_and-le a b = bit_and-le_below a a b (omega arith)
