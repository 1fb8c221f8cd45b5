-- ===== src/Checksum/Fold.antt =====
-- The fold of `checksum` computes the one's complement sum of RFC 1071.
use tun_rs.Base.{
  ℕ, zero, suc, ◌+◌, ◌-◌, ◌/◌, ◌%◌, ◌≤◌, ◌<◌, ◌≡◌, sym, ◌∙◌, ltb, if◌then◌else◌, arith, not16, ◌==◌,
  Bool-cases, inl, inr,
}
use tun_rs.Base.Bits.{bit_and_ones}
use tun_rs.Checksum.{fold, fold_step}
use tun_rs.Checksum.Sum.{u64_modulus}

-- The one's complement sum of numbers that add up to `n`: the number from 1 to 65535 that is `n`
-- modulo 65535, and 0 only for 0.
unfoldable pub ones_complement : ℕ → ℕ
ones_complement n = if n == 0 then 0 else (n - 1) % 65535 + 1

pub fold_step_lem : (n : ℕ) → fold_step n ≡ n / 65536 + n % 65536
fold_step_lem n = omega (arith, bit_and_ones 16 n)

pub ones_complement-fold_step : (n : ℕ) → ones_complement (fold_step n) ≡ ones_complement n
unfolding ones_complement
ones_complement-fold_step n = rw (fold_step_lem n) (ground arith)

pub ones_complement_small : (n : ℕ) → n ≤ 65535 → ones_complement n ≡ n
unfolding ones_complement
ones_complement_small n h = ground arith

-- With `f` rounds left, an accumulator below `bound f` is folded to 16 bits; five rounds do for 64 bits.
abbrev bound : ℕ → ℕ
bound zero = 65536
bound (suc zero) = 131071
bound (suc (suc zero)) = 4294967296
bound (suc (suc (suc zero))) = 281470681743360
bound (suc (suc (suc (suc zero)))) = 9223372036854775808
bound (suc (suc (suc (suc (suc f))))) = u64_modulus

bound-fold_step : (f n : ℕ) → n < bound (suc f) → fold_step n < bound f
bound-fold_step zero n h = rw (fold_step_lem n) (omega arith)
bound-fold_step (suc zero) n h = rw (fold_step_lem n) (omega arith)
bound-fold_step (suc (suc zero)) n h = rw (fold_step_lem n) (omega arith)
bound-fold_step (suc (suc (suc zero))) n h = rw (fold_step_lem n) (omega arith)
bound-fold_step (suc (suc (suc (suc zero)))) n h = rw (fold_step_lem n) (omega arith)
bound-fold_step (suc (suc (suc (suc (suc f))))) n h = rw (fold_step_lem n) (omega arith)

fold_lem : (f n : ℕ) → n < bound f → fold f n ≡ ones_complement n
unfolding fold
fold_lem zero n h = sym (ones_complement_small n (omega arith))
fold_lem (suc f) n h = elim (Bool-cases (ltb 0xFFFF n)) [
  | inl large ↦
      rw large (fold_lem f (fold_step n) (bound-fold_step f n h) ∙ ones_complement-fold_step n)
  | inr small ↦ rw small (sym (ones_complement_small n (ground arith)))
]

-- Eight rounds are enough for the fold of `checksum`: on any accumulator below 2 ^ 64 it ends at the
-- one's complement sum of the accumulator.
pub fold64 : (n : ℕ) → n < u64_modulus → fold 8 n ≡ ones_complement n
fold64 n h = fold_lem 8 n h

pub ones_complement-le : (n : ℕ) → ones_complement n ≤ 65535
unfolding ones_complement
ones_complement-le n = ground arith

-- A sum and the complement of its fold make 65535.
pub ones_complement-not16 : (n : ℕ) → ones_complement (n + not16 (ones_complement n)) ≡ 65535
unfolding ones_complement
ones_complement-not16 n = ground arith
