-- ===== src/Checksum/Sum.antt =====
-- What the accumulation loops add up, as plain sums: big-endian 32-bit words, and the 16-bit words of
-- RFC 1071.
use Prim.Native.Nat.add
use tun_rs.Base.{
  put, ℕ, zero, suc, ◌+◌, ◌*◌, ◌%◌, ◌≤◌, ◌<◌, ◌≡◌, List, [], ◌∷◌, ◌++◌, length, get_or, add64, be16,
  be32, arith, IsBytes,
}
use tun_rs.Checksum.{checksum_no_fold_scalar}

-- 2 ^ 64, where a `u64` wraps.
abbrev pub u64_modulus : ℕ
u64_modulus = 18446744073709551616

-- The sum of the 32-bit words and of the padded rest.
unfoldable pub dword_sum : List ℕ → ℕ
dword_sum (a ∷ b ∷ c ∷ d ∷ rest) = be32 a b c d + dword_sum rest
dword_sum [] = 0
dword_sum (a ∷ []) = a * 256
dword_sum (a ∷ b ∷ []) = be16 a b
dword_sum (a ∷ b ∷ c ∷ []) = be16 a b + c * 256

-- The sum of the 16-bit words, an odd last byte padded by zero on the right.
unfoldable pub word_sum : List ℕ → ℕ
word_sum [] = 0
word_sum (a ∷ []) = a * 256
word_sum (a ∷ b ∷ rest) = be16 a b + word_sum rest

-- What the high halves of the 32-bit words add up to.
unfoldable pub high_sum : List ℕ → ℕ
high_sum (a ∷ b ∷ c ∷ d ∷ rest) = be16 a b + high_sum rest
high_sum _ = 0

-- The scalar loop computes the sum of the words, modulo 2 ^ 64.
pub scalar_sum :
    (b : List ℕ) (acc : ℕ)
    → acc < u64_modulus
    → checksum_no_fold_scalar b acc ≡ (acc + dword_sum b) % u64_modulus
unfolding checksum_no_fold_scalar dword_sum
scalar_sum [] acc h = omega arith
scalar_sum (a ∷ []) acc h = omega arith
scalar_sum (a ∷ b ∷ []) acc h = omega arith
scalar_sum (a ∷ b ∷ c ∷ []) acc h = omega arith
scalar_sum (a ∷ b ∷ c ∷ d ∷ rest) acc h =
    omega (arith, scalar_sum rest (add64 acc (be32 a b c d)) (omega arith))

pub dword_sum-word_sum : (b : List ℕ) → dword_sum b ≡ word_sum b + 65535 * high_sum b
unfolding dword_sum word_sum high_sum
dword_sum-word_sum [] = omega arith
dword_sum-word_sum (a ∷ []) = omega arith
dword_sum-word_sum (a ∷ b ∷ []) = omega arith
dword_sum-word_sum (a ∷ b ∷ c ∷ []) = omega arith
dword_sum-word_sum (a ∷ b ∷ c ∷ d ∷ rest) = omega (arith, dword_sum-word_sum rest)

pub high_sum-le-word_sum : (b : List ℕ) → high_sum b ≤ word_sum b
unfolding word_sum high_sum
high_sum-le-word_sum [] = omega arith
high_sum-le-word_sum (a ∷ []) = omega arith
high_sum-le-word_sum (a ∷ b ∷ []) = omega arith
high_sum-le-word_sum (a ∷ b ∷ c ∷ []) = omega arith
high_sum-le-word_sum (a ∷ b ∷ c ∷ d ∷ rest) = omega (arith, high_sum-le-word_sum rest)

-- Bytes add at most 2 ^ 30 each to the sum.
pub dword_sum-le : (b : List ℕ) → IsBytes b → dword_sum b ≤ length b * 1073741824
unfolding dword_sum
dword_sum-le [] h = omega arith
dword_sum-le (a ∷ []) h = omega arith
dword_sum-le (a ∷ b ∷ []) h = omega arith
dword_sum-le (a ∷ b ∷ c ∷ []) h = omega arith
dword_sum-le (a ∷ b ∷ c ∷ d ∷ rest) h = omega (arith, dword_sum-le rest h.1.1.1.1)

-- Overwriting the aligned word at `k` replaces it in the sum.
pub word_sum-put :
    (l : List ℕ) (k x y : ℕ)
    → k % 2 ≡ 0
    → k + 2 ≤ length l
    → word_sum (put l k (x ∷ y ∷ [])) + be16 (get_or l k 0) (get_or l (k + 1) 0)
      ≡ word_sum l + be16 x y
unfolding word_sum
word_sum-put [] k x y even h = absurd (omega arith)
word_sum-put (a ∷ []) k x y even h = absurd (omega arith)
word_sum-put (a ∷ b ∷ l) zero x y even h = omega arith
word_sum-put (a ∷ b ∷ l) (suc zero) x y even h = absurd (omega arith)
word_sum-put (a ∷ b ∷ l) (suc (suc k)) x y even h =
    simp (add.suc) (omega (arith, word_sum-put l k x y (omega arith) (omega arith)))

pub word_sum-append :
    (l m : List ℕ) → length l % 2 ≡ 0 → word_sum (l ++ m) ≡ word_sum l + word_sum m
unfolding word_sum
word_sum-append [] m even = omega arith
word_sum-append (a ∷ []) m even = absurd (omega arith)
word_sum-append (a ∷ b ∷ l) m even = omega (arith, word_sum-append l m (omega arith))

-- Each byte counts for 255 * 256 at most.
pub word_sum-le : (b : List ℕ) → IsBytes b → word_sum b ≤ length b * 65280
unfolding word_sum
word_sum-le [] h = omega arith
word_sum-le (a ∷ []) h = omega arith
word_sum-le (a ∷ b ∷ rest) h = omega (arith, word_sum-le rest h.1.1)
