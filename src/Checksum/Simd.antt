-- ===== src/Checksum/Simd.antt =====
-- The vector variants compute what the scalar loop computes.
use tun_rs.Base.{
  ℕ, zero, suc, ◌+◌, ◌%◌, ◌≤◌, ◌<◌, ◌≡◌, refl, ap, ◌∙◌, List, [], ◌∷◌, leb, length, drop, get_or,
  add64, be32, arith, Bool-cases, inl, inr, leb→le, length-drop, get_or-take, get_or-drop,
  drop-drop,
}
use native.Mathlib.Nat.{add-zero}
use tun_rs.Checksum.{
  checksum_no_fold_scalar, checksum_no_fold_avx2, checksum_no_fold_sse41, checksum_no_fold,
  CpuFeatures, Lanes4, Lanes2, avx2_step, avx2_loop, sse41_step, sse41_loop,
}
use tun_rs.Checksum.Sum.{dword_sum, scalar_sum, u64_modulus}

-- The big-endian 32-bit word at a position.
abbrev word_at : List ℕ → ℕ → ℕ
word_at b i = be32 (get_or b i 0) (get_or b (i + 1) 0) (get_or b (i + 2) 0) (get_or b (i + 3) 0)

dword_sum_front : (b : List ℕ) → 4 ≤ length b → dword_sum b ≡ word_at b 0 + dword_sum (drop 4 b)
unfolding dword_sum
dword_sum_front [] h = absurd (omega arith)
dword_sum_front (a ∷ []) h = absurd (omega arith)
dword_sum_front (a ∷ b ∷ []) h = absurd (omega arith)
dword_sum_front (a ∷ b ∷ c ∷ []) h = absurd (omega arith)
dword_sum_front (a ∷ b ∷ c ∷ d ∷ rest) h = refl

dword_sum-drop :
    (k : ℕ) (b : List ℕ)
    → k + 4 ≤ length b
    → dword_sum (drop k b) ≡ word_at b k + dword_sum (drop (k + 4) b)
dword_sum-drop k b h =
    dword_sum_front (drop k b) (omega (arith, length-drop k b))
    ∙ simp (drop-drop, get_or-drop, add-zero)

lanes_16 :
    (b : List ℕ)
    → 16 ≤ length b
    → dword_sum b ≡ word_at b 0 + word_at b 4 + word_at b 8 + word_at b 12 + dword_sum (drop 16 b)
lanes_16 b h = omega (
  arith,
  dword_sum-drop 0 b (omega arith),
  dword_sum-drop 4 b (omega arith),
  dword_sum-drop 8 b (omega arith),
  dword_sum-drop 12 b (omega arith),
)

sse41_step_lem :
    (b : List ℕ) (s : Lanes2)
    → sse41_step b s ≡ record {
      low = add64 (add64 s.low (word_at b 0)) (word_at b 8);
      high = add64 (add64 s.high (word_at b 4)) (word_at b 12);
    }
unfolding sse41_step
sse41_step_lem b s = simp get_or-take

sse41_loop_lem :
    (fuel : ℕ) (b : List ℕ) (s : Lanes2) (acc : ℕ)
    → length b < fuel
    → acc < u64_modulus
    → sse41_loop fuel b s acc ≡ (acc + s.low + s.high + dword_sum b) % u64_modulus
unfolding sse41_loop
sse41_loop_lem zero b s acc h ha = elim h [ ]
sse41_loop_lem (suc fuel) b s acc h ha = elim (Bool-cases (leb 16 (length b))) [
  | inl more ↦ rw more (
      sse41_loop_lem fuel (drop 16 b) (sse41_step b s) acc
        (omega (arith, length-drop 16 b, leb→le _ _ more)) ha
      ∙ omega (
        arith,
        lanes_16 b (leb→le _ _ more),
        ap (λ (t : Lanes2). t.low) (sse41_step_lem b s),
        ap (λ (t : Lanes2). t.high) (sse41_step_lem b s),
      ))
  | inr done ↦ rw done (omega (arith, scalar_sum b (add64 (add64 acc s.low) s.high) (omega arith)))
]

lanes_32 :
    (b : List ℕ)
    → 32 ≤ length b
    → dword_sum b
      ≡ word_at b 0
        + word_at b 4
        + word_at b 8
        + word_at b 12
        + word_at b 16
        + word_at b 20
        + word_at b 24
        + word_at b 28
        + dword_sum (drop 32 b)
lanes_32 b h = omega (
  arith,
  lanes_16 b (omega arith),
  dword_sum-drop 16 b (omega arith),
  dword_sum-drop 20 b (omega arith),
  dword_sum-drop 24 b (omega arith),
  dword_sum-drop 28 b (omega arith),
)

avx2_step_lem :
    (b : List ℕ) (s : Lanes4)
    → avx2_step b s ≡ record {
      lane0 = add64 (add64 s.lane0 (word_at b 0)) (word_at b 16);
      lane1 = add64 (add64 s.lane1 (word_at b 4)) (word_at b 20);
      lane2 = add64 (add64 s.lane2 (word_at b 8)) (word_at b 24);
      lane3 = add64 (add64 s.lane3 (word_at b 12)) (word_at b 28);
    }
unfolding avx2_step
avx2_step_lem b s = simp (get_or-take, get_or-drop)

avx2_loop_lem :
    (fuel : ℕ) (b : List ℕ) (s : Lanes4) (acc : ℕ)
    → length b < fuel
    → acc < u64_modulus
    → avx2_loop fuel b s acc
      ≡ (acc + s.lane0 + s.lane1 + s.lane2 + s.lane3 + dword_sum b) % u64_modulus
unfolding avx2_loop
avx2_loop_lem zero b s acc h ha = elim h [ ]
avx2_loop_lem (suc fuel) b s acc h ha = elim (Bool-cases (leb 32 (length b))) [
  | inl more ↦ rw more (
      avx2_loop_lem fuel (drop 32 b) (avx2_step b s) acc
        (omega (arith, length-drop 32 b, leb→le _ _ more)) ha
      ∙ omega (
        arith,
        lanes_32 b (leb→le _ _ more),
        ap (λ (t : Lanes4). t.lane0) (avx2_step_lem b s),
        ap (λ (t : Lanes4). t.lane1) (avx2_step_lem b s),
        ap (λ (t : Lanes4). t.lane2) (avx2_step_lem b s),
        ap (λ (t : Lanes4). t.lane3) (avx2_step_lem b s),
      ))
  | inr done ↦ rw done (
      omega (
        arith,
        scalar_sum b (add64 (add64 (add64 (add64 acc s.lane0) s.lane1) s.lane2) s.lane3)
            (omega arith),
      ))
]

-- The AVX2 variant computes what the scalar one computes, for every slice and every initial value
-- below 2 ^ 64, wrap-around of the 64-bit additions included.
pub avx2-eq-scalar :
    (b : List ℕ) (initial : ℕ)
    → initial < u64_modulus
    → checksum_no_fold_avx2 b initial ≡ checksum_no_fold_scalar b initial
unfolding checksum_no_fold_avx2
avx2-eq-scalar b initial h = ground (
  arith,
  avx2_loop_lem (suc (length b)) b (record { lane0 = 0; lane1 = 0; lane2 = 0; lane3 = 0 }) initial
      (omega arith) h,
  scalar_sum b initial h,
)

-- The SSE4.1 variant computes what the scalar one computes, for every slice and every initial value
-- below 2 ^ 64, wrap-around of the 64-bit additions included.
pub sse41-eq-scalar :
    (b : List ℕ) (initial : ℕ)
    → initial < u64_modulus
    → checksum_no_fold_sse41 b initial ≡ checksum_no_fold_scalar b initial
unfolding checksum_no_fold_sse41
sse41-eq-scalar b initial h = ground (
  arith,
  sse41_loop_lem (suc (length b)) b (record { low = 0; high = 0 }) initial (omega arith) h,
  scalar_sum b initial h,
)

-- Whatever the processor offers, the dispatcher computes what the scalar loop computes.
pub checksum_no_fold-eq-scalar :
    (cpu : CpuFeatures) (b : List ℕ) (initial : ℕ)
    → initial < u64_modulus
    → checksum_no_fold cpu b initial ≡ checksum_no_fold_scalar b initial
unfolding checksum_no_fold
checksum_no_fold-eq-scalar cpu b initial h =
    ground (arith, avx2-eq-scalar b initial h, sse41-eq-scalar b initial h)
