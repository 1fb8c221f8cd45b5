-- ===== src/Checksum.antt =====
-- src/platform/linux/checksum.rs: the Internet checksum, its vector variants, and the pseudo-header.
-- A `__m256i` or `__m128i` is the list of its bytes in the order of memory, and a vector of 64-bit
-- lanes is a record of them.
pub mod Sum
pub mod Fold
pub mod Simd
pub mod Internet
mod Tests
use tun_rs.Base.{
  ℕ, zero, suc, ◌+◌, ◌*◌, ◌/◌, ◌^◌, Bool, List, [], ◌∷◌, ltb, leb, if◌then◌else◌, length, take,
  drop, get_or, add64, be16, be32, be16_bytes, as_u16, map, bit_and, ◌++◌,
}

-- The last one to three bytes of `checksum_no_fold_scalar`. An odd last byte is the high byte of a
-- word: `(byte as u64) << 8`.
abbrev scalar_tail : List ℕ → ℕ → ℕ
scalar_tail [] accumulator = accumulator
scalar_tail (byte ∷ []) accumulator = add64 accumulator (byte * 2 ^ 8)
scalar_tail (a ∷ b ∷ []) accumulator = add64 accumulator (be16 a b)
scalar_tail (a ∷ b ∷ byte ∷ rest) accumulator = add64 (add64 accumulator (be16 a b)) (byte * 2 ^ 8)

-- The loop over chunks of four bytes, and the tail.
pub checksum_no_fold_scalar : List ℕ → ℕ → ℕ
checksum_no_fold_scalar (a ∷ b ∷ c ∷ d ∷ rest) accumulator =
    checksum_no_fold_scalar rest (add64 accumulator (be32 a b c d))
checksum_no_fold_scalar b accumulator = scalar_tail b accumulator

-- `_mm256_set_epi8` and `_mm_set_epi8` name the highest byte first: reversed, the arguments for one
-- half are this mask in the order of memory. Both halves of the 256-bit mask are alike.
abbrev shuffle_mask : List ℕ
shuffle_mask = 3 ∷ 2 ∷ 1 ∷ 0 ∷ 7 ∷ 6 ∷ 5 ∷ 4 ∷ 11 ∷ 10 ∷ 9 ∷ 8 ∷ 15 ∷ 14 ∷ 13 ∷ 12 ∷ []

-- `_mm_shuffle_epi8` with a mask below 16: byte `i` of the result is byte `mask[i]`.
abbrev shuffle128 : List ℕ → List ℕ
shuffle128 v = map (λ i. get_or v i 0) shuffle_mask

-- `_mm256_shuffle_epi8` does so in each half.
abbrev shuffle256 : List ℕ → List ℕ
shuffle256 v = shuffle128 (take 16 v) ++ shuffle128 (drop 16 v)

-- Lane `i` of a vector of little-endian 32-bit lanes, as `_mm_cvtepu32_epi64` and
-- `_mm256_cvtepu32_epi64` widen it.
abbrev lane_u32 : List ℕ → ℕ → ℕ
lane_u32 v i =
    be32 (get_or v (4 * i + 3) 0) (get_or v (4 * i + 2) 0) (get_or v (4 * i + 1) 0)
      (get_or v (4 * i) 0)

-- `sums` of the AVX2 loop, and one `_mm256_add_epi64` of the lanes of a 128-bit half.
pub record Lanes4 : Type 0 where
  pub lane0 : ℕ
  pub lane1 : ℕ
  pub lane2 : ℕ
  pub lane3 : ℕ

abbrev add_epi64_4 : Lanes4 → List ℕ → Lanes4
add_epi64_4 sums half = record {
  lane0 = add64 sums.lane0 (lane_u32 half 0);
  lane1 = add64 sums.lane1 (lane_u32 half 1);
  lane2 = add64 sums.lane2 (lane_u32 half 2);
  lane3 = add64 sums.lane3 (lane_u32 half 3);
}

-- The body of the AVX2 loop on the 32 bytes at the front.
avx2_step : List ℕ → Lanes4 → Lanes4
avx2_step b sums =
    let swapped = shuffle256 (take 32 b) in
    add_epi64_4 (add_epi64_4 sums (take 16 swapped)) (drop 16 swapped)

-- The rest of `checksum_no_fold_avx2` from the loop on. `fuel` bounds the rounds of the loop, and
-- each takes 32 bytes off `b`: more than its length is enough.
avx2_loop : ℕ → List ℕ → Lanes4 → ℕ → ℕ
unfolding avx2_step checksum_no_fold_scalar
avx2_loop zero b sums accumulator = checksum_no_fold_scalar b accumulator
avx2_loop (suc fuel) b sums accumulator =
    let rest = avx2_loop fuel (drop 32 b) (avx2_step b sums) accumulator in
    let total =
      add64 (add64 (add64 (add64 accumulator sums.lane0) sums.lane1) sums.lane2) sums.lane3 in
    if leb 32 (length b) then rest else checksum_no_fold_scalar b total

pub checksum_no_fold_avx2 : List ℕ → ℕ → ℕ
unfolding avx2_loop
checksum_no_fold_avx2 b initial =
    if leb 32 (length b)
    then avx2_loop (suc (length b)) b (record { lane0 = 0; lane1 = 0; lane2 = 0; lane3 = 0 })
        initial
    else checksum_no_fold_scalar b initial

-- The two lanes of the SSE4.1 loop, its body on the 16 bytes at the front, and its loop.
pub record Lanes2 : Type 0 where
  pub low : ℕ
  pub high : ℕ

abbrev add_epi64_2 : Lanes2 → List ℕ → Lanes2
add_epi64_2 sums half = record {
  low = add64 sums.low (lane_u32 half 0);
  high = add64 sums.high (lane_u32 half 1);
}

sse41_step : List ℕ → Lanes2 → Lanes2
sse41_step b sums =
    let swapped = shuffle128 (take 16 b) in add_epi64_2 (add_epi64_2 sums swapped) (drop 8 swapped)

sse41_loop : ℕ → List ℕ → Lanes2 → ℕ → ℕ
unfolding sse41_step checksum_no_fold_scalar
sse41_loop zero b sums accumulator = checksum_no_fold_scalar b accumulator
sse41_loop (suc fuel) b sums accumulator =
    let rest = sse41_loop fuel (drop 16 b) (sse41_step b sums) accumulator in
    let total = add64 (add64 accumulator sums.low) sums.high in
    if leb 16 (length b) then rest else checksum_no_fold_scalar b total

pub checksum_no_fold_sse41 : List ℕ → ℕ → ℕ
unfolding sse41_loop
checksum_no_fold_sse41 b initial =
    if leb 16 (length b)
    then sse41_loop (suc (length b)) b (record { low = 0; high = 0 }) initial
    else checksum_no_fold_scalar b initial

-- What `is_x86_feature_detected!` answers for "avx2" and "sse4.1"; false on any other architecture.
pub record CpuFeatures : Type 0 where
  pub avx2 : Bool
  pub sse41 : Bool

-- `accumulator & 0xFFFF` and `>> 16` of the fold.
abbrev pub fold_step : ℕ → ℕ
fold_step accumulator = accumulator / 2 ^ 16 + bit_and accumulator 0xFFFF

-- The fold of `checksum`. Eight rounds are more than a 64-bit accumulator can take.
pub fold : ℕ → ℕ → ℕ
fold zero accumulator = accumulator
fold (suc fuel) accumulator =
    let rest = fold fuel (fold_step accumulator) in
    if ltb 0xFFFF accumulator then rest else accumulator

module _ (cpu : CpuFeatures) where
  pub checksum_no_fold : List ℕ → ℕ → ℕ
  unfolding checksum_no_fold_avx2 checksum_no_fold_sse41 checksum_no_fold_scalar
  checksum_no_fold b initial =
      if cpu.avx2
      then checksum_no_fold_avx2 b initial
      else (if cpu.sse41
          then checksum_no_fold_sse41 b initial
          else checksum_no_fold_scalar b initial)

  unfoldable pub checksum : List ℕ → ℕ → ℕ
  unfolding checksum_no_fold fold
  checksum b initial = as_u16 (fold 8 (checksum_no_fold b initial))

  unfoldable pub pseudo_header_checksum_no_fold : ℕ → List ℕ → List ℕ → ℕ → ℕ
  unfolding checksum_no_fold
  pseudo_header_checksum_no_fold protocol src_addr dst_addr total_len =
      let sum = checksum_no_fold src_addr 0 in
      let sum' = checksum_no_fold dst_addr sum in
      checksum_no_fold (0 ∷ protocol ∷ be16_bytes total_len) sum'
