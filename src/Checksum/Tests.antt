-- ===== src/Checksum/Tests.antt =====
-- Runs of src/platform/linux/checksum.rs on small slices, and its theorems at concrete inputs.
use tun_rs.Base.{ℕ, ◌+◌, ◌≡◌, refl, true, false, List, [], ◌∷◌, not16, arith}
use tun_rs.Checksum.{CpuFeatures, checksum, checksum_no_fold_scalar, checksum_no_fold_avx2}
use tun_rs.Checksum.Sum.{word_sum}
use tun_rs.Checksum.Fold.{ones_complement}
use tun_rs.Checksum.Simd.{avx2-eq-scalar}
use tun_rs.Checksum.Internet.{checksum_lem}

abbrev plain_cpu : CpuFeatures
plain_cpu = record { avx2 = false; sse41 = false }

abbrev fast_cpu : CpuFeatures
fast_cpu = record { avx2 = true; sse41 = true }

-- An IPv4 header with its checksum field cleared; the checksum is 0xb861.
abbrev ip_header : List ℕ
ip_header =
    0x45 ∷ 0 ∷ 0 ∷ 0x73 ∷ 0 ∷ 0 ∷ 0x40 ∷ 0 ∷ 0x40 ∷ 0x11 ∷ 0 ∷ 0 ∷ 0xc0 ∷ 0xa8 ∷ 0 ∷ 1 ∷ 0xc0 ∷ 0xa8
    ∷ 0 ∷ 0xc7 ∷ []

-- 37 bytes: a round of AVX2, two of SSE4.1, and an odd rest.
abbrev odd_slice : List ℕ
odd_slice =
    1 ∷ 2 ∷ 3 ∷ 4 ∷ 5 ∷ 6 ∷ 7 ∷ 8 ∷ 9 ∷ 10 ∷ 11 ∷ 12 ∷ 13 ∷ 14 ∷ 15 ∷ 16 ∷ 17 ∷ 18 ∷ 19 ∷ 20 ∷ 21
    ∷ 22 ∷ 23 ∷ 24 ∷ 25 ∷ 26 ∷ 27 ∷ 28 ∷ 29 ∷ 30 ∷ 31 ∷ 255 ∷ 254 ∷ 253 ∷ 252 ∷ 251 ∷ 250 ∷ []

header_checksum : not16 (checksum plain_cpu ip_header 0) ≡ 0xb861
unfolding checksum
header_checksum = refl

avx2_run : checksum_no_fold_avx2 odd_slice 7 ≡ checksum_no_fold_scalar odd_slice 7
unfolding checksum_no_fold_avx2 checksum_no_fold_scalar
avx2_run = refl

avx2-eq-scalar_example : checksum_no_fold_avx2 odd_slice 7 ≡ checksum_no_fold_scalar odd_slice 7
avx2-eq-scalar_example = avx2-eq-scalar odd_slice 7 (omega arith)

checksum_lem_example : checksum fast_cpu odd_slice 7 ≡ ones_complement (7 + word_sum odd_slice)
checksum_lem_example = checksum_lem fast_cpu odd_slice 7 (omega arith) (omega arith)
