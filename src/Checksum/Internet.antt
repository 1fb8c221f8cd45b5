-- ===== src/Checksum/Internet.antt =====
-- `checksum` is the Internet checksum of RFC 1071, and what is written into a checksum field makes the
-- receiver's check pass.
use tun_rs.Base.{
  ℕ, ◌+◌, ◌*◌, ◌/◌, ◌%◌, ◌≤◌, ◌<◌, ◌≡◌, ap, ◌∙◌, List, ◌∷◌, length, put, get_or, be16_bytes, not16,
  arith, IsBytes, length-put,
}
use tun_rs.Base.Bytes.{IsBytes-put, be16_bytes-IsBytes}
use tun_rs.Checksum.{checksum, checksum_no_fold, pseudo_header_checksum_no_fold, CpuFeatures}
use tun_rs.Checksum.Sum.{
  u64_modulus, word_sum, high_sum, scalar_sum, dword_sum-word_sum, high_sum-le-word_sum,
  dword_sum-le, word_sum-put,
}
use tun_rs.Checksum.Fold.{ones_complement, fold64, ones_complement-le, ones_complement-not16}
use tun_rs.Checksum.Simd.{checksum_no_fold-eq-scalar}

-- Multiples of 65535 that come with something do not count.
ones_complement-absorb : (n k : ℕ) → k ≤ n → ones_complement (n + 65535 * k) ≡ ones_complement n
unfolding ones_complement
ones_complement-absorb n k h = ground arith

-- No accumulator overflows: 2 ^ 30 for each byte at most are added.
abbrev pub Fits : List ℕ → ℕ → Type 0
Fits b initial = initial + length b * 1073741824 < u64_modulus

module _ (cpu : CpuFeatures) where
  pub no_fold_lem :
      (b : List ℕ) (initial : ℕ)
      → IsBytes b
      → Fits b initial
      → checksum_no_fold cpu b initial ≡ initial + word_sum b + 65535 * high_sum b
  no_fold_lem b initial bytes fits = omega (
    arith,
    checksum_no_fold-eq-scalar cpu b initial (omega arith),
    scalar_sum b initial (omega arith),
    dword_sum-le b bytes,
    dword_sum-word_sum b,
  )

  -- For a list of bytes and an initial value with initial + 2 ^ 30 * length < 2 ^ 64, `checksum` is the
  -- one's complement sum of the initial value and of the 16-bit big-endian words of the bytes, an odd
  -- last byte padded by zero. It holds for any processor features.
  pub checksum_lem :
      (b : List ℕ) (initial : ℕ)
      → IsBytes b
      → Fits b initial
      → checksum cpu b initial ≡ ones_complement (initial + word_sum b)
  unfolding checksum
  checksum_lem b initial bytes fits =
      let e = no_fold_lem b initial bytes fits in
      let f =
        fold64 (checksum_no_fold cpu b initial)
          (omega (arith, dword_sum-le b bytes, dword_sum-word_sum b)) in
      let g =
        ones_complement-absorb (initial + word_sum b) (high_sum b)
          (omega (arith, high_sum-le-word_sum b)) in
      rw (f, e, g) (omega (arith, ones_complement-le (initial + word_sum b)))

  -- The pseudo-header's contribution, and what the 32-bit words add to it by their high halves.
  abbrev pub pseudo_sum : ℕ → List ℕ → List ℕ → ℕ → ℕ
  pseudo_sum protocol src dst len = word_sum src + word_sum dst + protocol + len

  abbrev pub pseudo_high : ℕ → List ℕ → List ℕ → ℕ
  pseudo_high protocol src dst = high_sum src + high_sum dst + protocol

  -- For addresses of at most 32 bytes together, a protocol below 256 and a length below 2 ^ 16, the
  -- accumulator of the pseudo-header is the sum of the 16-bit words of the addresses, of the protocol and
  -- of the length, plus 65535 times the high halves of its 32-bit words.
  pub pseudo_lem :
      (protocol : ℕ) (src dst : List ℕ) (len : ℕ)
      → IsBytes src
      → IsBytes dst
      → protocol < 256
      → len < 65536
      → length src + length dst ≤ 32
      → pseudo_header_checksum_no_fold cpu protocol src dst len
        ≡ pseudo_sum protocol src dst len + 65535 * pseudo_high protocol src dst
  unfolding pseudo_header_checksum_no_fold word_sum high_sum
  pseudo_lem protocol src dst len hs hd hp hl fits =
      let s = checksum_no_fold cpu src 0 in
      let d = checksum_no_fold cpu dst s in
      omega (
        arith,
        no_fold_lem src 0 hs (omega arith),
        dword_sum-le src hs,
        dword_sum-word_sum src,
        no_fold_lem dst s hd (
            omega (
              arith,
              no_fold_lem src 0 hs (omega arith),
              dword_sum-le src hs,
              dword_sum-word_sum src,
            )),
        dword_sum-le dst hd,
        dword_sum-word_sum dst,
        no_fold_lem (0 ∷ protocol ∷ be16_bytes len) d (omega arith) (
            omega (
              arith,
              no_fold_lem dst s hd (
                  omega (
                    arith,
                    no_fold_lem src 0 hs (omega arith),
                    dword_sum-le src hs,
                    dword_sum-word_sum src,
                  )),
              dword_sum-le dst hd,
              dword_sum-word_sum dst,
              no_fold_lem src 0 hs (omega arith),
              dword_sum-le src hs,
              dword_sum-word_sum src,
            )),
      )

  -- For bytes whose two bytes at an even position `k` are zero, and an initial value with
  -- initial + 2 ^ 30 * length < 2 ^ 64: when the complement of their checksum is written at `k`, the
  -- checksum of the whole is 0xFFFF, which is what a receiver looks for.
  pub checksum-put-not16 :
      (b : List ℕ) (k initial : ℕ)
      → IsBytes b
      → Fits b initial
      → k % 2 ≡ 0
      → k + 2 ≤ length b
      → get_or b k 0 ≡ 0
      → get_or b (k + 1) 0 ≡ 0
      → checksum cpu (put b k (be16_bytes (not16 (checksum cpu b initial)))) initial ≡ 65535
  checksum-put-not16 b k initial bytes fits even inside z0 z1 =
      let c = checksum cpu b initial in
      let filled = put b k (be16_bytes (not16 c)) in
      let e = checksum_lem b initial bytes fits in
      checksum_lem filled initial
        (IsBytes-put b k (be16_bytes (not16 c)) bytes (be16_bytes-IsBytes (not16 c)))
        (rw length-put fits)
      ∙ ap ones_complement (rest c (omega (arith, e, ones_complement-le (initial + word_sum b))))
      ∙ rw e (ones_complement-not16 (initial + word_sum b))
    where
      rest :
          (c : ℕ)
          → c ≤ 65535
          → initial + word_sum (put b k (be16_bytes (not16 c))) ≡ initial + word_sum b + not16 c
      rest c h =
          omega (arith, word_sum-put b k (not16 c / 256 % 256) (not16 c % 256) even inside, z0, z1)
