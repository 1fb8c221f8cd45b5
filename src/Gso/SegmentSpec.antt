-- ===== src/Gso/SegmentSpec.antt =====
-- What each segment of `gso_split` must be.
use tun_rs.Base.{
  ℕ, ◌+◌, ◌-◌, ◌≡◌, true, false, List, length, take, drop, be16_at, be32_at, as_u16, Outcome, ok,
}
use tun_rs.Checksum.{CpuFeatures, checksum}
use tun_rs.Gso.{Plan, ipproto_tcp, ipproto_udp}
use tun_rs.Gso.Transport.{segment_seq}
use tun_rs.Gso.Pseudo.{segment_pseudo_sum}

-- The bytes of the input that a segment carries.
abbrev pub chunk : Plan → ℕ → ℕ → List ℕ
chunk plan from until = take (until - from) (drop from plan.input)

-- `out` begins with segment `i`, whose payload is the input from `from` to `until`: both checksums
-- verify, and the length and sequence fields say what they should.
pub record IsSegment (cpu : CpuFeatures) (plan : Plan) (i from until : ℕ) (out : List ℕ)
    : Type 0 where
  pub payload : take (until - from) (drop plan.hdr.hdr_len out) ≡ chunk plan from until
  pub transport_checked :
      checksum cpu
        (take
          (plan.hdr.hdr_len + (until - from) - plan.hdr.csum_start)
          (drop plan.hdr.csum_start out))
        (segment_pseudo_sum cpu plan (until - from))
      ≡ 65535
  pub ip_checked :
      plan.is_v6 ≡ false
      → (checksum cpu (take plan.hdr.csum_start out) 0 ≡ 65535)
        × (be16_at out 2 ≡ as_u16 (plan.hdr.hdr_len + (until - from)))
  pub ip_measured :
      plan.is_v6 ≡ true → be16_at out 4 ≡ as_u16 (plan.hdr.hdr_len + (until - from) - 40)
  pub numbered :
      plan.protocol ≡ ipproto_tcp → be32_at out (plan.hdr.csum_start + 4) ≡ segment_seq plan i
  pub measured :
      plan.protocol ≡ ipproto_udp
      → be16_at out (plan.hdr.csum_start + 4)
        ≡ as_u16 (until - from + (plan.hdr.hdr_len - plan.hdr.csum_start))

-- A normal return that made the segment at the front of `out` and kept what stands behind it.
pub record Fills (cpu : CpuFeatures) (plan : Plan) (i from until : ℕ) (out : List ℕ)
    (result : Outcome (List ℕ)) : Type 0 where
  pub out' : List ℕ
  pub returns : result ≡ ok out'
  pub same_length : length out' ≡ length out
  pub behind :
      drop (plan.hdr.hdr_len + (until - from)) out' ≡ drop (plan.hdr.hdr_len + (until - from)) out
  pub segment : IsSegment cpu plan i from until out'
