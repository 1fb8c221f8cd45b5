-- ===== src/Gso/Pseudo.antt =====
-- What the loop of `gso_split` starts from, and the pseudo-header of its segments.
use tun_rs.Base.{
  ℕ, ◌+◌, ◌-◌, ◌*◌, ◌≤◌, ◌<◌, ◌≡◌, false, if◌then◌else◌, List, length, get_or, take, drop, as_u16,
  IsBytes, ok, arith, length-take, slice_ok,
}
use tun_rs.Base.Bytes.{IsBytes-drop, IsBytes-take}
use tun_rs.Checksum.{CpuFeatures, pseudo_header_checksum_no_fold}
use tun_rs.Checksum.Internet.{pseudo_lem}
use tun_rs.Checksum.Sum.{word_sum-le, high_sum-le-word_sum}
use tun_rs.Virtio.Codec.{IsHdr}
use tun_rs.Gso.{Plan, segment_pseudo, src_addr_offset, addr_len}
use tun_rs.Gso.Transport.{HasTransport}

-- What `plan_split` has established when the loop starts.
pub record IsPlan (plan : Plan) : Type 0 where
  pub hdr : IsHdr plan.hdr
  pub bytes : IsBytes plan.input
  pub ip_header : (if plan.is_v6 then 40 else 20) ≤ plan.hdr.csum_start
  pub transport : HasTransport plan
  pub headers_fit : plan.hdr.hdr_len ≤ length plan.input
  pub positive : 0 < plan.hdr.gso_size
  pub ip_clear : plan.is_v6 ≡ false → (get_or plan.input 10 0 ≡ 0) × (get_or plan.input 11 0 ≡ 0)
  pub transport_clear :
      (get_or plan.input (plan.hdr.csum_start + plan.hdr.csum_offset) 0 ≡ 0)
      × (get_or plan.input (plan.hdr.csum_start + plan.hdr.csum_offset + 1) 0 ≡ 0)

-- The addresses of the packet, and the sum of a segment's pseudo-header.
abbrev pub src_addr : Plan → List ℕ
src_addr plan = take (addr_len plan.is_v6) (drop (src_addr_offset plan.is_v6) plan.input)

abbrev pub dst_addr : Plan → List ℕ
dst_addr plan =
    take (addr_len plan.is_v6) (drop (src_addr_offset plan.is_v6 + addr_len plan.is_v6) plan.input)

abbrev pub segment_pseudo_sum : CpuFeatures → Plan → ℕ → ℕ
segment_pseudo_sum cpu plan data_len =
    pseudo_header_checksum_no_fold cpu plan.protocol (src_addr plan) (dst_addr plan)
      (as_u16 (plan.hdr.hdr_len - plan.hdr.csum_start + data_len))

addresses_fit :
    (plan : Plan)
    → IsPlan plan
    → src_addr_offset plan.is_v6 + 2 * addr_len plan.is_v6 ≤ length plan.input
addresses_fit plan v = ground arith

pub segment_pseudo_ok :
    (cpu : CpuFeatures) (plan : Plan) (data_len : ℕ)
    → IsPlan plan
    → segment_pseudo cpu plan data_len ≡ ok (segment_pseudo_sum cpu plan data_len)
unfolding segment_pseudo
segment_pseudo_ok cpu plan data_len v =
    let from = src_addr_offset plan.is_v6 in
    let len = addr_len plan.is_v6 in
    let fit = addresses_fit plan v in
    let src : from + len - from ≡ len = omega arith in
    let dst : from + 2 * len - (from + len) ≡ len = omega arith in
    rw (
      slice_ok plan.input from (from + len) (omega arith) (omega arith),
      slice_ok plan.input (from + len) (from + 2 * len) (omega arith) (omega arith),
      src,
      dst,
    )

address_short : (plan : Plan) → (length (src_addr plan) ≤ 16) × (length (dst_addr plan) ≤ 16)
address_short plan = (
  let len = length-take (addr_len plan.is_v6) (drop (src_addr_offset plan.is_v6) plan.input) in
      ground arith,
  let len =
        length-take (addr_len plan.is_v6)
          (drop (src_addr_offset plan.is_v6 + addr_len plan.is_v6) plan.input) in
      ground arith,
)

-- The pseudo-header adds less than 2 ^ 40.
pub segment_pseudo-lt :
    (cpu : CpuFeatures) (plan : Plan) (data_len : ℕ)
    → IsPlan plan
    → segment_pseudo_sum cpu plan data_len < 1099511627776
segment_pseudo-lt cpu plan data_len v =
    let src =
      IsBytes-take (addr_len plan.is_v6) (drop (src_addr_offset plan.is_v6) plan.input)
        (IsBytes-drop (src_addr_offset plan.is_v6) plan.input v.bytes) in
    let dst =
      IsBytes-take (addr_len plan.is_v6)
        (drop (src_addr_offset plan.is_v6 + addr_len plan.is_v6) plan.input)
        (IsBytes-drop (src_addr_offset plan.is_v6 + addr_len plan.is_v6) plan.input v.bytes) in
    let short = address_short plan in
    let proto : plan.protocol < 256 = omega arith in
    omega (
      arith,
      pseudo_lem cpu plan.protocol (src_addr plan) (dst_addr plan)
          (as_u16 (plan.hdr.hdr_len - plan.hdr.csum_start + data_len)) src dst proto (omega arith)
          (omega arith),
      word_sum-le (src_addr plan) src,
      word_sum-le (dst_addr plan) dst,
      high_sum-le-word_sum (src_addr plan),
      high_sum-le-word_sum (dst_addr plan),
    )
