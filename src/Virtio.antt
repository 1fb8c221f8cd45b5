-- ===== src/Virtio.antt =====
-- src/platform/linux/offload.rs: the `virtio_net` header that stands before each packet, its constants,
-- and its copy to and from a buffer.
pub mod Codec
mod Tests
use tun_rs.Base.{
  ℕ, ◌+◌, ◌*◌, ◌/◌, ◌%◌, ◌<◌, List, [], ◌∷◌, ltb, if◌then◌else◌, length, get_or, Outcome, ok, err,
  too_short, fail_if, write, ◌>>=◌, ◌>>◌,
}

abbrev pub virtio_net_hdr_gso_none : ℕ
virtio_net_hdr_gso_none = 0

abbrev pub virtio_net_hdr_f_needs_csum : ℕ
virtio_net_hdr_f_needs_csum = 1

abbrev pub virtio_net_hdr_gso_tcpv4 : ℕ
virtio_net_hdr_gso_tcpv4 = 1

abbrev pub virtio_net_hdr_gso_tcpv6 : ℕ
virtio_net_hdr_gso_tcpv6 = 4

abbrev pub virtio_net_hdr_gso_udp_l4 : ℕ
virtio_net_hdr_gso_udp_l4 = 5

pub record VirtioNetHdr : Type 0 where
  pub flags : ℕ
  pub gso_type : ℕ
  pub hdr_len : ℕ
  pub gso_size : ℕ
  pub csum_start : ℕ
  pub csum_offset : ℕ

-- `VirtioNetHdr::default()`.
abbrev pub default_hdr : VirtioNetHdr
default_hdr = record {
  flags = 0;
  gso_type = 0;
  hdr_len = 0;
  gso_size = 0;
  csum_start = 0;
  csum_offset = 0;
}

-- `size_of::<VirtioNetHdr>()`: two `u8` and four aligned `u16`, with no padding under `repr(C)`.
abbrev pub virtio_net_hdr_len : ℕ
virtio_net_hdr_len = 10

-- The byte order of the target: the header's fields are in native order.
pub data Endian : Type 0 where
  little : Endian
  big : Endian

abbrev pub u16_at : Endian → List ℕ → ℕ → ℕ
u16_at little buf i = get_or buf i 0 + get_or buf (i + 1) 0 * 256
u16_at big buf i = get_or buf i 0 * 256 + get_or buf (i + 1) 0

abbrev pub u16_bytes : Endian → ℕ → List ℕ → List ℕ
u16_bytes little v rest = v % 256 ∷ v / 256 ∷ rest
u16_bytes big v rest = v / 256 ∷ v % 256 ∷ rest

-- The header's bytes in memory.
abbrev pub hdr_bytes : Endian → VirtioNetHdr → List ℕ
hdr_bytes e hdr =
    hdr.flags
    ∷ hdr.gso_type
    ∷ u16_bytes e hdr.hdr_len
        (u16_bytes e hdr.gso_size (u16_bytes e hdr.csum_start (u16_bytes e hdr.csum_offset [])))

-- `VirtioNetHdr::decode`.
unfoldable pub decode : Endian → List ℕ → Outcome VirtioNetHdr
decode e buf = do
  fail_if (ltb (length buf) virtio_net_hdr_len) too_short
  ok (record {
    flags = get_or buf 0 0;
    gso_type = get_or buf 1 0;
    hdr_len = u16_at e buf 2;
    gso_size = u16_at e buf 4;
    csum_start = u16_at e buf 6;
    csum_offset = u16_at e buf 8;
  })

-- `VirtioNetHdr::encode`, which returns the buffer that it leaves.
unfoldable pub encode : Endian → VirtioNetHdr → List ℕ → Outcome (List ℕ)
encode e hdr buf = do
  fail_if (ltb (length buf) virtio_net_hdr_len) too_short
  write buf 0 (hdr_bytes e hdr)
