-- ===== src/Device/Receive.antt =====
-- `handle_virtio_read` on a packet that is not segmented, and `recv_multiple0`.
use tun_rs.Base.{
  ℕ, ◌+◌, ◌-◌, ◌%◌, ◌≤◌, ◌<◌, ◌≡◌, ◌≢◌, ◌⊎◌, refl, ◌∙◌, ap, true, false, List, [], ◌∷◌, ◌++◌,
  length, length-append, length-drop, get_or, take, drop, put, be16, IsBytes, Outcome, ok,
  slice_from_ok, slice_ok, slice_front_ok, write_ok, slice, bit_and, arith,
}
use tun_rs.Checksum.{CpuFeatures, checksum}
use tun_rs.Virtio.{VirtioNetHdr, Endian, little, big, decode, hdr_bytes, virtio_net_hdr_len}
use tun_rs.Virtio.Codec.{IsHdr, decode-hdr_bytes}
use tun_rs.Gso.{Split}
use tun_rs.Gso.Plain.{gso_none_checksum_lem, gso_none_checksum-length}
use tun_rs.Gro.{nth}
use tun_rs.Device.{offset_beyond, deliver, handle_virtio_read, recv_multiple}

module _ (cpu : CpuFeatures) (first : List ℕ) (rest : List (List ℕ)) (size : ℕ) (sizes : List ℕ)
    (offset : ℕ) where
  -- Where a packet that is not segmented ends up.
  abbrev pub delivered : List ℕ → Split
  delivered packet = record {
    input = packet;
    out_bufs = put first offset packet ∷ rest;
    sizes = length packet ∷ sizes;
    count = 1;
  }

  deliver_ok :
      (packet : List ℕ)
      → offset + length packet ≤ length first
      → deliver packet (first ∷ rest) (size ∷ sizes) offset ≡ ok (delivered packet)
  unfolding deliver nth
  deliver_ok packet room = ground (
    arith,
    slice_from_ok first offset (omega arith),
    length-drop offset first,
    write_ok first offset packet room,
  )

  -- For a packet that is not to be segmented and whose transport checksum is left to the receiver, at
  -- most 65535 buffers that all reach to the offset, the first with room for the packet, and a size for
  -- each: when the checksum field lies in the packet at an even offset from `csum_start`,
  -- `handle_virtio_read` succeeds. Behind the offset of the first buffer stands the packet, of which no
  -- byte but the two of the checksum field has changed, with a checksum that verifies; its size is the
  -- packet's length, and every other buffer is as before.
  pub handle_virtio_read_none_lem :
      (hdr : VirtioNetHdr) (input : List ℕ)
      → hdr.gso_type ≡ 0
      → bit_and hdr.flags 1 ≢ 0
      → IsBytes input
      → length input ≤ 4294967296
      → hdr.csum_start + hdr.csum_offset < 65536
      → hdr.csum_start + hdr.csum_offset + 2 ≤ length input
      → hdr.csum_offset % 2 ≡ 0
      → length rest ≤ 65534
      → length rest ≤ length sizes
      → offset_beyond offset rest ≡ false
      → offset + length input ≤ length first
      → (out : List ℕ) × (handle_virtio_read cpu hdr input (first ∷ rest) (size ∷ sizes) offset
          ≡ ok (delivered out))
        × (length out ≡ length input)
        × (checksum cpu (drop hdr.csum_start out) (
              be16
                (get_or input (hdr.csum_start + hdr.csum_offset) 0)
                (get_or input (hdr.csum_start + hdr.csum_offset + 1) 0))
            ≡ 65535)
        × ((i : ℕ)
            → (i < hdr.csum_start + hdr.csum_offset) ⊎ (hdr.csum_start + hdr.csum_offset + 2 ≤ i)
            → get_or out i 0 ≡ get_or input i 0)
  unfolding handle_virtio_read offset_beyond
  handle_virtio_read_none_lem hdr input none needs bytes small in_u16 inside even few enough beyond
        room =
      let checked =
        gso_none_checksum_lem cpu input hdr.csum_start hdr.csum_offset bytes small in_u16 inside
          even in
      let (out, returns, verifies, others) = checked in
      let same =
        gso_none_checksum-length cpu input hdr.csum_start hdr.csum_offset bytes small in_u16 inside
          out returns in
      let delivers = deliver_ok out (omega (arith, same)) in
      (out, ground (arith, returns, delivers), same, verifies, others)

take_front : (xs ys : List ℕ) → take (length xs) (xs ++ ys) ≡ xs
take_front [] ys = refl
take_front (x ∷ xs) ys = ap (λ t. x ∷ t) (take_front xs ys)

exactly :
    (packet tail : List ℕ)
    → take (virtio_net_hdr_len + length packet - virtio_net_hdr_len) (packet ++ tail) ≡ packet
exactly packet tail =
    let size : virtio_net_hdr_len + length packet - virtio_net_hdr_len ≡ length packet =
      omega arith in
    rw size (take_front packet tail)

-- The header and the packet of what the device has read.
hdr_front :
    (order : Endian) (hdr : VirtioNetHdr) (l : List ℕ)
    → slice (hdr_bytes order hdr ++ l) 0 virtio_net_hdr_len ≡ ok (hdr_bytes order hdr)
hdr_front little hdr l = slice_front_ok (hdr_bytes little hdr ++ l) virtio_net_hdr_len (omega arith)
hdr_front big hdr l = slice_front_ok (hdr_bytes big hdr ++ l) virtio_net_hdr_len (omega arith)

decode_front :
    (order : Endian) (hdr : VirtioNetHdr) → IsHdr hdr → decode order (hdr_bytes order hdr) ≡ ok hdr
decode_front little hdr v = decode-hdr_bytes little hdr [] v
decode_front big hdr v = decode-hdr_bytes big hdr [] v

packet_behind :
    (order : Endian) (hdr : VirtioNetHdr) (packet tail : List ℕ)
    → slice
        (hdr_bytes order hdr ++ (packet ++ tail))
        virtio_net_hdr_len
        (virtio_net_hdr_len + length packet)
      ≡ ok packet
packet_behind little hdr packet tail =
    slice_ok (hdr_bytes little hdr ++ (packet ++ tail)) virtio_net_hdr_len
      (virtio_net_hdr_len + length packet) (omega arith) (omega (arith, length-append packet tail))
    ∙ ap ok (exactly packet tail)
packet_behind big hdr packet tail =
    slice_ok (hdr_bytes big hdr ++ (packet ++ tail)) virtio_net_hdr_len
      (virtio_net_hdr_len + length packet) (omega arith) (omega (arith, length-append packet tail))
    ∙ ap ok (exactly packet tail)

module _ (cpu : CpuFeatures) (order : Endian) (read_f : List ℕ → Outcome (ℕ × List ℕ)) where
  -- When the device reads a header in its native byte order with a packet behind it into the original
  -- buffer, `recv_multiple0` with offload hands exactly that header and that packet on to
  -- `handle_virtio_read`, for at least one buffer and as many sizes.
  pub recv_multiple-handle_virtio_read :
      (hdr : VirtioNetHdr) (packet tail original : List ℕ) (bufs : List (List ℕ)) (sizes : List ℕ)
      (offset : ℕ)
      → IsHdr hdr
      → 0 < length packet
      → read_f original
        ≡ ok (virtio_net_hdr_len + length packet, hdr_bytes order hdr ++ (packet ++ tail))
      → 0 < length bufs
      → length bufs ≡ length sizes
      → recv_multiple cpu order read_f true original bufs sizes offset
        ≡ handle_virtio_read cpu hdr packet bufs sizes offset
  unfolding recv_multiple
  recv_multiple-handle_virtio_read hdr packet tail original bufs sizes offset widths some_bytes
        reads nonempty same =
      ground (
        arith,
        reads,
        hdr_front order hdr (packet ++ tail),
        decode_front order hdr widths,
        packet_behind order hdr packet tail,
      )
