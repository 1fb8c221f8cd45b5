-- ===== src/Device/Virtio.antt =====
-- `handle_virtio_read` on a packet that is to be segmented.
use tun_rs.Base.{
  sym, subst, ℕ, ◌+◌, ◌*◌, ◌/◌, ◌≤◌, ◌<◌, ◌⊎◌, inl, inr, ◌≡◌, ◌≢◌, refl, Bool, false, if◌then◌else◌,
  ◌==◌, Bool-cases, List, [], ◌∷◌, length, get_or, IsBytes, ok, panic, at_ok, arith,
}
use tun_rs.Base.Bytes.{IsBytes-get_or}
use tun_rs.Checksum.{CpuFeatures}
use tun_rs.Virtio.{VirtioNetHdr}
use tun_rs.Virtio.Codec.{IsHdr}
use tun_rs.Gso.{gso_split}
use tun_rs.Gso.Loop.{AllBytes, AllRoom}
use tun_rs.Gso.Start.{IsSplittable}
use tun_rs.Gso.Whole.{Splits, gso_split-Splits, gso_split-ne-panic}
use tun_rs.Device.{offset_beyond, check_gso_type, transport_hdr_len, handle_virtio_read}

-- The length of the transport header, as the packet has it.
abbrev pub transport_len : VirtioNetHdr → List ℕ → ℕ
transport_len hdr input =
    if hdr.gso_type == 5 then 8 else get_or input (hdr.csum_start + 12) 0 / 16 * 4

-- The header with the length that the packet has instead of the kernel's.
abbrev pub corrected : VirtioNetHdr → List ℕ → VirtioNetHdr
corrected hdr input = record hdr { hdr_len = hdr.csum_start + transport_len hdr input }

-- A TCP or UDP packet of an IP version that is to be segmented: `hdr_len` of its header is not used.
pub record IsGsoPacket (input : List ℕ) (hdr : VirtioNetHdr) (is_v6 : Bool) : Type 0 where
  pub widths : IsHdr hdr
  pub bytes : IsBytes input
  pub positive : 0 < hdr.gso_size
  pub version : get_or input 0 0 / 16 ≡ (if is_v6 then 6 else 4)
  pub ip_header : (if is_v6 then 40 else 20) ≤ hdr.csum_start
  pub transport :
      (hdr.gso_type ≡ 5) × (hdr.csum_offset ≡ 6)
      ⊎ (hdr.gso_type ≡ (if is_v6 then 4 else 1))
        × (hdr.csum_offset ≡ 16)
        × (20 ≤ transport_len hdr input)
  pub headers_fit : hdr.csum_start + transport_len hdr input ≤ length input
  pub headers_u16 : hdr.csum_start + 60 < 65536

roomy_offset :
    (offset need : ℕ) (bufs : List (List ℕ))
    → AllRoom (offset + need) bufs
    → offset_beyond offset bufs ≡ false
unfolding offset_beyond
roomy_offset offset need [] h = refl
roomy_offset offset need (buf ∷ bufs) h = ground (arith, roomy_offset offset need bufs h.1)

AllRoom-assoc :
    (a b c : ℕ) (bufs : List (List ℕ)) → AllRoom (a + (b + c)) bufs → AllRoom (a + b + c) bufs
AllRoom-assoc a b c bufs h =
    let same : a + (b + c) ≡ a + b + c = omega arith in subst (λ n. AllRoom n bufs) same h

module _ (input : List ℕ) (hdr : VirtioNetHdr) (is_v6 : Bool)
    (g : IsGsoPacket input hdr is_v6) where
  transport_len-le : transport_len hdr input ≤ 60
  transport_len-le = ground (arith, IsBytes-get_or input (hdr.csum_start + 12) g.bytes)

  corrected-IsSplittable : IsSplittable input (corrected hdr input) is_v6
  corrected-IsSplittable = record {
    widths = record {
      flags_u8 = g.widths.flags_u8;
      gso_type_u8 = g.widths.gso_type_u8;
      hdr_len_u16 = omega (arith, transport_len-le, g.headers_u16);
      gso_size_u16 = g.widths.gso_size_u16;
      csum_start_u16 = g.widths.csum_start_u16;
      csum_offset_u16 = g.widths.csum_offset_u16;
    };
    bytes = g.bytes;
    positive = g.positive;
    ip_header = g.ip_header;
    transport = ground arith;
    headers_fit = g.headers_fit;
  }

  check_ok : check_gso_type hdr input ≡ ok (if is_v6 then 6 else 4)
  unfolding check_gso_type
  check_ok = rw (at_ok input 0 nonempty, g.version) (ground arith)
    where
      nonempty : 0 < length input
      nonempty = ground arith

  hdr_len_ok : transport_hdr_len hdr input ≡ ok (hdr.csum_start + transport_len hdr input)
  unfolding transport_hdr_len
  hdr_len_ok = elim g.transport [
    | inl (udp, _) ↦ ground arith
    | inr (tcp, _, least) ↦
        ground
          (arith, at_ok input (hdr.csum_start + 12), transport_len-le, g.headers_fit, g.headers_u16)
  ]

  module _ (cpu : CpuFeatures) (bufs : List (List ℕ)) (sizes : List ℕ) (offset : ℕ)
      (few : length bufs ≤ 65535) (enough_sizes : length bufs ≤ length sizes) where
    enters :
        offset_beyond offset bufs ≡ false
        → handle_virtio_read cpu hdr input bufs sizes offset
          ≡ gso_split cpu input (corrected hdr input) bufs sizes offset is_v6
    unfolding handle_virtio_read
    enters inside = ground (
      arith, inside, check_ok, hdr_len_ok, transport_len-le, g.headers_fit, g.headers_u16,
      g.transport,
    )

    -- For a TCP or UDP packet that is to be segmented (`IsGsoPacket`), whatever header length the kernel
    -- wrote, `handle_virtio_read` is `gso_split` with the header length of the packet: with at most 65535
    -- buffers of bytes that have room for a full segment behind the offset and can hold the payload
    -- together, and a size for each, it succeeds, and the buffers hold right segments (`Splits`).
    pub handle_virtio_read-Splits :
        AllBytes bufs
        → AllRoom (offset + ((corrected hdr input).hdr_len + hdr.gso_size)) bufs
        → length input ≤ (corrected hdr input).hdr_len + length bufs * hdr.gso_size
        → Splits cpu input
            (corrected hdr input)
            bufs
            sizes
            offset
            is_v6
            (handle_virtio_read cpu hdr input bufs sizes offset)
    handle_virtio_read-Splits bytes room fits =
        let split =
          gso_split-Splits cpu input (corrected hdr input) bufs sizes offset is_v6
            corrected-IsSplittable bytes enough_sizes few
            (AllRoom-assoc offset (corrected hdr input).hdr_len hdr.gso_size bufs room) fits in
        subst (λ result. Splits cpu input (corrected hdr input) bufs sizes offset is_v6 result)
          (sym
            (enters (roomy_offset offset ((corrected hdr input).hdr_len + hdr.gso_size) bufs room)))
          split

    -- On such a packet, with a size for each of at most 65535 buffers of bytes, `handle_virtio_read`
    -- does not panic, whatever the room of the buffers and the offset.
    pub handle_virtio_read-ne-panic :
        AllBytes bufs → handle_virtio_read cpu hdr input bufs sizes offset ≢ panic
    unfolding handle_virtio_read
    handle_virtio_read-ne-panic bytes = elim (Bool-cases (offset_beyond offset bufs)) [
      | inl beyond ↦ ground (arith, beyond)
      | inr inside ↦ rw (enters inside) (
          gso_split-ne-panic cpu input (corrected hdr input) bufs sizes offset is_v6
            corrected-IsSplittable bytes enough_sizes)
    ]
