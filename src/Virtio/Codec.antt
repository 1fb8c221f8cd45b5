-- ===== src/Virtio/Codec.antt =====
-- Encoding and decoding the header are inverse to one another.
use tun_rs.Base.{
  ℕ, write, ◌↔◌, ◌++◌, ◌<◌, ◌≤◌, ◌≡◌, refl, List, length, drop, ok, err, too_short, arith, put,
}
use tun_rs.Base.Put.{put_front}
use tun_rs.Virtio.{VirtioNetHdr, Endian, little, big, decode, encode, hdr_bytes, virtio_net_hdr_len}

-- The fields have the widths of the struct.
pub record IsHdr (hdr : VirtioNetHdr) : Type 0 where
  pub flags_u8 : hdr.flags < 256
  pub gso_type_u8 : hdr.gso_type < 256
  pub hdr_len_u16 : hdr.hdr_len < 65536
  pub gso_size_u16 : hdr.gso_size < 65536
  pub csum_start_u16 : hdr.csum_start < 65536
  pub csum_offset_u16 : hdr.csum_offset < 65536

encode_lem :
    (e : Endian) (hdr : VirtioNetHdr) (buf : List ℕ)
    → virtio_net_hdr_len ≤ length buf
    → encode e hdr buf ≡ ok (put buf 0 (hdr_bytes e hdr))
unfolding encode write
encode_lem little hdr buf h = ground arith
encode_lem big hdr buf h = ground arith

laid_out :
    (e : Endian) (hdr : VirtioNetHdr) (buf : List ℕ)
    → virtio_net_hdr_len ≤ length buf
    → put buf 0 (hdr_bytes e hdr) ≡ hdr_bytes e hdr ++ drop virtio_net_hdr_len buf
laid_out little hdr buf h = put_front buf (hdr_bytes little hdr) h
laid_out big hdr buf h = put_front buf (hdr_bytes big hdr) h

pub decode-hdr_bytes :
    (e : Endian) (hdr : VirtioNetHdr) (rest : List ℕ)
    → IsHdr hdr
    → decode e (hdr_bytes e hdr ++ rest) ≡ ok hdr
unfolding decode
decode-hdr_bytes little hdr rest v = ground arith
decode-hdr_bytes big hdr rest v = ground arith

drop-hdr_bytes :
    (e : Endian) (hdr : VirtioNetHdr) (rest : List ℕ)
    → drop virtio_net_hdr_len (hdr_bytes e hdr ++ rest) ≡ rest
drop-hdr_bytes little hdr rest = refl
drop-hdr_bytes big hdr rest = refl

-- For a header whose fields have their widths and a buffer of at least ten bytes, `encode` succeeds,
-- `decode` reads the same header back, for either byte order, and the bytes behind the header stay.
pub decode-encode :
    (e : Endian) (hdr : VirtioNetHdr) (buf : List ℕ)
    → IsHdr hdr
    → virtio_net_hdr_len ≤ length buf
    → (out : List ℕ) × (encode e hdr buf ≡ ok out)
      × (decode e out ≡ ok hdr)
      × (drop virtio_net_hdr_len out ≡ drop virtio_net_hdr_len buf)
decode-encode e hdr buf v h =
    let rest = drop virtio_net_hdr_len buf in
    (
      put buf 0 (hdr_bytes e hdr),
      encode_lem e hdr buf h,
      rw (laid_out e hdr buf h) (decode-hdr_bytes e hdr rest v),
      rw (laid_out e hdr buf h) (drop-hdr_bytes e hdr rest),
    )

-- `decode` and `encode` each refuse a buffer with the error for a short one exactly when it is shorter
-- than the header's ten bytes.
pub codec_short :
    (e : Endian) (hdr : VirtioNetHdr) (buf : List ℕ)
    → ((decode e buf ≡ err too_short) ↔ (length buf < virtio_net_hdr_len))
      × ((encode e hdr buf ≡ err too_short) ↔ (length buf < virtio_net_hdr_len))
unfolding decode encode write
codec_short little hdr buf = ground arith
codec_short big hdr buf = ground arith
