-- ===== src/Virtio/Tests.antt =====
-- The header's theorems at a concrete header and buffer.
use tun_rs.Base.{ℕ, ◌≡◌, refl, List, [], ◌∷◌, drop, ok, arith, replicate, write}
use tun_rs.Virtio.{VirtioNetHdr, little, big, decode, encode, virtio_net_hdr_len}
use tun_rs.Virtio.Codec.{decode-encode}

abbrev tcp_hdr : VirtioNetHdr
tcp_hdr = record {
  flags = 1;
  gso_type = 1;
  hdr_len = 40;
  gso_size = 1448;
  csum_start = 20;
  csum_offset = 16;
}

abbrev buffer : List ℕ
buffer = replicate 12 7

encoded_little :
    encode little tcp_hdr buffer ≡ ok (1 ∷ 1 ∷ 40 ∷ 0 ∷ 168 ∷ 5 ∷ 20 ∷ 0 ∷ 16 ∷ 0 ∷ 7 ∷ 7 ∷ [])
unfolding encode write
encoded_little = refl

decode-encode_example :
    (out : List ℕ) × (encode big tcp_hdr buffer ≡ ok out)
    × (decode big out ≡ ok tcp_hdr)
    × (drop virtio_net_hdr_len out ≡ drop virtio_net_hdr_len buffer)
decode-encode_example = decode-encode big tcp_hdr buffer (omega arith) (omega arith)
