-- ===== src/Gso/Tests.antt =====
-- Runs of `gso_split` and `gso_none_checksum` on small packets, and their theorems at concrete inputs.
use tun_rs.Base.{
  ℕ, ◌<◌, ◌≤◌, ◌⊎◌, inr, ◌≡◌, ◌≢◌, refl, false, List, [], ◌∷◌, get_or, drop, replicate, ok, panic,
  Outcome, arith, at, slice, write, write_at, read_u16, read_u32, write_u16, write_u32,
}
use tun_rs.Checksum.{CpuFeatures, checksum}
use tun_rs.Virtio.{VirtioNetHdr}
use tun_rs.Gso.{Split, gso_split, gso_none_checksum}
use tun_rs.Gso.Start.{IsSplittable}
use tun_rs.Gso.Whole.{Splits, gso_split-Splits, gso_split-ne-panic, gso_split-checked}
use tun_rs.Gso.Plain.{gso_none_checksum_lem}

abbrev pub cpu : CpuFeatures
cpu = record { avx2 = false; sse41 = false }

-- A UDP datagram over IPv4 with five bytes of payload.
abbrev pub udp_packet : List ℕ
udp_packet =
    0x45 ∷ 0 ∷ 0 ∷ 33 ∷ 0x12 ∷ 0x34 ∷ 0x40 ∷ 0 ∷ 64 ∷ 17 ∷ 0 ∷ 0 ∷ 10 ∷ 0 ∷ 0 ∷ 1 ∷ 10 ∷ 0 ∷ 0 ∷ 2
    ∷ 0x27 ∷ 0x10 ∷ 0x27 ∷ 0x11 ∷ 0 ∷ 13 ∷ 0 ∷ 0 ∷ 1 ∷ 2 ∷ 3 ∷ 4 ∷ 5 ∷ []

abbrev pub udp_hdr : VirtioNetHdr
udp_hdr = record {
  flags = 1;
  gso_type = 5;
  hdr_len = 28;
  gso_size = 2;
  csum_start = 20;
  csum_offset = 6;
}

abbrev pub three_buffers : List (List ℕ)
three_buffers = replicate 32 0 ∷ replicate 32 0 ∷ replicate 32 0 ∷ []

abbrev pub three_sizes : List ℕ
three_sizes = 0 ∷ 0 ∷ 0 ∷ []

udp-IsSplittable : IsSplittable udp_packet udp_hdr false
udp-IsSplittable = record {
  widths = omega arith;
  bytes = omega arith;
  positive = omega arith;
  ip_header = omega arith;
  transport = inr (refl, omega arith, refl);
  headers_fit = omega arith;
}

abbrev outcome_sizes : Outcome Split → List ℕ
outcome_sizes (ok split) = split.sizes
outcome_sizes _ = []

udp_sizes :
    outcome_sizes (gso_split cpu udp_packet udp_hdr three_buffers three_sizes 1 false)
    ≡ 30 ∷ 30 ∷ 29 ∷ []
unfolding gso_split write slice read_u16 read_u32 write_u16 write_u32 write_at at
udp_sizes = refl

-- A checksum field behind the end of a full output slice: `gso_split` panics.
far_csum_panics :
    gso_split cpu udp_packet (record udp_hdr { csum_offset = 10 }) three_buffers three_sizes 2 false
    ≡ panic
unfolding gso_split write slice read_u16 read_u32 write_u16 write_u32 write_at at
far_csum_panics = refl

gso_split-Splits_example :
    Splits cpu udp_packet udp_hdr three_buffers three_sizes 1 false
      (gso_split cpu udp_packet udp_hdr three_buffers three_sizes 1 false)
gso_split-Splits_example =
    gso_split-Splits cpu udp_packet udp_hdr three_buffers three_sizes 1 false udp-IsSplittable
      (omega arith) (omega arith) (omega arith) (omega arith) (omega arith)

udp_returns :
    (split : Split) × (gso_split cpu udp_packet udp_hdr three_buffers three_sizes 1 false
      ≡ ok split)
udp_returns =
    let splits =
      gso_split-Splits cpu udp_packet udp_hdr three_buffers three_sizes 1 false udp-IsSplittable
        (omega arith) (omega arith) (omega arith) (omega arith) (omega arith) in
    (splits.split, splits.returns)

gso_split-checked_example :
    (3 ≤ 3) × (3 ≤ 65535) × (0 < 2) × (20 ≤ 28) × (20 ≤ 20) × (28 ≤ 33) × (27 < 33) × (28 ≤ 28)
gso_split-checked_example =
    gso_split-checked cpu udp_packet udp_hdr three_buffers three_sizes 1 false udp_returns.1

gso_split-ne-panic_example :
    gso_split cpu udp_packet udp_hdr three_buffers three_sizes 9 false ≢ panic
gso_split-ne-panic_example =
    gso_split-ne-panic cpu udp_packet udp_hdr three_buffers three_sizes 9 false udp-IsSplittable
      (omega arith) (omega arith)

-- The five bytes are summed with the pseudo-header's sum in the field.
abbrev pub partial_packet : List ℕ
partial_packet = 9 ∷ 9 ∷ 1 ∷ 2 ∷ 0x12 ∷ 0x34 ∷ 5 ∷ []

gso_none_checksum_lem_example :
    (out : List ℕ) × (gso_none_checksum cpu partial_packet 2 2 ≡ ok out)
    × (checksum cpu (drop 2 out) 0x1234 ≡ 65535)
    × ((i : ℕ) → (i < 4) ⊎ (6 ≤ i) → get_or out i 0 ≡ get_or partial_packet i 0)
gso_none_checksum_lem_example =
    gso_none_checksum_lem cpu partial_packet 2 2 (omega arith) (omega arith) (omega arith)
      (omega arith) refl
