-- ===== src/Framed/Splitter.antt =====
-- src/async_device/async_framed.rs: `PacketSplitter`, which holds the segments of one read.
use tun_rs.Base.{
  ℕ, zero, suc, ◌+◌, ◌-◌, List, [], ◌∷◌, ◌++◌, leb, length, take, replicate, map, if◌then◌else◌,
  Option, none, some, Outcome, ok, panic, ◌>>=◌, ◌>>◌, fail_if, slice, slice_from, length_below_hdr,
}
use tun_rs.Checksum.{CpuFeatures}
use tun_rs.Virtio.{Endian, decode, virtio_net_hdr_len}
use tun_rs.Gro.{nth}
use tun_rs.Device.{handle_virtio_read}

pub record PacketSplitter : Type 0 where
  pub bufs : List (List ℕ)
  pub sizes : List ℕ
  pub recv_index : ℕ
  pub recv_num : ℕ
  pub recv_buffer_size : ℕ

-- `PacketSplitter::new`, with IDEAL_BATCH_SIZE buffers.
abbrev pub new_splitter : ℕ → PacketSplitter
new_splitter recv_buffer_size = record {
  bufs = replicate 128 (replicate recv_buffer_size 0);
  sizes = replicate 128 0;
  recv_index = 0;
  recv_num = 0;
  recv_buffer_size = recv_buffer_size;
}

-- `buf.resize(size, 0)`.
abbrev pub resize : ℕ → List ℕ → List ℕ
resize size buf = take size buf ++ replicate (size - length buf) 0

-- `for i in 0..num { bufs[i].truncate(sizes[i]) }`.
unfoldable pub truncate_all : ℕ → List (List ℕ) → List ℕ → Outcome (List (List ℕ))
truncate_all zero bufs sizes = ok bufs
truncate_all (suc num) [] sizes = panic
truncate_all (suc num) (buf ∷ bufs) [] = panic
truncate_all (suc num) (buf ∷ bufs) (size ∷ sizes) = do
  rest ← truncate_all num bufs sizes
  ok (take size buf ∷ rest)

module _ (cpu : CpuFeatures) (order : Endian) where
  -- `handle`: the splitter, and the input as the call leaves it.
  unfoldable pub handle : PacketSplitter → List ℕ → Outcome (PacketSplitter × List ℕ)
  unfolding truncate_all
  handle splitter input = do
    fail_if (leb (length input) virtio_net_hdr_len) length_below_hdr
    let bufs = map (resize splitter.recv_buffer_size) splitter.bufs
    front ← slice input 0 virtio_net_hdr_len
    hdr ← decode order front
    packet ← slice_from input virtio_net_hdr_len
    split ← handle_virtio_read cpu hdr packet bufs splitter.sizes 0
    truncated ← truncate_all split.count split.out_bufs split.sizes
    ok (
      record splitter {
        bufs = truncated;
        sizes = split.sizes;
        recv_num = split.count;
        recv_index = 0;
      },
      front ++ split.input,
    )

-- `next`: the next segment.
unfoldable pub next : PacketSplitter → Outcome (Option (List ℕ) × PacketSplitter)
next splitter = if leb splitter.recv_num splitter.recv_index then ok (none, splitter) else (do
  buf ← nth splitter.bufs splitter.recv_index
  ok (some buf, record splitter { recv_index = splitter.recv_index + 1 }))

abbrev pub set_recv_buffer_size : PacketSplitter → ℕ → PacketSplitter
set_recv_buffer_size splitter size = record splitter { recv_buffer_size = size }
