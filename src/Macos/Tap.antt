-- ===== src/Macos/Tap.antt =====
-- src/platform/macos/tap/mod.rs: receiving from a pair of `feth` interfaces. One read of the BPF
-- descriptor yields a buffer of records, a header and a packet each; the packets wait in a queue.
-- The header's layout, what a read answers and the state `W` behind the descriptor are parameters.
pub mod Records
pub mod Laid
pub mod Queue
pub mod Scatter
pub mod Multiple
pub mod Stored
use tun_rs.Base.{
  ℕ, zero, suc, ◌+◌, ◌-◌, ◌*◌, ◌/◌, min, Bool, true, false, ◌&&◌, ◌||◌, List, [], ◌∷◌, ◌++◌, ltb,
  leb, ◌==◌, if◌then◌else◌, length, get_elem?, take, drop, put, set, Option, none, some, ◌⊎◌, inl,
  inr, Outcome, ok, err, panic, ◌>>=◌, ◌>>◌, fail_if, slice, IoError, recv_buffer_empty,
  buffer_too_small, sizes_too_short,
}
use tun_rs.Interrupt.{PollAnswer, is_would_block, wait}

-- What the code reads of `libc::bpf_hdr`.
pub record BpfHdr : Type 0 where
  pub bh_caplen : ℕ
  pub bh_hdrlen : ℕ

-- The size of `bpf_hdr`, its bytes as a header, and a read into a fresh buffer of BUFFER_LEN bytes,
-- which answers the count and the buffer.
pub record Bpf (W : Type 0) : Type 0 where
  pub bpf_hdr_size : ℕ
  pub hdr_of : List ℕ → BpfHdr
  pub read_bpf : W → ((ℕ × List ℕ) ⊎ IoError) × W

-- The packets that wait, and the world behind the descriptor.
pub record Tap (W : Type 0) : Type 0 where
  pub buffer : List (List ℕ)
  pub world : W

module _ {W : Type 0} (bpf : Bpf W) where
  -- `x & !3` keeps the multiple of four below.
  unfoldable pub next_bpf_step : ℕ → ℕ → Option ℕ
  next_bpf_step bh_hdrlen bh_caplen =
      let step = (bh_hdrlen + bh_caplen + 3) / 4 * 4 in
      if leb bpf.bpf_hdr_size step then some step else none

  -- The header at `p`. The source reads it without a check of the bounds.
  unfoldable pub header_at : List ℕ → ℕ → Outcome BpfHdr
  unfolding slice
  header_at buffer p = do bytes ← slice buffer p (p + bpf.bpf_hdr_size); ok (bpf.hdr_of bytes)

  -- The packet of a record at `p`, if the record has one that the read covers.
  unfoldable pub packet_at : List ℕ → ℕ → ℕ → BpfHdr → Outcome (Option (List ℕ))
  unfolding slice
  packet_at buffer len p hdr =
      if ltb 0 hdr.bh_caplen && leb (p + hdr.bh_hdrlen + hdr.bh_caplen) len
      then (do
        packet ← slice buffer (p + hdr.bh_hdrlen) (p + hdr.bh_hdrlen + hdr.bh_caplen)
        ok (some packet))
      else ok none

  -- `if let Some(packet) = packet { bufs.push_back(packet) }`.
  abbrev pub push_back : List (List ℕ) → Option (List ℕ) → List (List ℕ)
  push_back bufs none = bufs
  push_back bufs (some packet) = bufs ++ packet ∷ []

  -- The loop of `recv_to_buffer`. Running out of fuel counts as a panic.
  unfoldable pub push_records : ℕ → List ℕ → ℕ → ℕ → List (List ℕ) → Outcome (List (List ℕ))
  unfolding next_bpf_step header_at packet_at
  push_records zero buffer len p bufs = panic
  push_records (suc fuel) buffer len p bufs =
      let next =
        λ (step : ℕ) (queue : List (List ℕ)). push_records fuel buffer len (p + step) queue in
      elim (ltb p len && leb bpf.bpf_hdr_size (len - p)) [
        | false ↦ ok bufs
        | true ↦ header_at buffer p >>= λ hdr. packet_at buffer len p hdr >>= λ packet.
            elim (next_bpf_step hdr.bh_hdrlen hdr.bh_caplen) [
              | none ↦ ok (push_back bufs packet)
              | some step ↦ next step (push_back bufs packet)
            ]
      ]

  abbrev pub queued : Tap W → Outcome (List (List ℕ)) → Outcome (Unit {0}) × Tap W
  queued tap (ok bufs) = (ok tt, record tap { buffer = bufs })
  queued tap (err error) = (err error, tap)
  queued tap panic = (panic, tap)

  -- What a read adds to the queue.
  unfoldable pub recv_to_buffer : Tap W → Outcome (Unit {0}) × Tap W
  unfolding push_records
  recv_to_buffer tap =
      let (answer, world1) = bpf.read_bpf tap.world in
      elim answer [
        | inr error ↦ (err error, record tap { world = world1 })
        | inl (len, buffer) ↦
            queued (record tap { world = world1 }) (push_records (suc len) buffer len 0 tap.buffer)
      ]

  -- `if guard.is_empty() { self.recv_to_buffer(&mut guard)?; }`.
  unfoldable pub fill_if_empty : Tap W → Outcome (Unit {0}) × Tap W
  fill_if_empty tap = elim tap.buffer [ [] ↦ recv_to_buffer tap | packet ∷ rest ↦ (ok tt, tap) ]

  -- `guard.pop_front()`, and what becomes of the packet.
  abbrev pub pop_front : {A : Type 0} → (List ℕ → Outcome A) → List (List ℕ) → W → Outcome A × Tap W
  pop_front deliver [] world = (err recv_buffer_empty, record { buffer = []; world = world })
  pop_front deliver (packet ∷ rest) world =
      (deliver packet, record { buffer = rest; world = world })

  abbrev pub popped :
      {A : Type 0} → (List ℕ → Outcome A) → Outcome (Unit {0}) × Tap W → Outcome A × Tap W
  popped deliver (ok done, tap) = pop_front deliver tap.buffer tap.world
  popped deliver (err error, tap) = (err error, tap)
  popped deliver (panic, tap) = (panic, tap)

  -- The length of the packet and the buffer that it was copied to.
  unfoldable pub copy_packet : List ℕ → List ℕ → Outcome (ℕ × List ℕ)
  copy_packet buf packet =
      if ltb (length buf) (length packet)
      then err buffer_too_small
      else ok (length packet, put buf 0 packet)

  unfoldable pub recv : Tap W → List ℕ → Outcome (ℕ × List ℕ) × Tap W
  unfolding fill_if_empty copy_packet
  recv tap buf = popped (copy_packet buf) (fill_if_empty tap)

  -- `recv_uninit` copies to memory that has no values yet; what was there does not matter.
  abbrev pub recv_uninit : Tap W → List ℕ → Outcome (ℕ × List ℕ) × Tap W
  recv_uninit = recv

  -- `bufs.iter().map(|v| v.len()).sum()`.
  abbrev pub total_len : List (List ℕ) → ℕ
  total_len [] = 0
  total_len (b ∷ bufs) = length b + total_len bufs

  -- The loop of `recv_vectored`, from `pos` on: an empty buffer ends it.
  unfoldable pub scatter : List (List ℕ) → List ℕ → ℕ → ℕ × List (List ℕ)
  scatter [] packet pos = (pos, [])
  scatter (b ∷ bufs) packet pos =
      let n = min (length b) (length packet - pos) in
      let later = scatter bufs packet (pos + n) in
      let filled = put b 0 (take n (drop pos packet)) in
      if n == 0
      then (pos, b ∷ bufs)
      else (if (pos + n) == length packet
          then (pos + n, filled ∷ bufs)
          else (later.0, filled ∷ later.1))

  unfoldable pub scatter_packet : List (List ℕ) → List ℕ → Outcome (ℕ × List (List ℕ))
  unfolding scatter
  scatter_packet bufs packet =
      if ltb (total_len bufs) (length packet)
      then err buffer_too_small
      else ok (scatter bufs packet 0)

  unfoldable pub recv_vectored : Tap W → List (List ℕ) → Outcome (ℕ × List (List ℕ)) × Tap W
  unfolding fill_if_empty scatter_packet
  recv_vectored tap bufs = popped (scatter_packet bufs) (fill_if_empty tap)

  -- The loop that waits and then receives: each round has the answer of `poll`. None when the call
  -- still waits after the rounds.
  unfoldable pub read_interruptible :
      List PollAnswer → Tap W → List ℕ → Option (Outcome (ℕ × List ℕ) × Tap W)
  unfolding recv is_would_block wait
  read_interruptible [] tap buf = none
  read_interruptible (polled ∷ later) tap buf =
      let again = λ (t : Tap W). read_interruptible later t buf in
      elim (wait true polled) [
        | err error ↦ some (err error, tap)
        | panic ↦ some (panic, tap)
        | ok done ↦
            let (answer, tap1) = recv tap buf in
            elim answer [
              | err error ↦ if is_would_block error then again tap1 else some (err error, tap1)
              | ok received ↦ some (ok received, tap1)
              | panic ↦ some (panic, tap1)
            ]
      ]
