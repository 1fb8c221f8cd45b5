-- ===== src/Macos/Tap/Laid.antt =====
-- The loop of `recv_to_buffer` on a read that is laid out as records.
use tun_rs.Base.{
  ℕ, zero, suc, ◌+◌, ◌-◌, ◌*◌, ◌/◌, ◌≤◌, ◌<◌, ◌≡◌, ap, sym, ◌∙◌, subst, true, false, List, [], ◌∷◌,
  ◌++◌, length, length-append, length-take, length-drop, take, drop, drop-drop, some, ok, arith,
}
use tun_rs.Base.Parts.{take-append, take_front, drop_front, take-drop-take}
use mathlib.Core.List.{append_assoc, append-nil}
use tun_rs.Macos.Tap.{BpfHdr, Bpf, next_bpf_step, push_records}
use tun_rs.Macos.Tap.Records.{
  header_at_ok, packet_at_covered, packet_bytes, continues, round_done, round_next,
}

module _ {W : Type 0} (bpf : Bpf W) where
  -- BPF_WORDALIGN: the next multiple of four bytes.
  abbrev pub word_align : ℕ → ℕ
  word_align n = (n + 3) / 4 * 4

  step_aligned :
      (hdrlen caplen : ℕ)
      → bpf.bpf_hdr_size ≤ hdrlen
      → next_bpf_step bpf hdrlen caplen ≡ some (word_align (hdrlen + caplen))
  unfolding next_bpf_step
  step_aligned hdrlen caplen h = ground arith

  -- The bytes `chunk` are a record for each packet, and less than a header after them: a header that
  -- says its own length and the packet's, the packet, and what fills up the last four bytes.
  abbrev pub Laid : List (List ℕ) → List ℕ → Type 0
  Laid [] chunk = length chunk < bpf.bpf_hdr_size
  Laid (packet ∷ packets) chunk =
      (header : List ℕ) × (rest : List ℕ) × (chunk ≡ header ++ (packet ++ rest))
      × (bpf.bpf_hdr_size ≤ length header)
      × (bpf.hdr_of (take bpf.bpf_hdr_size header)
          ≡ record { bh_caplen = length packet; bh_hdrlen = length header })
      × (0 < length packet)
      × Laid packets (drop (word_align (length header + length packet)) chunk)

  module _ (buffer : List ℕ) (len p : ℕ) (bound : len ≤ length buffer) where
    length-chunk : length (drop p (take len buffer)) ≡ len - p
    length-chunk = omega (arith, length-drop p (take len buffer), length-take len buffer)

    ends : length (drop p (take len buffer)) < bpf.bpf_hdr_size → continues bpf len p ≡ false
    ends h = ground (arith, length-chunk)

    module _ (packet header rest : List ℕ)
        (whole : drop p (take len buffer) ≡ header ++ (packet ++ rest))
        (size : bpf.bpf_hdr_size ≤ length header) (own : 0 < length packet) where
      reaches : p + length header + length packet ≤ len
      reaches = omega (
        arith,
        length-chunk,
        ap length whole,
        length-append header (packet ++ rest),
        length-append packet rest,
      )

      begins : continues bpf len p ≡ true
      begins = ground (arith, reaches)

      header_bytes : take (p + bpf.bpf_hdr_size - p) (drop p buffer) ≡ take bpf.bpf_hdr_size header
      header_bytes =
          let exact : p + bpf.bpf_hdr_size - p ≡ bpf.bpf_hdr_size = omega arith in
          rw exact (
            sym (take-drop-take bpf.bpf_hdr_size p len buffer (omega (arith, reaches)))
            ∙ ap (λ (t : List ℕ). take bpf.bpf_hdr_size t) whole
            ∙ take-append bpf.bpf_hdr_size header (packet ++ rest) size)

      packet_taken :
          packet_bytes bpf buffer p
            (record { bh_caplen = length packet; bh_hdrlen = length header })
          ≡ packet
      packet_taken =
          let exact : p + length header + length packet - (p + length header) ≡ length packet =
            omega arith in
          rw exact (
            sym (take-drop-take (length packet) (p + length header) len buffer reaches)
            ∙ ap (λ (t : List ℕ). take (length packet) t)
                (sym (drop-drop (length header) p (take len buffer))
                  ∙ ap (λ (t : List ℕ). drop (length header) t) whole
                  ∙ drop_front header (packet ++ rest))
            ∙ take_front packet rest)

  -- A read that is laid out as records: the loop adds exactly the packets, in order.
  pub push_records-Laid :
      (packets : List (List ℕ)) (fuel : ℕ) (buffer : List ℕ) (len p : ℕ) (bufs : List (List ℕ))
      → len ≤ length buffer
      → len - p < fuel
      → Laid packets (drop p (take len buffer))
      → push_records bpf fuel buffer len p bufs ≡ ok (bufs ++ packets)
  push_records-Laid packets zero buffer len p bufs bound enough laid = absurd (omega arith)
  push_records-Laid [] (suc fuel) buffer len p bufs bound enough laid =
      round_done bpf fuel buffer len p bufs (ends buffer len p bound laid)
      ∙ ap ok (sym (append-nil bufs))
  push_records-Laid (packet ∷ packets) (suc fuel) buffer len p bufs bound enough
        (header, rest, whole, size, says, own, later) =
      round_next bpf fuel buffer len p bufs
        (begins buffer len p bound packet header rest whole size own)
        (header_at_ok bpf buffer p (omega (arith, reach)) ∙ ap ok (ap bpf.hdr_of first ∙ says))
        (packet_at_covered bpf buffer len p hdr bound own reach ∙ ap (λ t. ok (some t)) second) next
      ∙ push_records-Laid packets fuel buffer len (p + step) (bufs ++ packet ∷ []) bound
          (omega (arith, reach, own))
          (subst (Laid packets) (drop-drop step p (take len buffer)) later)
      ∙ ap ok (append_assoc bufs (packet ∷ []) packets)
    where
      step : ℕ
      step = word_align (length header + length packet)

      next : next_bpf_step bpf (length header) (length packet) ≡ some step
      next = step_aligned (length header) (length packet) size

      hdr : BpfHdr
      hdr = record { bh_caplen = length packet; bh_hdrlen = length header }

      reach : p + length header + length packet ≤ len
      reach = reaches buffer len p bound packet header rest whole size own

      first : take (p + bpf.bpf_hdr_size - p) (drop p buffer) ≡ take bpf.bpf_hdr_size header
      first = header_bytes buffer len p bound packet header rest whole size own

      second : packet_bytes bpf buffer p hdr ≡ packet
      second = packet_taken buffer len p bound packet header rest whole size own
