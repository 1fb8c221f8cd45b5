-- ===== src/Macos/Tap/Records.antt =====
-- The loop of `recv_to_buffer`: it stays in the buffer and ends, whatever bytes were read.
use tun_rs.Base.{
  ℕ, zero, suc, ◌+◌, ◌-◌, ◌*◌, ◌/◌, ◌≤◌, ◌<◌, ◌≡◌, refl, ap, sym, ◌∙◌, ◌⊎◌, inl, inr, Bool, true,
  false, ◌&&◌, List, [], ◌∷◌, ◌++◌, ltb, leb, Bool-cases, leb→le, lt→ltb, le→leb, length,
  length-take, length-drop, take, drop, Option, none, some, Outcome, ok, slice_ok, arith,
}
use mathlib.Core.List.{append_assoc, append-nil}
use tun_rs.Macos.Tap.{BpfHdr, Bpf, next_bpf_step, header_at, packet_at, push_back, push_records}

-- No packet is empty, and together they have at most `room` bytes.
abbrev pub Fit : List (List ℕ) → ℕ → Type 0
Fit [] room = Unit
Fit (packet ∷ packets) room =
    (0 < length packet) × (length packet ≤ room) × Fit packets (room - length packet)

Fit-weaken :
    (packets : List (List ℕ)) (small large : ℕ)
    → small ≤ large
    → Fit packets small
    → Fit packets large
Fit-weaken [] small large h fit = tt
Fit-weaken (packet ∷ packets) small large h fit = (
  fit.0,
  omega (arith, fit.1),
  Fit-weaken packets (small - length packet) (large - length packet) (omega arith) fit.2,
)

module _ {W : Type 0} (bpf : Bpf W) where
  pub step_cases :
      (hdrlen caplen : ℕ)
      → (next_bpf_step bpf hdrlen caplen ≡ none)
        ⊎ ((step : ℕ) × (next_bpf_step bpf hdrlen caplen ≡ some step)
            × (bpf.bpf_hdr_size ≤ step)
            × (hdrlen + caplen ≤ step))
  unfolding next_bpf_step
  step_cases hdrlen caplen =
      elim (Bool-cases (leb bpf.bpf_hdr_size ((hdrlen + caplen + 3) / 4 * 4))) [
        | inl yes_ ↦ inr ((hdrlen + caplen + 3) / 4 * 4, rw yes_ refl, leb→le _ _ yes_, omega arith)
        | inr no_ ↦ inl (rw no_ refl)
      ]

  -- The header is in the buffer, and so is the packet.
  pub header_at_ok :
      (buffer : List ℕ) (p : ℕ)
      → p + bpf.bpf_hdr_size ≤ length buffer
      → header_at bpf buffer p ≡ ok (bpf.hdr_of (take (p + bpf.bpf_hdr_size - p) (drop p buffer)))
  unfolding header_at
  header_at_ok buffer p h = rw (slice_ok buffer p (p + bpf.bpf_hdr_size) (omega arith) h)

  -- The bytes that `packet_at` takes.
  abbrev pub packet_bytes : List ℕ → ℕ → BpfHdr → List ℕ
  packet_bytes buffer p hdr =
      take (p + hdr.bh_hdrlen + hdr.bh_caplen - (p + hdr.bh_hdrlen))
        (drop (p + hdr.bh_hdrlen) buffer)

  pub packet_at_covered :
      (buffer : List ℕ) (len p : ℕ) (hdr : BpfHdr)
      → len ≤ length buffer
      → 0 < hdr.bh_caplen
      → p + hdr.bh_hdrlen + hdr.bh_caplen ≤ len
      → packet_at bpf buffer len p hdr ≡ ok (some (packet_bytes buffer p hdr))
  unfolding packet_at
  packet_at_covered buffer len p hdr bound some_ covered =
      let start = p + hdr.bh_hdrlen in
      rw (
        lt→ltb 0 hdr.bh_caplen some_,
        le→leb (start + hdr.bh_caplen) len covered,
        slice_ok buffer start (start + hdr.bh_caplen) (omega arith) (omega arith),
      )

  packet_cases :
      (buffer : List ℕ) (len p : ℕ) (hdr : BpfHdr)
      → len ≤ length buffer
      → (packet_at bpf buffer len p hdr ≡ ok none)
        ⊎ ((packet : List ℕ) × (packet_at bpf buffer len p hdr ≡ ok (some packet))
            × (length packet ≡ hdr.bh_caplen)
            × (0 < hdr.bh_caplen)
            × (p + hdr.bh_hdrlen + hdr.bh_caplen ≤ len))
  unfolding packet_at
  packet_cases buffer len p hdr bound =
      elim (Bool-cases (ltb 0 hdr.bh_caplen && leb (p + hdr.bh_hdrlen + hdr.bh_caplen) len)) [
        | inr skipped ↦ inl (rw skipped refl)
        | inl taken ↦ inr (
          packet_bytes buffer p hdr,
          packet_at_covered buffer len p hdr bound (ground (arith, taken)) (ground (arith, taken)),
          ground (
            arith,
            taken,
            length-take (p + hdr.bh_hdrlen + hdr.bh_caplen - (p + hdr.bh_hdrlen))
                (drop (p + hdr.bh_hdrlen) buffer),
            length-drop (p + hdr.bh_hdrlen) buffer,
          ),
          ground (arith, taken),
          ground (arith, taken),
        )
      ]

  -- What the loop adds to a queue, and that it fits in what is left of the read.
  abbrev pub Pushed : Outcome (List (List ℕ)) → List (List ℕ) → ℕ → Type 0
  Pushed outcome bufs room =
      (packets : List (List ℕ)) × (outcome ≡ ok (bufs ++ packets)) × Fit packets room

  push_next :
      {outcome : Outcome (List (List ℕ))} (bufs : List (List ℕ)) (packet : Option (List ℕ))
      (room left : ℕ)
      → Pushed outcome (push_back bpf bufs packet) left
      → Fit (push_back bpf [] packet) (room - left)
      → left ≤ room
      → Pushed outcome bufs room
  push_next bufs none room left (packets, same, fit) own h =
      (packets, same, Fit-weaken packets left room h fit)
  push_next bufs (some packet) room left (packets, same, fit) own h = (
    packet ∷ packets,
    same ∙ ap ok (append_assoc bufs (packet ∷ []) packets),
    (
      own.0,
      omega (arith, own.1),
      Fit-weaken packets left (room - length packet) (omega (arith, own.1)) fit,
    ),
  )

  -- The test of the loop, and its rounds.
  abbrev pub continues : ℕ → ℕ → Bool
  continues len p = ltb p len && leb bpf.bpf_hdr_size (len - p)

  module _ (fuel : ℕ) (buffer : List ℕ) (len p : ℕ) (bufs : List (List ℕ)) where
    pub round_done :
        continues len p ≡ false → push_records bpf (suc fuel) buffer len p bufs ≡ ok bufs
    unfolding push_records
    round_done done = rw (done, push_records) refl

    module _ {hdr : BpfHdr} {packet : Option (List ℕ)} (more : continues len p ≡ true)
        (head : header_at bpf buffer p ≡ ok hdr)
        (taken : packet_at bpf buffer len p hdr ≡ ok packet) where
      pub round_last :
          next_bpf_step bpf hdr.bh_hdrlen hdr.bh_caplen ≡ none
          → push_records bpf (suc fuel) buffer len p bufs ≡ ok (push_back bpf bufs packet)
      unfolding push_records
      round_last last = rw (more, push_records) (rw head (rw taken (rw last refl)))

      pub round_next :
          {step : ℕ}
          → next_bpf_step bpf hdr.bh_hdrlen hdr.bh_caplen ≡ some step
          → push_records bpf (suc fuel) buffer len p bufs
            ≡ push_records bpf fuel buffer len (p + step) (push_back bpf bufs packet)
      unfolding push_records
      round_next last = rw (more, push_records) (rw head (rw taken (rw last refl)))

  pub packet_found :
      (buffer : List ℕ) (len p : ℕ) (hdr : BpfHdr)
      → len ≤ length buffer
      → (packet : Option (List ℕ)) × (packet_at bpf buffer len p hdr ≡ ok packet)
        × ((room : ℕ)
            → (p + hdr.bh_hdrlen + hdr.bh_caplen ≤ len → hdr.bh_hdrlen + hdr.bh_caplen ≤ room)
            → Fit (push_back bpf [] packet) room)
  packet_found buffer len p hdr bound = elim (packet_cases buffer len p hdr bound) [
    | inl skipped ↦ (none, skipped, λ room h. tt)
    | inr (packet, taken, size, own, covered) ↦
        (some packet, taken, λ room h. (omega arith, omega (arith, h covered), tt))
  ]

  -- With more fuel than there are bytes left, the loop ends without a panic: every slice is in the
  -- buffer. It only adds packets, which have together no more bytes than are left.
  pub push_records_bounds :
      (fuel : ℕ) (buffer : List ℕ) (len p : ℕ) (bufs : List (List ℕ))
      → 0 < bpf.bpf_hdr_size
      → len ≤ length buffer
      → len - p < fuel
      → (packets : List (List ℕ)) × (push_records bpf fuel buffer len p bufs ≡ ok (bufs ++ packets))
        × Fit packets (len - p)
  push_records_bounds zero buffer len p bufs pos bound enough = absurd (omega arith)
  push_records_bounds (suc fuel) buffer len p bufs pos bound enough =
      elim (Bool-cases (continues len p)) [
        | inr done ↦
            ([], round_done fuel buffer len p bufs done ∙ ap ok (sym (append-nil bufs)), tt)
        | inl more ↦
            let hdr = bpf.hdr_of (take (p + bpf.bpf_hdr_size - p) (drop p buffer)) in
            let head = header_at_ok buffer p (ground (arith, more)) in
            let (packet, taken, fits) = packet_found buffer len p hdr bound in
            elim (step_cases hdr.bh_hdrlen hdr.bh_caplen) [
              | inl last ↦
                  push_next bufs packet (len - p) 0
                    (
                      [],
                      round_last fuel buffer len p bufs more head taken last
                          ∙ ap ok (sym (append-nil (push_back bpf bufs packet))),
                      tt,
                    )
                    (fits (len - p - 0) (λ h. omega arith)) (omega arith)
              | inr (step, next, least, covers) ↦
                  let (packets, same, fit) =
                    push_records_bounds fuel buffer len (p + step) (push_back bpf bufs packet) pos
                      bound (ground (arith, more)) in
                  push_next bufs packet (len - p) (len - (p + step))
                    (packets, round_next fuel buffer len p bufs more head taken next ∙ same, fit)
                    (fits (len - p - (len - (p + step))) (λ h. omega arith)) (omega arith)
            ]
      ]
