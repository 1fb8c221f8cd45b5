-- ===== src/Macos/Tap/Scatter.antt =====
-- The loop of `recv_vectored` that spreads a packet over the buffers.
use tun_rs.Base.{
  ℕ, ◌+◌, ◌-◌, ◌≤◌, ◌<◌, min, ◌≡◌, ap, sym, ◌∙◌, true, false, List, [], ◌∷◌, ◌++◌, leb, leb→le,
  ◌==◌, Bool-cases, inl, inr, length, length-take, length-drop, take, drop, drop-drop, drop-all,
  take-append-drop, take-all, put, ok, arith,
}
use tun_rs.Base.Put.{put_front}
use tun_rs.Base.Parts.{drop-append, drop-append_past}
use tun_rs.Macos.Tap.{Bpf, total_len, scatter, scatter_packet}
use mathlib.Core.List.{append_assoc, append-nil}

-- The bytes of the buffers one after the other.
abbrev pub joined : List (List ℕ) → List ℕ
joined [] = []
joined (b ∷ bufs) = b ++ joined bufs

-- No buffer is empty.
abbrev pub Roomy : List (List ℕ) → Type 0
Roomy [] = Unit
Roomy (b ∷ bufs) = (0 < length b) × Roomy bufs

module _ {W : Type 0} (bpf : Bpf W) where
  -- The buffers, where the packet from `pos` on does not end in the first.
  further :
      (b : List ℕ) (packet rest : List ℕ) (pos : ℕ)
      → length b ≤ length packet - pos
      → put b 0 (take (length b) (drop pos packet))
          ++ (drop (pos + length b) packet ++ drop (length packet - (pos + length b)) rest)
        ≡ drop pos packet ++ drop (length packet - pos) (b ++ rest)
  further b packet rest pos h =
      let rest_of = λ (more : List ℕ).
        sym (append_assoc (take (length b) (drop pos packet)) (drop (pos + length b) packet) more)
        ∙ ap (λ (t : List ℕ). t ++ more)
            (ap (λ (t : List ℕ). take (length b) (drop pos packet) ++ t)
                (sym (drop-drop (length b) pos packet))
              ∙ take-append-drop (length b) (drop pos packet)) in
      let front : length (take (length b) (drop pos packet)) ≡ length b =
        omega (arith, length-take (length b) (drop pos packet), length-drop pos packet) in
      let left : length packet - pos ≡ length b + (length packet - (pos + length b)) =
        omega arith in
      rw
        (
          put_front b (take (length b) (drop pos packet)) (omega arith),
          front,
          drop-all (length b) b (omega arith),
          append-nil,
          left,
          drop-append_past (length packet - (pos + length b)) b rest,
        )
        (rest_of (drop (length packet - (pos + length b)) rest))

  -- The buffers, where the packet from `pos` on ends in the first.
  within :
      (b : List ℕ) (packet rest : List ℕ) (pos : ℕ)
      → length packet - pos ≤ length b
      → put b 0 (take (length packet - pos) (drop pos packet)) ++ rest
        ≡ drop pos packet ++ drop (length packet - pos) (b ++ rest)
  within b packet rest pos h =
      rw
        (
          take-all (length packet - pos) (drop pos packet) (omega (arith, length-drop pos packet)),
          put_front b (drop pos packet) (omega (arith, length-drop pos packet)),
          length-drop pos packet,
          drop-append (length packet - pos) b rest h,
        )
        (append_assoc (drop pos packet) (drop (length packet - pos) b) rest)

  -- The count and the bytes of the loop from `pos` on.
  scatter_lem :
      (bufs : List (List ℕ)) (packet : List ℕ) (pos : ℕ)
      → Roomy bufs
      → pos < length packet
      → length packet - pos ≤ total_len bpf bufs
      → ((scatter bpf bufs packet pos).0 ≡ length packet)
        × (joined (scatter bpf bufs packet pos).1
            ≡ drop pos packet ++ drop (length packet - pos) (joined bufs))
  unfolding scatter
  scatter_lem [] packet pos roomy some_ fits = absurd (omega arith)
  scatter_lem (b ∷ bufs) packet pos roomy some_ fits =
      elim (Bool-cases (leb (length packet - pos) (length b))) [
        | inl ends ↦
            let n : min (length b) (length packet - pos) ≡ length packet - pos =
              ground (arith, ends) in
            let some_left : ((length packet - pos) == 0) ≡ false = ground arith in
            let full : ((pos + (length packet - pos)) == length packet) ≡ true = ground arith in
            rw (n, some_left, full)
              (omega arith, within b packet (joined bufs) pos (leb→le _ _ ends))
        | inr goes ↦
            let n : min (length b) (length packet - pos) ≡ length b = ground (arith, goes) in
            let some_room : (length b == 0) ≡ false = ground (arith, roomy.0) in
            let short : ((pos + length b) == length packet) ≡ false = ground (arith, goes) in
            let later =
              scatter_lem bufs packet (pos + length b) roomy.1 (ground (arith, goes))
                (ground (arith, goes)) in
            rw (n, some_room, short)
              (
                later.0,
                ap (λ (t : List ℕ). put b 0 (take (length b) (drop pos packet)) ++ t) later.1
                    ∙ further b packet (joined bufs) pos (ground (arith, goes)),
              )
      ]

  -- If no buffer is empty and the packet is not empty and fits in all of them together, the whole packet
  -- is received: the buffers hold, one after the other, the packet and then what they held.
  pub scatter_packet_lem :
      (bufs : List (List ℕ)) (packet : List ℕ)
      → Roomy bufs
      → 0 < length packet
      → length packet ≤ total_len bpf bufs
      → (filled : List (List ℕ)) × (scatter_packet bpf bufs packet ≡ ok (length packet, filled))
        × (joined filled ≡ packet ++ drop (length packet) (joined bufs))
  unfolding scatter_packet
  scatter_packet_lem bufs packet roomy some_ fits =
      let none_yet : length packet - 0 ≡ length packet = omega arith in
      let spread = scatter_lem bufs packet 0 roomy some_ (omega arith) in
      (
        (scatter bpf bufs packet 0).1,
        ground (arith, spread.0),
        spread.1 ∙ ap (λ (t : ℕ). packet ++ drop t (joined bufs)) none_yet,
      )

  -- An empty buffer in front ends the loop: of a packet that the others could hold, nothing is received,
  -- and the call does not fail.
  pub scatter_packet_empty_first :
      (bufs : List (List ℕ)) (packet : List ℕ)
      → length packet ≤ total_len bpf bufs
      → scatter_packet bpf ([] ∷ bufs) packet ≡ ok (0, [] ∷ bufs)
  unfolding scatter_packet scatter
  scatter_packet_empty_first bufs packet fits = ground arith
