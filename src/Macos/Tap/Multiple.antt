-- ===== src/Macos/Tap/Multiple.antt =====
-- `recv_multiple` of src/platform/macos/tap/mod.rs.
use tun_rs.Base.{
  ℕ, zero, suc, ◌+◌, ◌-◌, true, false, ◌&&◌, ◌||◌, List, ltb, leb, ◌==◌, if◌then◌else◌, length,
  get_elem?, put, set, Option, none, some, inl, inr, Outcome, ok, err, panic, ◌>>=◌,
  buffer_too_small, sizes_too_short,
}
use tun_rs.Macos.Tap.{Bpf, Tap, next_bpf_step, header_at, packet_at}

-- The buffers, the sizes and `num`.
abbrev pub Stores : Type 0
Stores = List (List ℕ) × List ℕ × ℕ

-- Without a buffer for the packet, the loop ends.
abbrev pub or_stay : Stores → (Stores → Outcome Stores) → Option Stores → Outcome Stores
or_stay state f none = ok state
or_stay state f (some state1) = f state1

-- `let Some(step) = step else { break }`.
abbrev pub advance : (ℕ → Stores → Outcome Stores) → Option ℕ → Stores → Outcome Stores
advance next none state = ok state
advance next (some step) state = next step state

module _ {W : Type 0} (bpf : Bpf W) where
  -- One packet of `recv_multiple` to the buffer `num`: none when there is no such buffer.
  unfoldable pub store_packet : Stores → List ℕ → Outcome (Option (Stores))
  store_packet (bufs, sizes, num) packet = elim (get_elem? bufs num) [
    | none ↦ ok none
    | some dst ↦
        if ltb (length dst) (length packet)
        then err buffer_too_small
        else ok (some (set bufs num (put dst 0 packet), set sizes num (length packet), num + 1))
  ]

  abbrev pub store : Stores → Option (List ℕ) → Outcome (Option (Stores))
  store state none = ok (some state)
  store state (some packet) = store_packet state packet

  -- The loop of `recv_multiple`, over the buffers, the sizes and `num`.
  unfoldable pub store_records : ℕ → List ℕ → ℕ → ℕ → Stores → Outcome (Stores)
  unfolding next_bpf_step header_at packet_at store_packet
  store_records zero buffer len p state = panic
  store_records (suc fuel) buffer len p state =
      let next = λ (step : ℕ) (s : Stores). store_records fuel buffer len (p + step) s in
      elim (ltb p len && leb bpf.bpf_hdr_size (len - p)) [
        | false ↦ ok state
        | true ↦ header_at bpf buffer p >>= λ hdr. packet_at bpf buffer len p hdr >>= λ packet.
            store state packet
            >>= or_stay state (advance next (next_bpf_step bpf hdr.bh_hdrlen hdr.bh_caplen))
      ]

  -- `recv_multiple` reads the descriptor in any case and leaves the queue alone.
  unfoldable pub recv_multiple : Tap W → List (List ℕ) → List ℕ → Outcome (Stores) × Tap W
  unfolding store_records
  recv_multiple tap bufs sizes =
      if (length bufs == 0) || ltb (length sizes) (length bufs)
      then (err sizes_too_short, tap)
      else (let (answer, world1) = bpf.read_bpf tap.world in
          let tap1 : Tap W = record tap { world = world1 } in
          elim answer [
            | inr error ↦ (err error, tap1)
            | inl (len, buffer) ↦ (store_records (suc len) buffer len 0 (bufs, sizes, 0), tap1)
          ])
