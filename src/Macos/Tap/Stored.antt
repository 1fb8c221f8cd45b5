-- ===== src/Macos/Tap/Stored.antt =====
-- `recv_multiple` against the queue: it stores the packets that `recv_to_buffer` would queue.
use tun_rs.Base.{
  ℕ, zero, suc, ◌+◌, ◌-◌, ◌≤◌, ◌<◌, ◌≡◌, refl, ap, sym, ◌∙◌, true, false, ◌||◌, ltb, ◌==◌, List, [],
  ◌∷◌, ◌++◌, inl, inr, Bool-cases, length, take, drop, get_elem?, set, put, if◌then◌else◌,
  buffer_too_small, Option, none, some, Outcome, ok, err, panic, ◌>>=◌, arith,
}
use mathlib.Core.List.{append_assoc, append-nil}
use tun_rs.Macos.Tap.{
  BpfHdr, Bpf, Tap, next_bpf_step, header_at, packet_at, push_back, push_records, recv_to_buffer,
}
use tun_rs.Macos.Tap.Multiple.{Stores, or_stay, store_packet, store, store_records, recv_multiple}
use tun_rs.Macos.Tap.Records.{
  header_at_ok, packet_found, step_cases, continues, round_done, round_last, round_next,
}

or_stay-same :
    (outcome : Outcome (Option Stores)) (state : Stores) (f g : Stores → Outcome Stores)
    → ((s : Stores) → f s ≡ g s)
    → (outcome >>= or_stay state f) ≡ (outcome >>= or_stay state g)
or_stay-same (ok none) state f g h = refl
or_stay-same (ok (some s)) state f g h = h s
or_stay-same (err e) state f g h = refl
or_stay-same panic state f g h = refl

-- A buffer and a size in front of what the later packets leave.
abbrev pub in_front : List ℕ → ℕ → Outcome Stores → Outcome Stores
in_front buf size later = later >>= λ state. ok (buf ∷ state.0, size ∷ state.1, suc state.2)

-- The packets one by one at the front of the buffers, with their lengths in the sizes and how many there
-- are: until a packet is longer than its buffer, which is an error, or no buffer is left.
unfoldable pub spread : List (List ℕ) → List (List ℕ) → List ℕ → Outcome Stores
spread [] bufs sizes = ok (bufs, sizes, 0)
spread (p ∷ packets) [] sizes = ok ([], sizes, 0)
spread (p ∷ packets) (b ∷ bufs) [] = panic
spread (p ∷ packets) (b ∷ bufs) (s ∷ sizes) =
    let later = in_front (put b 0 p) (length p) (spread packets bufs sizes) in
    if ltb (length b) (length p) then err buffer_too_small else later

module _ {W : Type 0} (bpf : Bpf W) where
  -- The packets to the buffers, in order, until there is no buffer or one is too small.
  unfoldable store_all : Stores → List (List ℕ) → Outcome Stores
  store_all state [] = ok state
  store_all state (packet ∷ packets) =
      store_packet bpf state packet >>= or_stay state (λ s. store_all s packets)

  module _ (fuel : ℕ) (buffer : List ℕ) (len p : ℕ) (state : Stores) where
    stored_done :
        continues bpf len p ≡ false → store_records bpf (suc fuel) buffer len p state ≡ ok state
    unfolding store_records
    stored_done done = rw (done, store_records) refl

    module _ {hdr : BpfHdr} {packet : Option (List ℕ)} (more : continues bpf len p ≡ true)
        (head : header_at bpf buffer p ≡ ok hdr)
        (taken : packet_at bpf buffer len p hdr ≡ ok packet) where
      stored_last :
          next_bpf_step bpf hdr.bh_hdrlen hdr.bh_caplen ≡ none
          → store_records bpf (suc fuel) buffer len p state
            ≡ (store bpf state packet >>= or_stay state ok)
      unfolding store_records
      stored_last last = rw (more, store_records) (rw head (rw taken (rw last refl)))

      stored_next :
          {step : ℕ}
          → next_bpf_step bpf hdr.bh_hdrlen hdr.bh_caplen ≡ some step
          → store_records bpf (suc fuel) buffer len p state ≡ (
              store bpf state packet
              >>= or_stay state (store_records bpf fuel buffer len (p + step)))
      unfolding store_records
      stored_next next = rw (more, store_records) (rw head (rw taken (rw next refl)))

  -- The packet at hand, if there is one, goes in front of the later ones.
  abbrev with_front : Option (List ℕ) → List (List ℕ) → List (List ℕ)
  with_front none packets = packets
  with_front (some packet) packets = packet ∷ packets

  push_back-with_front :
      (bufs : List (List ℕ)) (packet : Option (List ℕ)) (packets : List (List ℕ))
      → push_back bpf bufs packet ++ packets ≡ bufs ++ with_front packet packets
  push_back-with_front bufs none packets = refl
  push_back-with_front bufs (some packet) packets = append_assoc bufs (packet ∷ []) packets

  store-with_front :
      (state : Stores) (packet : Option (List ℕ)) (packets : List (List ℕ))
      (f : Stores → Outcome Stores)
      → ((s : Stores) → f s ≡ store_all s packets)
      → (store bpf state packet >>= or_stay state f) ≡ store_all state (with_front packet packets)
  unfolding store_all
  store-with_front state none packets f h = h state
  store-with_front state (some packet) packets f h =
      or_stay-same (store_packet bpf state packet) state f (λ s. store_all s packets) h

  -- What the loop of `recv_to_buffer` queues and what that of `recv_multiple` stores are the same packets.
  store_records_lem :
      (fuel : ℕ) (buffer : List ℕ) (len p : ℕ)
      → 0 < bpf.bpf_hdr_size
      → len ≤ length buffer
      → len - p < fuel
      → (packets : List (List ℕ)) × ((bufs : List (List ℕ))
          → push_records bpf fuel buffer len p bufs ≡ ok (bufs ++ packets))
        × ((state : Stores) → store_records bpf fuel buffer len p state ≡ store_all state packets)
  unfolding store_all
  store_records_lem zero buffer len p pos bound enough = absurd (omega arith)
  store_records_lem (suc fuel) buffer len p pos bound enough =
      elim (Bool-cases (continues bpf len p)) [
        | inr done ↦ (
          [],
          λ bufs. round_done bpf fuel buffer len p bufs done ∙ ap ok (sym (append-nil bufs)),
          λ state. stored_done fuel buffer len p state done,
        )
        | inl more ↦
            let hdr = bpf.hdr_of (take (p + bpf.bpf_hdr_size - p) (drop p buffer)) in
            let head = header_at_ok bpf buffer p (ground (arith, more)) in
            let (packet, taken, fits) = packet_found bpf buffer len p hdr bound in
            elim (step_cases bpf hdr.bh_hdrlen hdr.bh_caplen) [
              | inl last ↦ (
                with_front packet [],
                λ bufs.
                    round_last bpf fuel buffer len p bufs more head taken last
                    ∙ ap ok (
                        sym (append-nil (push_back bpf bufs packet))
                        ∙ push_back-with_front bufs packet []),
                λ state.
                    stored_last fuel buffer len p state more head taken last
                    ∙ store-with_front state packet [] ok (λ s. refl),
              )
              | inr (step, next, least, covers) ↦
                  let (packets, pushed, stored) =
                    store_records_lem fuel buffer len (p + step) pos bound (ground (arith, more)) in
                  (
                    with_front packet packets,
                    λ bufs.
                        round_next bpf fuel buffer len p bufs more head taken next
                        ∙ pushed (push_back bpf bufs packet)
                        ∙ ap ok (push_back-with_front bufs packet packets),
                    λ state.
                        stored_next fuel buffer len p state more head taken next
                        ∙ store-with_front state packet packets
                            (store_records bpf fuel buffer len (p + step)) stored,
                  )
            ]
      ]

  module _ (bufs : List (List ℕ)) (sizes : List ℕ) (num : ℕ) (p : List ℕ)
      (packets : List (List ℕ)) where
    no_buffer :
        get_elem? bufs num ≡ none
        → store_all (bufs, sizes, num) (p ∷ packets) ≡ ok (bufs, sizes, num)
    unfolding store_all store_packet
    no_buffer none_left = ground (arith, none_left)

    module _ {dst : List ℕ} (found : get_elem? bufs num ≡ some dst) where
      too_long :
          ltb (length dst) (length p) ≡ true
          → store_all (bufs, sizes, num) (p ∷ packets) ≡ err buffer_too_small
      unfolding store_all store_packet
      too_long long = ground (arith, found, long)

      stored_one :
          ltb (length dst) (length p) ≡ false
          → store_all (bufs, sizes, num) (p ∷ packets)
            ≡ store_all (set bufs num (put dst 0 p), set sizes num (length p), num + 1) packets
      unfolding store_all store_packet
      stored_one fits = ground (arith, found, fits)

  -- A buffer and a size before the one at hand are left alone.
  store_all-in_front :
      (packets : List (List ℕ)) (b : List ℕ) (s : ℕ) (bufs : List (List ℕ)) (sizes : List ℕ)
      (num : ℕ)
      → store_all (b ∷ bufs, s ∷ sizes, suc num) packets
        ≡ in_front b s (store_all (bufs, sizes, num) packets)
  unfolding store_all
  store_all-in_front [] b s bufs sizes num = refl
  store_all-in_front (p ∷ packets) b s bufs sizes num =
      at_hand (get_elem? bufs num) refl (store_all-in_front packets b s)
    where
      at_hand :
          (found : Option (List ℕ))
          → get_elem? bufs num ≡ found
          → ((bufs1 : List (List ℕ)) (sizes1 : List ℕ) (num1 : ℕ)
              → store_all (b ∷ bufs1, s ∷ sizes1, suc num1) packets
                ≡ in_front b s (store_all (bufs1, sizes1, num1) packets))
          → store_all (b ∷ bufs, s ∷ sizes, suc num) (p ∷ packets)
            ≡ in_front b s (store_all (bufs, sizes, num) (p ∷ packets))
      at_hand none none_left later =
          no_buffer (b ∷ bufs) (s ∷ sizes) (suc num) p packets none_left
          ∙ ap (in_front b s) (sym (no_buffer bufs sizes num p packets none_left))
      at_hand (some dst) found later = elim (Bool-cases (ltb (length dst) (length p))) [
        | inl long ↦
            too_long (b ∷ bufs) (s ∷ sizes) (suc num) p packets found long
            ∙ ap (in_front b s) (sym (too_long bufs sizes num p packets found long))
        | inr fits ↦
            let next : suc num + 1 ≡ suc (num + 1) = omega arith in
            let bufs1 = set bufs num (put dst 0 p) in
            let sizes1 = set sizes num (length p) in
            stored_one (b ∷ bufs) (s ∷ sizes) (suc num) p packets found fits
            ∙ ap (λ n. store_all (b ∷ bufs1, s ∷ sizes1, n) packets) next
            ∙ later bufs1 sizes1 (num + 1)
            ∙ ap (in_front b s) (sym (stored_one bufs sizes num p packets found fits))
      ]

  store_all-spread :
      (packets bufs : List (List ℕ)) (sizes : List ℕ)
      → length bufs ≤ length sizes
      → store_all (bufs, sizes, 0) packets ≡ spread packets bufs sizes
  unfolding store_all store_packet spread
  store_all-spread [] bufs sizes h = refl
  store_all-spread (p ∷ packets) [] sizes h = refl
  store_all-spread (p ∷ packets) (b ∷ bufs) [] h = absurd (omega (arith, h))
  store_all-spread (p ∷ packets) (b ∷ bufs) (s ∷ sizes) h =
      elim (Bool-cases (ltb (length b) (length p))) [
        | inl long ↦ rw long refl
        | inr fits ↦ rw fits (
            store_all-in_front packets (put b 0 p) (length p) bufs sizes 0
            ∙ ap (in_front (put b 0 p) (length p))
                (store_all-spread packets bufs sizes (omega (arith, h))))
      ]

  -- One read, received either way: `recv_to_buffer` appends its packets to the queue, and
  -- `recv_multiple` leaves the queue as it is and stores the same packets: the first at the front of the
  -- first buffer, the next in the next one, with their lengths as sizes and their number. It stops where
  -- no buffer is left, and fails where a packet is longer than its buffer (`spread`). The count lies
  -- within the buffer that was read, a header is not empty, there is a buffer, and there are sizes for all.
  pub recv_multiple-recv_to_buffer :
      (tap : Tap W) (bufs : List (List ℕ)) (sizes : List ℕ) (len : ℕ) (buffer : List ℕ) (world1 : W)
      → 0 < bpf.bpf_hdr_size
      → bpf.read_bpf tap.world ≡ (inl (len, buffer), world1)
      → len ≤ length buffer
      → 0 < length bufs
      → length bufs ≤ length sizes
      → (packets : List (List ℕ)) × (recv_to_buffer bpf tap
          ≡ (ok tt, record { buffer = tap.buffer ++ packets; world = world1 }))
        × (recv_multiple bpf tap bufs sizes
            ≡ (spread packets bufs sizes, record tap { world = world1 }))
  unfolding recv_to_buffer recv_multiple
  recv_multiple-recv_to_buffer tap bufs sizes len buffer world1 pos answer bound some_ room =
      let (packets, pushed, stored) =
        store_records_lem (suc len) buffer len 0 pos bound (omega arith) in
      let accepted : ((length bufs == 0) || ltb (length sizes) (length bufs)) ≡ false =
        ground arith in
      (
        packets,
        rw (ap (λ t. t.0) answer, recv_to_buffer)
            (rw (pushed tap.buffer) (
              ap (λ w. (ok tt, record { buffer = tap.buffer ++ packets; world = w }))
                (ap (λ t. t.1) answer))),
        rw accepted (
            rw (ap (λ t. t.0) answer, recv_multiple)
              (rw (stored (bufs, sizes, 0), store_all-spread packets bufs sizes room)
                (ap (λ w. (spread packets bufs sizes, record tap { world = w }))
                  (ap (λ t. t.1) answer)))),
      )
