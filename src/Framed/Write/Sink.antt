-- ===== src/Framed/Write/Sink.antt =====
-- The sink of a framed device: what a frame that is sent and flushed hands to the device.
use tun_rs.Base.{
  Outcome, ◌>>=◌, ◌++◌, set, length-set, length-append, inl, inr, Bool-cases, ltb→lt, ℕ, zero, suc,
  ◌+◌, ◌-◌, ◌≤◌, ◌<◌, ◌≡◌, refl, ap, ◌∙◌, List, [], ◌∷◌, length, length-take, take, replicate,
  take-append-drop, Bool, true, false, leb, ltb, ◌==◌, le→leb, Option, none, some, ◌⊎◌, ok, err,
  slice_front_ok, IoError, invalid_offset, arith,
}
use tun_rs.Checksum.{CpuFeatures}
use tun_rs.Virtio.{Endian, virtio_net_hdr_len}
use tun_rs.Gro.{IsExpandBuffer, nth}
use tun_rs.Gro.Handle.{GroState, handle_packet, packets_kept, account_kept, handle_gro_kept}
use tun_rs.Framed.{Poll, ready, Encoder, BytesMut, IsBytesMut, is_empty}
use tun_rs.Framed.Arena.{PacketArena, get, with_bufs, handle_arena}
use tun_rs.Framed.Write.{WriteState, encode_into, start_send, poll_flush}

-- The state of a device without offload, and of one with it.
abbrev pub plain : {B : Type 0} → ℕ → B → WriteState B
plain size wr = record { send_buffer_size = size; wr = wr; packet_arena = none }

abbrev pub offloading : {B : Type 0} → ℕ → B → PacketArena B → WriteState B
offloading size wr arena = record { send_buffer_size = size; wr = wr; packet_arena = some arena }

take_cons :
    {A : Type 0} (n : ℕ) (x : A) (xs : List A) → 0 < n → take n (x ∷ xs) ≡ x ∷ take (n - 1) xs
take_cons zero x xs h = absurd (omega arith)
take_cons (suc n) x xs h = let same : suc n - 1 ≡ n = omega arith in rw same refl

module _ {B : Type 0} (b : BytesMut B) {C Item Error : Type 0} (enc : Encoder C Item Error)
    (cpu : CpuFeatures) (order : Endian) (udp_gso : Bool) {W : Type 0}
    (poll_send : W → List ℕ → Poll (ℕ ⊎ IoError) × W) where
  -- An arena of which the first packet is not longer than the `virtio` header.
  abbrev pub IsBlocked : PacketArena B → Type 0
  IsBlocked arena =
      (first : B) × (more : List B) × (arena.gro.bufs ≡ first ∷ more)
      × (length (b.expand.as_ref first) ≤ virtio_net_hdr_len)
      × (arena.gro.to_write ≡ [])
      × (0 < arena.offset)
      × (arena.offset ≤ length arena.gro.bufs)
      × (arena.offset ≤ 65535)

  refused :
      (g : GroState B) (first : B) (more : List B)
      → g.bufs ≡ first ∷ more
      → length (b.expand.as_ref first) ≤ virtio_net_hdr_len
      → handle_packet b.expand cpu order virtio_net_hdr_len udp_gso 0 g ≡ err invalid_offset
  unfolding handle_packet nth
  refused g first more starts short =
      let whole : leb (length (b.expand.as_ref first)) virtio_net_hdr_len ≡ true =
        le→leb _ _ short in
      rw (starts, whole) refl

  kept :
      (g : GroState B) (first : B) (more : List B)
      → g.bufs ≡ first ∷ more
      → length (b.expand.as_ref first) ≤ virtio_net_hdr_len
      → length g.bufs ≤ 65535
      → handle_gro_kept b.expand cpu order virtio_net_hdr_len udp_gso g
        ≡ ok (some invalid_offset, g)
  unfolding handle_gro_kept packets_kept account_kept
  kept g first more starts short few =
      let size : length g.bufs ≡ suc (length more) = rw starts refl in
      let small : ltb 65535 (length g.bufs) ≡ false = ground arith in
      rw (small, size, packets_kept, refused g first more starts short) refl

  handle_blocked :
      (arena : PacketArena B)
      → IsBlocked arena
      → handle_arena b cpu order udp_gso arena ≡ ok (some invalid_offset, arena)
  unfolding handle_arena
  handle_blocked arena (first, more, starts, short, unsent, used, room, few) =
      let front = ap (take arena.offset) starts ∙ take_cons arena.offset first more used in
      let size : length (take arena.offset arena.gro.bufs) ≤ 65535 =
        omega (arith, length-take arena.offset arena.gro.bufs) in
      let answers =
        kept (record arena.gro { bufs = take arena.offset arena.gro.bufs }) first
          (take (arena.offset - 1) more) front short size in
      let some_bufs : (arena.offset == 0) ≡ false = ground arith in
      let no_unsent : is_empty arena.gro.to_write ≡ true = rw unsent refl in
      rw (some_bufs, no_unsent, slice_front_ok arena.gro.bufs arena.offset room, answers)
        (ap (λ bufs. ok (some invalid_offset, with_bufs b arena bufs))
          (take-append-drop arena.offset arena.gro.bufs))

  -- While the first packet of the arena is not longer than the header, a flush answers `invalid
  -- offset`, and changes nothing.
  pub blocked_lem :
      (size : ℕ) (wr : B) (arena : PacketArena B) (world : W)
      → IsBlocked arena
      → poll_flush b enc cpu order udp_gso poll_send (offloading size wr arena) world
        ≡ ok (ready (some (enc.from_io invalid_offset)), offloading size wr arena, world)
  unfolding poll_flush
  blocked_lem size wr arena world blocked = rw (handle_blocked arena blocked) refl

  module _ (laws : IsBytesMut b) (grows : IsExpandBuffer b.expand) where
    -- The arena with a first packet in it.
    abbrev pub with_first : PacketArena B → B → List B → PacketArena B
    with_first arena first more = record (with_bufs b arena (first ∷ more)) { offset = 1 }

    get_fresh :
        (arena : PacketArena B) (bufs : List B)
        → arena.gro.bufs ≡ bufs
        → arena.offset ≡ 0
        → (first : B) × (more : List B) × (get b arena ≡ ok (0, first, with_first arena first more))
          × (b.expand.as_ref first ≡ [])
    unfolding get nth
    get_fresh arena [] same fresh = (
      b.with_capacity (virtio_net_hdr_len + 65536),
      [],
      rw (same, fresh) refl,
      laws.as_ref-with_capacity _,
    )
    get_fresh arena (old ∷ more) same fresh =
        let some_bufs : ltb 0 (suc (length more)) ≡ true = ground arith in
        (
          b.reserve (b.clear old) (virtio_net_hdr_len + 65536),
          more,
          rw (same, fresh, some_bufs) refl,
          laws.as_ref-reserve _ _ ∙ laws.as_ref-clear old,
        )

    -- The first frame of a batch: its packet is what the encoder makes of ten zeros.
    pub start_send_first :
        (size : ℕ) (wr : B) (arena : PacketArena B) (codec codec1 : C) (item : Item)
        (answer : Option Error) (bytes : List ℕ)
        → arena.offset ≡ 0
        → enc.encode codec item (replicate virtio_net_hdr_len 0) ≡ (answer, bytes, codec1)
        → (first : B) × (more : List B) × (start_send b enc (offloading size wr arena) codec item
            ≡ ok (answer, offloading size wr (with_first arena first more), codec1))
          × (b.expand.as_ref first ≡ bytes)
    unfolding start_send
    start_send_first size wr arena codec codec1 item answer bytes fresh encodes =
        let (buf, more, gets, empty) = get_fresh arena arena.gro.bufs refl fresh in
        let sized = b.expand.buf_resize buf virtio_net_hdr_len 0 in
        let zeros : b.expand.as_ref sized ≡ replicate virtio_net_hdr_len 0 =
          grows.as_ref-resize buf virtio_net_hdr_len 0 ∙ rw empty refl in
        (b.store sized bytes, more, rw (gets, zeros, encodes) refl, laws.as_ref-store sized bytes)

    -- Frames that are sent one after the other, whatever the encoder answers.
    abbrev pub send_each : WriteState B → C → List Item → Outcome (WriteState B × C)
    send_each state codec [] = ok (state, codec)
    send_each state codec (item ∷ items) =
        start_send b enc state codec item >>= λ sent. send_each sent.1 sent.2 items

    nth_found : (l : List B) (i : ℕ) → i < length l → (old : B) × (nth l i ≡ ok old)
    unfolding nth
    nth_found [] i h = absurd (omega (arith, h))
    nth_found (x ∷ xs) zero h = (x, refl)
    nth_found (x ∷ xs) (suc i) h = nth_found xs i (omega (arith, h))

    -- The arena with other buffers behind the first, and one more in use.
    abbrev with_later : PacketArena B → B → List B → ℕ → PacketArena B
    with_later arena first more k = record (with_bufs b arena (first ∷ more)) { offset = suc k + 1 }

    -- A buffer that is taken later leaves the first one alone.
    get_later :
        (arena : PacketArena B) (first : B) (more : List B) (k : ℕ)
        → arena.gro.bufs ≡ first ∷ more
        → arena.offset ≡ suc k
        → k ≤ length more
        → (buf : B) × (more1 : List B) × (k < length more1)
          × (get b arena ≡ ok (suc k, buf, with_later arena first more1 k))
    unfolding get
    get_later arena first more k same place room =
        elim (Bool-cases (ltb (suc k) (suc (length more)))) [
          | inl inside ↦
              let (old, found) = nth_found (first ∷ more) (suc k) (ground (arith, inside)) in
              let buf = b.reserve (b.clear old) (virtio_net_hdr_len + 65536) in
              (
                buf,
                set more k buf,
                omega (arith, length-set more k buf, ltb→lt (suc k) (suc (length more)) inside),
                rw (same, place) (rw inside (rw found refl)),
              )
          | inr outside ↦
              let last : k ≡ length more = ground (arith, outside) in
              let fits : (suc k == suc (length more)) ≡ true = ground arith in
              (
                b.with_capacity (virtio_net_hdr_len + 65536),
                more ++ b.with_capacity (virtio_net_hdr_len + 65536) ∷ [],
                omega (
                  arith,
                  last,
                  length-append more (b.with_capacity (virtio_net_hdr_len + 65536) ∷ []),
                ),
                rw (same, place) (rw outside (rw fits refl)),
              )
        ]

    pred_of : (n : ℕ) → 0 < n → (k : ℕ) × (n ≡ suc k)
    pred_of zero h = absurd (omega arith)
    pred_of (suc k) h = (k, refl)

    start_send_later :
        (size : ℕ) (wr : B) (arena : PacketArena B) (codec : C) (item : Item)
        → IsBlocked arena
        → arena.offset < 65535
        → (answer : Option Error) × (arena1 : PacketArena B) × (codec1 : C) × (start_send b enc
              (offloading size wr arena)
              codec
              item
            ≡ ok (answer, offloading size wr arena1, codec1))
          × IsBlocked arena1
          × (arena1.offset ≡ arena.offset + 1)
    unfolding start_send
    start_send_later size wr arena codec item (first, more, starts, short, unsent, used, room, few)
          space =
        let (k, place) = pred_of arena.offset used in
        let size_of : length arena.gro.bufs ≡ suc (length more) = rw starts refl in
        let (buf, more1, inside, gets) =
          get_later arena first more k starts place (omega (arith, place, size_of, room)) in
        let encoded = encode_into b enc codec item (b.expand.buf_resize buf virtio_net_hdr_len 0) in
        (
          encoded.0,
          with_later arena first (set more1 k encoded.1) k,
          encoded.2,
          rw gets refl,
          (
            first,
            set more1 k encoded.1,
            refl,
            short,
            unsent,
            omega arith,
            omega (arith, length-set more1 k encoded.1, inside),
            omega (arith, place, space),
          ),
          omega (arith, place),
        )

    send_each-IsBlocked :
        (size : ℕ) (wr : B) (arena : PacketArena B) (codec : C) (items : List Item)
        → IsBlocked arena
        → arena.offset + length items ≤ 65535
        → (arena1 : PacketArena B) × (codec1 : C) × (send_each
              (offloading size wr arena)
              codec
              items
            ≡ ok (offloading size wr arena1, codec1))
          × IsBlocked arena1
    send_each-IsBlocked size wr arena codec [] blocked few = (arena, codec, refl, blocked)
    send_each-IsBlocked size wr arena codec (item ∷ items) blocked few =
        let (answer, arena1, codec1, sends, blocked1, next) =
          start_send_later size wr arena codec item blocked (omega (arith, few)) in
        let (arena2, codec2, later, blocked2) =
          send_each-IsBlocked size wr arena1 codec1 items blocked1 (omega (arith, few, next)) in
        (arena2, codec2, rw sends later, blocked2)

    -- On a device with offload whose arena is empty, take a first frame of which the encoder adds no bytes
    -- to the ten of the `virtio` header, whether it answers `Ok(())` or an error. Whatever up to 65534
    -- frames are sent after it, each flush answers `invalid offset`, hands nothing to the device, and
    -- leaves the state as it was.
    pub poll_flush-start_send :
        (size : ℕ) (wr : B) (arena : PacketArena B) (codec codec1 : C) (item : Item)
        (answer : Option Error) (items : List Item)
        → arena.offset ≡ 0
        → arena.gro.to_write ≡ []
        → enc.encode codec item (replicate virtio_net_hdr_len 0)
          ≡ (answer, replicate virtio_net_hdr_len 0, codec1)
        → length items ≤ 65534
        → (first : WriteState B) × (start_send b enc (offloading size wr arena) codec item
            ≡ ok (answer, first, codec1))
          × (state : WriteState B) × (codec2 : C) × (send_each first codec1 items
              ≡ ok (state, codec2))
          × ((world : W)
              → poll_flush b enc cpu order udp_gso poll_send state world
                ≡ ok (ready (some (enc.from_io invalid_offset)), state, world))
    poll_flush-start_send size wr arena codec codec1 item answer items fresh unsent nothing few =
        let (first, more, sends, short) =
          start_send_first size wr arena codec codec1 item answer (replicate virtio_net_hdr_len 0)
            fresh nothing in
        let blocked : IsBlocked (with_first arena first more) = (
          first,
          more,
          refl,
          rw short (omega arith),
          unsent,
          omega arith,
          omega arith,
          omega arith,
        ) in
        let (arena2, codec2, later, blocked2) =
          send_each-IsBlocked size wr (with_first arena first more) codec1 items blocked
            (omega (arith, few)) in
        (
          offloading size wr (with_first arena first more),
          sends,
          offloading size wr arena2,
          codec2,
          later,
          λ world. blocked_lem size wr arena2 world blocked2,
        )
