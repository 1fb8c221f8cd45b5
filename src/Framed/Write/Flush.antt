-- ===== src/Framed/Write/Flush.antt =====
-- What a flush of a framed device hands over, with and without offload.
use tun_rs.Base.{
  ℕ, zero, suc, ◌≤◌, ◌<◌, ◌≡◌, refl, ap, ◌∙◌, List, [], ◌∷◌, ◌++◌, length, length-append, take,
  drop, Bool, true, false, ◌==◌, Option, none, some, ◌⊎◌, inl, inr, Outcome, ok, slice_front_ok,
  IoError, arith,
}
use tun_rs.Checksum.{CpuFeatures}
use tun_rs.Virtio.{Endian, virtio_net_hdr_len}
use tun_rs.Gro.Handle.{GroState, handle_gro}
use tun_rs.Gro.Kept.{handle_gro_kept-handle_gro}
use tun_rs.Device.Send.{Packets}
use tun_rs.Framed.{Poll, ready, pending, Encoder, BytesMut, IsBytesMut, is_empty}
use tun_rs.Framed.Arena.{PacketArena, handle_arena}
use tun_rs.Framed.Arena.Sending.{Hands, Holds, Settled, poll_send_bufs_lem}
use tun_rs.Framed.Write.{start_send, poll_flush, into_error, FlushPoll}
use tun_rs.Framed.Write.Sink.{plain, offloading}

take_append : {A : Type 0} (n : ℕ) (xs ys : List A) → length xs ≡ n → take n (xs ++ ys) ≡ xs
take_append zero [] ys h = refl
take_append zero (x ∷ xs) ys h = absurd (omega (arith, h))
take_append (suc n) [] ys h = absurd (omega (arith, h))
take_append (suc n) (x ∷ xs) ys h = ap (λ t. x ∷ t) (take_append n xs ys (omega (arith, h)))

some_unsent :
    {B : Type 0} (b : BytesMut B) (bufs : List B) (to_write : List ℕ) (n : ℕ)
    (packets : List (List ℕ))
    → Packets b.expand bufs 0 (drop n to_write) packets
    → 0 < length packets
    → is_empty to_write ≡ false
some_unsent b bufs [] zero [] held more = absurd (omega (arith, more))
some_unsent b bufs [] zero (p ∷ packets) held more = elim held [ ]
some_unsent b bufs [] (suc n) [] held more = absurd (omega (arith, more))
some_unsent b bufs [] (suc n) (p ∷ packets) held more = elim held [ ]
some_unsent b bufs (i ∷ to_write) n packets held more = refl

not_empty : (l : List ℕ) → 0 < length l → is_empty l ≡ false
not_empty [] h = absurd (omega (arith, h))
not_empty (x ∷ l) h = refl

Answer-cases :
    (q : Poll (ℕ ⊎ IoError)) → (q ≡ pending) ⊎ ((answer : ℕ ⊎ IoError) × (q ≡ ready answer))
Answer-cases pending = inl refl
Answer-cases (ready answer) = inr (answer, refl)

-- What a flush without offload answers when the device does.
abbrev pub passed_on :
    {C Item Error : Type 0} → Encoder C Item Error → ℕ ⊎ IoError → Poll (Option Error)
passed_on enc (inl n) = ready none
passed_on enc (inr error) = ready (some (enc.from_io error))

module _ {B : Type 0} (b : BytesMut B) {C Item Error : Type 0} (enc : Encoder C Item Error)
    (cpu : CpuFeatures) (order : Endian) (udp_gso : Bool) {W : Type 0}
    (poll_send : W → List ℕ → Poll (ℕ ⊎ IoError) × W) where
  -- What a flush of a device with offload answers, and what it leaves to later flushes, when the arena
  -- with its packets joined is `handled`.
  abbrev pub Flushes :
      Outcome (FlushPoll b enc cpu order udp_gso poll_send)
      → ℕ
      → B
      → PacketArena B
      → W
      → List (List ℕ)
      → Type 0
  Flushes outcome size wr handled world packets =
      (answer : Poll (Option IoError)) × (arena : PacketArena B) × (world1 : W) × (left : List
        (List ℕ))
      × (outcome ≡ ok (into_error b enc answer, offloading size wr arena, world1))
      × Hands poll_send world packets answer world1 left
      × Holds b arena left
      × Settled b answer handled arena left

  flushes :
      (size : ℕ) (wr : B) (arena handled : PacketArena B) (world : W) (packets : List (List ℕ))
      → handle_arena b cpu order udp_gso arena ≡ ok (none, handled)
      → 0 < handled.offset
      → Holds b handled packets
      → Flushes
          (poll_flush b enc cpu order udp_gso poll_send (offloading size wr arena) world)
          size
          wr
          handled
          world
          packets
  unfolding poll_flush
  flushes size wr arena handled world packets handles used holds =
      let (r, sent, left, hands, still, settled) =
        poll_send_bufs_lem b poll_send packets handled world used holds in
      (r.0, r.1, r.2, left, rw (handles, sent) refl, hands, still, settled)

  -- A flush of a new batch on a device with offload: at least one buffer is in use, nothing is left to
  -- write from before, `handle_gro` joins the buffers in use and keeps their number, and `packets` are
  -- the buffers that it leaves to be written. The flush offers these packets in order, each once the one
  -- before it is sent, and ends in one of three ways (`Hands`): with `Ok(())` when none is left; with the
  -- error of the packet that the device has just refused; or pending on the packet that the device, just
  -- asked to take it, is pending on. It leaves exactly the packets behind those that were answered. After
  -- `Ok(())`, and after an error of the last packet, the arena is reset.
  pub poll_flush-handle_gro :
      (size : ℕ) (wr : B) (arena : PacketArena B) (g : GroState B) (world : W)
      (packets : List (List ℕ))
      → 0 < arena.offset
      → arena.offset ≤ length arena.gro.bufs
      → arena.gro.to_write ≡ []
      → arena.send_index ≡ 0
      → handle_gro b.expand cpu order virtio_net_hdr_len udp_gso
          (record arena.gro { bufs = take arena.offset arena.gro.bufs })
        ≡ ok g
      → length g.bufs ≡ arena.offset
      → Packets b.expand g.bufs 0 g.to_write packets
      → Flushes
          (poll_flush b enc cpu order udp_gso poll_send (offloading size wr arena) world)
          size
          wr
          (record arena { gro = record g { bufs = g.bufs ++ drop arena.offset arena.gro.bufs } })
          world
          packets
  unfolding handle_arena
  poll_flush-handle_gro size wr arena g world packets used room unsent start joins same held =
      let some_bufs : (arena.offset == 0) ≡ false = ground arith in
      let no_unsent : is_empty arena.gro.to_write ≡ true = rw unsent refl in
      let bufs = drop arena.offset arena.gro.bufs in
      let kept =
        handle_gro_kept-handle_gro b.expand cpu order virtio_net_hdr_len udp_gso
          (record arena.gro { bufs = take arena.offset arena.gro.bufs }) g joins in
      flushes size wr arena (record arena { gro = record g { bufs = g.bufs ++ bufs } }) world
        packets
        (rw (some_bufs, no_unsent, slice_front_ok arena.gro.bufs arena.offset room, kept) refl) used
        (
          omega (arith, length-append g.bufs bufs, same),
          omega (arith, start),
          rw (start, take_append arena.offset g.bufs bufs same) held,
        )

  -- A flush that goes on with a batch of which packets are left, on a device with offload: it does not
  -- join anything again, and offers the packets that are left in the same way.
  pub poll_flush-resumes :
      (size : ℕ) (wr : B) (arena : PacketArena B) (world : W) (packets : List (List ℕ))
      → 0 < arena.offset
      → 0 < length packets
      → Holds b arena packets
      → Flushes
          (poll_flush b enc cpu order udp_gso poll_send (offloading size wr arena) world)
          size
          wr
          arena
          world
          packets
  unfolding handle_arena
  poll_flush-resumes size wr arena world packets used more holds =
      let some_bufs : (arena.offset == 0) ≡ false = ground arith in
      let going =
        some_unsent b (take arena.offset arena.gro.bufs) arena.gro.to_write arena.send_index packets
          holds.2 more in
      flushes size wr arena arena world packets (rw (some_bufs, going) refl) used holds

  -- On a device without offload, for a frame that the encoder turns into at least one byte: a flush
  -- offers the device those bytes, and nothing else. While the device is pending the flush is, too, and
  -- leaves the packet; once the device answers, the flush passes the answer on, and another one offers
  -- nothing.
  pub poll_flush-plain :
      IsBytesMut b
      → (size : ℕ) (wr : B) (codec codec1 : C) (item : Item) (bytes : List ℕ) (world later : W)
      → 0 < length bytes
      → enc.encode codec item [] ≡ (none, bytes, codec1)
      → (buf : B) × (start_send b enc (plain size wr) codec item
          ≡ ok (none, plain size buf, codec1))
        × (b.expand.as_ref buf ≡ bytes)
        × (((poll_send world bytes).0 ≡ pending)
              × (poll_flush b enc cpu order udp_gso poll_send (plain size buf) world
                  ≡ ok (pending, plain size buf, (poll_send world bytes).1))
            ⊎ (answer : ℕ ⊎ IoError) × ((poll_send world bytes).0 ≡ ready answer)
              × (poll_flush b enc cpu order udp_gso poll_send (plain size buf) world
                  ≡ ok (passed_on enc answer, plain size (b.clear buf), (poll_send world bytes).1))
              × (poll_flush b enc cpu order udp_gso poll_send (plain size (b.clear buf)) later
                  ≡ ok (ready none, plain size (b.clear buf), later)))
  unfolding start_send poll_flush
  poll_flush-plain laws size wr codec codec1 item bytes world later some_bytes encodes =
      let ready_buf = b.reserve (b.clear wr) size in
      let empty = laws.as_ref-reserve (b.clear wr) size ∙ laws.as_ref-clear wr in
      let buf = b.store ready_buf bytes in
      let holds = laws.as_ref-store ready_buf bytes in
      let some_packet : is_empty (b.expand.as_ref buf) ≡ false =
        rw holds (not_empty bytes some_bytes) in
      (
        buf,
        rw (empty, encodes) refl,
        holds,
        elim (Answer-cases (poll_send world bytes).0) [
          | inl waits ↦ inl (
            waits,
            rw (some_packet, holds, waits)
                (ap (λ x. ok (pending, plain size buf, (poll_send world x).1)) holds),
          )
          | inr (inl n, answers) ↦ inr (
            inl n,
            answers,
            rw (some_packet, holds, answers)
                (ap
                  (λ x. ok (passed_on enc (inl n), plain size (b.clear buf), (poll_send world x).1))
                  holds),
            rw (laws.as_ref-clear buf) refl,
          )
          | inr (inr e, answers) ↦ inr (
            inr e,
            answers,
            rw (some_packet, holds, answers)
                (ap
                  (λ x. ok (passed_on enc (inr e), plain size (b.clear buf), (poll_send world x).1))
                  holds),
            rw (laws.as_ref-clear buf) refl,
          )
        ],
      )
