-- ===== src/Framed/Arena/Sending.antt =====
-- What a poll of the arena, `poll_send_bufs`, hands to the device, and what it leaves to the next one.
use tun_rs.Base.{
  ℕ, zero, suc, ◌+◌, ◌≤◌, ◌<◌, ◌≡◌, refl, ◌∙◌, List, [], ◌∷◌, ◌++◌, length, length-drop, take, drop,
  map, true, false, drop-all, leb→le, Bool, leb, if◌then◌else◌, ◌==◌, Option, none, some, ◌⊎◌, inl,
  inr, Outcome, ok, slice_front_ok, slice_from_ok, IoError, arith,
}
use tun_rs.Gro.{nth}
use tun_rs.Gro.Table.{reset}
use tun_rs.Device.Send.{Packets}
use tun_rs.Framed.{Poll, ready, pending, BytesMut}
use tun_rs.Framed.Arena.{PacketArena, reset_arena, send_bufs, poll_send_bufs, SentPoll}

-- One poll over packets, from a state of the receiver to a later one, with what the poll answers and the
-- packets that it leaves: each packet is offered once the one before it is sent. The poll ends with
-- `Ok(())` when none is left, with the error of a packet that is refused, or pending on a packet that the
-- receiver has just been asked to take and is pending on.
pub data Hands {W : Type 0} (poll_send : W → List ℕ → Poll (ℕ ⊎ IoError) × W)
    : W → List (List ℕ) → Poll (Option IoError) → W → List (List ℕ) → Type 0 where
  all_sent : {w : W} → Hands poll_send w [] (ready none) w []
  sent :
      {w w' : W} {p : List ℕ} {ps left : List (List ℕ)} {answer : Poll (Option IoError)} (n : ℕ)
      → (poll_send w p).0 ≡ ready (inl n)
      → Hands poll_send (poll_send w p).1 ps answer w' left
      → Hands poll_send w (p ∷ ps) answer w' left
  refused :
      {w : W} {p : List ℕ} {ps : List (List ℕ)} (e : IoError)
      → (poll_send w p).0 ≡ ready (inr e)
      → Hands poll_send w (p ∷ ps) (ready (some e)) (poll_send w p).1 ps
  waits :
      {w : W} {p : List ℕ} {ps : List (List ℕ)}
      → (poll_send w p).0 ≡ pending
      → Hands poll_send w (p ∷ ps) pending (poll_send w p).1 (p ∷ ps)

Poll-cases :
    (q : Poll (ℕ ⊎ IoError))
    → (q ≡ pending) ⊎ (((n : ℕ) × (q ≡ ready (inl n))) ⊎ ((e : IoError) × (q ≡ ready (inr e))))
Poll-cases pending = inl refl
Poll-cases (ready (inl n)) = inr (inl (n, refl))
Poll-cases (ready (inr e)) = inr (inr (e, refl))

rest_after :
    (to_write rest : List ℕ) (n i : ℕ)
    → drop n to_write ≡ i ∷ rest
    → (drop (suc n) to_write ≡ rest) × (suc n ≤ length to_write)
rest_after [] rest zero i h = absurd (ground arith)
rest_after [] rest (suc n) i h = absurd (ground arith)
rest_after (x ∷ to_write) rest zero i h = (ground (arith, h), omega arith)
rest_after (x ∷ to_write) rest (suc n) i h =
    let (same, room) = rest_after to_write rest n i h in (same, omega (arith, room))

module _ {B : Type 0} (b : BytesMut B) where
  -- The packets that an arena still has to hand over.
  abbrev pub Holds : PacketArena B → List (List ℕ) → Type 0
  Holds arena packets =
      (arena.offset ≤ length arena.gro.bufs)
      × (arena.send_index ≤ length arena.gro.to_write)
      × Packets b.expand (take arena.offset arena.gro.bufs) 0
          (drop arena.send_index arena.gro.to_write) packets

  -- The arena after a reset: the buffers that were in use are cleared and kept, the tables hold no flow,
  -- and nothing is to be written.
  abbrev pub Cleared : PacketArena B → PacketArena B → Type 0
  Cleared before after =
      (after.offset ≡ 0)
      × (after.send_index ≡ 0)
      × (after.gro.to_write ≡ [])
      × (after.gro.bufs
          ≡ map b.clear (take before.offset before.gro.bufs) ++ drop before.offset before.gro.bufs)
      × (after.gro.tcp_table.items_by_flow ≡ [])
      × (after.gro.udp_table.items_by_flow ≡ [])

  -- What becomes of the arena: it is reset once no packet is left, after `Ok(())` or after an error.
  abbrev pub Settled :
      Poll (Option IoError) → PacketArena B → PacketArena B → List (List ℕ) → Type 0
  Settled (ready none) before after left = Cleared before after
  Settled (ready (some error)) before after left = left ≡ [] → Cleared before after
  Settled pending before after left = Unit

  -- The arena that a reset leaves.
  abbrev pub emptied : PacketArena B → PacketArena B
  emptied arena = record {
    gro = record {
      bufs = map b.clear (take arena.offset arena.gro.bufs) ++ drop arena.offset arena.gro.bufs;
      tcp_table = reset arena.gro.tcp_table;
      udp_table = reset arena.gro.udp_table;
      to_write = [];
    };
    offset = 0;
    send_index = 0;
  }

  reset_ok :
      (arena : PacketArena B)
      → arena.offset ≤ length arena.gro.bufs
      → reset_arena b arena ≡ ok (emptied arena)
  unfolding reset_arena
  reset_ok arena h = rw (slice_front_ok arena.gro.bufs arena.offset h) refl

  abbrev advanced : PacketArena B → PacketArena B
  advanced arena = record arena { send_index = arena.send_index + 1 }

  emptied-Cleared : (arena : PacketArena B) → Cleared arena (emptied arena)
  unfolding reset
  emptied-Cleared arena = (refl, refl, refl, refl, refl, refl)

  -- The place in the indices does not matter to a reset.
  Settled-advanced :
      (answer : Poll (Option IoError)) (arena after : PacketArena B) (left : List (List ℕ))
      → Settled answer (advanced arena) after left
      → Settled answer arena after left
  Settled-advanced pending arena after left h = tt
  Settled-advanced (ready none) arena after left h = h
  Settled-advanced (ready (some error)) arena after left h = h

  emptied-Holds : (arena : PacketArena B) → Holds (emptied arena) []
  emptied-Holds arena = (omega arith, omega arith, tt)

  nothing_left :
      (bufs : List B) (index : List ℕ) (packets : List (List ℕ))
      → Packets b.expand bufs 0 index packets
      → index ≡ []
      → Packets b.expand [] 0 [] packets
  nothing_left bufs [] packets held none_left = held
  nothing_left bufs (i ∷ index) packets held none_left = absurd (ground arith)

  none_left_index :
      (bufs : List B) (index : List ℕ) (packets : List (List ℕ))
      → Packets b.expand bufs 0 index packets
      → packets ≡ []
      → length index ≡ 0
  none_left_index bufs [] packets held none_left = refl
  none_left_index bufs (i ∷ index) [] held none_left = elim held [ ]
  none_left_index bufs (i ∷ index) (p ∷ packets) held none_left = absurd (ground arith)

  after_failure :
      (arena : PacketArena B) (packets : List (List ℕ)) (all : Bool)
      → leb (length arena.gro.to_write) (arena.send_index + 1) ≡ all
      → arena.offset ≤ length arena.gro.bufs
      → arena.send_index + 1 ≤ length arena.gro.to_write
      → Packets b.expand
          (take arena.offset arena.gro.bufs)
          0
          (drop (arena.send_index + 1) arena.gro.to_write)
          packets
      → Holds (if all then emptied (advanced arena) else advanced arena) packets
  after_failure arena packets true last h k held = (
    omega arith,
    omega arith,
    nothing_left (take arena.offset arena.gro.bufs) _ packets held
        (drop-all (arena.send_index + 1) arena.gro.to_write (leb→le _ _ last)),
  )
  after_failure arena packets false last h k held = (h, k, held)

  after_last :
      (arena : PacketArena B) (packets : List (List ℕ)) (bufs : List B) (all : Bool)
      → leb (length arena.gro.to_write) (arena.send_index + 1) ≡ all
      → Packets b.expand bufs 0 (drop (arena.send_index + 1) arena.gro.to_write) packets
      → packets ≡ []
      → Cleared arena (if all then emptied (advanced arena) else advanced arena)
  after_last arena packets bufs true last held none_left = emptied-Cleared (advanced arena)
  after_last arena packets bufs false more held none_left =
      let few : length arena.gro.to_write ≤ arena.send_index + 1 = omega (
        arith,
        length-drop (arena.send_index + 1) arena.gro.to_write,
        none_left_index bufs (drop (arena.send_index + 1) arena.gro.to_write) packets held
            none_left,
      ) in
      absurd (ground (arith, more))

  module _ {W : Type 0} (poll_send : W → List ℕ → Poll (ℕ ⊎ IoError) × W) where
    -- That a poll of an arena returns, and what it leaves to later polls.
    abbrev pub Polls : Outcome (SentPoll b poll_send) → PacketArena B → W → List (List ℕ) → Type 0
    Polls outcome arena world packets =
        (r : SentPoll b poll_send) × (outcome ≡ ok r)
        × (left : List (List ℕ)) × Hands poll_send world packets r.0 r.2 left
        × Holds r.1 left
        × Settled r.0 arena r.1 left

    -- One round of the loop, for each answer.
    module _ (bufs : List B) (i : ℕ) (rest p : List ℕ) (arena : PacketArena B) (world : W) (buf : B)
        (found : nth bufs i ≡ ok buf) (is : b.expand.as_ref buf ≡ p) where
      round_waits :
          (poll_send world p).0 ≡ pending
          → send_bufs b poll_send bufs (i ∷ rest) arena world
            ≡ ok (pending, arena, (poll_send world p).1)
      unfolding send_bufs
      round_waits answer = rw (← is) (
          let at_place : (poll_send world (b.expand.as_ref buf)).0 ≡ pending = rw is answer in
          ground (arith, found, at_place))

      round_sent :
          (n : ℕ)
          → (poll_send world p).0 ≡ ready (inl n)
          → send_bufs b poll_send bufs (i ∷ rest) arena world
            ≡ send_bufs b poll_send bufs rest (advanced arena) (poll_send world p).1
      unfolding send_bufs
      round_sent n answer = rw (← is) (
          let at_place : (poll_send world (b.expand.as_ref buf)).0 ≡ ready (inl n) = rw is answer in
          ground (arith, found, at_place))

      round_failed :
          (error : IoError)
          → (poll_send world p).0 ≡ ready (inr error)
          → arena.offset ≤ length arena.gro.bufs
          → send_bufs b poll_send bufs (i ∷ rest) arena world
            ≡ ok (
              ready (some error),
              if leb (length arena.gro.to_write) (arena.send_index + 1)
                  then emptied (advanced arena)
                  else advanced arena,
              (poll_send world p).1,
            )
      unfolding send_bufs
      round_failed error answer h = rw (← is) (
          let at_place : (poll_send world (b.expand.as_ref buf)).0 ≡ ready (inr error) =
            rw is answer in
          ground (arith, found, at_place, reset_ok (advanced arena) h))

    send_bufs_lem :
        (rest : List ℕ) (packets : List (List ℕ)) (arena : PacketArena B) (world : W)
        → arena.offset ≤ length arena.gro.bufs
        → arena.send_index ≤ length arena.gro.to_write
        → drop arena.send_index arena.gro.to_write ≡ rest
        → Packets b.expand (take arena.offset arena.gro.bufs) 0 rest packets
        → Polls
            (send_bufs b poll_send (take arena.offset arena.gro.bufs) rest arena world)
            arena
            world
            packets
    unfolding send_bufs
    send_bufs_lem [] [] arena world h k same held = (
      (ready none, emptied arena, world),
      rw (reset_ok arena h) refl,
      [],
      all_sent,
      emptied-Holds arena,
      emptied-Cleared arena,
    )
    send_bufs_lem (i ∷ rest) (p ∷ packets) arena world h k same ((buf, found, reach, is), held) =
        let (same1, room) = rest_after arena.gro.to_write rest arena.send_index i same in
        let one_on : arena.send_index + 1 ≡ suc arena.send_index = omega arith in
        let bufs = take arena.offset arena.gro.bufs in
        elim (Poll-cases (poll_send world p).0) [
          | inl blocked ↦ (
            (pending, arena, (poll_send world p).1),
            round_waits bufs i rest p arena world buf found is blocked,
            p ∷ packets,
            waits blocked,
            (h, k, rw same ((buf, found, reach, is), held)),
            tt,
          )
          | inr (inl (n, answered)) ↦
              let (r, returns, left, hands, holds, settled) =
                send_bufs_lem rest packets (advanced arena) (poll_send world p).1 h
                  (omega (arith, room)) (rw one_on same1) held in
              (
                r,
                round_sent bufs i rest p arena world buf found is n answered ∙ returns,
                left,
                sent n answered hands,
                holds,
                Settled-advanced r.0 arena r.1 left settled,
              )
          | inr (inr (e, failed)) ↦
              let held_on : Packets b.expand bufs 0 (drop (arena.send_index + 1) arena.gro.to_write)
                  packets =
                rw (one_on, same1) held in
              (
                _,
                round_failed bufs i rest p arena world buf found is e failed h,
                packets,
                refused e failed,
                after_failure arena packets (leb (length arena.gro.to_write) (arena.send_index + 1))
                    refl h (omega (arith, room)) held_on,
                after_last arena packets bufs
                    (leb (length arena.gro.to_write) (arena.send_index + 1)) refl held_on,
              )
        ]
    send_bufs_lem [] (p ∷ packets) arena world h k same held = elim held [ ]
    send_bufs_lem (i ∷ rest) [] arena world h k same held = elim held [ ]

    -- For an arena with a buffer in use whose unsent indices are those of `packets`: `poll_send_bufs`
    -- returns. It offers the packets in order, each once the one before it is sent, and ends in one of
    -- three ways (`Hands`): with `Ok(())` when none is left; with the error of the packet that the device
    -- has just refused; or pending on the packet that the device, just asked to take it, is pending on.
    -- What it leaves are exactly the packets behind those that were answered, and the arena holds them
    -- for the next poll. After `Ok(())`, and after an error of the last packet, the arena is reset: the
    -- buffers in use are cleared, the tables hold no flow, and nothing is to be written.
    pub poll_send_bufs_lem :
        (packets : List (List ℕ)) (arena : PacketArena B) (world : W)
        → 0 < arena.offset
        → Holds arena packets
        → Polls (poll_send_bufs b poll_send arena world) arena world packets
    unfolding poll_send_bufs
    poll_send_bufs_lem packets arena world some_bufs (h, k, held) =
        let (r, returns, left, hands, holds, settled) =
          send_bufs_lem (drop arena.send_index arena.gro.to_write) packets arena world h k refl
            held in
        let at_front = slice_front_ok arena.gro.bufs arena.offset h in
        let unsent = slice_from_ok arena.gro.to_write arena.send_index k in
        let used : (arena.offset == 0) ≡ false = ground arith in
        (r, rw (used, at_front, unsent) returns, left, hands, holds, settled)
