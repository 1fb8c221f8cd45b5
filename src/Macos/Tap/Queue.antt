-- ===== src/Macos/Tap/Queue.antt =====
-- The queue of packets between the reads of the BPF descriptor and the receiver.
use tun_rs.Base.{
  ◌≢◌, true, false, IoError, interrupted, fd_error, ℕ, suc, ◌≤◌, ◌≡◌, refl, ap, sym, ◌∙◌, List, [],
  ◌∷◌, ◌++◌, inl, length, take, some, Outcome, ok, err, timed_out, arith,
}
use mathlib.Core.List.{append-nil}
use tun_rs.Interrupt.{PollAnswer, poll_failed, poll_timeout, poll_ready, wait}
use tun_rs.Macos.Tap.{
  Bpf, Tap, recv_to_buffer, fill_if_empty, copy_packet, recv, read_interruptible,
}
use tun_rs.Macos.Tap.Laid.{Laid, push_records-Laid}

module _ {W : Type 0} (bpf : Bpf W) where
  -- Receiving into one buffer after the other: what each call answers, and the device after them.
  unfoldable pub recv_each : Tap W → List (List ℕ) → List (Outcome (ℕ × List ℕ)) × Tap W
  recv_each tap [] = ([], tap)
  recv_each tap (buf ∷ bufs) =
      let (answer, tap1) = recv bpf tap buf in
      let (answers, tap2) = recv_each tap1 bufs in (answer ∷ answers, tap2)

  -- Each packet offered to a buffer of its own.
  abbrev pub copies : List (List ℕ) → List (List ℕ) → List (Outcome (ℕ × List ℕ))
  copies [] packets = []
  copies (buf ∷ bufs) [] = []
  copies (buf ∷ bufs) (packet ∷ packets) = copy_packet bpf buf packet ∷ copies bufs packets

  -- While packets wait, each call takes the first one and does not read.
  recv_each-waiting :
      (bufs packets more : List (List ℕ)) (world : W)
      → length bufs ≡ length packets
      → recv_each (record { buffer = packets ++ more; world = world }) bufs
        ≡ (copies bufs packets, record { buffer = more; world = world })
  unfolding recv_each recv fill_if_empty
  recv_each-waiting [] [] more world h = refl
  recv_each-waiting [] (packet ∷ packets) more world h = absurd (omega arith)
  recv_each-waiting (buf ∷ bufs) [] more world h = absurd (omega arith)
  recv_each-waiting (buf ∷ bufs) (packet ∷ packets) more world h =
      rw (recv_each-waiting bufs packets more world (omega arith)) refl

  recv_each-all :
      (bufs packets : List (List ℕ)) (world : W)
      → length bufs ≡ length packets
      → recv_each (record { buffer = packets; world = world }) bufs
        ≡ (copies bufs packets, record { buffer = []; world = world })
  recv_each-all bufs packets world h =
      ap (λ l. recv_each (record { buffer = l; world = world }) bufs) (sym (append-nil packets))
      ∙ recv_each-waiting bufs packets [] world h

  -- A read of an empty queue that is laid out as records: the packets are queued.
  fill-Laid :
      (world world1 : W) (packets : List (List ℕ)) (len : ℕ) (buffer : List ℕ)
      → bpf.read_bpf world ≡ (inl (len, buffer), world1)
      → len ≤ length buffer
      → Laid bpf packets (take len buffer)
      → fill_if_empty bpf (record { buffer = []; world = world })
        ≡ (ok tt, record { buffer = packets; world = world1 })
  unfolding fill_if_empty recv_to_buffer
  fill-Laid world world1 packets len buffer answer bound laid =
      rw (ap (λ t. t.0) answer, fill_if_empty, recv_to_buffer)
        (rw (push_records-Laid bpf packets (suc len) buffer len 0 [] bound (omega arith) laid)
          (ap (λ w. (ok tt, record { buffer = packets; world = w })) (ap (λ t. t.1) answer)))

  -- From an empty queue, receiving into as many buffers as the next read has packets: that read is the
  -- only one, each packet is offered to its buffer, in order, and none is left.
  pub recv_each-Laid :
      (world world1 : W) (packet : List ℕ) (packets : List (List ℕ)) (len : ℕ) (buffer : List ℕ)
      (bufs : List (List ℕ))
      → bpf.read_bpf world ≡ (inl (len, buffer), world1)
      → len ≤ length buffer
      → Laid bpf (packet ∷ packets) (take len buffer)
      → length bufs ≡ length (packet ∷ packets)
      → recv_each (record { buffer = []; world = world }) bufs
        ≡ (copies bufs (packet ∷ packets), record { buffer = []; world = world1 })
  unfolding recv_each recv
  recv_each-Laid world world1 packet packets len buffer [] answer bound laid h =
      absurd (omega arith)
  recv_each-Laid world world1 packet packets len buffer (buf ∷ bufs) answer bound laid h =
      rw (fill-Laid world world1 (packet ∷ packets) len buffer answer bound laid)
        (rw (recv_each-all bufs packets world1 (omega arith)) refl)

  -- Each answer of `poll` is another one than that the device is readable and no event is set.
  abbrev pub NeverReadable : List PollAnswer → Type 0
  NeverReadable [] = Unit
  NeverReadable (polled ∷ later) = (polled ≢ poll_ready true false) × NeverReadable later

  not_readable :
      (polled : PollAnswer)
      → polled ≢ poll_ready true false
      → (e : IoError) × (wait true polled ≡ err e)
  unfolding wait
  not_readable (poll_failed e) other = (e, refl)
  not_readable poll_timeout other = (timed_out, refl)
  not_readable (poll_ready true true) other = (interrupted, refl)
  not_readable (poll_ready true false) other = absurd (other refl)
  not_readable (poll_ready false true) other = (interrupted, refl)
  not_readable (poll_ready false false) other = (fd_error, refl)

  -- Whatever packets wait in the queue: unless `poll` says that the device is readable, an interruptible
  -- read that returns has failed, and has left the queue as it was, while `recv` takes the first packet
  -- at once, without a read of the device.
  pub read_interruptible-queued :
      (answers : List PollAnswer) (packet : List ℕ) (packets : List (List ℕ)) (world : W)
      (buf : List ℕ) (outcome : Outcome (ℕ × List ℕ)) (tap1 : Tap W)
      → NeverReadable answers
      → read_interruptible bpf answers (record { buffer = packet ∷ packets; world = world }) buf
        ≡ some (outcome, tap1)
      → ((e : IoError) × (outcome ≡ err e))
        × (tap1 ≡ record { buffer = packet ∷ packets; world = world })
        × (recv bpf (record { buffer = packet ∷ packets; world = world }) buf
            ≡ (copy_packet bpf buf packet, record { buffer = packets; world = world }))
  unfolding read_interruptible recv fill_if_empty
  read_interruptible-queued [] packet packets world buf outcome tap1 never h =
      absurd (ground (arith, h))
  read_interruptible-queued (polled ∷ later) packet packets world buf outcome tap1 never h =
      let (e, fails) = not_readable polled never.0 in
      let tap : Tap W = record { buffer = packet ∷ packets; world = world } in
      let returned : some (err e, tap) ≡ some (outcome, tap1) =
        rw (fails, read_interruptible) at h in
      ((e, ground (arith, returned)), ground (arith, returned), refl)
