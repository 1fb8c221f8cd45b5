-- ===== src/Macos/Select/Tasks.antt =====
-- A poll that answers pending leaves a task behind that wakes it.
use tun_rs.Base.{
  ℕ, zero, suc, ◌≡◌, refl, ap, ap₂, sym, ◌∙◌, true, Bool-cases, Option, none, some, ◌⊎◌, inl, inr,
  IoError, arith,
}
use tun_rs.Framed.{Poll, ready, pending}
use tun_rs.Interrupt.{is_would_block}
use tun_rs.Macos.Select.{AsyncDevice, Waiting, task_or, kept, poll_readable, poll_loop, poll_recv}

module _ {T W : Type 0} (waiting : Waiting T W) where
  -- `device1` keeps a task that, polled last, was pending, and the task of the senders is as it was.
  abbrev pub KeepsTask : AsyncDevice T → AsyncDevice T → W → Type 0
  KeepsTask device device1 world1 =
      (task : T) × (w : W) × (waiting.poll_task task w ≡ (pending, world1))
      × (device1.recv_task_lock ≡ some task)
      × (device1.send_task_lock ≡ device.send_task_lock)

  poll_readable_pending :
      (device device1 : AsyncDevice T) (world world1 : W)
      → poll_readable waiting device world ≡ (pending, device1, world1)
      → KeepsTask device device1 world1
  unfolding poll_readable
  poll_readable_pending device device1 world world1 h =
      let first = task_or waiting device.recv_task_lock waiting.unblock_readable world in
      let polled = waiting.poll_task first.0 first.1 in
      let answer : polled.0 ≡ pending = ap (λ t. t.0) h in
      let after : polled.1 ≡ world1 = ap (λ t. t.2) h in
      let left : record device { recv_task_lock = kept waiting polled.0 first.0 } ≡ device1 =
        ap (λ t. t.1) h in
      (
        first.0,
        first.1,
        ap₂ (λ a b. (a, b)) answer after,
        sym (ap (λ t. t.recv_task_lock) left) ∙ ap (λ t. kept waiting t first.0) answer,
        sym (ap (λ t. t.send_task_lock) left),
      )

  senders_kept :
      (device : AsyncDevice T) (world : W)
      → (poll_readable waiting device world).1.send_task_lock ≡ device.send_task_lock
  unfolding poll_readable
  senders_kept device world = refl

  -- What a poll to receive leaves when it answers pending: a task in the lock whose last poll was pending,
  -- so that it wakes this poll's task, and the lock of the senders as it was.
  pub poll_recv_pending :
      (fuel : ℕ) (device device1 : AsyncDevice T) (world world1 : W)
      → poll_recv waiting fuel device world ≡ some (pending, device1, world1)
      → KeepsTask device device1 world1
  unfolding poll_recv poll_loop
  poll_recv_pending zero device device1 world world1 h = absurd (ground (arith, h))
  poll_recv_pending (suc fuel) device device1 world world1 h =
      asked (λ d w. poll_recv_pending fuel d device1 w world1) (waiting.try_recv world).0 refl
    where
      asked_again :
          ((d : AsyncDevice T) (w : W)
            → poll_recv waiting fuel d w ≡ some (pending, device1, world1)
            → KeepsTask d device1 world1)
          → (error : IoError) (readiness : Poll (Option IoError))
          → (waiting.try_recv world).0 ≡ inr error
          → is_would_block error ≡ true
          → (poll_readable waiting device (waiting.try_recv world).1).0 ≡ readiness
          → KeepsTask device device1 world1
      asked_again later error pending e blocks r =
          poll_readable_pending device device1 (waiting.try_recv world).1 world1
            (ground (arith, e, blocks, r, h))
      asked_again later error (ready (some failure)) e blocks r =
          absurd (ground (arith, e, blocks, r, h))
      asked_again later error (ready none) e blocks r =
          let next = poll_readable waiting device (waiting.try_recv world).1 in
          let (task, w, waits, stored, senders) =
            later next.1 next.2 (ground (arith, e, blocks, r, h)) in
          (task, w, waits, stored, senders ∙ senders_kept device (waiting.try_recv world).1)

      asked :
          ((d : AsyncDevice T) (w : W)
            → poll_recv waiting fuel d w ≡ some (pending, device1, world1)
            → KeepsTask d device1 world1)
          → (answer : ℕ ⊎ IoError) → (waiting.try_recv world).0 ≡ answer
          → KeepsTask device device1 world1
      asked later (inl n) e = absurd (ground (arith, e, h))
      asked later (inr error) e = elim (Bool-cases (is_would_block error)) [
        | inl blocks ↦
            asked_again later error (poll_readable waiting device (waiting.try_recv world).1).0 e
              blocks refl
        | inr fails ↦ absurd (ground (arith, e, fails, h))
      ]
