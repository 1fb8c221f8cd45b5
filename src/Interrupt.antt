-- ===== src/Interrupt.antt =====
-- src/platform/unix/interrupt.rs: `InterruptEvent`, and the calls that wait for a device and an event.
-- The pipe of an event and what `poll` and the read or write of the device answer are parameters. Every
-- operation of an event holds its lock, so that each is one step.
pub mod Runs
mod Tests
use tun_rs.Base.{
  ℕ, zero, suc, Bool, true, false, not, ◌&&◌, List, [], ◌∷◌, ◌==◌, if◌then◌else◌, Option, none,
  some, ◌⊎◌, inl, inr, Outcome, ok, err, panic, IoError, would_block, interrupted, timed_out,
  fd_error, value_zero,
}

-- A write of eight bytes to the pipe and a read of up to eight, with the state `P` of the pipe.
pub record Pipe (P : Type 0) : Type 0 where
  pub write_pipe : P → (ℕ ⊎ IoError) × P
  pub read_pipe : P → (ℕ ⊎ IoError) × P

-- `state` is the `i32` under the lock, as its 32 bits.
pub record InterruptEvent (P : Type 0) : Type 0 where
  pub state : ℕ
  pub pipe : P

-- `new`, around a pipe that the system has made.
abbrev pub new_event : {P : Type 0} → P → InterruptEvent P
new_event pipe = record { state = 0; pipe = pipe }

-- `e.kind() == WouldBlock`.
unfoldable pub is_would_block : IoError → Bool
is_would_block would_block = true
is_would_block _ = false

abbrev pub is_trigger : {P : Type 0} → InterruptEvent P → Bool
is_trigger event = not (event.state == 0)

abbrev pub value : {P : Type 0} → InterruptEvent P → ℕ
value event = event.state

-- `if e.kind() == WouldBlock { Ok(()) } else { Err(e) }`, with none for `Ok(())`.
abbrev pub unless_would_block : IoError → Option IoError
unless_would_block error = if is_would_block error then none else some error

module _ {P : Type 0} (ops : Pipe P) where
  unfoldable pub trigger_value : InterruptEvent P → ℕ → Option IoError × InterruptEvent P
  unfolding is_would_block
  trigger_value event val =
      if val == 0
      then (some value_zero, event)
      else (if not (event.state == 0)
          then (none, event)
          else (let (answer, pipe) = ops.write_pipe event.pipe in
              let triggered : InterruptEvent P = record { state = val; pipe = pipe } in
              elim answer [
                | inl n ↦ (none, triggered)
                | inr error ↦ (unless_would_block error, triggered)
              ]))

  -- `trigger`.
  unfoldable pub trigger : InterruptEvent P → Option IoError × InterruptEvent P
  unfolding trigger_value
  trigger event = trigger_value event 1

  -- The loop of `reset`: none when the fuel does not last.
  unfoldable pub drain_pipe : ℕ → P → Option (Option IoError × P)
  unfolding is_would_block
  drain_pipe zero pipe = none
  drain_pipe (suc fuel) pipe =
      let (answer, pipe1) = ops.read_pipe pipe in
      elim answer [
        | inl n ↦ drain_pipe fuel pipe1
        | inr error ↦ some (unless_would_block error, pipe1)
      ]

  unfoldable pub reset_event : ℕ → InterruptEvent P → Option (Option IoError × InterruptEvent P)
  unfolding drain_pipe
  reset_event fuel event = elim (drain_pipe fuel event.pipe) [
    | none ↦ none
    | some (answer, pipe) ↦ some (answer, record { state = 0; pipe = pipe })
  ]

-- What `poll` answers: an error, no descriptor in time, or whether the awaited bit of the device and
-- that of the event are set.
pub data PollAnswer : Type 0 where
  poll_failed : IoError → PollAnswer
  poll_timeout : PollAnswer
  poll_ready : Bool → Bool → PollAnswer

unfoldable pub wait_readable_interruptible : PollAnswer → Outcome (Unit {0})
wait_readable_interruptible (poll_failed error) = err error
wait_readable_interruptible poll_timeout = err timed_out
wait_readable_interruptible (poll_ready device event) =
    if device then ok tt else (if event then err interrupted else err fd_error)

-- Without a timeout, `poll` does not answer that no descriptor is ready; the code does not ask.
unfoldable pub wait_writable_interruptible : PollAnswer → Outcome (Unit {0})
wait_writable_interruptible (poll_failed error) = err error
wait_writable_interruptible poll_timeout = err fd_error
wait_writable_interruptible (poll_ready device event) =
    if device then ok tt else (if event then err interrupted else err fd_error)

-- `wait` on macOS, with or without an event: the event goes first.
unfoldable pub wait : Bool → PollAnswer → Outcome (Unit {0})
wait has_event (poll_failed error) = err error
wait has_event poll_timeout = err timed_out
wait has_event (poll_ready device event) =
    if has_event && event then err interrupted else (if device then ok tt else err fd_error)

-- The loop that waits and then tries: each round has the answer of `poll` and that of the read or write.
-- None when the call still waits after the rounds.
unfoldable pub retry :
    (PollAnswer → Outcome (Unit {0})) → List (PollAnswer × (ℕ ⊎ IoError)) → Option (Outcome ℕ)
unfolding is_would_block
retry wait [] = none
retry wait ((polled, answer) ∷ later) =
    let again = retry wait later in
    elim (wait polled) [
      | err error ↦ some (err error)
      | panic ↦ some panic
      | ok done ↦ elim answer [
        | inl n ↦ some (ok n)
        | inr error ↦ if is_would_block error then again else some (err error)
      ]
    ]

-- `read_interruptible` and `readv_interruptible`, `write_interruptible` and `writev_interruptible`.
unfoldable pub read_interruptible : List (PollAnswer × (ℕ ⊎ IoError)) → Option (Outcome ℕ)
unfolding retry wait_readable_interruptible
read_interruptible = retry wait_readable_interruptible

unfoldable pub write_interruptible : List (PollAnswer × (ℕ ⊎ IoError)) → Option (Outcome ℕ)
unfolding retry wait_writable_interruptible
write_interruptible = retry wait_writable_interruptible
