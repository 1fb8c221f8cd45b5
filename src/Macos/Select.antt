-- ===== src/Macos/Select.antt =====
-- src/async_device/macos/select_io.rs: a device whose polls keep a task that waits on another thread. The
-- system calls, the tasks `T` of the `blocking` crate and the state `W` behind them are parameters.
pub mod Tasks
use tun_rs.Base.{
  ℕ, zero, suc, bit_or, Bool, true, false, ◌&&◌, List, [], ◌∷◌, if◌then◌else◌, Option, none, some,
  ◌⊎◌, inl, inr, Outcome, ok, err, IoError, timed_out, closed, interrupted, fd_error,
}
use tun_rs.Framed.{Poll, ready, pending}
use tun_rs.Interrupt.{is_would_block, unless_would_block}

-- What `poll` answers for the device, the shutdown event and the event that cancels: an error, no
-- descriptor, or whether the awaited bit of each is set.
pub data WaitAnswer : Type 0 where
  wait_failed : IoError → WaitAnswer
  wait_timeout : WaitAnswer
  wait_ready : (device shutdown cancel : Bool) → WaitAnswer

-- `NonBlockingDevice::wait`, with or without an event that cancels.
unfoldable pub wait_device : Bool → WaitAnswer → Outcome (Unit {0})
wait_device has_cancel (wait_failed error) = err error
wait_device has_cancel wait_timeout = err timed_out
wait_device has_cancel (wait_ready device shutdown cancel) =
    if shutdown
    then err closed
    else (if has_cancel && cancel
        then err interrupted
        else (if device then ok tt else err fd_error))

-- The calls behind an event: a pipe, the flags of its ends, `close`, and a write of eight bytes.
pub record EventCalls (W : Type 0) : Type 0 where
  pub o_nonblock : ℕ
  pub fd_cloexec : ℕ
  pub pipe_call : W → ((ℕ × ℕ) ⊎ IoError) × W
  pub fcntl_getfl : ℕ → W → (ℕ ⊎ IoError) × W
  pub fcntl_setfl : ℕ → ℕ → W → Option IoError × W
  pub fcntl_getfd : ℕ → W → (ℕ ⊎ IoError) × W
  pub fcntl_setfd : ℕ → ℕ → W → Option IoError × W
  pub close_call : ℕ → W → W
  pub write_event : ℕ → W → (ℕ ⊎ IoError) × W

-- The ends of the pipe.
pub record EventFd : Type 0 where
  pub read_fd : ℕ
  pub write_fd : ℕ

module _ {W : Type 0} (calls : EventCalls W) where
  -- `check(call)?` for a call that answers a number, and for one that does not.
  abbrev pub with_number : (ℕ ⊎ IoError) × W → (ℕ → W → Option IoError × W) → Option IoError × W
  with_number (inl n, world) later = later n world
  with_number (inr error, world) later = (some error, world)

  abbrev pub if_done : Option IoError × W → (W → Option IoError × W) → Option IoError × W
  if_done (none, world) later = later world
  if_done (some error, world) later = (some error, world)

  unfoldable pub set_pipe_fd_flags : ℕ → W → Option IoError × W
  set_pipe_fd_flags fd world = with_number (calls.fcntl_getfl fd world) (λ flags w1.
      if_done (calls.fcntl_setfl fd (bit_or flags calls.o_nonblock) w1) (λ w2.
        with_number (calls.fcntl_getfd fd w2)
          (λ fd_flags w3. calls.fcntl_setfd fd (bit_or fd_flags calls.fd_cloexec) w3)))

  abbrev pub keep_or_close : ℕ → ℕ → Option IoError × W → (EventFd ⊎ IoError) × W
  keep_or_close read_fd write_fd (none, world) =
      (inl (record { read_fd = read_fd; write_fd = write_fd }), world)
  keep_or_close read_fd write_fd (some error, world) =
      (inr error, calls.close_call write_fd (calls.close_call read_fd world))

  unfoldable pub new_event_fd : W → (EventFd ⊎ IoError) × W
  unfolding set_pipe_fd_flags
  new_event_fd world =
      let (made, world1) = calls.pipe_call world in
      elim made [
        | inr error ↦ (inr error, world1)
        | inl (read_fd, write_fd) ↦
            keep_or_close read_fd write_fd
              (if_done (set_pipe_fd_flags read_fd world1) (set_pipe_fd_flags write_fd))
      ]

  unfoldable pub wake : EventFd → W → Option IoError × W
  wake event world =
      let (answer, world1) = calls.write_event event.write_fd world in
      elim answer [ inl n ↦ (none, world1) | inr error ↦ (unless_would_block error, world1) ]

  -- `Drop for EventFd`.
  abbrev pub drop_event_fd : EventFd → W → W
  drop_event_fd event world = calls.close_call event.write_fd (calls.close_call event.read_fd world)

-- `AsyncDevice`: the tasks that wait to receive and to send.
pub record AsyncDevice (T : Type 0) : Type 0 where
  pub recv_task_lock : Option T
  pub send_task_lock : Option T

-- `new_dev`.
abbrev pub new_dev : {T : Type 0} → AsyncDevice T
new_dev = record { recv_task_lock = none; send_task_lock = none }

-- A call of the device, the start of a task that waits, and a poll of it.
pub record Waiting (T W : Type 0) : Type 0 where
  pub try_recv : W → (ℕ ⊎ IoError) × W
  pub try_send : W → (ℕ ⊎ IoError) × W
  pub unblock_readable : W → T × W
  pub unblock_writable : W → T × W
  pub poll_task : T → W → Poll (Option IoError) × W

module _ {T W : Type 0} (waiting : Waiting T W) where
  -- `if let Some(task) = guard.take() { task } else { unblock(…) }`.
  abbrev pub task_or : Option T → (W → T × W) → W → T × W
  task_or (some task) unblock world = (task, world)
  task_or none unblock world = unblock world

  -- What a poll of the task leaves in the lock.
  abbrev pub kept : Poll (Option IoError) → T → Option T
  kept pending task = some task
  kept (ready result) task = none

  unfoldable pub poll_readable : AsyncDevice T → W → Poll (Option IoError) × AsyncDevice T × W
  poll_readable device world =
      let (task, world1) = task_or device.recv_task_lock waiting.unblock_readable world in
      let (answer, world2) = waiting.poll_task task world1 in
      (answer, record device { recv_task_lock = kept answer task }, world2)

  unfoldable pub poll_writable : AsyncDevice T → W → Poll (Option IoError) × AsyncDevice T × W
  poll_writable device world =
      let (task, world1) = task_or device.send_task_lock waiting.unblock_writable world in
      let (answer, world2) = waiting.poll_task task world1 in
      (answer, record device { send_task_lock = kept answer task }, world2)

  -- The loop of `poll_recv`, `poll_recv_uninit` and `poll_send`: none when the fuel does not last.
  unfoldable pub poll_loop :
      (W → (ℕ ⊎ IoError) × W)
      → (AsyncDevice T → W → Poll (Option IoError) × AsyncDevice T × W)
      → ℕ
      → AsyncDevice T
      → W
      → Option (Poll (ℕ ⊎ IoError) × AsyncDevice T × W)
  unfolding is_would_block
  poll_loop try_io poll_ready zero device world = none
  poll_loop try_io poll_ready (suc fuel) device world =
      let (answer, world1) = try_io world in
      elim answer [
        | inl n ↦ some (ready (inl n), device, world1)
        | inr error ↦
            if is_would_block error
            then (let (readiness, device1, world2) = poll_ready device world1 in
                elim readiness [
                  | pending ↦ some (pending, device1, world2)
                  | ready woken ↦ elim woken [
                    | some failure ↦ some (ready (inr failure), device1, world2)
                    | none ↦ poll_loop try_io poll_ready fuel device1 world2
                  ]
                ])
            else some (ready (inr error), device, world1)
      ]

  unfoldable pub poll_recv : ℕ → AsyncDevice T → W → Option (Poll (ℕ ⊎ IoError) × AsyncDevice T × W)
  unfolding poll_loop poll_readable
  poll_recv = poll_loop waiting.try_recv poll_readable

  unfoldable pub poll_send : ℕ → AsyncDevice T → W → Option (Poll (ℕ ⊎ IoError) × AsyncDevice T × W)
  unfolding poll_loop poll_writable
  poll_send = poll_loop waiting.try_send poll_writable

-- `recv` and `send`: the device is asked before each wait. A round is what it answers and what `readable`
-- or `writable` answers; none when the rounds do not last.
unfoldable pub try_and_wait : List ((ℕ ⊎ IoError) × Option IoError) → Option (ℕ ⊎ IoError)
unfolding is_would_block
try_and_wait [] = none
try_and_wait ((inl n, waited) ∷ rounds) = some (inl n)
try_and_wait ((inr error, waited) ∷ rounds) =
    let further = try_and_wait rounds in
    if is_would_block error
    then elim waited [ none ↦ further | some failure ↦ some (inr failure) ]
    else some (inr error)
