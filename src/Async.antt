-- ===== src/Async.antt =====
-- src/async_device/unix: the asynchronous device over the reactor of tokio (tokio.rs) and of async-io
-- (async_io.rs), and its batches on Linux (mod.rs). What the reactor and the device answer are parameters.
pub mod Polls
pub mod Batches
mod Tests
use tun_rs.Base.{
  ℕ, zero, suc, ◌+◌, Bool, true, false, not, ◌&&◌, ◌||◌, List, [], ◌∷◌, ◌++◌, ltb, leb, ◌==◌,
  if◌then◌else◌, length, take, drop, set, add64, sub64, Option, none, some, ◌⊎◌, inl, inr, Outcome,
  ok, err, panic, ◌>>=◌, ◌>>◌, fail_if, slice, IoError, bufs_error, too_many_buffers,
  length_below_hdr, invalid_offset,
}
use tun_rs.Checksum.{CpuFeatures}
use tun_rs.Virtio.{Endian, decode, virtio_net_hdr_len}
use tun_rs.Gso.{Split}
use tun_rs.Gro.{ExpandBuffer, nth}
use tun_rs.Gro.Handle.{GroState, handle_gro}
use tun_rs.Device.{handle_virtio_read, cleared_table, indices, Written, wrote, failed, is_ebadfd}
use tun_rs.Framed.{Poll, ready, pending}
use tun_rs.Interrupt.{is_would_block}

-- `poll_read_ready` or `poll_readable`: pending, ready, or an error.
abbrev pub Readiness : Type 0
Readiness = Poll (Option IoError)

-- The loop over the reactor of tokio. A round is what readiness answers, and what the device answers if it
-- is asked; `try_io` keeps back WouldBlock. None when the rounds do not last.
unfoldable pub poll_tokio : List (Readiness × (ℕ ⊎ IoError)) → Option (Poll (ℕ ⊎ IoError))
unfolding is_would_block
poll_tokio [] = none
poll_tokio ((pending, answer) ∷ rounds) = some pending
poll_tokio ((ready (some error), answer) ∷ rounds) = some (ready (inr error))
poll_tokio ((ready none, inl n) ∷ rounds) = some (ready (inl n))
poll_tokio ((ready none, inr error) ∷ rounds) =
    let further = poll_tokio rounds in
    if is_would_block error then further else some (ready (inr error))

-- `poll_recv`, `poll_recv_uninit` and `poll_send` of tokio.rs, which have the loop in common.
abbrev pub tokio_poll_recv : List (Readiness × (ℕ ⊎ IoError)) → Option (Poll (ℕ ⊎ IoError))
tokio_poll_recv = poll_tokio

abbrev pub tokio_poll_recv_uninit : List (Readiness × (ℕ ⊎ IoError)) → Option (Poll (ℕ ⊎ IoError))
tokio_poll_recv_uninit = poll_tokio

abbrev pub tokio_poll_send : List (Readiness × (ℕ ⊎ IoError)) → Option (Poll (ℕ ⊎ IoError))
tokio_poll_send = poll_tokio

-- The loop over async-io tries the device first: a round is what the device answers, and what readiness
-- answers if it is asked.
unfoldable pub poll_async_io : List ((ℕ ⊎ IoError) × Readiness) → Option (Poll (ℕ ⊎ IoError))
unfolding is_would_block
poll_async_io [] = none
poll_async_io ((inl n, readiness) ∷ rounds) = some (ready (inl n))
poll_async_io ((inr error, readiness) ∷ rounds) =
    let further = poll_async_io rounds in
    if is_would_block error
    then (elim readiness [
      | pending ↦ some pending
      | ready woken ↦ elim woken [ none ↦ further | some failure ↦ some (ready (inr failure)) ]
    ])
    else some (ready (inr error))

-- Those of async_io.rs.
abbrev pub async_io_poll_recv : List ((ℕ ⊎ IoError) × Readiness) → Option (Poll (ℕ ⊎ IoError))
async_io_poll_recv = poll_async_io

abbrev pub async_io_poll_recv_uninit :
    List ((ℕ ⊎ IoError) × Readiness) → Option (Poll (ℕ ⊎ IoError))
async_io_poll_recv_uninit = poll_async_io

abbrev pub async_io_poll_send : List ((ℕ ⊎ IoError) × Readiness) → Option (Poll (ℕ ⊎ IoError))
async_io_poll_send = poll_async_io

module _ (cpu : CpuFeatures) (order : Endian) where
  -- `self.recv(buf).await`, from the buffer to the length and what is in the buffer then.
  module _ (recv : List ℕ → Outcome (ℕ × List ℕ)) (vnet_hdr : Bool) where
    unfoldable pub async_recv_multiple : List ℕ → List (List ℕ) → List ℕ → ℕ → Outcome Split
    unfolding handle_virtio_read
    async_recv_multiple original_buffer bufs sizes offset = do
      fail_if (length bufs == 0 || not (length bufs == length sizes)) bufs_error
      fail_if (ltb 65535 (length bufs)) too_many_buffers
      if vnet_hdr
          then (do
            (len, buffer) ← recv original_buffer
            fail_if (leb len virtio_net_hdr_len) length_below_hdr
            front ← slice buffer 0 virtio_net_hdr_len
            hdr ← decode order front
            packet ← slice buffer virtio_net_hdr_len len
            handle_virtio_read cpu hdr packet bufs sizes offset)
          else (do
            first ← nth bufs 0
            fail_if (ltb (length first) offset) invalid_offset
            (len, filled) ← recv (drop offset first)
            ok (record {
              input = original_buffer;
              out_bufs = set bufs 0 (take offset first ++ filled);
              sizes = set sizes 0 len;
              count = 1;
            }))

  -- `self.send(buf).await`, on the state `W` of whatever receives the packets.
  module _ {W : Type 0} (send : W → List ℕ → Written × W) (ebadfd : ℕ) {B : Type 0}
      (e : ExpandBuffer B) where
    unfoldable pub send_each : List B → ℕ → List ℕ → W → Option IoError → ℕ → Outcome ℕ × W
    unfolding is_ebadfd
    send_each bufs offset [] world none total = (ok total, world)
    send_each bufs offset [] world (some error) total = (err error, world)
    send_each bufs offset (buf_idx ∷ rest) world error total = elim (nth bufs buf_idx) [
      | ok b ↦
          if ltb (length (e.as_ref b)) offset
          then (err invalid_offset, world)
          else (let (answer, world1) = send world (drop offset (e.as_ref b)) in
              elim answer [
                | wrote n ↦ send_each bufs offset rest world1 error (add64 total n)
                | failed code ↦
                    let going = send_each bufs offset rest world1 (some code) total in
                    if is_ebadfd ebadfd code then (err code, world1) else going
              ])
      | _ ↦ (panic, world)
    ]

    unfoldable pub async_send_multiple : Bool → Bool → GroState B → ℕ → W → Outcome ℕ × W
    unfolding send_each
    async_send_multiple vnet_hdr udp_gso g offset world =
        let table = cleared_table g in
        if length g.bufs == 0
        then (ok 0, world)
        else (if ltb 65535 (length g.bufs)
            then (err too_many_buffers, world)
            else (if vnet_hdr
                then elim (handle_gro e cpu order offset udp_gso table) [
                  | ok g1 ↦
                      send_each g1.bufs (sub64 offset virtio_net_hdr_len) g1.to_write world none 0
                  | err error ↦ (err error, world)
                  | panic ↦ (panic, world)
                ]
                else send_each g.bufs offset (indices 0 (length g.bufs)) world none 0))
