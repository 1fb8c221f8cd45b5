-- ===== src/Framed/Write.antt =====
-- src/async_device/async_framed.rs: `WriteState` and `DeviceFramedWriteInner`, the sink.
pub mod Sink
pub mod Flush
use tun_rs.Base.{
  ℕ, Bool, List, [], not, ltb, leb, if◌then◌else◌, set, Option, none, some, ◌⊎◌, inl, inr, Outcome,
  ok, err, panic, ◌>>=◌, IoError,
}
use tun_rs.Checksum.{CpuFeatures}
use tun_rs.Virtio.{Endian, virtio_net_hdr_len}
use tun_rs.Framed.{Poll, ready, pending, Encoder, BytesMut, is_empty}
use tun_rs.Framed.Arena.{
  PacketArena, new_arena, with_bufs, get, is_idle, handle_arena, poll_send_bufs,
}

pub record WriteState (B : Type 0) : Type 0 where
  pub send_buffer_size : ℕ
  pub wr : B
  pub packet_arena : Option (PacketArena B)

-- `WriteState::new`, for a device with or without `tcp_gso`.
abbrev pub new_write_state : {B : Type 0} → BytesMut B → ℕ → Bool → WriteState B
new_write_state b send_buffer_size tcp_gso = record {
  send_buffer_size = send_buffer_size;
  wr = b.with_capacity 0;
  packet_arena = if tcp_gso then some new_arena else none;
}

unfoldable pub set_write_buffer_size : {B : Type 0} → WriteState B → ℕ → WriteState B
set_write_buffer_size state size = elim state.packet_arena [
  | some arena ↦ state
  | none ↦
      if leb size state.send_buffer_size then state else record state { send_buffer_size = size }
]

module _ {B : Type 0} (b : BytesMut B) {C Item Error : Type 0} (enc : Encoder C Item Error) where
  -- The codec's `encode` on a buffer: what the buffer is then, the answer and the codec.
  abbrev pub encode_into : C → Item → B → Option Error × B × C
  encode_into codec item buf =
      let (answer, bytes, codec1) = enc.encode codec item (b.expand.as_ref buf) in
      (answer, b.store buf bytes, codec1)

  -- `start_send`: none is `Ok(())`.
  unfoldable pub start_send : WriteState B → C → Item → Outcome (Option Error × WriteState B × C)
  unfolding get
  start_send state codec item = elim state.packet_arena [
    | none ↦
        (let buf = b.reserve (b.clear state.wr) state.send_buffer_size in
          let (answer, encoded, codec1) = encode_into codec item buf in
          ok (answer, record state { wr = encoded }, codec1))
    | some arena ↦ (do
      (index, buf, arena1) ← get b arena
      let (answer, encoded, codec1) =
          encode_into codec item (b.expand.buf_resize buf virtio_net_hdr_len 0)
      ok (
        answer,
        record state {
          packet_arena = some (with_bufs b arena1 (set arena1.gro.bufs index encoded));
        },
        codec1,
      ))
  ]

  -- `e.into()` of an answer.
  abbrev pub into_error : Poll (Option IoError) → Poll (Option Error)
  into_error pending = pending
  into_error (ready none) = ready none
  into_error (ready (some error)) = ready (some (enc.from_io error))

  module _ (cpu : CpuFeatures) (order : Endian) (udp_gso : Bool) {W : Type 0}
      (poll_send : W → List ℕ → Poll (ℕ ⊎ IoError) × W) where
    abbrev pub FlushPoll : Type 0
    FlushPoll = Poll (Option Error) × WriteState B × W

    unfoldable pub poll_flush : WriteState B → W → Outcome FlushPoll
    unfolding handle_arena poll_send_bufs
    poll_flush state world = elim state.packet_arena [
      | some arena ↦ (do
        (answer, handled) ← handle_arena b cpu order udp_gso arena
        elim answer [
          | some error ↦ ok (
            ready (some (enc.from_io error)),
            record state { packet_arena = some handled },
            world,
          )
          | none ↦ (do
            (sent, arena1, world1) ← poll_send_bufs b poll_send handled world
            ok (into_error sent, record state { packet_arena = some arena1 }, world1))
        ])
      | none ↦
          if is_empty (b.expand.as_ref state.wr)
          then ok (ready none, state, world)
          else (let (answer, world1) = poll_send world (b.expand.as_ref state.wr) in
              let cleared = record state { wr = b.clear state.wr } in
              elim answer [
                | pending ↦ ok (pending, state, world1)
                | ready (inl n) ↦ ok (ready none, cleared, world1)
                | ready (inr error) ↦ ok (ready (some (enc.from_io error)), cleared, world1)
              ])
    ]

    unfoldable pub poll_ready : WriteState B → W → Outcome FlushPoll
    unfolding poll_flush is_idle
    poll_ready state world =
        let flushed = poll_flush state world in
        elim state.packet_arena [
          | none ↦ flushed
          | some arena ↦ if is_idle b arena then ok (ready none, state, world) else flushed
        ]

    unfoldable pub poll_close : WriteState B → W → Outcome FlushPoll
    unfolding poll_flush
    poll_close state world = poll_flush state world
