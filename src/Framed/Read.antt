-- ===== src/Framed/Read.antt =====
-- src/async_device/async_framed.rs: `ReadState` and `DeviceFramedReadInner::poll_next`.
pub mod Segments
pub mod Stream
use tun_rs.Base.{
  ℕ, ◌+◌, Bool, true, false, List, [], ◌∷◌, ltb, length, take, set, if◌then◌else◌, Option, none,
  some, ◌⊎◌, inl, inr, Outcome, ok, err, panic, ◌>>=◌, ◌>>◌, IoError, more_than_spare,
}
use tun_rs.Checksum.{CpuFeatures}
use tun_rs.Virtio.{Endian}
use tun_rs.Framed.{Poll, ready, pending, Decoder, decode_eof}
use tun_rs.Framed.Splitter.{PacketSplitter, new_splitter, handle, next, set_recv_buffer_size}

pub record ReadState : Type 0 where
  pub recv_buffer_size : ℕ
  pub rd : List ℕ
  pub packet_splitter : Option PacketSplitter

-- `ReadState::new`, for a device with or without `tcp_gso`.
abbrev pub new_read_state : ℕ → Bool → ReadState
new_read_state recv_buffer_size tcp_gso = record {
  recv_buffer_size = recv_buffer_size;
  rd = [];
  packet_splitter = if tcp_gso then some (new_splitter recv_buffer_size) else none;
}

abbrev pub set_read_buffer_size : ReadState → ℕ → ReadState
set_read_buffer_size state size = record state {
  recv_buffer_size = size;
  packet_splitter = elim state.packet_splitter [
    | none ↦ none
    | some splitter ↦ some (set_recv_buffer_size splitter size)
  ];
}

-- One `poll_recv_uninit`: its answer, and what it leaves in the spare room of the buffer, which is all
-- of that room.
pub record DeviceRead : Type 0 where
  pub spare : List ℕ
  pub answer : Poll (ℕ ⊎ IoError)

-- What a `handle` that answers an error leaves in the buffers, the sizes and the input.
pub record Refused : Type 0 where
  pub bufs : List (List ℕ)
  pub sizes : List ℕ
  pub input : List ℕ

-- `Ok(Some(frame))` and `Err(e)` are items of the stream, and `Ok(None)` is not.
abbrev pub stream_item : {Item Error : Type 0} → Option Item ⊎ Error → Option (Item ⊎ Error)
stream_item (inl (some frame)) = some (inl frame)
stream_item (inl none) = none
stream_item (inr error) = some (inr error)

module _ {C Item Error : Type 0} (d : Decoder C Item Error) where
  -- What a call answers, the state and the codec.
  abbrev pub Polled : Type 0
  Polled = Poll (Option (Item ⊎ Error)) × ReadState × C

  -- `if let Some(buf) = packet_splitter.next() { if let Some(frame) = codec.decode_eof(buf)? .. }`.
  unfoldable pub decode_next :
      PacketSplitter → C → Outcome (Option (Item ⊎ Error) × PacketSplitter × C)
  unfolding next decode_eof
  decode_next splitter codec = do
    (segment, moved) ← next splitter
    elim segment [
      | none ↦ ok (none, moved, codec)
      | some buf ↦
          (let (answer, rest, codec1) = decode_eof d codec buf in
            ok (
              stream_item answer,
              record moved { bufs = set moved.bufs splitter.recv_index rest },
              codec1,
            ))
    ]

  module _ (cpu : CpuFeatures) (order : Endian) (refused : PacketSplitter → List ℕ → Refused) where
    -- What follows a read of the packet that stands in `rd`.
    unfoldable pub take_packet : ReadState → C → Outcome Polled
    unfolding decode_next handle
    take_packet state codec = elim state.packet_splitter [
      | none ↦
          (let (answer, rest, codec1) = decode_eof d codec state.rd in
            ok (ready (stream_item answer), record state { rd = rest }, codec1))
      | some splitter ↦ elim (handle cpu order splitter state.rd) [
        | panic ↦ panic
        | err error ↦
            (let left = refused splitter state.rd in
              ok (
                ready (some (inr (d.from_io error))),
                record state {
                  rd = left.input;
                  packet_splitter = some (record splitter { bufs = left.bufs; sizes = left.sizes });
                },
                codec,
              ))
        | ok (split, input) ↦ (do
          (item, moved, codec1) ← decode_next split codec
          ok (ready item, record state { rd = input; packet_splitter = some moved }, codec1))
      ]
    ]

    -- The read itself: `rd` is emptied first.
    unfoldable pub poll_read : ReadState → C → DeviceRead → Outcome Polled
    unfolding take_packet
    poll_read state codec received =
        let cleared = record state { rd = [] } in
        elim received.answer [
          | pending ↦ ok (pending, cleared, codec)
          | ready (inr error) ↦ ok (ready (some (inr (d.from_io error))), cleared, codec)
          | ready (inl len) ↦
              if ltb (length received.spare) len
              then ok (ready (some (inr (d.from_io more_than_spare))), cleared, codec)
              else take_packet (record state { rd = take len received.spare }) codec
        ]

    unfoldable pub poll_next : ReadState → C → DeviceRead → Outcome Polled
    unfolding decode_next poll_read
    poll_next state codec received = elim state.packet_splitter [
      | none ↦ poll_read state codec received
      | some splitter ↦ (do
        (item, moved, codec1) ← decode_next splitter codec
        elim item [
          | some frame ↦
              ok (ready (some frame), record state { packet_splitter = some moved }, codec1)
          | none ↦ poll_read (record state { packet_splitter = some moved }) codec1 received
        ])
    ]
