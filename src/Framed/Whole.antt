-- ===== src/Framed/Whole.antt =====
-- src/async_device/async_framed.rs: `DeviceFramed` and its two halves, which hand each poll on to the
-- reading and the writing state. The device itself is a parameter: its MTU, whether it has `tcp_gso`,
-- and what it answers.
use tun_rs.Base.{ℕ, Bool, List, ◌⊎◌, Outcome, ok, ◌>>=◌, Option, IoError, err, panic}
use tun_rs.Checksum.{CpuFeatures}
use tun_rs.Virtio.{Endian}
use tun_rs.Framed.{Poll, Decoder, Encoder, BytesMut}
use tun_rs.Framed.Splitter.{PacketSplitter}
use tun_rs.Framed.Read.{
  ReadState, DeviceRead, Refused, new_read_state, set_read_buffer_size, poll_next,
}
use tun_rs.Framed.Write.{
  WriteState, new_write_state, set_write_buffer_size, start_send, poll_ready, poll_flush,
  poll_close,
}

-- `compute_buffer_size` on Linux: the MTU, or 4096 where it cannot be read.
unfoldable pub compute_buffer_size : Outcome ℕ → ℕ
compute_buffer_size (ok mtu) = mtu
compute_buffer_size (err error) = 4096
compute_buffer_size panic = 4096

pub record DeviceFramed (C : Type 0) (B : Type 0) : Type 0 where
  pub codec : C
  pub r_state : ReadState
  pub w_state : WriteState B

pub record DeviceFramedRead (C : Type 0) : Type 0 where
  pub codec : C
  pub state : ReadState

pub record DeviceFramedWrite (C : Type 0) (B : Type 0) : Type 0 where
  pub codec : C
  pub state : WriteState B

module _ {C B : Type 0} (b : BytesMut B) (mtu : Outcome ℕ) (tcp_gso : Bool) where
  -- The three `new`.
  unfoldable pub new_framed_read : C → DeviceFramedRead C
  unfolding compute_buffer_size
  new_framed_read codec = record {
    codec = codec;
    state = new_read_state (compute_buffer_size mtu) tcp_gso;
  }

  unfoldable pub new_framed_write : C → DeviceFramedWrite C B
  unfolding compute_buffer_size
  new_framed_write codec = record {
    codec = codec;
    state = new_write_state b (compute_buffer_size mtu) tcp_gso;
  }

  unfoldable pub new_framed : C → DeviceFramed C B
  unfolding compute_buffer_size
  new_framed codec = record {
    codec = codec;
    r_state = new_read_state (compute_buffer_size mtu) tcp_gso;
    w_state = new_write_state b (compute_buffer_size mtu) tcp_gso;
  }

  -- `split`: both halves are made anew.
  unfoldable pub split : DeviceFramed C B → DeviceFramedRead C × DeviceFramedWrite C B
  unfolding new_framed_read new_framed_write
  split framed = (new_framed_read framed.codec, new_framed_write framed.codec)

module _ {C B : Type 0} where
  abbrev pub framed_set_read_buffer_size : DeviceFramed C B → ℕ → DeviceFramed C B
  framed_set_read_buffer_size framed size = record framed {
    r_state = set_read_buffer_size framed.r_state size;
  }

  unfoldable pub framed_set_write_buffer_size : DeviceFramed C B → ℕ → DeviceFramed C B
  framed_set_write_buffer_size framed size = record framed {
    w_state = set_write_buffer_size framed.w_state size;
  }

-- `Stream` for `DeviceFramed`.
module _ {C B Item Error : Type 0} (d : Decoder C Item Error) (cpu : CpuFeatures) (order : Endian)
    (refused : PacketSplitter → List ℕ → Refused) where
  unfoldable pub framed_poll_next :
      DeviceFramed C B → DeviceRead → Outcome (Poll (Option (Item ⊎ Error)) × DeviceFramed C B)
  framed_poll_next framed received = do
    (answer, state, codec) ← poll_next d cpu order refused framed.r_state framed.codec received
    ok (answer, record framed { r_state = state; codec = codec })

-- `Sink` for `DeviceFramed`.
module _ {C B Item Error : Type 0} (b : BytesMut B) (enc : Encoder C Item Error) where
  unfoldable pub framed_start_send :
      DeviceFramed C B → Item → Outcome (Option Error × DeviceFramed C B)
  framed_start_send framed item = do
    (answer, state, codec) ← start_send b enc framed.w_state framed.codec item
    ok (answer, record framed { w_state = state; codec = codec })

  module _ (cpu : CpuFeatures) (order : Endian) (udp_gso : Bool) {W : Type 0}
      (poll_send : W → List ℕ → Poll (ℕ ⊎ IoError) × W) where
    unfoldable pub framed_poll_ready :
        DeviceFramed C B → W → Outcome (Poll (Option Error) × DeviceFramed C B × W)
    framed_poll_ready framed world = do
      (answer, state, world1) ← poll_ready b enc cpu order udp_gso poll_send framed.w_state world
      ok (answer, record framed { w_state = state }, world1)

    unfoldable pub framed_poll_flush :
        DeviceFramed C B → W → Outcome (Poll (Option Error) × DeviceFramed C B × W)
    framed_poll_flush framed world = do
      (answer, state, world1) ← poll_flush b enc cpu order udp_gso poll_send framed.w_state world
      ok (answer, record framed { w_state = state }, world1)

    unfoldable pub framed_poll_close :
        DeviceFramed C B → W → Outcome (Poll (Option Error) × DeviceFramed C B × W)
    framed_poll_close framed world = do
      (answer, state, world1) ← poll_close b enc cpu order udp_gso poll_send framed.w_state world
      ok (answer, record framed { w_state = state }, world1)
