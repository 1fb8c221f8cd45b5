-- ===== src/Framed/Arena.antt =====
-- src/async_device/async_framed.rs: `PacketArena`, which gathers the packets of one batch.
pub mod Sending
use tun_rs.Base.{
  ℕ, ◌+◌, Bool, List, [], ◌∷◌, ◌++◌, not, ◌&&◌, ltb, leb, ◌==◌, if◌then◌else◌, length, take, drop,
  set, map, Option, none, some, ◌⊎◌, inl, inr, Outcome, ok, err, panic, ◌>>=◌, ◌>>◌, slice,
  slice_from, IoError,
}
use tun_rs.Checksum.{CpuFeatures}
use tun_rs.Virtio.{Endian, virtio_net_hdr_len}
use tun_rs.Gro.{ExpandBuffer, nth}
use tun_rs.Gro.Table.{new_table, reset}
use tun_rs.Gro.Handle.{GroState, handle_gro_kept}
use tun_rs.Framed.{Poll, ready, pending, BytesMut, is_empty}

-- `gro` is `gro_table` with `bufs`.
pub record PacketArena (B : Type 0) : Type 0 where
  pub gro : GroState B
  pub offset : ℕ
  pub send_index : ℕ

abbrev pub new_arena : {B : Type 0} → PacketArena B
new_arena = record {
  gro = record { bufs = []; tcp_table = new_table; udp_table = new_table; to_write = [] };
  offset = 0;
  send_index = 0;
}

module _ {B : Type 0} (b : BytesMut B) where
  -- The arena with other buffers.
  abbrev pub with_bufs : PacketArena B → List B → PacketArena B
  with_bufs arena bufs = record arena { gro = record arena.gro { bufs = bufs } }

  -- `get`: the index of the buffer that it returns, and that buffer.
  unfoldable pub get : PacketArena B → Outcome (ℕ × B × PacketArena B)
  get arena =
      let room = virtio_net_hdr_len + 65536 in
      if ltb arena.offset (length arena.gro.bufs)
      then (do
        old ← nth arena.gro.bufs arena.offset
        let buf = b.reserve (b.clear old) room
        ok (
          arena.offset,
          buf,
          record (with_bufs arena (set arena.gro.bufs arena.offset buf)) {
            offset = arena.offset + 1;
          },
        ))
      else (if not (arena.offset == length arena.gro.bufs)
          then panic
          else ok (
            arena.offset,
            b.with_capacity room,
            record (with_bufs arena (arena.gro.bufs ++ b.with_capacity room ∷ [])) {
              offset = arena.offset + 1;
            },
          ))

  -- `reset`, which clears the buffers in use.
  unfoldable pub reset_arena : PacketArena B → Outcome (PacketArena B)
  reset_arena arena = do
    used ← slice arena.gro.bufs 0 arena.offset
    ok (record {
      gro = record {
        bufs = map b.clear used ++ drop arena.offset arena.gro.bufs;
        tcp_table = reset arena.gro.tcp_table;
        udp_table = reset arena.gro.udp_table;
        to_write = [];
      };
      offset = 0;
      send_index = 0;
    })

  unfoldable pub is_idle : PacketArena B → Bool
  is_idle arena = ltb arena.offset 128 && is_empty arena.gro.to_write

  -- `handle`: none is `Ok(())`.
  unfoldable pub handle_arena :
      CpuFeatures → Endian → Bool → PacketArena B → Outcome (Option IoError × PacketArena B)
  handle_arena cpu order udp_gso arena =
      if arena.offset == 0
      then ok (none, arena)
      else (if not (is_empty arena.gro.to_write) then ok (none, arena) else (do
        used ← slice arena.gro.bufs 0 arena.offset
        (answer, g) ←
            handle_gro_kept b.expand cpu order virtio_net_hdr_len udp_gso
              (record arena.gro { bufs = used })
        ok (
          answer,
          record arena { gro = record g { bufs = g.bufs ++ drop arena.offset arena.gro.bufs } },
        )))

  -- `dev.poll_send`, on the state `W` of whatever receives the packets.
  module _ {W : Type 0} (poll_send : W → List ℕ → Poll (ℕ ⊎ IoError) × W) where
    -- What a call answers, with none for `Ok(())`.
    abbrev pub SentPoll : Type 0
    SentPoll = Poll (Option IoError) × PacketArena B × W

    -- `for buf_idx in &gro_table.to_write[self.send_index..]`, and the reset behind it.
    unfoldable pub send_bufs : List B → List ℕ → PacketArena B → W → Outcome SentPoll
    unfolding reset_arena
    send_bufs bufs [] arena world = do cleared ← reset_arena arena; ok (ready none, cleared, world)
    send_bufs bufs (index ∷ rest) arena world = do
      buf ← nth bufs index
      let (answer, world1) = poll_send world (b.expand.as_ref buf)
      let advanced = record arena { send_index = arena.send_index + 1 }
      elim answer [
        | pending ↦ ok (pending, arena, world1)
        | ready (inl n) ↦ send_bufs bufs rest advanced world1
        | ready (inr error) ↦
            if leb (length arena.gro.to_write) advanced.send_index
            then (do cleared ← reset_arena advanced; ok (ready (some error), cleared, world1))
            else ok (ready (some error), advanced, world1)
      ]

    unfoldable pub poll_send_bufs : PacketArena B → W → Outcome SentPoll
    unfolding send_bufs
    poll_send_bufs arena world = if arena.offset == 0 then ok (ready none, arena, world) else (do
      bufs ← slice arena.gro.bufs 0 arena.offset
      rest ← slice_from arena.gro.to_write arena.send_index
      send_bufs bufs rest arena world)
