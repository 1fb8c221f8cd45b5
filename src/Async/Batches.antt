-- ===== src/Async/Batches.antt =====
-- The asynchronous batches against those of the synchronous device.
use tun_rs.Base.{
  ℕ, ◌≡◌, refl, Bool, ◌&&◌, List, [], ◌∷◌, ltb, ◌==◌, if◌then◌else◌, length, drop, add64, sub64,
  Option, none, some, Outcome, ok, err, panic, IoError, too_many_buffers, arith,
}
use tun_rs.Checksum.{CpuFeatures}
use tun_rs.Virtio.{Endian, virtio_net_hdr_len}
use tun_rs.Gro.{ExpandBuffer, nth}
use tun_rs.Gro.Handle.{GroState, handle_gro}
use tun_rs.Device.{
  Written, wrote, failed, recv_plain, recv_multiple, write_packets, send_multiple, cleared_table,
  indices,
}
use tun_rs.Async.{async_recv_multiple, send_each, async_send_multiple}

module _ (cpu : CpuFeatures) (order : Endian) where
  -- An asynchronous `recv_multiple` is the synchronous one with the awaited read, but for more than 65535
  -- buffers that have as many sizes: it then fails before it reads.
  pub async_recv_multiple-recv_multiple :
      (recv : List ℕ → Outcome (ℕ × List ℕ)) (vnet_hdr : Bool) (original : List ℕ)
      (bufs : List (List ℕ)) (sizes : List ℕ) (offset : ℕ)
      → async_recv_multiple cpu order recv vnet_hdr original bufs sizes offset ≡ (
          if (length bufs == length sizes) && ltb 65535 (length bufs)
          then err too_many_buffers
          else recv_multiple cpu order recv vnet_hdr original bufs sizes offset)
  unfolding async_recv_multiple recv_multiple recv_plain
  async_recv_multiple-recv_multiple recv vnet_hdr original bufs sizes offset = ground arith

  module _ {W : Type 0} (send : W → List ℕ → Written × W) (ebadfd : ℕ) {B : Type 0}
      (e : ExpandBuffer B) where
    -- One round, where the rest of the rounds agrees.
    module _ (bufs : List B) (offset i : ℕ) (rest : List ℕ) (world : W) (error : Option IoError)
        (total : ℕ)
        (agree : (w : W) (x : Option IoError) (t : ℕ)
          → send_each cpu order send ebadfd e bufs offset rest w x t
            ≡ write_packets send ebadfd e bufs offset rest w x t) where
      round_answer :
          (b : B) (answer : Written)
          → nth bufs i ≡ ok b
          → (send world (drop offset (e.as_ref b))).0 ≡ answer
          → send_each cpu order send ebadfd e bufs offset (i ∷ rest) world error total
            ≡ write_packets send ebadfd e bufs offset (i ∷ rest) world error total
      unfolding send_each write_packets
      round_answer b (wrote n) found sent = ground (
        arith,
        found,
        sent,
        agree (send world (drop offset (e.as_ref b))).1 error (add64 total n),
      )
      round_answer b (failed code) found sent =
          ground
            (arith, found, sent, agree (send world (drop offset (e.as_ref b))).1 (some code) total)

      round_same :
          (found : Outcome B)
          → nth bufs i ≡ found
          → send_each cpu order send ebadfd e bufs offset (i ∷ rest) world error total
            ≡ write_packets send ebadfd e bufs offset (i ∷ rest) world error total
      unfolding send_each write_packets
      round_same (ok b) found = round_answer b (send world (drop offset (e.as_ref b))).0 found refl
      round_same (err x) found = ground (arith, found)
      round_same panic found = ground (arith, found)

    send_each-write_packets :
        (bufs : List B) (offset : ℕ) (index : List ℕ) (world : W) (error : Option IoError)
        (total : ℕ)
        → send_each cpu order send ebadfd e bufs offset index world error total
          ≡ write_packets send ebadfd e bufs offset index world error total
    unfolding send_each write_packets
    send_each-write_packets bufs offset [] world none total = refl
    send_each-write_packets bufs offset [] world (some error) total = refl
    send_each-write_packets bufs offset (i ∷ rest) world error total =
        round_same bufs offset i rest world error total (send_each-write_packets bufs offset rest)
          (nth bufs i) refl

    -- An asynchronous `send_multiple` is the synchronous one with the awaited write: the same result, and
    -- the same packets handed over.
    pub async_send_multiple-send_multiple :
        (vnet_hdr udp_gso : Bool) (g : GroState B) (offset : ℕ) (world : W)
        → async_send_multiple cpu order send ebadfd e vnet_hdr udp_gso g offset world
          ≡ send_multiple send ebadfd e cpu order vnet_hdr udp_gso g offset world
    unfolding async_send_multiple send_multiple
    async_send_multiple-send_multiple vnet_hdr udp_gso g offset world =
        after (handle_gro e cpu order offset udp_gso (cleared_table g)) refl
      where
        after :
            (joined : Outcome (GroState B))
            → handle_gro e cpu order offset udp_gso (cleared_table g) ≡ joined
            → async_send_multiple cpu order send ebadfd e vnet_hdr udp_gso g offset world
              ≡ send_multiple send ebadfd e cpu order vnet_hdr udp_gso g offset world
        after (ok g1) same = ground (
          arith,
          same,
          send_each-write_packets g1.bufs (sub64 offset virtio_net_hdr_len) g1.to_write world none
              0,
          send_each-write_packets g.bufs offset (indices 0 (length g.bufs)) world none 0,
        )
        after (err error) same = ground (
          arith,
          same,
          send_each-write_packets g.bufs offset (indices 0 (length g.bufs)) world none 0,
        )
        after panic same = ground (
          arith,
          same,
          send_each-write_packets g.bufs offset (indices 0 (length g.bufs)) world none 0,
        )
