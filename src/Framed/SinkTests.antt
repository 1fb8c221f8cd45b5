-- ===== src/Framed/SinkTests.antt =====
-- Runs of a framed device on small packets, and its theorems at concrete inputs: the sink.
use tun_rs.Base.{
  true, ℕ, ◌+◌, ◌≡◌, refl, List, [], ◌∷◌, ◌++◌, length, replicate, ◌==◌, if◌then◌else◌, ok, none,
  some, ◌⊎◌, inl, IoError, invalid_offset, arith, slice, slice_from, write,
}
use tun_rs.Virtio.{little, encode}
use tun_rs.Gro.{nth, packet_is_gro_candidate}
use tun_rs.Gro.Table.{new_table}
use tun_rs.Gro.Accounting.{on_buffer, apply_tcp_coalesce_accounting, apply_udp_coalesce_accounting}
use tun_rs.Gro.Handle.{GroState, handle_gro}
use tun_rs.Gro.Tests.{VecBuffer, vec_buffer, vec_buffer-IsExpandBuffer, cpu}
use tun_rs.Framed.{Poll, ready, pending, BytesMut, IsBytesMut, bytes_codec_encoder}
use tun_rs.Framed.Arena.{PacketArena, new_arena, poll_send_bufs}
use tun_rs.Framed.Arena.Sending.{Polls, poll_send_bufs_lem}
use tun_rs.Framed.Write.{WriteState, start_send, poll_flush}
use tun_rs.Framed.Write.Sink.{send_each, offloading, poll_flush-start_send}
use tun_rs.Framed.Write.Flush.{Flushes, poll_flush-handle_gro}

abbrev vec_bytes : BytesMut VecBuffer
vec_bytes = record {
  expand = vec_buffer;
  clear = λ b. record b { bytes = [] };
  reserve = λ b n. record b { capacity = length b.bytes + n };
  with_capacity = λ n. record { bytes = []; capacity = n };
  store = λ b bytes. record b { bytes = bytes };
}

vec_bytes-IsBytesMut : IsBytesMut vec_bytes
vec_bytes-IsBytesMut = record {
  as_ref-clear = λ x. refl;
  as_ref-reserve = λ x n. refl;
  as_ref-with_capacity = λ n. refl;
  as_ref-store = λ x bytes. refl;
}

-- A device that logs every offer and is pending at the second.
abbrev offer : List (List ℕ) → List ℕ → Poll (ℕ ⊎ IoError) × List (List ℕ)
offer log packet =
    (if length log == 1 then pending else ready (inl (length packet)), log ++ packet ∷ [])

abbrev packet_of : List ℕ → VecBuffer
packet_of bytes = record { bytes = replicate 10 0 ++ bytes; capacity = 20 }

abbrev two_left : PacketArena VecBuffer
two_left = record {
  gro = record {
    bufs = packet_of (1 ∷ []) ∷ packet_of (2 ∷ []) ∷ [];
    tcp_table = new_table;
    udp_table = new_table;
    to_write = 0 ∷ 1 ∷ [];
  };
  offset = 2;
  send_index = 0;
}

two_nth :
    (nth (packet_of (1 ∷ []) ∷ packet_of (2 ∷ []) ∷ []) 0 ≡ ok (packet_of (1 ∷ [])))
    × (nth (packet_of (1 ∷ []) ∷ packet_of (2 ∷ []) ∷ []) 1 ≡ ok (packet_of (2 ∷ [])))
unfolding nth
two_nth = (refl, refl)

poll_send_bufs_lem_example :
    Polls vec_bytes offer
      (poll_send_bufs vec_bytes offer two_left [])
      two_left
      []
      ((packet_of (1 ∷ [])).bytes ∷ (packet_of (2 ∷ [])).bytes ∷ [])
poll_send_bufs_lem_example =
    poll_send_bufs_lem vec_bytes offer
      ((packet_of (1 ∷ [])).bytes ∷ (packet_of (2 ∷ [])).bytes ∷ []) two_left [] (omega arith)
      (
        omega arith,
        omega arith,
        (
          (packet_of (1 ∷ []), two_nth.0, omega arith, refl),
          ((packet_of (2 ∷ []), two_nth.1, omega arith, refl), tt),
        ),
      )

-- An empty frame for the bytes codec.
poll_flush-start_send_example :
    (first : WriteState VecBuffer) × (start_send vec_bytes bytes_codec_encoder
        (offloading 1500 (packet_of []) new_arena)
        tt
        []
      ≡ ok (none, first, tt))
    × (state : WriteState VecBuffer) × (codec2 : Unit {0}) × (send_each vec_bytes
          bytes_codec_encoder cpu little true offer vec_bytes-IsBytesMut vec_buffer-IsExpandBuffer
          first tt
          ((7 ∷ []) ∷ [])
        ≡ ok (state, codec2))
    × ((world : List (List ℕ))
        → poll_flush vec_bytes bytes_codec_encoder cpu little true offer state world
          ≡ ok (ready (some invalid_offset), state, world))
poll_flush-start_send_example =
    poll_flush-start_send vec_bytes bytes_codec_encoder cpu little true offer vec_bytes-IsBytesMut
      vec_buffer-IsExpandBuffer 1500 (packet_of []) new_arena tt tt [] none ((7 ∷ []) ∷ []) refl
      refl refl (omega arith)

-- Two bytes that are no IP packet.
abbrev odd_arena : PacketArena VecBuffer
odd_arena = record two_left {
  gro = record two_left.gro { bufs = packet_of (1 ∷ 2 ∷ []) ∷ []; to_write = [] };
  offset = 1;
}

abbrev odd_state : GroState VecBuffer
odd_state = record odd_arena.gro { to_write = 0 ∷ [] }

odd_returns : handle_gro vec_buffer cpu little 10 true odd_arena.gro ≡ ok odd_state
unfolding handle_gro nth slice slice_from packet_is_gro_candidate on_buffer encode write
    apply_tcp_coalesce_accounting apply_udp_coalesce_accounting
odd_returns = refl

odd_nth : nth (packet_of (1 ∷ 2 ∷ []) ∷ []) 0 ≡ ok (packet_of (1 ∷ 2 ∷ []))
unfolding nth
odd_nth = refl

poll_flush-handle_gro_example :
    Flushes vec_bytes bytes_codec_encoder cpu little true offer
      (poll_flush vec_bytes bytes_codec_encoder cpu little true offer
        (offloading 1500 (packet_of []) odd_arena)
        [])
      1500
      (packet_of [])
      (record odd_arena { gro = record odd_state { bufs = odd_state.bufs ++ [] } })
      []
      ((packet_of (1 ∷ 2 ∷ [])).bytes ∷ [])
poll_flush-handle_gro_example =
    poll_flush-handle_gro vec_bytes bytes_codec_encoder cpu little true offer 1500 (packet_of [])
      odd_arena odd_state [] ((packet_of (1 ∷ 2 ∷ [])).bytes ∷ []) (omega arith) (omega arith) refl
      refl odd_returns refl ((packet_of (1 ∷ 2 ∷ []), odd_nth, omega arith, refl), tt)
