-- ===== src/Device/Tests.antt =====
-- Runs of the device on small packets, and its theorems at concrete inputs.
use tun_rs.Base.{
  ◌<◌, ◌≤◌, ◌⊎◌, ℕ, inl, ◌≡◌, refl, true, false, List, [], ◌∷◌, ◌++◌, length, drop, replicate,
  get_or, Outcome, ok, os_error, arith, slice, slice_from, write, ◌==◌, if◌then◌else◌,
}
use tun_rs.Checksum.{checksum}
use tun_rs.Virtio.{VirtioNetHdr, little, hdr_bytes, encode}
use tun_rs.Gso.Tests.{cpu, udp_packet, udp_hdr, three_buffers, three_sizes, partial_packet}
use tun_rs.Gso.Whole.{Splits}
use tun_rs.Gro.{nth, packet_is_gro_candidate}
use tun_rs.Gro.Accounting.{on_buffer, apply_tcp_coalesce_accounting, apply_udp_coalesce_accounting}
use tun_rs.Gro.Table.{reset}
use tun_rs.Gro.Handle.{GroState, handle_gro}
use tun_rs.Gro.Tests.{VecBuffer, vec_buffer}
use tun_rs.Gro.Tests.{cpu as gro_cpu}
use tun_rs.Gro.BatchTests.{batch}
use tun_rs.Device.{
  handle_virtio_read, offset_beyond, Written, wrote, failed, cleared_table, send_multiple,
}
use tun_rs.Device.Virtio.{IsGsoPacket, corrected, handle_virtio_read-Splits}
use tun_rs.Device.Receive.{delivered, handle_virtio_read_none_lem}
use tun_rs.Device.Send.{send_multiple_offload}

-- The kernel's header length covers the whole packet: it is not used.
abbrev kernel_hdr : VirtioNetHdr
kernel_hdr = record udp_hdr { hdr_len = 33 }

kernel-IsGsoPacket : IsGsoPacket udp_packet kernel_hdr false
kernel-IsGsoPacket = record {
  widths = omega arith;
  bytes = omega arith;
  positive = omega arith;
  version = refl;
  ip_header = omega arith;
  transport = inl (refl, refl);
  headers_fit = omega arith;
  headers_u16 = omega arith;
}

handle_virtio_read-Splits_example :
    Splits cpu udp_packet
      (corrected kernel_hdr udp_packet)
      three_buffers
      three_sizes
      1
      false
      (handle_virtio_read cpu kernel_hdr udp_packet three_buffers three_sizes 1)
handle_virtio_read-Splits_example =
    handle_virtio_read-Splits udp_packet kernel_hdr false kernel-IsGsoPacket cpu three_buffers
      three_sizes 1 (omega arith) (omega arith) (omega arith) (omega arith) (omega arith)

abbrev none_hdr : VirtioNetHdr
none_hdr = record {
  flags = 1;
  gso_type = 0;
  hdr_len = 0;
  gso_size = 0;
  csum_start = 2;
  csum_offset = 2;
}

abbrev one_buffer : List ℕ
one_buffer = replicate 9 0

handle_virtio_read_none_lem_example :
    (out : List ℕ) × (handle_virtio_read cpu none_hdr partial_packet (one_buffer ∷ []) (0 ∷ []) 1
      ≡ ok (delivered cpu one_buffer [] 0 [] 1 out))
    × (length out ≡ 7)
    × (checksum cpu (drop 2 out) 0x1234 ≡ 65535)
    × ((i : ℕ) → (i < 4) ⊎ (6 ≤ i) → get_or out i 0 ≡ get_or partial_packet i 0)
unfolding offset_beyond
handle_virtio_read_none_lem_example =
    handle_virtio_read_none_lem cpu one_buffer [] 0 [] 1 none_hdr partial_packet refl (omega arith)
      (omega arith) (omega arith) (omega arith) (omega arith) refl (omega arith) (omega arith) refl
      (omega arith)

-- A device that answers every read with the packet and its header.
abbrev read_partial : List ℕ → Outcome (ℕ × List ℕ)
read_partial buf = ok (17, hdr_bytes little none_hdr ++ (partial_packet ++ 0 ∷ []))

-- A device that keeps what it is given, and refuses packets that begin with 9 by error 5.
abbrev keep : List (List ℕ) → List ℕ → Written × List (List ℕ)
keep log packet = (
  if get_or packet 0 0 == 9 then failed (os_error 5) else wrote (length packet),
  log ++ packet ∷ [],
)

abbrev plain_bufs : List VecBuffer
plain_bufs =
    record { bytes = 0 ∷ 1 ∷ 2 ∷ []; capacity = 3 }
    ∷ record { bytes = 0 ∷ 9 ∷ []; capacity = 2 }
    ∷ record { bytes = 0 ∷ 3 ∷ []; capacity = 2 }
    ∷ []

abbrev plain_batch : GroState VecBuffer
plain_batch = record batch { bufs = plain_bufs }

plain_nth :
    (nth plain_bufs 0 ≡ ok (record { bytes = 0 ∷ 1 ∷ 2 ∷ []; capacity = 3 }))
    × (nth plain_bufs 1 ≡ ok (record { bytes = 0 ∷ 9 ∷ []; capacity = 2 }))
    × (nth plain_bufs 2 ≡ ok (record { bytes = 0 ∷ 3 ∷ []; capacity = 2 }))
unfolding nth
plain_nth = (refl, refl, refl)

-- Two bytes that are no IP packet: they are sent behind a default header.
abbrev odd_batch : GroState VecBuffer
odd_batch = record batch {
  bufs = record { bytes = replicate 10 7 ++ 1 ∷ 2 ∷ []; capacity = 12 } ∷ [];
}

abbrev odd_sent : VecBuffer
odd_sent = record { bytes = replicate 10 0 ++ 1 ∷ 2 ∷ []; capacity = 12 }

abbrev odd_state : GroState VecBuffer
odd_state = record odd_batch { bufs = odd_sent ∷ []; to_write = 0 ∷ [] }

odd_returns : handle_gro vec_buffer gro_cpu little 10 true (cleared_table odd_batch) ≡ ok odd_state
unfolding handle_gro reset nth slice slice_from packet_is_gro_candidate on_buffer encode write
    apply_tcp_coalesce_accounting apply_udp_coalesce_accounting
odd_returns = refl

odd_nth : nth (odd_sent ∷ []) 0 ≡ ok odd_sent
unfolding nth
odd_nth = refl

send_multiple_offload_example :
    send_multiple keep 77 vec_buffer gro_cpu little true true odd_batch 10 []
    ≡ (ok 12, odd_sent.bytes ∷ [])
send_multiple_offload_example =
    send_multiple_offload keep 77 vec_buffer gro_cpu little true [] odd_batch odd_state 10
      (odd_sent.bytes ∷ []) (omega arith) (omega arith) (omega arith) (omega arith) odd_returns
      ((odd_sent, odd_nth, omega arith, refl), tt) tt
