-- ===== src/Gro/Tests.antt =====
-- Runs of receive offload on two packets of a flow, and its theorems at concrete inputs.
use tun_rs.Base.{◌<◌, Outcome, ◌≢◌, ap, sym, drop, at, write, write_at}
use tun_rs.Gro.TcpMerge.{append_payload, prepend_payload}
use tun_rs.Gro.TcpMerge.Joined.{flagged_front, append_payload_lem}
use tun_rs.Base.{
  ℕ, ◌-◌, ◌⊎◌, ◌≡◌, refl, true, false, List, [], ◌∷◌, ◌++◌, length, take, replicate, ok, arith,
  slice, slice_from,
}
use tun_rs.Checksum.{CpuFeatures, checksum, pseudo_header_checksum_no_fold}
use tun_rs.Gro.{
  ExpandBuffer, IsExpandBuffer, can_append, success, ip_headers_can_coalesce, nth, remainder,
}
use tun_rs.Gro.Flow.{TcpFlowKey, TcpGroItem, UdpGroItem, TcpTable}
use tun_rs.Gro.Merge.{
  Merged, packet_at, tcp_packets_can_coalesce, udp_packets_can_coalesce, coalesce_udp_packets,
}
use tun_rs.Gro.Candidate.{Agree}
use tun_rs.Gro.Merge.Verdict.{part, TcpAdjacent, tcp_verdict_lem}
use tun_rs.Gro.Merge.Joined.{Refused, UdpJoined, coalesce_udp_lem}

-- A `Vec<u8>` that is never asked to grow beyond its capacity.
pub record VecBuffer : Type 0 where
  pub bytes : List ℕ
  pub capacity : ℕ

abbrev pub vec_buffer : ExpandBuffer VecBuffer
vec_buffer = record {
  as_ref = λ b. b.bytes;
  as_mut = λ b bytes. record b { bytes = bytes };
  buf_capacity = λ b. b.capacity;
  buf_resize = λ b new_len value. record b {
    bytes = take new_len b.bytes ++ replicate (new_len - length b.bytes) value;
  };
  buf_extend_from_slice = λ b src. record b { bytes = b.bytes ++ src };
}

pub vec_buffer-IsExpandBuffer : IsExpandBuffer vec_buffer
vec_buffer-IsExpandBuffer = record {
  as_ref-as_mut = λ b bytes. refl;
  as_ref-resize = λ b new_len value. refl;
  as_ref-extend = λ b src. refl;
}

abbrev pub cpu : CpuFeatures
cpu = record { avx2 = false; sse41 = false }

abbrev first_udp : List ℕ
first_udp =
    69 ∷ 0 ∷ 0 ∷ 30 ∷ 0 ∷ 1 ∷ 64 ∷ 0 ∷ 64 ∷ 17 ∷ 0 ∷ 0 ∷ 10 ∷ 0 ∷ 0 ∷ 1 ∷ 10 ∷ 0 ∷ 0 ∷ 2 ∷ 39 ∷ 16
    ∷ 39 ∷ 17 ∷ 0 ∷ 10 ∷ 156 ∷ 180 ∷ 1 ∷ 2 ∷ []

abbrev second_udp : List ℕ
second_udp =
    69 ∷ 0 ∷ 0 ∷ 29 ∷ 0 ∷ 1 ∷ 64 ∷ 0 ∷ 64 ∷ 17 ∷ 0 ∷ 0 ∷ 10 ∷ 0 ∷ 0 ∷ 1 ∷ 10 ∷ 0 ∷ 0 ∷ 2 ∷ 39 ∷ 16
    ∷ 39 ∷ 17 ∷ 0 ∷ 9 ∷ 154 ∷ 184 ∷ 3 ∷ []

abbrev first_tcp : List ℕ
first_tcp =
    69 ∷ 0 ∷ 0 ∷ 42 ∷ 0 ∷ 1 ∷ 64 ∷ 0 ∷ 64 ∷ 6 ∷ 0 ∷ 0 ∷ 10 ∷ 0 ∷ 0 ∷ 1 ∷ 10 ∷ 0 ∷ 0 ∷ 2 ∷ 39 ∷ 16
    ∷ 39 ∷ 17 ∷ 0 ∷ 0 ∷ 0 ∷ 7 ∷ 0 ∷ 0 ∷ 0 ∷ 9 ∷ 80 ∷ 16 ∷ 1 ∷ 0 ∷ 0 ∷ 0 ∷ 0 ∷ 0 ∷ 1 ∷ 2 ∷ []

abbrev second_tcp : List ℕ
second_tcp =
    69 ∷ 0 ∷ 0 ∷ 42 ∷ 0 ∷ 1 ∷ 64 ∷ 0 ∷ 64 ∷ 6 ∷ 0 ∷ 0 ∷ 10 ∷ 0 ∷ 0 ∷ 1 ∷ 10 ∷ 0 ∷ 0 ∷ 2 ∷ 39 ∷ 16
    ∷ 39 ∷ 17 ∷ 0 ∷ 0 ∷ 0 ∷ 9 ∷ 0 ∷ 0 ∷ 0 ∷ 9 ∷ 80 ∷ 16 ∷ 1 ∷ 0 ∷ 0 ∷ 0 ∷ 0 ∷ 0 ∷ 3 ∷ 4 ∷ []

-- A packet behind the ten bytes of the header.
abbrev buffer : List ℕ → VecBuffer
buffer pkt = record { bytes = replicate 10 0 ++ pkt; capacity = 128 }

abbrev tcp_key : ℕ → TcpFlowKey
tcp_key port = record {
  src_addr = [];
  dst_addr = [];
  src_port = port;
  dst_port = 10001;
  rx_ack = 9;
  is_v6 = false;
}

abbrev first_tcp_item : TcpGroItem
first_tcp_item = record {
  key = tcp_key 10000;
  sent_seq = 7;
  bufs_index = 0;
  num_merged = 0;
  gso_size = 2;
  iph_len = 20;
  tcph_len = 20;
  psh_set = false;
}

abbrev first_udp_item : UdpGroItem
first_udp_item = record {
  key = record { src_addr = []; dst_addr = []; src_port = 10000; dst_port = 10001; is_v6 = false };
  bufs_index = 0;
  num_merged = 0;
  gso_size = 2;
  iph_len = 20;
  c_sum_known_invalid = false;
}

abbrev pub udp_bufs : List VecBuffer
udp_bufs = buffer first_udp ∷ buffer second_udp ∷ []

abbrev tcp_bufs : List VecBuffer
tcp_bufs = buffer first_tcp ∷ buffer second_tcp ∷ []

abbrev udp_merged : Merged VecBuffer UdpGroItem
udp_merged = record {
  result = success;
  item = record first_udp_item { num_merged = 1 };
  bufs = buffer (first_udp ++ 3 ∷ []) ∷ buffer second_udp ∷ [];
}

udp_appends :
    udp_packets_can_coalesce vec_buffer 10 second_udp 20 1 first_udp_item udp_bufs ≡ ok can_append
unfolding udp_packets_can_coalesce nth slice_from remainder ip_headers_can_coalesce
udp_appends = refl

tcp_appends :
    tcp_packets_can_coalesce vec_buffer 10 second_tcp 20 20 9 false 2 first_tcp_item tcp_bufs
    ≡ ok can_append
unfolding tcp_packets_can_coalesce nth slice_from remainder ip_headers_can_coalesce
tcp_appends = refl

udp_joins :
    coalesce_udp_packets vec_buffer 10 cpu false second_udp first_udp_item udp_bufs ≡ ok udp_merged
unfolding coalesce_udp_packets nth slice_from slice checksum pseudo_header_checksum_no_fold
udp_joins = refl

abbrev one_flow : TcpTable
one_flow = record {
  items_by_flow = (tcp_key 10000, first_tcp_item ∷ []) ∷ [];
  items_pool = [] ∷ [] ∷ [];
}

tcp_verdict_lem_example :
    (target : List ℕ) × (packet_at vec_buffer 10 tcp_bufs 0 ≡ ok target)
    × (first_tcp_item.tcph_len ≡ 20)
    × (20 < 20 → part second_tcp 40 40 ≡ part target 40 40)
    × Agree second_tcp target
    × TcpAdjacent can_append target 40 9 false 2 first_tcp_item
tcp_verdict_lem_example =
    tcp_verdict_lem vec_buffer 10 second_tcp 20 20 9 false 2 first_tcp_item tcp_bufs can_append
      tcp_appends (ground arith)

coalesce_udp_lem_example :
    Refused first_udp_item udp_bufs udp_merged
    ⊎ UdpJoined vec_buffer vec_buffer-IsExpandBuffer 10 cpu false second_udp first_udp_item udp_bufs
        udp_merged
coalesce_udp_lem_example =
    coalesce_udp_lem vec_buffer vec_buffer-IsExpandBuffer 10 cpu false second_udp first_udp_item
      udp_bufs udp_merged udp_joins

-- The second packet, whose PSH flag is set, behind the first.
abbrev appended : List VecBuffer
appended =
    record {
      bytes = replicate 10 0 ++ (take 33 first_tcp ++ 0x18 ∷ []) ++ drop 34 first_tcp ++ 3 ∷ 4 ∷ [];
      capacity = 128;
    }
    ∷ buffer second_tcp
    ∷ []

appends : append_payload vec_buffer 10 tcp_bufs first_tcp_item true (3 ∷ 4 ∷ []) ≡ ok appended
unfolding append_payload nth at write_at
appends = refl

append_payload_lem_example :
    (buf : VecBuffer) × (joined : VecBuffer) × (nth tcp_bufs 0 ≡ ok buf)
    × (nth appended 0 ≡ ok joined)
    × (joined.bytes ≡ flagged_front buf.bytes 43 true ++ 3 ∷ 4 ∷ [])
    × ((j : ℕ) → 0 ≢ j → nth appended j ≡ nth tcp_bufs j)
append_payload_lem_example =
    append_payload_lem vec_buffer vec_buffer-IsExpandBuffer 10 tcp_bufs first_tcp_item true
      (3 ∷ 4 ∷ []) appended appends

-- The first packet before the second, which came earlier.
abbrev late_bufs : List VecBuffer
late_bufs = buffer second_tcp ∷ buffer first_tcp ∷ []

abbrev prepended : List VecBuffer
prepended = buffer (first_tcp ++ 3 ∷ 4 ∷ []) ∷ buffer second_tcp ∷ []

prepends : prepend_payload vec_buffer 10 late_bufs 0 1 42 40 2 ≡ ok prepended
unfolding prepend_payload nth slice write
prepends = refl

abbrev outcome_length : Outcome VecBuffer → ℕ
outcome_length (ok b) = length b.bytes
outcome_length _ = 0

late_ends : (b : VecBuffer) → nth late_bufs 1 ≡ ok b → length b.bytes ≡ 52
unfolding nth
late_ends b h = ap (λ (o : Outcome VecBuffer). outcome_length o) (sym h)
