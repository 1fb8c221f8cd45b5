-- ===== src/Gro/BatchTests.antt =====
-- A batch of two UDP packets of one flow: they are joined into the first buffer.
use tun_rs.Base.{
  ◌≡◌, refl, true, [], ◌∷◌, Outcome, ok, at, slice, slice_from, write, write_at, read_u16, read_u32,
  write_u16,
}
use tun_rs.Checksum.{checksum, pseudo_header_checksum_no_fold}
use tun_rs.Virtio.{little, encode}
use tun_rs.Gro.{nth, remainder, narrow, packet_is_gro_candidate, ip_headers_can_coalesce}
use tun_rs.Gro.Table.{new_table, find_flow, store_flow, insert_item}
use tun_rs.Gro.Flow.{udp_key_eq, udp_flow_key, udp_insert, udp_lookup_or_insert}
use tun_rs.Gro.Merge.{packet_at, udp_packets_can_coalesce, coalesce_udp_packets}
use tun_rs.Gro.Receive.{udp_candidate}
use tun_rs.Gro.Evaluate.{udp_gro}
use tun_rs.Gro.Accounting.{
  apply_tcp_coalesce_accounting, apply_udp_coalesce_accounting, on_buffer, for_flows, for_items,
}
use tun_rs.Gro.Handle.{GroState, handle_gro}
use tun_rs.Gro.Tests.{VecBuffer, vec_buffer, cpu, udp_bufs}

abbrev pub batch : GroState VecBuffer
batch = record { bufs = udp_bufs; tcp_table = new_table; udp_table = new_table; to_write = [] }

abbrev pub run : Outcome (GroState VecBuffer)
run = handle_gro vec_buffer cpu little 10 true batch

abbrev pub state_or : GroState VecBuffer → Outcome (GroState VecBuffer) → GroState VecBuffer
state_or g (ok g') = g'
state_or g _ = g

pub batch_to_write : (state_or batch run).to_write ≡ 0 ∷ []
unfolding handle_gro udp_gro udp_lookup_or_insert udp_insert udp_candidate udp_packets_can_coalesce
    coalesce_udp_packets packet_at udp_flow_key insert_item find_flow store_flow udp_key_eq nth
    remainder narrow packet_is_gro_candidate ip_headers_can_coalesce at slice slice_from write
    write_at read_u16 read_u32 write_u16 checksum pseudo_header_checksum_no_fold encode
    apply_tcp_coalesce_accounting apply_udp_coalesce_accounting on_buffer for_flows for_items
batch_to_write = refl

pub batch_returns : run ≡ ok (state_or batch run)
unfolding handle_gro udp_gro udp_lookup_or_insert udp_insert udp_candidate udp_packets_can_coalesce
    coalesce_udp_packets packet_at udp_flow_key insert_item find_flow store_flow udp_key_eq nth
    remainder narrow packet_is_gro_candidate ip_headers_can_coalesce at slice slice_from write
    write_at read_u16 read_u32 write_u16 checksum pseudo_header_checksum_no_fold encode
    apply_tcp_coalesce_accounting apply_udp_coalesce_accounting on_buffer for_flows for_items
batch_returns = refl
