-- ===== src/Gro/Handle.antt =====
-- src/platform/linux/offload.rs: `handle_gro`, which evaluates every packet of a batch, and `GROTable`.
use tun_rs.Base.{
  ℕ, ◌+◌, Bool, true, false, ◌||◌, List, [], ◌∷◌, ◌++◌, leb, ltb, length, sub64, Outcome, ok, ◌>>=◌,
  ◌>>◌, fail_if, if◌then◌else◌, Option, none, some, err, panic, IoError, slice, slice_from,
  too_many_buffers, invalid_offset, zero, suc,
}
use tun_rs.Checksum.{CpuFeatures}
use tun_rs.Virtio.{default_hdr, Endian, encode, virtio_net_hdr_len}
use tun_rs.Gro.{
  ExpandBuffer, nth, GroResult, noop, table_insert, coalesced, GroCandidateType, not_gro, tcp4_gro,
  tcp6_gro, udp4_gro, udp6_gro, packet_is_gro_candidate,
}
use tun_rs.Gro.Table.{reset}
use tun_rs.Gro.Flow.{TcpTable, UdpTable}
use tun_rs.Gro.Evaluate.{tcp_gro, udp_gro}
use tun_rs.Gro.Accounting.{
  with_packet, on_buffer, apply_tcp_coalesce_accounting, apply_udp_coalesce_accounting,
}

-- The buffers and `GROTable`.
pub record GroState (B : Type 0) : Type 0 where
  pub bufs : List B
  pub tcp_table : TcpTable
  pub udp_table : UdpTable
  pub to_write : List ℕ

module _ {B : Type 0} (e : ExpandBuffer B) (cpu : CpuFeatures) (order : Endian) (offset : ℕ)
    (can_udp_gro : Bool) where
  -- The `match` on the kind of a candidate.
  unfoldable pub evaluate : GroCandidateType → ℕ → GroState B → Outcome (GroResult × GroState B)
  evaluate not_gro i g = ok (noop, g)
  evaluate tcp4_gro i g = do
    r ← tcp_gro e offset cpu false g.bufs i g.tcp_table
    ok (r.result, record g { bufs = r.bufs; tcp_table = r.table })
  evaluate tcp6_gro i g = do
    r ← tcp_gro e offset cpu true g.bufs i g.tcp_table
    ok (r.result, record g { bufs = r.bufs; tcp_table = r.table })
  evaluate udp4_gro i g = do
    r ← udp_gro e offset cpu false g.bufs i g.udp_table
    ok (r.result, record g { bufs = r.bufs; udp_table = r.table })
  evaluate udp6_gro i g = do
    r ← udp_gro e offset cpu true g.bufs i g.udp_table
    ok (r.result, record g { bufs = r.bufs; udp_table = r.table })

  -- The default header in front of a packet that is passed on alone.
  unfoldable pub encode_default : ℕ → List B → Outcome (List B)
  encode_default = λ i. on_buffer e i (λ buf. do
    front ← slice buf (sub64 offset virtio_net_hdr_len) offset
    encoded ← encode order default_hdr front
    rest ← slice_from buf offset
    ok (with_packet buf (sub64 offset virtio_net_hdr_len) encoded ++ rest))

  -- What the verdict on packet `i` adds to `to_write`.
  unfoldable pub conclude : GroResult → ℕ → GroState B → Outcome (GroState B)
  unfolding encode_default
  conclude noop i g = do
    bufs ← encode_default i g.bufs
    ok (record g { bufs = bufs; to_write = g.to_write ++ i ∷ [] })
  conclude table_insert i g = ok (record g { to_write = g.to_write ++ i ∷ [] })
  conclude coalesced i g = ok g

  -- One round of the loop.
  unfoldable pub handle_packet : ℕ → GroState B → Outcome (GroState B)
  unfolding evaluate conclude
  handle_packet i g = do
    b ← nth g.bufs i
    fail_if (ltb offset virtio_net_hdr_len || leb (length (e.as_ref b)) offset) invalid_offset
    pkt ← slice_from (e.as_ref b) offset
    (result, g1) ← evaluate (packet_is_gro_candidate pkt can_udp_gro) i g
    conclude result i g1

  -- `for i in 0..bufs_len`, from `i` on with `rounds` to go.
  unfoldable pub handle_packets : ℕ → ℕ → GroState B → Outcome (GroState B)
  unfolding handle_packet
  handle_packets zero i g = ok g
  handle_packets (suc rounds) i g = do g1 ← handle_packet i g; handle_packets rounds (i + 1) g1

  unfoldable pub handle_gro : GroState B → Outcome (GroState B)
  unfolding handle_packets
  handle_gro g = do
    fail_if (ltb 65535 (length g.bufs)) too_many_buffers
    g1 ← handle_packets (length g.bufs) 0 g
    bufs1 ← apply_tcp_coalesce_accounting e cpu order offset g1.bufs g1.tcp_table
    bufs2 ← apply_udp_coalesce_accounting e cpu order offset bufs1 g1.udp_table
    ok (record g1 { bufs = bufs2 })

  -- `GROTable::apply_gro`.
  unfoldable pub apply_gro : GroState B → Outcome (GroState B)
  unfolding handle_gro
  apply_gro g =
      handle_gro
        (record g { tcp_table = reset g.tcp_table; udp_table = reset g.udp_table; to_write = [] })

  -- `handle_gro` again, with the state that an error leaves to the caller: that before the packet that
  -- is refused. Only the check of the offset refuses a packet, and `encode`, the only other step with
  -- an error, has none for the ten bytes that it is called on.
  unfoldable pub packets_kept : ℕ → ℕ → GroState B → Outcome (Option IoError × GroState B)
  unfolding handle_packet
  packets_kept zero i g = ok (none, g)
  packets_kept (suc rounds) i g = elim (handle_packet i g) [
    | ok g1 ↦ packets_kept rounds (i + 1) g1
    | err error ↦ ok (some error, g)
    | panic ↦ panic
  ]

  -- What the accounting makes of the buffers, or the state as it is when there was an error.
  unfoldable pub account_kept : Option IoError × GroState B → Outcome (Option IoError × GroState B)
  account_kept (some error, g) = ok (some error, g)
  account_kept (none, g) = do
    bufs1 ← apply_tcp_coalesce_accounting e cpu order offset g.bufs g.tcp_table
    bufs2 ← apply_udp_coalesce_accounting e cpu order offset bufs1 g.udp_table
    ok (none, record g { bufs = bufs2 })

  unfoldable pub handle_gro_kept : GroState B → Outcome (Option IoError × GroState B)
  unfolding packets_kept account_kept
  handle_gro_kept g =
      if ltb 65535 (length g.bufs)
      then ok (some too_many_buffers, g)
      else packets_kept (length g.bufs) 0 g >>= account_kept
