-- ===== src/Gro/Evaluate.antt =====
-- src/platform/linux/offload.rs: `tcp_gro` and `udp_gro`, which evaluate one packet against the table.
use tun_rs.Base.{
  ℕ, ◌+◌, ◌-◌, Bool, true, false, List, [], ◌∷◌, length, set, replicate, sub64, Option, none, some,
  Outcome, ok, ◌>>=◌, write,
}
use tun_rs.Checksum.{CpuFeatures}
use tun_rs.Virtio.{virtio_net_hdr_len}
use tun_rs.Gso.{src_addr_offset, addr_len}
use tun_rs.Gro.{
  ExpandBuffer, can_append, unavailable, item_invalid_csum, pkt_invalid_csum, success, GroResult,
  noop, table_insert, coalesced, nth,
}
use tun_rs.Gro.Table.{store_flow}
use tun_rs.Gro.Flow.{
  TcpGroItem, TcpTable, UdpTable, tcp_key_eq, udp_key_eq, tcp_flow_key, udp_flow_key, tcp_insert,
  udp_insert, tcp_lookup_or_insert, udp_lookup_or_insert,
}
use tun_rs.Gro.Merge.{
  packet_at, tcp_packets_can_coalesce, udp_packets_can_coalesce, coalesce_udp_packets,
}
use tun_rs.Gro.TcpMerge.{coalesce_tcp_packets}
use tun_rs.Gro.Receive.{Received, TcpCandidate, tcp_candidate, udp_candidate}

-- What the search through the items of a flow leaves: the result that ends `tcp_gro`, if one does.
pub record Scan (B : Type 0) : Type 0 where
  pub ended : Option GroResult
  pub items : List TcpGroItem
  pub bufs : List B

module _ {B : Type 0} (e : ExpandBuffer B) (offset : ℕ) (cpu : CpuFeatures) (is_v6 : Bool) where
  -- `bufs[index].as_mut()[offset - VIRTIO_NET_HDR_LEN..offset].fill(0)`.
  unfoldable pub zero_hdr : List B → ℕ → Outcome (List B)
  zero_hdr bufs index = do
    b ← nth bufs index
    out ← write (e.as_ref b) (sub64 offset virtio_net_hdr_len) (replicate virtio_net_hdr_len 0)
    ok (set bufs index (e.as_mut b out))

  -- One item of the flow, after those behind it.
  unfoldable pub tcp_try : List ℕ → ℕ → TcpCandidate → TcpGroItem → Scan B → Outcome (Scan B)
  unfolding zero_hdr
  tcp_try pkt pkt_i c item later = do
    let keep = record later { items = item ∷ later.items }
    can ←
        tcp_packets_can_coalesce e offset pkt c.iph_len c.tcph_len c.seq c.psh_set c.gso_size item
          later.bufs
    elim can [
      | unavailable ↦ ok keep
      | mode ↦ do
        merged ←
            coalesce_tcp_packets e offset cpu is_v6 mode pkt pkt_i c.gso_size c.seq c.psh_set item
              later.bufs
        elim merged.result [
          | success ↦ ok (record {
            ended = some coalesced;
            items = merged.item ∷ later.items;
            bufs = merged.bufs;
          })
          | item_invalid_csum ↦ do
            zeroed ← zero_hdr later.bufs item.bufs_index
            ok (record later { bufs = zeroed })
          | pkt_invalid_csum ↦ ok (record keep { ended = some noop })
          | _ ↦ ok keep
        ]
    ]

  -- `for i in (0..items.len()).rev()`.
  unfoldable pub tcp_scan : List ℕ → ℕ → TcpCandidate → List TcpGroItem → List B → Outcome (Scan B)
  unfolding tcp_try
  tcp_scan pkt pkt_i c [] bufs = ok (record { ended = none; items = []; bufs = bufs })
  tcp_scan pkt pkt_i c (item ∷ items) bufs = do
    later ← tcp_scan pkt pkt_i c items bufs
    elim later.ended [
      | some result ↦ ok (record later { items = item ∷ later.items })
      | none ↦ tcp_try pkt pkt_i c item later
    ]

  unfoldable pub tcp_gro : List B → ℕ → TcpTable → Outcome (Received B TcpTable)
  unfolding tcp_scan
  tcp_gro bufs pkt_i table = do
    pkt ← packet_at e offset bufs pkt_i
    candidate ← tcp_candidate pkt is_v6
    let from = src_addr_offset is_v6
    let until = from + addr_len is_v6
    elim candidate [
      | none ↦ ok (record { result = noop; bufs = bufs; table = table })
      | some c ↦ do
        (found, table1) ← tcp_lookup_or_insert table pkt from until c.iph_len c.tcph_len pkt_i
        elim found [
          | none ↦ ok (record { result = table_insert; bufs = bufs; table = table1 })
          | some items ↦ do
            scan ← tcp_scan pkt pkt_i c items bufs
            key ← tcp_flow_key pkt from until c.iph_len
            let table2 = record table1 {
              items_by_flow = store_flow tcp_key_eq table1.items_by_flow key scan.items;
            }
            elim scan.ended [
              | some result ↦ ok (record { result = result; bufs = scan.bufs; table = table2 })
              | none ↦ do
                table3 ← tcp_insert table2 pkt from until c.iph_len c.tcph_len pkt_i
                ok (record { result = table_insert; bufs = scan.bufs; table = table3 })
            ]
        ]
    ]

  -- The packet is stored as an item of its own.
  unfoldable pub udp_store : List B → ℕ → UdpTable → ℕ → Bool → Outcome (Received B UdpTable)
  udp_store bufs pkt_i table iph_len known_invalid = do
    pkt ← packet_at e offset bufs pkt_i
    let from = src_addr_offset is_v6
    stored ← udp_insert table pkt from (from + addr_len is_v6) iph_len pkt_i known_invalid
    ok (record { result = table_insert; bufs = bufs; table = stored })

  unfoldable pub udp_gro : List B → ℕ → UdpTable → Outcome (Received B UdpTable)
  unfolding udp_store
  udp_gro bufs pkt_i table = do
    pkt ← packet_at e offset bufs pkt_i
    candidate ← udp_candidate pkt is_v6
    let from = src_addr_offset is_v6
    let until = from + addr_len is_v6
    elim candidate [
      | none ↦ ok (record { result = noop; bufs = bufs; table = table })
      | some (iph_len, gso_size) ↦ do
        (found, table1) ← udp_lookup_or_insert table pkt from until iph_len pkt_i
        elim found [
          | none ↦ ok (record { result = table_insert; bufs = bufs; table = table1 })
          | some items ↦ do
            let last = length items - 1
            item ← nth items last
            can ← udp_packets_can_coalesce e offset pkt iph_len gso_size item bufs
            elim can [
              | can_append ↦ do
                merged ← coalesce_udp_packets e offset cpu is_v6 pkt item bufs
                key ← udp_flow_key pkt from until iph_len
                let table2 = record table1 {
                  items_by_flow =
                      store_flow udp_key_eq table1.items_by_flow key (set items last merged.item);
                }
                elim merged.result [
                  | success ↦ ok (record { result = coalesced; bufs = merged.bufs; table = table2 })
                  | pkt_invalid_csum ↦ udp_store bufs pkt_i table1 iph_len true
                  | _ ↦ udp_store bufs pkt_i table1 iph_len false
                ]
              | _ ↦ udp_store bufs pkt_i table1 iph_len false
            ]
        ]
    ]
