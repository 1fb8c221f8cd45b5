-- ===== src/Gro/Accounting.antt =====
-- src/platform/linux/offload.rs: `apply_tcp_coalesce_accounting` and `apply_udp_coalesce_accounting`,
-- which write the headers of the merged packets.
use tun_rs.Base.{
  ℕ, ◌+◌, ◌*◌, Bool, List, [], ◌∷◌, ◌++◌, ltb, if◌then◌else◌, length, set, take, sub64, sub16,
  as_u16, as_u8, not16, Outcome, ok, ◌>>=◌, slice, slice_from, write_at, write_u16,
}
use tun_rs.Checksum.{CpuFeatures, checksum, pseudo_header_checksum_no_fold}
use tun_rs.Virtio.{
  VirtioNetHdr, default_hdr, Endian, encode, virtio_net_hdr_len, virtio_net_hdr_f_needs_csum,
  virtio_net_hdr_gso_tcpv4, virtio_net_hdr_gso_tcpv6, virtio_net_hdr_gso_udp_l4,
}
use tun_rs.Gso.{src_addr_offset, addr_len, ipproto_tcp, ipproto_udp, udp_h_len}
use tun_rs.Gro.{ExpandBuffer, nth}
use tun_rs.Gro.Flow.{TcpGroItem, UdpGroItem, TcpTable, UdpTable}

-- The headers of a merged packet.
abbrev pub tcp_merged_hdr : TcpGroItem → VirtioNetHdr
tcp_merged_hdr item = record {
  flags = virtio_net_hdr_f_needs_csum;
  gso_type = if item.key.is_v6 then virtio_net_hdr_gso_tcpv6 else virtio_net_hdr_gso_tcpv4;
  hdr_len = as_u8 (item.iph_len + item.tcph_len);
  gso_size = item.gso_size;
  csum_start = item.iph_len;
  csum_offset = 16;
}

abbrev pub udp_merged_hdr : UdpGroItem → VirtioNetHdr
udp_merged_hdr item = record {
  flags = virtio_net_hdr_f_needs_csum;
  gso_type = virtio_net_hdr_gso_udp_l4;
  hdr_len = as_u16 (item.iph_len + udp_h_len);
  gso_size = item.gso_size;
  csum_start = item.iph_len;
  csum_offset = 6;
}

-- `buf` with the packet behind the offset replaced by one of the same length.
abbrev pub with_packet : List ℕ → ℕ → List ℕ → List ℕ
with_packet buf offset pkt = take offset buf ++ pkt

module _ (cpu : CpuFeatures) where
  -- The length of the IP header, and the IPv4 checksum, of a packet.
  unfoldable pub account_ip : List ℕ → ℕ → Bool → Outcome (List ℕ)
  account_ip pkt iph_len is_v6 =
      if is_v6 then write_u16 pkt 4 (sub16 (as_u16 (length pkt)) iph_len) else (do
        pkt1 ← write_at pkt 10 0
        pkt2 ← write_at pkt1 11 0
        pkt3 ← write_u16 pkt2 2 (as_u16 (length pkt))
        iph ← slice pkt3 0 iph_len
        write_u16 pkt3 10 (not16 (checksum cpu iph 0)))

  -- The folded sum of the pseudo-header, from the addresses of the packet.
  unfoldable pub partial_csum : List ℕ → ℕ → ℕ → Bool → Outcome ℕ
  partial_csum pkt iph_len proto is_v6 = do
    let from = src_addr_offset is_v6
    let len = addr_len is_v6
    src ← slice pkt from (from + len)
    dst ← slice pkt (from + len) (from + len * 2)
    ok (
        checksum cpu []
          (pseudo_header_checksum_no_fold cpu proto src dst (sub16 (as_u16 (length pkt)) iph_len)))

  -- One item of the TCP table, on the bytes of its buffer.
  unfoldable pub account_tcp_item : Endian → ℕ → TcpGroItem → List ℕ → Outcome (List ℕ)
  unfolding account_ip partial_csum
  account_tcp_item order offset item buf =
      if ltb 0 item.num_merged
      then (do
        let hdr = tcp_merged_hdr item
        pkt ← slice_from buf offset
        pkt1 ← account_ip pkt item.iph_len item.key.is_v6
        csum ← partial_csum pkt item.iph_len ipproto_tcp item.key.is_v6
        let buf1 = with_packet buf offset pkt1
        front ← slice_from buf1 (sub64 offset virtio_net_hdr_len)
        encoded ← encode order hdr front
        let buf2 = with_packet buf1 (sub64 offset virtio_net_hdr_len) encoded
        pkt2 ← slice_from buf2 offset
        pkt3 ← write_u16 pkt2 (as_u16 (hdr.csum_start + hdr.csum_offset)) csum
        ok (with_packet buf2 offset pkt3))
      else (do
        front ← slice_from buf (sub64 offset virtio_net_hdr_len)
        encoded ← encode order default_hdr front
        ok (with_packet buf (sub64 offset virtio_net_hdr_len) encoded))

  -- One item of the UDP table, which has a length field too.
  unfoldable pub account_udp_item : Endian → ℕ → UdpGroItem → List ℕ → Outcome (List ℕ)
  unfolding account_ip partial_csum
  account_udp_item order offset item buf =
      if ltb 0 item.num_merged
      then (do
        let hdr = udp_merged_hdr item
        pkt ← slice_from buf offset
        pkt1 ← account_ip pkt item.iph_len item.key.is_v6
        csum ← partial_csum pkt item.iph_len ipproto_udp item.key.is_v6
        let buf1 = with_packet buf offset pkt1
        front ← slice_from buf1 (sub64 offset virtio_net_hdr_len)
        encoded ← encode order hdr front
        let buf2 = with_packet buf1 (sub64 offset virtio_net_hdr_len) encoded
        pkt2 ← slice_from buf2 offset
        pkt3 ← write_u16 pkt2 (item.iph_len + 4) (sub16 (as_u16 (length pkt)) item.iph_len)
        pkt4 ← write_u16 pkt3 (as_u16 (hdr.csum_start + hdr.csum_offset)) csum
        ok (with_packet buf2 offset pkt4))
      else (do
        front ← slice_from buf (sub64 offset virtio_net_hdr_len)
        encoded ← encode order default_hdr front
        ok (with_packet buf (sub64 offset virtio_net_hdr_len) encoded))

-- `for items in table.items_by_flow.values() { for item in items { .. } }`, for the step on one item.
module _ {B : Type 0} {I : Type 0} (step : I → List B → Outcome (List B)) where
  unfoldable pub for_items : List I → List B → Outcome (List B)
  for_items [] bufs = ok bufs
  for_items (item ∷ items) bufs = do bufs1 ← step item bufs; for_items items bufs1

  unfoldable pub for_flows : {K : Type 0} → List (K × List I) → List B → Outcome (List B)
  unfolding for_items
  for_flows [] bufs = ok bufs
  for_flows ((key, items) ∷ flows) bufs = do bufs1 ← for_items items bufs; for_flows flows bufs1

module _ {B : Type 0} (e : ExpandBuffer B) where
  -- A step on the bytes of buffer `index`.
  unfoldable pub on_buffer : ℕ → (List ℕ → Outcome (List ℕ)) → List B → Outcome (List B)
  on_buffer index step bufs = do
    b ← nth bufs index
    out ← step (e.as_ref b)
    ok (set bufs index (e.as_mut b out))

  module _ (cpu : CpuFeatures) (order : Endian) (offset : ℕ) where
    unfoldable pub apply_tcp_coalesce_accounting : List B → TcpTable → Outcome (List B)
    unfolding account_tcp_item on_buffer for_flows
    apply_tcp_coalesce_accounting bufs table =
        for_flows
          (λ (item : TcpGroItem).
            on_buffer item.bufs_index (account_tcp_item cpu order offset item))
          table.items_by_flow bufs

    unfoldable pub apply_udp_coalesce_accounting : List B → UdpTable → Outcome (List B)
    unfolding account_udp_item on_buffer for_flows
    apply_udp_coalesce_accounting bufs table =
        for_flows
          (λ (item : UdpGroItem).
            on_buffer item.bufs_index (account_udp_item cpu order offset item))
          table.items_by_flow bufs
