-- ===== src/Gro/Merge.antt =====
-- src/platform/linux/offload.rs: whether a packet joins the packet of an item
-- (`udp_packets_can_coalesce`, `tcp_packets_can_coalesce`), and joining them
-- (`coalesce_udp_packets`, `coalesce_tcp_packets`).
pub mod Verdict
pub mod Joined
use tun_rs.Base.{
  ℕ, ◌+◌, ◌-◌, ◌*◌, ◌%◌, Bool, true, false, not, ◌&&◌, ◌||◌, List, [], ◌∷◌, ltb, leb, ◌==◌,
  if◌then◌else◌, length, get_or, set, add64, sub64, as_u16, as_u32, as_u8, not16, bit_or, Outcome,
  ok, panic, ◌>>=◌, at, slice, slice_from, write, write_at,
}
use tun_rs.Checksum.{CpuFeatures, checksum, pseudo_header_checksum_no_fold}
use tun_rs.Gso.{tcp_flags_offset, udp_h_len, ipproto_tcp, ipproto_udp, src_addr_offset, addr_len}
use tun_rs.Gro.{
  ExpandBuffer, CanCoalesce, can_prepend, can_append, unavailable, CoalesceResult, insufficient_cap,
  psh_ending, item_invalid_csum, pkt_invalid_csum, success, nth, remainder, ip_headers_can_coalesce,
  tcp_flag_psh,
}
use tun_rs.Gro.Flow.{TcpGroItem, UdpGroItem, bytes_eq}

-- What joining two packets leaves: the verdict, the item and the buffers.
pub record Merged (B : Type 0) (I : Type 0) : Type 0 where
  pub result : CoalesceResult
  pub item : I
  pub bufs : List B

-- `checksum_valid`.
unfoldable pub checksum_valid : CpuFeatures → List ℕ → ℕ → ℕ → Bool → Outcome Bool
checksum_valid cpu pkt iph_len proto is_v6 = do
  let src_addr_at = src_addr_offset is_v6
  let addr_size = addr_len is_v6
  let len_for_pseudo = as_u16 (length pkt) - iph_len
  src ← slice pkt src_addr_at (src_addr_at + addr_size)
  dst ← slice pkt (src_addr_at + addr_size) (src_addr_at + addr_size * 2)
  rest ← slice_from pkt iph_len
  ok (
      not16 (checksum cpu rest (pseudo_header_checksum_no_fold cpu proto src dst len_for_pseudo))
      == 0)

-- `num_merged == 0 && (known_invalid || !checksum_valid(head, ..))`.
unfoldable pub first_csum_bad : CpuFeatures → Bool → List ℕ → ℕ → ℕ → ℕ → Bool → Outcome Bool
unfolding checksum_valid
first_csum_bad cpu is_v6 head iph_len proto num_merged known_invalid =
    if num_merged == 0
    then (if known_invalid
        then ok true
        else (do valid ← checksum_valid cpu head iph_len proto is_v6; ok (not valid)))
    else ok false

-- The last tests of `tcp_packets_can_coalesce`: the sequence numbers.
unfoldable pub tcp_seq_can_coalesce :
    List ℕ → ℕ → ℕ → ℕ → Bool → ℕ → TcpGroItem → Outcome CanCoalesce
tcp_seq_can_coalesce pkt_target iph_len tcph_len seq psh_set gso_size item =
    let lhs_len = item.gso_size + item.num_merged * item.gso_size in
    if seq == as_u32 (item.sent_seq + as_u32 lhs_len)
    then (if item.psh_set then ok unavailable else (do
      payload ← slice_from pkt_target (iph_len + tcph_len)
      over ← remainder (length payload) item.gso_size
      ok (
          if not (over == 0)
          then unavailable
          else (if ltb item.gso_size gso_size then unavailable else can_append))))
    else (if as_u32 (seq + gso_size) == item.sent_seq
        then ok (
            if psh_set
            then unavailable
            else (if ltb gso_size item.gso_size
                then unavailable
                else (if ltb item.gso_size gso_size && ltb 0 item.num_merged
                    then unavailable
                    else can_prepend)))
        else ok unavailable)

-- `tcph_len > 20 && options differ`.
unfoldable pub tcp_options_differ : List ℕ → ℕ → ℕ → TcpGroItem → List ℕ → Outcome Bool
tcp_options_differ pkt iph_len tcph_len item pkt_target =
    if ltb 20 tcph_len
    then (do
      mine ← slice pkt (iph_len + 20) (iph_len + tcph_len)
      theirs ← slice pkt_target (item.iph_len + 20) (item.iph_len + tcph_len)
      ok (not (bytes_eq mine theirs)))
    else ok false

module _ {B : Type 0} (e : ExpandBuffer B) (bufs_offset : ℕ) where
  -- `&bufs[index].as_ref()[bufs_offset..]`.
  unfoldable pub packet_at : List B → ℕ → Outcome (List ℕ)
  packet_at bufs index = do b ← nth bufs index; slice_from (e.as_ref b) bufs_offset

  unfoldable pub udp_packets_can_coalesce :
      List ℕ → ℕ → ℕ → UdpGroItem → List B → Outcome CanCoalesce
  unfolding packet_at
  udp_packets_can_coalesce pkt iph_len gso_size item bufs = do
    pkt_target ← packet_at bufs item.bufs_index
    if not (ip_headers_can_coalesce pkt pkt_target) then ok unavailable else (do
      payload ← slice_from pkt_target (iph_len + udp_h_len)
      over ← remainder (length payload) item.gso_size
      ok (
          if not (over == 0)
          then unavailable
          else (if ltb item.gso_size gso_size then unavailable else can_append)))

  unfoldable pub tcp_packets_can_coalesce :
      List ℕ → ℕ → ℕ → ℕ → Bool → ℕ → TcpGroItem → List B → Outcome CanCoalesce
  unfolding packet_at tcp_options_differ tcp_seq_can_coalesce
  tcp_packets_can_coalesce pkt iph_len tcph_len seq psh_set gso_size item bufs = do
    pkt_target ← packet_at bufs item.bufs_index
    if not (tcph_len == item.tcph_len) then ok unavailable else (do
      differ ← tcp_options_differ pkt iph_len tcph_len item pkt_target
      if differ || not (ip_headers_can_coalesce pkt pkt_target)
          then ok unavailable
          else tcp_seq_can_coalesce pkt_target iph_len tcph_len seq psh_set gso_size item)

  module _ (cpu : CpuFeatures) (is_v6 : Bool) where
    unfoldable pub coalesce_udp_packets :
        List ℕ → UdpGroItem → List B → Outcome (Merged B UdpGroItem)
    unfolding first_csum_bad checksum_valid
    coalesce_udp_packets pkt item bufs = do
      let refuse : CoalesceResult → Outcome (Merged B UdpGroItem) =
          λ result. ok (record { result = result; item = item; bufs = bufs })
      buf ← nth bufs item.bufs_index
      let headers_len = item.iph_len + udp_h_len
      head ← slice_from (e.as_ref buf) bufs_offset
      let coalesced_len = sub64 (length head + length pkt) headers_len
      if ltb (e.buf_capacity buf) (add64 (bufs_offset * 2) coalesced_len)
          then refuse insufficient_cap
          else (do
            bad ←
                first_csum_bad cpu is_v6 head item.iph_len ipproto_udp item.num_merged
                  item.c_sum_known_invalid
            if bad then refuse item_invalid_csum else (do
              pkt_valid ← checksum_valid cpu pkt item.iph_len ipproto_udp is_v6
              if not pkt_valid then refuse pkt_invalid_csum else (do
                payload ← slice_from pkt headers_len
                ok (record {
                  result = success;
                  item = record item { num_merged = as_u16 (item.num_merged + 1) };
                  bufs = set bufs item.bufs_index (e.buf_extend_from_slice buf payload);
                }))))
