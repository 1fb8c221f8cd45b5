-- ===== src/Gro/TcpMerge.antt =====
-- src/platform/linux/offload.rs: `coalesce_tcp_packets`, which joins a TCP packet to the packet of an
-- item, behind it or before it.
pub mod Joined
use tun_rs.Base.{
  ℕ, ◌+◌, ◌*◌, Bool, true, false, not, ◌&&◌, List, ltb, if◌then◌else◌, length, set, add64, sub64,
  as_u16, as_u8, bit_or, Outcome, ok, ◌>>=◌, at, slice, slice_from, write, write_at,
}
use tun_rs.Checksum.{CpuFeatures}
use tun_rs.Gso.{tcp_flags_offset, ipproto_tcp}
use tun_rs.Gro.{
  ExpandBuffer, CanCoalesce, can_prepend, can_append, unavailable, CoalesceResult, insufficient_cap,
  psh_ending, item_invalid_csum, pkt_invalid_csum, success, nth, tcp_flag_psh,
}
use tun_rs.Gro.Flow.{TcpGroItem}
use tun_rs.Gro.Merge.{Merged, checksum_valid, first_csum_bad}

-- `mode == CanCoalesce::Prepend`.
abbrev pub is_prepend : CanCoalesce → Bool
is_prepend can_prepend = true
is_prepend unavailable = false
is_prepend can_append = false

-- `bufs.swap(i, j)`.
unfoldable pub swap {ℓ} : {A : Type ℓ} → List A → ℕ → ℕ → Outcome (List A)
swap bufs i j = do a ← nth bufs i; b ← nth bufs j; ok (set (set bufs i b) j a)

module _ {B : Type 0} (e : ExpandBuffer B) (bufs_offset : ℕ) where
  -- The copy of a prepend: `pkt`'s buffer grows by the payload of the item's, and the two change places.
  unfoldable pub prepend_payload : List B → ℕ → ℕ → ℕ → ℕ → ℕ → Outcome (List B)
  unfolding swap
  prepend_payload bufs item_index pkt_bufs_index pkt_len headers_len extend_by = do
    pkt_buf ← nth bufs pkt_bufs_index
    let grown = e.buf_resize pkt_buf (length (e.as_ref pkt_buf) + extend_by) 0
    let bufs1 = set bufs pkt_bufs_index grown
    item_buf ← nth bufs1 item_index
    src ←
        slice (e.as_ref item_buf) (bufs_offset + headers_len)
          (bufs_offset + headers_len + extend_by)
    filled ← write (e.as_ref grown) (bufs_offset + pkt_len) src
    swap (set bufs1 pkt_bufs_index (e.as_mut grown filled)) item_index pkt_bufs_index

  -- The copy of an append, with the PSH flag of the packet.
  unfoldable pub append_payload : List B → TcpGroItem → Bool → List ℕ → Outcome (List B)
  append_payload bufs item psh_set payload = do
    buf ← nth bufs item.bufs_index
    flagged ←
        (if psh_set
          then (do
            flags ← at (e.as_ref buf) (bufs_offset + item.iph_len + tcp_flags_offset)
            out ←
                write_at (e.as_ref buf) (bufs_offset + item.iph_len + tcp_flags_offset)
                  (bit_or flags tcp_flag_psh)
            ok (e.as_mut buf out))
          else ok buf)
    ok (set bufs item.bufs_index (e.buf_extend_from_slice flagged payload))

  -- The bookkeeping at the end.
  abbrev pub count_merge : TcpGroItem → ℕ → TcpGroItem
  count_merge item gso_size = record item {
    gso_size = if ltb item.gso_size gso_size then gso_size else item.gso_size;
    num_merged = as_u16 (item.num_merged + 1);
  }

  module _ (cpu : CpuFeatures) (is_v6 : Bool) where
    unfoldable pub coalesce_tcp_packets :
        CanCoalesce
        → List ℕ
        → ℕ
        → ℕ
        → ℕ
        → Bool
        → TcpGroItem
        → List B
        → Outcome (Merged B TcpGroItem)
    unfolding prepend_payload append_payload
    coalesce_tcp_packets mode pkt pkt_bufs_index gso_size seq psh_set item bufs = do
      let refuse : CoalesceResult → Outcome (Merged B TcpGroItem) =
          λ result. ok (record { result = result; item = item; bufs = bufs })
      let headers_len = as_u8 (item.iph_len + item.tcph_len)
      item_buf ← nth bufs item.bufs_index
      head ← slice_from (e.as_ref item_buf) bufs_offset
      let coalesced_len = sub64 (length head + length pkt) headers_len
      let prepend = is_prepend mode
      target ← nth bufs (if prepend then pkt_bufs_index else item.bufs_index)
      if ltb (e.buf_capacity target) (add64 (2 * bufs_offset) coalesced_len)
          then refuse insufficient_cap
          else (if prepend && psh_set then refuse psh_ending else (do
            bad ← first_csum_bad cpu is_v6 head item.iph_len ipproto_tcp item.num_merged false
            if bad then refuse item_invalid_csum else (do
              pkt_valid ← checksum_valid cpu pkt item.iph_len ipproto_tcp is_v6
              if not pkt_valid
                  then refuse pkt_invalid_csum
                  else (if prepend
                      then (do
                        moved ←
                            prepend_payload bufs item.bufs_index pkt_bufs_index (length pkt)
                              headers_len (sub64 coalesced_len (length pkt))
                        ok (record {
                          result = success;
                          item = count_merge (record item { sent_seq = seq }) gso_size;
                          bufs = moved;
                        }))
                      else (do
                        payload ← slice_from pkt headers_len
                        longer ← append_payload bufs item psh_set payload
                        ok (record {
                          result = success;
                          item =
                              count_merge
                                (record item { psh_set = if psh_set then true else item.psh_set })
                                gso_size;
                          bufs = longer;
                        }))))))
