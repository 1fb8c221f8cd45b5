-- ===== src/Gso.antt =====
-- src/platform/linux/offload.rs: segmentation of one large packet (`gso_split`) and the checksum of a
-- packet that is not segmented (`gso_none_checksum`). Both write into buffers that the caller owns:
-- here they return what those hold afterwards. What they hold after an error is not kept.
pub mod Plain
pub mod Changes
pub mod IpHeader
pub mod Transport
pub mod Pseudo
pub mod SegmentSpec
pub mod Segment
pub mod Loop
pub mod Start
pub mod Whole
pub mod Tests
use tun_rs.Base.{
  ℕ, zero, suc, ◌+◌, ◌-◌, ◌*◌, ◌/◌, ◌%◌, min, Bool, true, false, not, ◌&&◌, ◌||◌, List, [], ◌∷◌,
  ◌++◌, ltb, leb, ◌==◌, if◌then◌else◌, length, take, drop, get_or, put, as_u16, as_u32, not16,
  bit_and, Outcome, ok, err, panic, ◌>>=◌, ◌>>◌, fail_if, at, slice, slice_from, write, write_at,
  read_u16, read_u32, write_u16, write_u32, sizes_too_short, too_many_buffers, zero_gso_size,
  hdr_len_below_csum_start, csum_start_below_ip_header, input_below_hdr_len, ip_packet_too_short,
  csum_past_input, tcp_header_too_short, udp_header_too_short, addresses_past_input,
  too_many_segments, output_buffer_too_small,
}
use tun_rs.Checksum.{CpuFeatures, checksum, pseudo_header_checksum_no_fold}
use tun_rs.Virtio.{VirtioNetHdr, virtio_net_hdr_gso_tcpv4, virtio_net_hdr_gso_tcpv6}

abbrev pub tcp_flags_offset : ℕ
tcp_flags_offset = 13

abbrev pub udp_h_len : ℕ
udp_h_len = 8

abbrev pub ipproto_tcp : ℕ
ipproto_tcp = 6

abbrev pub ipproto_udp : ℕ
ipproto_udp = 17

-- `!(TCP_FLAG_FIN | TCP_FLAG_PSH)`.
abbrev pub keep_flags : ℕ
keep_flags = 0xf6

-- Where the source address stands and how long an address is.
abbrev pub src_addr_offset : Bool → ℕ
src_addr_offset is_v6 = if is_v6 then 8 else 12

abbrev pub addr_len : Bool → ℕ
addr_len is_v6 = if is_v6 then 16 else 4

-- `(hdr.csum_start + hdr.csum_offset) as usize`, the sum in `u16`.
abbrev pub transport_csum_at : VirtioNetHdr → ℕ
transport_csum_at hdr = as_u16 (hdr.csum_start + hdr.csum_offset)

abbrev pub is_tcp : VirtioNetHdr → Bool
is_tcp hdr = hdr.gso_type == virtio_net_hdr_gso_tcpv4 || hdr.gso_type == virtio_net_hdr_gso_tcpv6

-- What `gso_split` computes before its loop and the loop reads.
pub record Plan : Type 0 where
  pub hdr : VirtioNetHdr
  pub is_v6 : Bool
  pub input : List ℕ
  pub first_tcp_seq_num : ℕ
  pub protocol : ℕ

-- What `gso_split` leaves behind when it succeeds.
pub record Split : Type 0 where
  pub input : List ℕ
  pub out_bufs : List (List ℕ)
  pub sizes : List ℕ
  pub count : ℕ

-- The checks of `gso_split` up to the addresses, and the fields that it clears.
pub plan_split : List ℕ → VirtioNetHdr → Bool → Outcome Plan
plan_split input hdr is_v6 = do
  fail_if (hdr.gso_size == 0) zero_gso_size
  fail_if (ltb hdr.hdr_len hdr.csum_start) hdr_len_below_csum_start
  fail_if (ltb hdr.csum_start (if is_v6 then 40 else 20)) csum_start_below_ip_header
  fail_if (ltb (length input) hdr.hdr_len) input_below_hdr_len
  fail_if (ltb (length input) (if is_v6 then 40 else 20)) ip_packet_too_short
  let cleared = if is_v6 then input else put input 10 (0 ∷ 0 ∷ [])
  fail_if (leb (length input) (transport_csum_at hdr + 1)) csum_past_input
  let ready = put cleared (transport_csum_at hdr) (0 ∷ 0 ∷ [])
  fail_if
      (is_tcp hdr
        && (ltb hdr.hdr_len (hdr.csum_start + 20)
            || ltb (length input) (hdr.csum_start + tcp_flags_offset + 1)))
      tcp_header_too_short
  fail_if (not (is_tcp hdr) && ltb hdr.hdr_len (hdr.csum_start + udp_h_len)) udp_header_too_short
  seq ← (if is_tcp hdr then read_u32 ready (hdr.csum_start + 4) else ok 0)
  fail_if (ltb (length input) (src_addr_offset is_v6 + 2 * addr_len is_v6)) addresses_past_input
  ok (record {
    hdr = hdr;
    is_v6 = is_v6;
    input = ready;
    first_tcp_seq_num = seq;
    protocol = if is_tcp hdr then ipproto_tcp else ipproto_udp;
  })

-- The identification of segment `i`, behind the first.
pub bump_id : ℕ → List ℕ → Outcome (List ℕ)
bump_id i out =
    if ltb 0 i then (do id ← read_u16 out 4; write_u16 out 4 (as_u16 (id + as_u16 i))) else ok out

-- The TCP or UDP header of segment `i`, which ends at `next_segment_end` of the input.
pub patch_transport : Plan → ℕ → ℕ → ℕ → List ℕ → Outcome (List ℕ)
patch_transport plan i data_len next_segment_end out =
    let start = plan.hdr.csum_start in
    if plan.protocol == ipproto_tcp
    then (do
      out1 ←
          write_u32 out (start + 4)
            (as_u32 (plan.first_tcp_seq_num + as_u32 (plan.hdr.gso_size * i)))
      if next_segment_end == length plan.input then ok out1 else (do
        flags ← at out1 (start + tcp_flags_offset)
        write_at out1 (start + tcp_flags_offset) (bit_and flags keep_flags)))
    else write_u16 out (start + 4) (as_u16 (data_len + (plan.hdr.hdr_len - start)))

module _ (cpu : CpuFeatures) where
  -- The pseudo-header of a segment with that much transport data.
  pub segment_pseudo : Plan → ℕ → Outcome ℕ
  segment_pseudo plan data_len = do
    let from = src_addr_offset plan.is_v6
    let len = addr_len plan.is_v6
    src ← slice plan.input from (from + len)
    dst ← slice plan.input (from + len) (from + 2 * len)
    let transport_header_len = plan.hdr.hdr_len - plan.hdr.csum_start
    ok (
        pseudo_header_checksum_no_fold cpu plan.protocol src dst
          (as_u16 (transport_header_len + data_len)))

  -- The IP header of segment `i` in its output buffer.
  pub patch_ip : Plan → ℕ → ℕ → List ℕ → Outcome (List ℕ)
  unfolding bump_id
  patch_ip plan i total_len out =
      if plan.is_v6 then write_u16 out 4 (as_u16 (total_len - 40)) else (do
        out1 ← bump_id i out
        out2 ← write_u16 out1 2 (as_u16 total_len)
        iph ← slice out2 0 plan.hdr.csum_start
        write_u16 out2 10 (not16 (checksum cpu iph 0)))

  -- The body of the loop from `let out = …` on: one segment into one output slice.
  pub fill_segment : Plan → ℕ → ℕ → ℕ → List ℕ → Outcome (List ℕ)
  unfolding segment_pseudo patch_ip patch_transport
  fill_segment plan i from until out = do
    let hdr = plan.hdr
    let data_len = until - from
    let total_len = hdr.hdr_len + data_len
    pseudo ← segment_pseudo plan data_len
    iph ← slice plan.input 0 hdr.csum_start
    out1 ← write out 0 iph
    out2 ← patch_ip plan i total_len out1
    transport ← slice plan.input hdr.csum_start hdr.hdr_len
    out3 ← write out2 hdr.csum_start transport
    out4 ← patch_transport plan i data_len until out3
    payload ← slice plan.input from until
    out5 ← write out4 hdr.hdr_len payload
    covered ← slice out5 hdr.csum_start total_len
    write_u16 out5 (transport_csum_at hdr) (not16 (checksum cpu covered pseudo))

  -- `while next_segment_data_at < input.len()`, with the output buffers and the sizes from index `i` on.
  pub segments : Plan → ℕ → List (List ℕ) → List ℕ → ℕ → ℕ → Outcome Split
  unfolding fill_segment
  segments plan out_offset [] sizes i from =
      if ltb from (length plan.input)
      then err too_many_segments
      else ok (record { input = plan.input; out_bufs = []; sizes = sizes; count = i })
  segments plan out_offset (buf ∷ bufs) [] i from =
      if ltb from (length plan.input)
      then panic
      else ok (record { input = plan.input; out_bufs = buf ∷ bufs; sizes = []; count = i })
  segments plan out_offset (buf ∷ bufs) (size ∷ sizes) i from =
      let until = min (from + plan.hdr.gso_size) (length plan.input) in
      let total_len = plan.hdr.hdr_len + (until - from) in
      let rest = segments plan out_offset bufs sizes (i + 1) (from + plan.hdr.gso_size) in
      if ltb from (length plan.input)
      then (do
        fail_if (ltb (length buf) out_offset || ltb (length buf - out_offset) total_len)
            output_buffer_too_small
        out ← fill_segment plan i from until (drop out_offset buf)
        later ← rest
        ok (record later {
          out_bufs = (take out_offset buf ++ out) ∷ later.out_bufs;
          sizes = total_len ∷ later.sizes;
        }))
      else ok
          (record { input = plan.input; out_bufs = buf ∷ bufs; sizes = size ∷ sizes; count = i })

  unfoldable pub gso_split :
      List ℕ → VirtioNetHdr → List (List ℕ) → List ℕ → ℕ → Bool → Outcome Split
  unfolding plan_split segments
  gso_split input hdr out_bufs sizes out_offset is_v6 = do
    fail_if (ltb (length sizes) (length out_bufs)) sizes_too_short
    fail_if (ltb 65535 (length out_bufs)) too_many_buffers
    plan ← plan_split input hdr is_v6
    segments plan out_offset out_bufs sizes 0 hdr.hdr_len

  -- `gso_none_checksum`, which returns the packet that it leaves.
  pub gso_none_checksum : List ℕ → ℕ → ℕ → Outcome (List ℕ)
  gso_none_checksum in_buf csum_start csum_offset = do
    let csum_at = as_u16 (csum_start + csum_offset)
    initial ← read_u16 in_buf csum_at
    buf1 ← write_at in_buf csum_at 0
    buf2 ← write_at buf1 (csum_at + 1) 0
    covered ← slice_from buf2 csum_start
    write_u16 buf2 csum_at (not16 (checksum cpu covered initial))
