-- ===== src/Gso/Whole.antt =====
-- `gso_split` from end to end.
use tun_rs.Base.{
  ℕ, subst, ◌+◌, ◌*◌, ◌≤◌, ◌<◌, ◌⊎◌, ◌≡◌, ◌≢◌, ◌∙◌, Bool, if◌then◌else◌, List, length, drop,
  Outcome, ok, panic, arith,
}
use tun_rs.Checksum.{CpuFeatures}
use tun_rs.Virtio.{VirtioNetHdr}
use tun_rs.Gso.{Split, segments, gso_split, is_tcp, transport_csum_at}
use tun_rs.Gso.Loop.{
  AllBytes, AllRoom, Holds, segments-Done, segments-ne-panic, Holds-rounds, payloads,
  Holds-payloads,
}
use tun_rs.Gso.Start.{
  IsSplittable, planned, plan_split_ok, planned-IsPlan, cleared-length, cleared-payload,
}

module _ (cpu : CpuFeatures) (input : List ℕ) (hdr : VirtioNetHdr) (out_bufs : List (List ℕ))
    (sizes : List ℕ) (out_offset : ℕ) (is_v6 : Bool) where
  -- `result` is a normal return that cut the payload of `input` into segments.
  pub record Splits (result : Outcome Split) : Type 0 where
    pub split : Split
    pub returns : result ≡ ok split
    pub enough : length input ≤ hdr.hdr_len + split.count * hdr.gso_size
    pub no_more :
        (hdr.hdr_len + split.count * hdr.gso_size < length input + hdr.gso_size) ⊎ (split.count ≡ 0)
    pub segments_hold :
        Holds cpu
          (planned input hdr is_v6)
          out_offset
          split.count
          0
          hdr.hdr_len
          split.out_bufs
          split.sizes
    pub whole_payload :
        payloads cpu (planned input hdr is_v6) out_offset split.count split.out_bufs split.sizes
        ≡ drop hdr.hdr_len input

  module _ (s : IsSplittable input hdr is_v6) (bytes : AllBytes out_bufs)
      (enough_sizes : length out_bufs ≤ length sizes) where
    enters :
        length out_bufs ≤ 65535
        → gso_split cpu input hdr out_bufs sizes out_offset is_v6
          ≡ segments cpu (planned input hdr is_v6) out_offset out_bufs sizes 0 hdr.hdr_len
    unfolding gso_split
    enters few = rw (plan_split_ok input hdr is_v6 s) (ground arith)

    -- For a well-formed TCP or UDP packet of either IP version (`IsSplittable`), at most 65535 output
    -- buffers of bytes that have room for a segment of full size behind the offset and can hold the
    -- whole payload together, and a size for each buffer, `gso_split` succeeds. Each buffer up to the
    -- count holds behind the offset one right segment (`IsSegment`) of the next piece of the payload,
    -- and its size is that segment's length; the payloads of the segments, joined, are the payload of
    -- the input; and there are no more segments than it needs.
    pub gso_split-Splits :
        length out_bufs ≤ 65535
        → AllRoom (out_offset + hdr.hdr_len + hdr.gso_size) out_bufs
        → length input ≤ hdr.hdr_len + length out_bufs * hdr.gso_size
        → Splits (gso_split cpu input hdr out_bufs sizes out_offset is_v6)
    gso_split-Splits few room fits =
        let plan = planned input hdr is_v6 in
        let size = cleared-length input hdr is_v6 in
        let done =
          segments-Done cpu plan out_offset (planned-IsPlan input hdr is_v6 s) out_bufs sizes 0
            hdr.hdr_len bytes room enough_sizes (omega arith) in
        let rounds : done.rounds ≡ done.split.count = omega (arith, done.counted) in
        let holds =
          subst
            (λ n. Holds cpu plan out_offset n 0 hdr.hdr_len done.split.out_bufs done.split.sizes)
            rounds done.holds in
        let bounds =
          Holds-rounds cpu plan out_offset done.split.count 0 hdr.hdr_len done.split.out_bufs
            done.split.sizes holds in
        record {
          split = done.split;
          returns = enters few ∙ done.returns;
          enough = omega arith;
          no_more = omega arith;
          segments_hold = holds;
          whole_payload =
              Holds-payloads cpu plan out_offset done.split.count 0 hdr.hdr_len done.split.out_bufs
                done.split.sizes holds
              ∙ cleared-payload input hdr is_v6 s;
        }

    -- On a well-formed packet (`IsSplittable`), with a size for each output buffer and bytes in them,
    -- `gso_split` does not panic, whatever the number and the room of the buffers and the offset.
    pub gso_split-ne-panic : gso_split cpu input hdr out_bufs sizes out_offset is_v6 ≢ panic
    unfolding gso_split
    gso_split-ne-panic = ground (
      arith,
      plan_split_ok input hdr is_v6 s,
      segments-ne-panic cpu (planned input hdr is_v6) out_offset (planned-IsPlan input hdr is_v6 s)
          out_bufs sizes 0 hdr.hdr_len bytes enough_sizes,
    )

-- When `gso_split` succeeds, on whatever input, there was a size for each of at most 65535 buffers, the
-- segment size was positive, the IP header fits before `csum_start`, the transport header between
-- `csum_start` and `hdr_len`, these headers inside the input, and so did the checksum field.
pub gso_split-checked :
    (cpu : CpuFeatures) (input : List ℕ) (hdr : VirtioNetHdr) (out_bufs : List (List ℕ))
    (sizes : List ℕ) (out_offset : ℕ) (is_v6 : Bool) {split : Split}
    → gso_split cpu input hdr out_bufs sizes out_offset is_v6 ≡ ok split
    → (length out_bufs ≤ length sizes)
      × (length out_bufs ≤ 65535)
      × (0 < hdr.gso_size)
      × (hdr.csum_start ≤ hdr.hdr_len)
      × ((if is_v6 then 40 else 20) ≤ hdr.csum_start)
      × (hdr.hdr_len ≤ length input)
      × (transport_csum_at hdr + 1 < length input)
      × (hdr.csum_start + (if is_tcp hdr then 20 else 8) ≤ hdr.hdr_len)
unfolding gso_split
gso_split-checked cpu input hdr out_bufs sizes out_offset is_v6 e = ground arith
