-- ===== src/Gso/Segment.antt =====
-- One segment of `gso_split`: what `fill_segment` leaves in an output buffer.
use tun_rs.Base.{
  ℕ, subst, ◌+◌, ◌-◌, ◌%◌, ◌≤◌, ◌<◌, ◌≡◌, ap, ◌∙◌, List, length, get_or, take, drop, put,
  be16_bytes, not16, IsBytes, ok, arith, length-put, length-drop, length-take, get_or-take,
  get_or-drop, write_ok, write_u16_ok, slice_ok, slice_front_ok,
}
use tun_rs.Base.Bytes.{IsBytes-put, IsBytes-drop, IsBytes-take}
use tun_rs.Base.Put.{
  drop-put, drop-put_below, take-put, take-put_inside, get_or-put_outside, get_or-put_inside,
  take-drop-put,
}
use tun_rs.Checksum.{CpuFeatures, checksum}
use tun_rs.Checksum.Internet.{checksum-put-not16}
use tun_rs.Gso.{Plan, patch_ip, patch_transport, fill_segment, transport_csum_at}
use tun_rs.Gso.Changes.{Changes-weaken}
use tun_rs.Gso.IpHeader.{IpPatched, patch_ip-IpPatched}
use tun_rs.Gso.Transport.{TransportPatched, patch_transport-TransportPatched}
use tun_rs.Gso.Pseudo.{IsPlan, segment_pseudo_sum, segment_pseudo_ok, segment_pseudo-lt}
use tun_rs.Gso.SegmentSpec.{chunk, IsSegment, Fills}

module _ (cpu : CpuFeatures) (plan : Plan) (i from until : ℕ) (out : List ℕ) (v : IsPlan plan)
    (bytes : IsBytes out) (order : from ≤ until) (inside : until ≤ length plan.input)
    (room : plan.hdr.hdr_len + (until - from) ≤ length out) (small : until - from < 65536) where
  open plan.hdr use {csum_start as c, hdr_len as h, csum_offset as o}

  abbrev total : ℕ
  total = h + (until - from)

  abbrev with_ip : List ℕ
  with_ip = put out 0 (take c plan.input)

  -- The header lengths, as numbers.
  ordered : (20 ≤ c) × (c ≤ h) × (c + o + 2 ≤ h) × (6 ≤ o) × (o % 2 ≡ 0)
  ordered = ground arith

  front_length : length (take c plan.input) ≡ c
  front_length = omega (arith, length-take c plan.input, ordered)

  with_ip_field : (j : ℕ) → j < c → get_or with_ip j 0 ≡ get_or plan.input j 0
  with_ip_field j p =
      let zero_off : j - 0 ≡ j = omega arith in
      get_or-put_inside out 0 (take c plan.input) j 0 (omega arith) (omega (arith, front_length))
        (omega (arith, ordered))
      ∙ rw zero_off (get_or-take c j plan.input 0 ∙ ground arith)

  ip : IpPatched cpu plan total with_ip (patch_ip cpu plan i total with_ip)
  ip =
      patch_ip-IpPatched cpu plan i total with_ip
        (IsBytes-put out 0 (take c plan.input) bytes (IsBytes-take c plan.input v.bytes))
        v.ip_header (omega arith) (omega (arith, length-put out 0 (take c plan.input), ordered))
        (λ v4. (
          with_ip_field 10 (omega (arith, ordered)) ∙ (v.ip_clear v4).0,
          with_ip_field 11 (omega (arith, ordered)) ∙ (v.ip_clear v4).1,
        ))

  abbrev header : List ℕ
  header = take (h - c) (drop c plan.input)

  abbrev with_header : List ℕ
  with_header = put ip.out' c header

  header-length : length header ≡ h - c
  header-length =
      omega (arith, length-take (h - c) (drop c plan.input), length-drop c plan.input, ordered)

  with_header-length : length with_header ≡ length out
  with_header-length =
      length-put ip.out' c header ∙ ip.changes.same_length ∙ length-put out 0 (take c plan.input)

  header-IsBytes : IsBytes header
  header-IsBytes = IsBytes-take (h - c) (drop c plan.input) (IsBytes-drop c plan.input v.bytes)

  with_header-IsBytes : IsBytes with_header
  with_header-IsBytes =
      IsBytes-put ip.out' c header
        (ip.changes.bytes
          (IsBytes-put out 0 (take c plan.input) bytes (IsBytes-take c plan.input v.bytes)))
        header-IsBytes

  transport :
      TransportPatched plan i
        (until - from)
        o
        with_header
        (patch_transport plan i (until - from) until with_header)
  transport =
      patch_transport-TransportPatched plan i (until - from) until with_header with_header-IsBytes
        (omega (arith, with_header-length)) v.transport

  abbrev payload : List ℕ
  payload = chunk plan from until

  payload_length : length payload ≡ until - from
  payload_length =
      omega (arith, length-take (until - from) (drop from plan.input), length-drop from plan.input)

  payload-IsBytes : IsBytes payload
  payload-IsBytes =
      IsBytes-take (until - from) (drop from plan.input) (IsBytes-drop from plan.input v.bytes)

  abbrev full : List ℕ
  full = put transport.out' h payload

  full-length : length full ≡ length out
  full-length =
      length-put transport.out' h payload ∙ transport.changes.same_length ∙ with_header-length

  full-IsBytes : IsBytes full
  full-IsBytes =
      IsBytes-put transport.out' h payload (transport.changes.bytes with_header-IsBytes)
        payload-IsBytes

  abbrev covered : List ℕ
  covered = take (total - c) (drop c full)

  covered-IsBytes : IsBytes covered
  covered-IsBytes = IsBytes-take (total - c) (drop c full) (IsBytes-drop c full full-IsBytes)

  covered-length : length covered ≡ total - c
  covered-length =
      omega (arith, length-take (total - c) (drop c full), length-drop c full, full-length, ordered)

  abbrev pseudo : ℕ
  pseudo = segment_pseudo_sum cpu plan (until - from)

  abbrev csum : List ℕ
  csum = be16_bytes (not16 (checksum cpu covered pseudo))

  abbrev sealed : List ℕ
  sealed = put full (c + o) csum

  csum_at : transport_csum_at plan.hdr ≡ c + o
  csum_at = omega (arith, ordered, v.hdr.hdr_len_u16)

  -- The field that the sum leaves out is clear in what the sum covers.
  covered_field :
      (j : ℕ)
      → o ≤ j
      → j ≤ o + 1
      → get_or transport.out' (c + j) 0 ≡ get_or with_header (c + j) 0
      → get_or covered j 0 ≡ get_or plan.input (c + j) 0
  covered_field j p q kept =
      let shift : c + j - c ≡ j = omega arith in
      get_or-take (total - c) j (drop c full) 0
      ∙ ground (arith, ordered)
      ∙ get_or-drop c j full 0
      ∙ get_or-put_outside transport.out' h payload (c + j) 0 (omega (arith, ordered))
      ∙ kept
      ∙ get_or-put_inside ip.out' c header (c + j) 0 (omega arith)
          (omega (arith, header-length, ordered))
          (omega (arith, with_header-length, ordered, length-put ip.out' c header))
      ∙ rw shift (
          get_or-take (h - c) j (drop c plan.input) 0
          ∙ ground (arith, ordered)
          ∙ get_or-drop c j plan.input 0)

  sealed_returns : fill_segment cpu plan i from until out ≡ ok sealed
  unfolding fill_segment
  sealed_returns = rw (
    segment_pseudo_ok cpu plan (until - from) v,
    slice_front_ok plan.input c (omega (arith, ordered, v.headers_fit)),
    write_ok out 0 (take c plan.input) (omega (arith, front_length, ordered)),
    ip.returns,
    slice_ok plan.input c h (omega (arith, ordered)) v.headers_fit,
    write_ok ip.out' c header
        (omega (arith, header-length, with_header-length, length-put ip.out' c header, ordered)),
    transport.returns,
    slice_ok plan.input from until order inside,
    write_ok transport.out' h payload
        (omega (arith, payload_length, full-length, length-put transport.out' h payload)),
    slice_ok full c total (omega (arith, ordered)) (omega (arith, full-length)),
    csum_at,
    write_u16_ok full (c + o) (not16 (checksum cpu covered pseudo))
        (omega (arith, full-length, ordered)),
  )

  sealed_front : take c sealed ≡ take c ip.out'
  sealed_front =
      take-put c (c + o) full csum (omega arith)
      ∙ take-put c h transport.out' payload (omega (arith, ordered))
      ∙ transport.changes.before
      ∙ take-put c c ip.out' header (omega arith)

  sealed_transport : (j : ℕ) → j < c + o → j < h → get_or sealed j 0 ≡ get_or transport.out' j 0
  sealed_transport j p q =
      get_or-put_outside full (c + o) csum j 0 (omega arith)
      ∙ get_or-put_outside transport.out' h payload j 0 (omega arith)

  sealed_ip : (j : ℕ) → j < c → get_or sealed j 0 ≡ get_or ip.out' j 0
  sealed_ip j p =
      sealed_transport j (omega arith) (omega (arith, ordered))
      ∙ transport.changes.outside j (omega arith)
      ∙ get_or-put_outside ip.out' c header j 0 (omega arith)

  sealed_behind : drop total sealed ≡ drop total out
  sealed_behind =
      drop-put_below total (c + o) full csum (omega (arith, ordered))
      ∙ drop-put_below total h transport.out' payload (omega (arith, payload_length))
      ∙ (Changes-weaken total (omega arith) transport.changes).behind
      ∙ drop-put_below total c ip.out' header (omega (arith, header-length, ordered))
      ∙ (Changes-weaken total (omega (arith, ordered)) ip.changes).behind
      ∙ drop-put_below total 0 out (take c plan.input) (omega (arith, front_length, ordered))

  sealed_payload : take (until - from) (drop h sealed) ≡ payload
  sealed_payload =
      ap (take (until - from)) (drop-put_below h (c + o) full csum (omega (arith, ordered)))
      ∙ subst (λ n. take n (drop h full) ≡ payload) payload_length
          (take-drop-put h transport.out' payload
            (omega (arith, payload_length, full-length, length-put transport.out' h payload)))

  sealed_checked : checksum cpu (take (total - c) (drop c sealed)) pseudo ≡ 65535
  sealed_checked =
      let part = drop-put c o full csum in
      let next : c + (o + 1) ≡ c + o + 1 = omega arith in
      rw (part, take-put_inside (total - c) o (drop c full) csum (omega (arith, ordered)))
        (checksum-put-not16 cpu covered o pseudo covered-IsBytes
          (omega
            (arith, covered-length, segment_pseudo-lt cpu plan (until - from) v, v.hdr.hdr_len_u16))
          ordered.4 (omega (arith, covered-length, ordered))
          (covered_field o (omega arith) (omega arith) transport.field0 ∙ v.transport_clear.0)
          (covered_field (o + 1) (omega arith) (omega arith) (rw next transport.field1)
            ∙ rw next v.transport_clear.1))

  sealed-IsSegment : IsSegment cpu plan i from until sealed
  sealed-IsSegment = record {
    payload = sealed_payload;
    transport_checked = sealed_checked;
    ip_checked = λ v4. (
      rw sealed_front (ip.checked v4).0,
      omega (
        arith,
        (ip.checked v4).1,
        sealed_ip 2 (omega (arith, ordered)),
        sealed_ip 3 (omega (arith, ordered)),
      ),
    );
    ip_measured = λ v6. omega (
      arith,
      ip.payload_length v6,
      sealed_ip 4 (omega (arith, ordered)),
      sealed_ip 5 (omega (arith, ordered)),
    );
    numbered = λ tcp. omega (
      arith,
      transport.numbered tcp,
      sealed_transport (c + 4) (ground arith) (ground arith),
      sealed_transport (c + 4 + 1) (ground arith) (ground arith),
      sealed_transport (c + 4 + 2) (ground arith) (ground arith),
      sealed_transport (c + 4 + 3) (ground arith) (ground arith),
    );
    measured = λ udp. omega (
      arith,
      transport.measured udp,
      sealed_transport (c + 4) (ground arith) (ground arith),
      sealed_transport (c + 4 + 1) (ground arith) (ground arith),
    );
  }

  -- For a well-formed plan (`IsPlan`), an output slice of bytes with room for the segment, and a piece
  -- of the input of less than 2 ^ 16 bytes, `fill_segment` succeeds. The slice keeps its length and what
  -- stands behind the segment, and begins with a right segment: the payload is the piece of the input,
  -- the IPv4 header checksum and the transport checksum verify, and the IP length, the UDP length and
  -- the TCP sequence number are those of segment `i`.
  pub fill_segment-Fills : Fills cpu plan i from until out (fill_segment cpu plan i from until out)
  fill_segment-Fills = record {
    out' = sealed;
    returns = sealed_returns;
    same_length = length-put full (c + o) csum ∙ full-length;
    behind = sealed_behind;
    segment = sealed-IsSegment;
  }
