-- ===== src/Gso/Transport.antt =====
-- The TCP or UDP header of a segment: what `patch_transport` writes and what it leaves alone.
use tun_rs.Base.{
  ℕ, subst, ◌+◌, ◌-◌, ◌*◌, ◌%◌, ◌/◌, ◌≤◌, ◌<◌, ◌⊎◌, inl, inr, ◌≡◌, sym, ◌∙◌, ◌==◌, Bool-cases, List,
  [], ◌∷◌, length, get_or, put, be16_at, be32_at, be16_bytes, be32_bytes, as_u16, as_u32, bit_and,
  IsBytes, Outcome, ok, arith, length-put, write_at_ok, write_u16_ok, write_u32_ok, at_ok,
}
use tun_rs.Base.Bits.{bit_and-le}
use tun_rs.Base.Bytes.{IsBytes-get_or, be16_bytes-IsBytes, be32_bytes-IsBytes}
use tun_rs.Base.Put.{get_or-put_pair, get_or-put_quad, get_or-put_outside}
use tun_rs.Gso.{Plan, patch_transport, ipproto_tcp, ipproto_udp, keep_flags, tcp_flags_offset}
use tun_rs.Gso.Changes.{Changes, Changes-put, Changes-trans}

-- A TCP header of at least 20 bytes with its checksum at 16, or a UDP header with its checksum at 6.
abbrev pub HasTransport : Plan → Type 0
HasTransport plan =
    (plan.protocol ≡ ipproto_tcp)
      × (plan.hdr.csum_start + 20 ≤ plan.hdr.hdr_len)
      × (plan.hdr.csum_offset ≡ 16)
    ⊎ (plan.protocol ≡ ipproto_udp)
      × (plan.hdr.csum_start + 8 ≤ plan.hdr.hdr_len)
      × (plan.hdr.csum_offset ≡ 6)

-- The sequence number of segment `i`.
abbrev pub segment_seq : Plan → ℕ → ℕ
segment_seq plan i = as_u32 (plan.first_tcp_seq_num + as_u32 (plan.hdr.gso_size * i))

-- `out'` differs from `out` only in the transport header, and not in the checksum field at `o`.
pub record TransportPatched (plan : Plan) (i data_len o : ℕ) (out : List ℕ)
    (result : Outcome (List ℕ)) : Type 0 where
  pub out' : List ℕ
  pub returns : result ≡ ok out'
  pub changes : Changes plan.hdr.csum_start plan.hdr.hdr_len out out'
  pub field0 : get_or out' (plan.hdr.csum_start + o) 0 ≡ get_or out (plan.hdr.csum_start + o) 0
  pub field1 :
      get_or out' (plan.hdr.csum_start + o + 1) 0 ≡ get_or out (plan.hdr.csum_start + o + 1) 0
  pub numbered :
      plan.protocol ≡ ipproto_tcp → be32_at out' (plan.hdr.csum_start + 4) ≡ segment_seq plan i
  pub measured :
      plan.protocol ≡ ipproto_udp
      → be16_at out' (plan.hdr.csum_start + 4)
        ≡ as_u16 (data_len + (plan.hdr.hdr_len - plan.hdr.csum_start))

module _ (plan : Plan) (i data_len until : ℕ) (out : List ℕ) (bytes : IsBytes out)
    (fits : plan.hdr.hdr_len ≤ length out) where
  open plan.hdr use {csum_start as c, hdr_len as h}

  patch_udp :
      plan.protocol ≡ ipproto_udp
      → c + 8 ≤ h
      → TransportPatched plan i data_len 6 out (patch_transport plan i data_len until out)
  unfolding patch_transport
  patch_udp udp room =
      let v = as_u16 (data_len + (h - c)) in
      record {
        out' = put out (c + 4) (be16_bytes v);
        returns = rw (udp, write_u16_ok out (c + 4) v (omega arith));
        changes =
            Changes-put c h (c + 4) out (be16_bytes v) (omega arith) (omega arith)
              (be16_bytes-IsBytes v);
        field0 = get_or-put_outside out (c + 4) (be16_bytes v) (c + 6) 0 (omega arith);
        field1 = get_or-put_outside out (c + 4) (be16_bytes v) (c + 6 + 1) 0 (omega arith);
        numbered = λ tcp. absurd (omega arith);
        measured = λ _.
            omega (arith, get_or-put_pair out (c + 4) (v / 256 % 256) (v % 256) 0 (omega arith));
      }

  abbrev sequenced : List ℕ
  sequenced = put out (c + 4) (be32_bytes (segment_seq plan i))

  abbrev masked : ℕ
  masked = bit_and (get_or sequenced (c + tcp_flags_offset) 0) keep_flags

  patch_tcp :
      plan.protocol ≡ ipproto_tcp
      → c + 20 ≤ h
      → TransportPatched plan i data_len 16 out (patch_transport plan i data_len until out)
  unfolding patch_transport
  patch_tcp tcp room =
      let v = segment_seq plan i in
      let size = length-put out (c + 4) (be32_bytes v) in
      let first =
        Changes-put c h (c + 4) out (be32_bytes v) (omega arith) (omega arith)
          (be32_bytes-IsBytes v) in
      let wrote = write_u32_ok out (c + 4) v (omega arith) in
      let kept = λ (j : ℕ) (p : c + 8 ≤ j).
        get_or-put_outside out (c + 4) (be32_bytes v) j 0 (omega arith) in
      let quad =
        get_or-put_quad out (c + 4) (v / 16777216 % 256) (v / 65536 % 256) (v / 256 % 256) (v % 256)
          0 (omega arith) in
      let seq : be32_at sequenced (c + 4) ≡ v = omega (arith, quad.0, quad.1, quad.2, quad.3) in
      let masked_away = λ (j : ℕ) (p : j < c + 13).
        get_or-put_outside sequenced (c + tcp_flags_offset) (masked ∷ []) j 0 (omega arith) in
      elim (Bool-cases (until == length plan.input)) [
        | inl last ↦ record {
          out' = sequenced;
          returns = rw (tcp, wrote, last);
          changes = first;
          field0 = kept (c + 16) (omega arith);
          field1 = kept (c + 16 + 1) (omega arith);
          numbered = λ _. seq;
          measured = λ udp. absurd (omega arith);
        }
        | inr more ↦
            let flag : IsBytes (masked ∷ []) = (
              omega (
                arith,
                bit_and-le (get_or sequenced (c + tcp_flags_offset) 0) keep_flags,
                IsBytes-get_or sequenced (c + tcp_flags_offset) (first.bytes bytes),
              ),
              tt,
            ) in
            record {
              out' = put sequenced (c + tcp_flags_offset) (masked ∷ []);
              returns = rw (
                tcp,
                wrote,
                more,
                at_ok sequenced (c + tcp_flags_offset) (omega arith),
                write_at_ok sequenced (c + tcp_flags_offset) masked (omega arith),
              );
              changes = Changes-trans first (
                  Changes-put c h (c + tcp_flags_offset) sequenced (masked ∷ []) (omega arith)
                    (omega arith) flag);
              field0 =
                  get_or-put_outside sequenced (c + tcp_flags_offset) (masked ∷ []) (c + 16) 0
                    (omega arith)
                  ∙ kept (c + 16) (omega arith);
              field1 =
                  get_or-put_outside sequenced (c + tcp_flags_offset) (masked ∷ []) (c + 16 + 1) 0
                    (omega arith)
                  ∙ kept (c + 16 + 1) (omega arith);
              numbered = λ _. omega (
                arith,
                seq,
                masked_away (c + 4) (omega arith),
                masked_away (c + 4 + 1) (omega arith),
                masked_away (c + 4 + 2) (omega arith),
                masked_away (c + 4 + 3) (omega arith),
              );
              measured = λ udp. absurd (omega arith);
            }
      ]

-- On a buffer of bytes that holds the headers, `patch_transport` succeeds, for TCP with a header of at
-- least 20 bytes and for UDP with one of at least 8, and leaves alone the checksum field, the bytes in
-- front of the header and those behind it.
pub patch_transport-TransportPatched :
    (plan : Plan) (i data_len until : ℕ) (out : List ℕ)
    → IsBytes out
    → plan.hdr.hdr_len ≤ length out
    → HasTransport plan
    → TransportPatched plan i data_len plan.hdr.csum_offset out
        (patch_transport plan i data_len until out)
patch_transport-TransportPatched plan i data_len until out bytes fits (inl (tcp, room, o)) =
    subst (λ k. TransportPatched plan i data_len k out (patch_transport plan i data_len until out))
      (sym o) (patch_tcp plan i data_len until out bytes fits tcp room)
patch_transport-TransportPatched plan i data_len until out bytes fits (inr (udp, room, o)) =
    subst (λ k. TransportPatched plan i data_len k out (patch_transport plan i data_len until out))
      (sym o) (patch_udp plan i data_len until out bytes fits udp room)
