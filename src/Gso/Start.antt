-- ===== src/Gso/Start.antt =====
-- What `gso_split` checks and clears before its loop.
use tun_rs.Base.{
  ℕ, ◌+◌, ◌*◌, ◌≤◌, ◌<◌, ◌⊎◌, inl, inr, ◌≡◌, ◌∙◌, Bool, true, false, if◌then◌else◌, Bool-cases,
  List, [], ◌∷◌, length, get_or, drop, put, be32_at, IsBytes, ok, arith, length-put, read_u32_ok,
}
use tun_rs.Base.Bytes.{IsBytes-put}
use tun_rs.Base.Put.{get_or-put_pair, get_or-put_outside, drop-put_below}
use tun_rs.Virtio.{VirtioNetHdr}
use tun_rs.Virtio.Codec.{IsHdr}
use tun_rs.Gso.{
  Plan, plan_split, is_tcp, transport_csum_at, ipproto_tcp, ipproto_udp, src_addr_offset, addr_len,
}
use tun_rs.Gso.Pseudo.{IsPlan}

-- A packet and a header that can be segmented: the headers lie inside the packet, the transport header
-- has its least size, and the checksum field is where TCP or UDP has it.
pub record IsSplittable (input : List ℕ) (hdr : VirtioNetHdr) (is_v6 : Bool) : Type 0 where
  pub widths : IsHdr hdr
  pub bytes : IsBytes input
  pub positive : 0 < hdr.gso_size
  pub ip_header : (if is_v6 then 40 else 20) ≤ hdr.csum_start
  pub transport :
      (is_tcp hdr ≡ true) × (hdr.csum_start + 20 ≤ hdr.hdr_len) × (hdr.csum_offset ≡ 16)
      ⊎ (is_tcp hdr ≡ false) × (hdr.csum_start + 8 ≤ hdr.hdr_len) × (hdr.csum_offset ≡ 6)
  pub headers_fit : hdr.hdr_len ≤ length input

module _ (input : List ℕ) (hdr : VirtioNetHdr) (is_v6 : Bool) where
  abbrev pub ip_cleared : List ℕ
  ip_cleared = if is_v6 then input else put input 10 (0 ∷ 0 ∷ [])

  abbrev pub cleared : List ℕ
  cleared = put ip_cleared (transport_csum_at hdr) (0 ∷ 0 ∷ [])

  abbrev pub planned : Plan
  planned = record {
    hdr = hdr;
    is_v6 = is_v6;
    input = cleared;
    first_tcp_seq_num = if is_tcp hdr then be32_at cleared (hdr.csum_start + 4) else 0;
    protocol = if is_tcp hdr then ipproto_tcp else ipproto_udp;
  }

  ip_cleared-length : length ip_cleared ≡ length input
  ip_cleared-length = ground (arith, length-put input 10 (0 ∷ 0 ∷ []))

  pub cleared-length : length cleared ≡ length input
  cleared-length = length-put ip_cleared (transport_csum_at hdr) (0 ∷ 0 ∷ []) ∙ ip_cleared-length

  module _ (s : IsSplittable input hdr is_v6) where
    open hdr use {csum_start as c, hdr_len as h, csum_offset as o}

    field_at : transport_csum_at hdr ≡ c + o
    field_at = omega (arith, s.widths.hdr_len_u16, s.transport)

    field_fits : (20 ≤ c) × (c + o + 2 ≤ h) × (6 ≤ o)
    field_fits = ground arith

    room_for_addresses : src_addr_offset is_v6 + 2 * addr_len is_v6 ≤ length input
    room_for_addresses = ground arith

    ip_cleared-IsBytes : IsBytes ip_cleared
    ip_cleared-IsBytes = elim (Bool-cases is_v6) [
      | inl v6 ↦ rw v6 s.bytes
      | inr v4 ↦ rw v4 (IsBytes-put input 10 (0 ∷ 0 ∷ []) s.bytes (omega arith))
    ]

    ip_checksum_clear : is_v6 ≡ false → (get_or cleared 10 0 ≡ 0) × (get_or cleared 11 0 ≡ 0)
    ip_checksum_clear v4 =
        let away = λ (j : ℕ) (p : j < 20).
          get_or-put_outside ip_cleared (c + o) (0 ∷ 0 ∷ []) j 0 (omega (arith, field_fits)) in
        let zeros = get_or-put_pair input 10 0 0 0 (omega (arith, field_fits, s.headers_fit)) in
        rw field_at (away 10 (omega arith) ∙ rw v4 zeros.0, away 11 (omega arith) ∙ rw v4 zeros.1)

    pub plan_split_ok : plan_split input hdr is_v6 ≡ ok planned
    unfolding plan_split
    plan_split_ok = elim s.transport [
      | inl (tcp, room, at16) ↦
          let read = read_u32_ok cleared (c + 4) (omega (arith, cleared-length, s.headers_fit)) in
          ground (arith, read, room_for_addresses)
      | inr (udp, room, at6) ↦ ground (arith, room_for_addresses)
    ]

    pub cleared-payload : drop h cleared ≡ drop h input
    cleared-payload =
        drop-put_below h (transport_csum_at hdr) ip_cleared (0 ∷ 0 ∷ [])
          (omega (arith, field_at, field_fits))
        ∙ elim (Bool-cases is_v6) [
          | inl v6 ↦ rw v6
          | inr v4 ↦ rw v4 (drop-put_below h 10 input (0 ∷ 0 ∷ []) (omega (arith, field_fits)))
        ]

    pub planned-IsPlan : IsPlan planned
    planned-IsPlan =
        let zeros =
          get_or-put_pair ip_cleared (c + o) 0 0 0
            (omega (arith, ip_cleared-length, field_fits, s.headers_fit)) in
        record {
          hdr = s.widths;
          bytes =
              IsBytes-put ip_cleared (transport_csum_at hdr) (0 ∷ 0 ∷ []) ip_cleared-IsBytes
                (omega arith);
          ip_header = s.ip_header;
          transport = ground arith;
          headers_fit = omega (arith, cleared-length, s.headers_fit);
          positive = s.positive;
          ip_clear = ip_checksum_clear;
          transport_clear = rw field_at zeros;
        }
