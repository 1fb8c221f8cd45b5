-- ===== src/Gro/Receive.antt =====
-- src/platform/linux/offload.rs: the first part of `tcp_gro` and `udp_gro`, which reads the headers of
-- one packet, and what the two leave.
use tun_rs.Base.{
  ℕ, ◌+◌, ◌-◌, ◌*◌, ◌/◌, Bool, false, not, ◌&&◌, ◌||◌, List, ltb, ◌==◌, if◌then◌else◌, length,
  sub64, as_u16, as_u8, bit_and, Option, none, some, Outcome, ok, ◌>>=◌, at, read_u16, read_u32,
}
use tun_rs.Gso.{tcp_flags_offset, udp_h_len}
use tun_rs.Gro.{GroResult, tcp_flag_psh, tcp_flag_ack, ipv4_flag_more_fragments}

-- What the evaluation of a packet leaves.
pub record Received (B : Type 0) (T : Type 0) : Type 0 where
  pub result : GroResult
  pub bufs : List B
  pub table : T

-- A TCP packet that may be merged.
pub record TcpCandidate : Type 0 where
  pub iph_len : ℕ
  pub tcph_len : ℕ
  pub seq : ℕ
  pub psh_set : Bool
  pub gso_size : ℕ

-- Whether the length in the IP header is not that of the packet.
unfoldable pub length_differs : List ℕ → ℕ → Bool → Outcome Bool
length_differs pkt iph_len is_v6 =
    if is_v6
    then (do payload_len ← read_u16 pkt 4; ok (not (payload_len == sub64 (length pkt) iph_len)))
    else (do total_len ← read_u16 pkt 2; ok (not (total_len == length pkt)))

-- `pkt[6] & IPV4_FLAG_MORE_FRAGMENTS != 0 || pkt[6] << 3 != 0 || pkt[7] != 0`, on IPv4.
unfoldable pub is_fragment : List ℕ → Bool → Outcome Bool
is_fragment pkt is_v6 = if is_v6 then ok false else (do
  b6 ← at pkt 6
  b7 ← at pkt 7
  ok (
      not (bit_and b6 ipv4_flag_more_fragments == 0)
      || (not (as_u8 (b6 * 8) == 0) || not (b7 == 0))))

-- `tcp_gro` up to the sequence number: none for `GroResult::Noop`.
unfoldable pub tcp_candidate : List ℕ → Bool → Outcome (Option TcpCandidate)
unfolding length_differs is_fragment
tcp_candidate pkt is_v6 = if ltb 65535 (length pkt) then ok none else (do
  b0 ← at pkt 0
  let iph_len = if is_v6 then 40 else as_u8 (bit_and b0 0x0F * 4)
  differs ← length_differs pkt iph_len is_v6
  if differs || ltb (length pkt) (iph_len + tcp_flags_offset + 1) then ok none else (do
    offset ← at pkt (iph_len + 12)
    let tcph_len = offset / 16 * 4
    if ltb tcph_len 20 || (ltb 60 tcph_len || ltb (length pkt) (iph_len + tcph_len))
        then ok none
        else (do
          fragment ← is_fragment pkt is_v6
          tcp_flags ← at pkt (iph_len + tcp_flags_offset)
          let psh_set = not (tcp_flags == tcp_flag_ack)
          let gso_size = as_u16 (length pkt - tcph_len - iph_len)
          if fragment
                || (psh_set && not (tcp_flags == tcp_flag_ack + tcp_flag_psh) || ltb gso_size 1)
              then ok none
              else (do
                seq ← read_u32 pkt (iph_len + 4)
                ok (
                    some (record {
                      iph_len = iph_len;
                      tcph_len = tcph_len;
                      seq = seq;
                      psh_set = psh_set;
                      gso_size = gso_size;
                    }))))))

-- The payload length of a UDP packet that may be merged and its IP header's length: none for `Noop`.
unfoldable pub udp_candidate : List ℕ → Bool → Outcome (Option (ℕ × ℕ))
unfolding length_differs is_fragment
udp_candidate pkt is_v6 = if ltb 65535 (length pkt) then ok none else (do
  b0 ← at pkt 0
  let iph_len = if is_v6 then 40 else as_u8 (bit_and b0 0x0F * 4)
  differs ← length_differs pkt iph_len is_v6
  if differs || ltb (length pkt) (iph_len + udp_h_len) then ok none else (do
    fragment ← is_fragment pkt is_v6
    let gso_size = as_u16 (length pkt - udp_h_len - iph_len)
    ok (if fragment || ltb gso_size 1 then none else some (iph_len, gso_size))))
