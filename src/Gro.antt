-- ===== src/Gro.antt =====
-- src/platform/linux/offload.rs: receive offload, which joins the packets of a flow. This file has the
-- buffers, the verdicts, and the tests on one or two packets that need no table.
pub mod Table
pub mod Merge
pub mod TcpMerge
pub mod Receive
pub mod Evaluate
pub mod Accounting
pub mod Handle
pub mod Kept
pub mod Batch
pub mod Candidate
pub mod Flow
pub mod Tests
pub mod BatchTests
use tun_rs.Base.{
  ℕ, ◌+◌, ◌-◌, ◌*◌, ◌/◌, ◌%◌, ◌<◌, ◌≡◌, Bool, true, false, not, ◌&&◌, ◌||◌, List, [], ◌∷◌, ◌++◌,
  ltb, leb, ◌==◌, if◌then◌else◌, length, take, get_or, get_elem?, set, replicate, bit_and, Option,
  none, some, Outcome, ok, panic, ◌>>=◌,
}

-- The trait `ExpandBuffer`. `as_mut b bytes` is the buffer after a write through `as_mut`, which
-- leaves `bytes` in it.
pub record ExpandBuffer (B : Type 0) : Type 0 where
  pub as_ref : B → List ℕ
  pub as_mut : B → List ℕ → B
  pub buf_capacity : B → ℕ
  pub buf_resize : B → ℕ → ℕ → B
  pub buf_extend_from_slice : B → List ℕ → B

-- What the operations of a buffer are documented to do to its bytes, for `Vec<u8>` and `BytesMut`.
pub record IsExpandBuffer {B : Type 0} (e : ExpandBuffer B) : Type 0 where
  pub as_ref-as_mut : (b : B) (bytes : List ℕ) → e.as_ref (e.as_mut b bytes) ≡ bytes
  pub as_ref-resize :
      (b : B) (new_len value : ℕ)
      → e.as_ref (e.buf_resize b new_len value)
        ≡ take new_len (e.as_ref b) ++ replicate (new_len - length (e.as_ref b)) value
  pub as_ref-extend :
      (b : B) (src : List ℕ) → e.as_ref (e.buf_extend_from_slice b src) ≡ e.as_ref b ++ src

-- `bufs[i]`, and a write to it.
unfoldable pub nth {ℓ} : {A : Type ℓ} → List A → ℕ → Outcome A
nth bufs i = elim (get_elem? bufs i) [ none ↦ panic | some b ↦ ok b ]

-- `a % b`, which panics on zero.
unfoldable pub remainder : ℕ → ℕ → Outcome ℕ
remainder a b = if b == 0 then panic else ok (a % b)

-- `try_into().expect(..)` to a type whose greatest number is `most`.
unfoldable pub narrow : ℕ → ℕ → Outcome ℕ
narrow most n = if leb n most then ok n else panic

pub data CanCoalesce : Type 0 where
  can_prepend : CanCoalesce
  unavailable : CanCoalesce
  can_append : CanCoalesce

pub data CoalesceResult : Type 0 where
  insufficient_cap : CoalesceResult
  psh_ending : CoalesceResult
  item_invalid_csum : CoalesceResult
  pkt_invalid_csum : CoalesceResult
  success : CoalesceResult

pub data GroResult : Type 0 where
  noop : GroResult
  table_insert : GroResult
  coalesced : GroResult

pub data GroCandidateType : Type 0 where
  not_gro : GroCandidateType
  tcp4_gro : GroCandidateType
  tcp6_gro : GroCandidateType
  udp4_gro : GroCandidateType
  udp6_gro : GroCandidateType

abbrev pub tcp_flag_psh : ℕ
tcp_flag_psh = 0x08

abbrev pub tcp_flag_ack : ℕ
tcp_flag_ack = 0x10

abbrev pub ipv4_flag_more_fragments : ℕ
ipv4_flag_more_fragments = 0x20

unfoldable pub packet_is_gro_candidate : List ℕ → Bool → GroCandidateType
packet_is_gro_candidate b can_udp_gro =
    let byte : ℕ → ℕ = λ i. get_or b i 0 in
    if ltb (length b) 28
    then not_gro
    else (if byte 0 / 16 == 4
        then (if not (bit_and (byte 0) 0x0F == 5)
            then not_gro
            else (if byte 9 == 6 && leb 40 (length b)
                then tcp4_gro
                else (if byte 9 == 17 && can_udp_gro then udp4_gro else not_gro)))
        else (if byte 0 / 16 == 6
            then (if byte 6 == 6 && leb 60 (length b)
                then tcp6_gro
                else (if byte 6 == 17 && (leb 48 (length b) && can_udp_gro)
                    then udp6_gro
                    else not_gro))
            else not_gro))

unfoldable pub ip_headers_can_coalesce : List ℕ → List ℕ → Bool
ip_headers_can_coalesce pkt_a pkt_b =
    let a : ℕ → ℕ = λ i. get_or pkt_a i 0 in
    let b : ℕ → ℕ = λ i. get_or pkt_b i 0 in
    if ltb (length pkt_a) 9 || ltb (length pkt_b) 9
    then false
    else (if a 0 / 16 == 6
        then (if not (a 0 == b 0) || not (a 1 / 16 == b 1 / 16)
            then false
            else (if not (a 7 == b 7) then false else true))
        else (if not (a 1 == b 1)
            then false
            else (if not (a 6 / 32 == b 6 / 32)
                then false
                else (if not (a 8 == b 8) then false else true))))
