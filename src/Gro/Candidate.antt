-- ===== src/Gro/Candidate.antt =====
-- The tests of receive offload that look at one or two packets.
use tun_rs.Base.{ℕ, ◌/◌, ◌≤◌, ◌⊎◌, ◌↔◌, ◌≡◌, ◌≢◌, refl, Bool, true, List, length, get_or, arith}
use tun_rs.Base.Bits.{bit_and_ones}
use tun_rs.Gro.{
  GroCandidateType, not_gro, tcp4_gro, tcp6_gro, udp4_gro, udp6_gro, packet_is_gro_candidate,
  ip_headers_can_coalesce,
}

-- What a candidate of each kind is: `version` and `protocol` as they stand in the packet, no IPv4
-- options, and room for the least IP and transport headers.
abbrev pub Candidate : List ℕ → Bool → GroCandidateType → Type 0
Candidate b can_udp not_gro = Unit
Candidate b can_udp tcp4_gro = (get_or b 0 0 ≡ 0x45) × (get_or b 9 0 ≡ 6) × (40 ≤ length b)
Candidate b can_udp udp4_gro =
    (get_or b 0 0 ≡ 0x45) × (get_or b 9 0 ≡ 17) × (28 ≤ length b) × (can_udp ≡ true)
Candidate b can_udp tcp6_gro = (get_or b 0 0 / 16 ≡ 6) × (get_or b 6 0 ≡ 6) × (60 ≤ length b)
Candidate b can_udp udp6_gro =
    (get_or b 0 0 / 16 ≡ 6) × (get_or b 6 0 ≡ 17) × (48 ≤ length b) × (can_udp ≡ true)

-- `packet_is_gro_candidate` answers a kind other than `not_gro` exactly for the packets of that kind.
pub candidate_lem :
    (b : List ℕ) (can_udp : Bool) (kind : GroCandidateType)
    → kind ≢ not_gro
    → (packet_is_gro_candidate b can_udp ≡ kind) ↔ Candidate b can_udp kind
unfolding packet_is_gro_candidate
candidate_lem b can_udp not_gro other = absurd (other refl)
candidate_lem b can_udp tcp4_gro other = ground (arith, bit_and_ones 4 (get_or b 0 0))
candidate_lem b can_udp tcp6_gro other = ground (arith, bit_and_ones 4 (get_or b 0 0))
candidate_lem b can_udp udp4_gro other = ground (arith, bit_and_ones 4 (get_or b 0 0))
candidate_lem b can_udp udp6_gro other = ground (arith, bit_and_ones 4 (get_or b 0 0))

-- What two IP headers must share to be merged: class and hop limit of IPv6; type of service, the
-- reserved and the DF bit, and the time to live of IPv4.
abbrev pub Agree : List ℕ → List ℕ → Type 0
Agree a b =
    (9 ≤ length a)
    × (9 ≤ length b)
    × ((get_or a 0 0 / 16 ≡ 6)
          × (get_or a 0 0 ≡ get_or b 0 0)
          × (get_or a 1 0 / 16 ≡ get_or b 1 0 / 16)
          × (get_or a 7 0 ≡ get_or b 7 0)
        ⊎ (get_or a 0 0 / 16 ≢ 6)
          × (get_or a 1 0 ≡ get_or b 1 0)
          × (get_or a 6 0 / 32 ≡ get_or b 6 0 / 32)
          × (get_or a 8 0 ≡ get_or b 8 0))

pub ip_headers_lem : (a b : List ℕ) → (ip_headers_can_coalesce a b ≡ true) ↔ Agree a b
unfolding ip_headers_can_coalesce
ip_headers_lem a b = ground arith

-- Packets of the same IP version, by the test that the code makes.
abbrev pub SameVersion : List ℕ → List ℕ → Type 0
SameVersion a b = (get_or a 0 0 / 16 ≡ 6) ↔ (get_or b 0 0 / 16 ≡ 6)

-- Among packets of one IP version, the verdict of `ip_headers_can_coalesce` does not depend on the
-- order of the two, and packets that both agree with a third agree with one another.
pub ip_headers_equivalence :
    (a b c : List ℕ)
    → SameVersion a b
    → SameVersion b c
    → (ip_headers_can_coalesce a b ≡ true → ip_headers_can_coalesce b a ≡ true)
      × (ip_headers_can_coalesce a b ≡ true
          → ip_headers_can_coalesce b c ≡ true
          → ip_headers_can_coalesce a c ≡ true)
ip_headers_equivalence a b c ab bc = (
  λ p. let from : Agree a b = (ip_headers_lem a b).0 p in (ip_headers_lem b a).1 (ground arith),
  λ p q.
      let first : Agree a b = (ip_headers_lem a b).0 p in
      let second : Agree b c = (ip_headers_lem b c).0 q in (ip_headers_lem a c).1 (ground arith),
)
