-- ===== src/Gro/Flow/Keys.antt =====
-- The tests on keys decide equality, so that the tables keep apart what differs.
use tun_rs.Base.{ℕ, ◌≡◌, refl, ap₂, Bool, true, false, List, [], ◌∷◌, ◌==◌, ◌&&◌, arith}
use tun_rs.Gro.Flow.{bytes_eq, bool_eq, TcpFlowKey, UdpFlowKey, tcp_key_eq, udp_key_eq}

==_sound : (a b : ℕ) → (a == b) ≡ true → a ≡ b
==_sound a b h = ground arith

and_both : (a b : Bool) → (a && b) ≡ true → (a ≡ true) × (b ≡ true)
and_both true b h = (refl, h)
and_both false b h = absurd (ground arith)

pub bytes_eq_sound : (a b : List ℕ) → bytes_eq a b ≡ true → a ≡ b
bytes_eq_sound [] [] h = refl
bytes_eq_sound [] (y ∷ ys) h = absurd (ground arith)
bytes_eq_sound (x ∷ xs) [] h = absurd (ground arith)
bytes_eq_sound (x ∷ xs) (y ∷ ys) h =
    let both = and_both (x == y) (bytes_eq xs ys) h in
    ap₂ (λ z zs. z ∷ zs) (==_sound x y both.0) (bytes_eq_sound xs ys both.1)

bool_eq_sound : (a b : Bool) → bool_eq a b ≡ true → a ≡ b
bool_eq_sound a b h = ground arith

pub tcp_key_eq_sound : (a b : TcpFlowKey) → tcp_key_eq a b ≡ true → a ≡ b
unfolding tcp_key_eq
tcp_key_eq_sound a b h = ground (
  arith,
  bytes_eq_sound a.src_addr b.src_addr,
  bytes_eq_sound a.dst_addr b.dst_addr,
  bool_eq_sound a.is_v6 b.is_v6,
)

pub udp_key_eq_sound : (a b : UdpFlowKey) → udp_key_eq a b ≡ true → a ≡ b
unfolding udp_key_eq
udp_key_eq_sound a b h = ground (
  arith,
  bytes_eq_sound a.src_addr b.src_addr,
  bytes_eq_sound a.dst_addr b.dst_addr,
  bool_eq_sound a.is_v6 b.is_v6,
)
