-- ===== src/Sockaddr/RoundTrip.antt =====
-- A socket address survives the way through the structures of the system.
use tun_rs.Base.{ℕ, ◌/◌, ◌%◌, ◌<◌, ◌≡◌, ◌≢◌, refl, ap, ap₂, true, false, ◌==◌, some, arith}
use tun_rs.Virtio.{Endian, little, big}
use tun_rs.Sockaddr.{
  Ipv4Addr, SocketAddr, socket_v4, socket_v6, to_be, from_ne_bytes, to_ne_bytes,
  rs_addr_to_sockaddr, sockaddr_to_rs_addr,
}

-- The octets of an address and the port are in the range of their type.
abbrev pub IsSocketAddr : SocketAddr → Type 0
IsSocketAddr (socket_v4 ip port) =
    (ip.octet_a < 256)
    × (ip.octet_b < 256)
    × (ip.octet_c < 256)
    × (ip.octet_d < 256)
    × (port < 65536)
IsSocketAddr (socket_v6 octets port flowinfo scope_id) = port < 65536

-- The address without flow information and scope.
abbrev pub unscoped : SocketAddr → SocketAddr
unscoped (socket_v4 ip port) = socket_v4 ip port
unscoped (socket_v6 octets port flowinfo scope_id) = socket_v6 octets port 0 0

to_be-to_be : (order : Endian) (n : ℕ) → n < 65536 → to_be order (to_be order n) ≡ n
to_be-to_be little n h = omega arith
to_be-to_be big n h = refl

same_octets :
    {x y : Ipv4Addr}
    → x.octet_a ≡ y.octet_a
    → x.octet_b ≡ y.octet_b
    → x.octet_c ≡ y.octet_c
    → x.octet_d ≡ y.octet_d
    → x ≡ y
same_octets a b c d = λ i. record { octet_a = a i; octet_b = b i; octet_c = c i; octet_d = d i }

octets_back :
    (order : Endian) (ip : Ipv4Addr)
    → ip.octet_a < 256
    → ip.octet_b < 256
    → ip.octet_c < 256
    → ip.octet_d < 256
    → to_ne_bytes order (from_ne_bytes order ip) ≡ ip
octets_back little ip a b c d =
    let sum = from_ne_bytes little ip in
    let first : sum % 256 ≡ ip.octet_a = omega arith in
    let second : sum / 256 % 256 ≡ ip.octet_b = omega arith in
    let third : sum / 65536 % 256 ≡ ip.octet_c = omega arith in
    let fourth : sum / 16777216 % 256 ≡ ip.octet_d = omega arith in
    same_octets first second third fourth
octets_back big ip a b c d =
    let sum = from_ne_bytes big ip in
    let first : sum / 16777216 % 256 ≡ ip.octet_a = omega arith in
    let second : sum / 65536 % 256 ≡ ip.octet_b = omega arith in
    let third : sum / 256 % 256 ≡ ip.octet_c = omega arith in
    let fourth : sum % 256 ≡ ip.octet_d = omega arith in same_octets first second third fourth

-- In either byte order and for two different address families, an IPv4 or IPv6 socket address whose octets and port are in range is read back
-- from the structure that `rs_addr_to_sockaddr` makes of it, but for the flow information and the scope
-- of an IPv6 address, which come back as zero.
pub sockaddr_to_rs_addr-rs_addr_to_sockaddr :
    (order : Endian) (af_inet af_inet6 : ℕ) (addr : SocketAddr)
    → af_inet ≢ af_inet6
    → IsSocketAddr addr
    → sockaddr_to_rs_addr order af_inet af_inet6 (rs_addr_to_sockaddr order af_inet af_inet6 addr)
      ≡ some (unscoped addr)
unfolding sockaddr_to_rs_addr rs_addr_to_sockaddr
sockaddr_to_rs_addr-rs_addr_to_sockaddr order af_inet af_inet6 (socket_v4 ip port) differ
      (a, b, c, d, h) =
    let same : (af_inet == af_inet) ≡ true = ground arith in
    rw same (ap some (ap₂ socket_v4 (octets_back order ip a b c d) (to_be-to_be order port h)))
sockaddr_to_rs_addr-rs_addr_to_sockaddr order af_inet af_inet6
      (socket_v6 octets port flowinfo scope_id) differ h =
    let other : (af_inet6 == af_inet) ≡ false = ground arith in
    let same : (af_inet6 == af_inet6) ≡ true = ground arith in
    rw (other, same) (ap (λ p. some (socket_v6 octets p 0 0)) (to_be-to_be order port h))
