-- ===== src/Sockaddr.antt =====
-- src/platform/unix/sockaddr.rs: socket addresses to and from the structures of the system. The byte
-- order of the target and the numbers of the address families are parameters.
pub mod RoundTrip
mod Tests
use tun_rs.Base.{
  ℕ, ◌+◌, ◌*◌, ◌/◌, ◌%◌, List, [], ◌∷◌, ◌==◌, if◌then◌else◌, Option, none, some, replicate,
}
use tun_rs.Virtio.{Endian, little, big}

-- `Ipv4Addr`, by its octets.
pub record Ipv4Addr : Type 0 where
  pub octet_a : ℕ
  pub octet_b : ℕ
  pub octet_c : ℕ
  pub octet_d : ℕ

-- `std::net::SocketAddr`; the octets of an `Ipv6Addr` are a list.
pub data SocketAddr : Type 0 where
  socket_v4 : Ipv4Addr → ℕ → SocketAddr
  socket_v6 : List ℕ → ℕ → ℕ → ℕ → SocketAddr

-- `sockaddr_union`, by the fields of `sockaddr_in` and `sockaddr_in6` that the code uses. In the
-- layout of every system here the family and the port stand at the same place in both, and the IPv4
-- address does not overlap the IPv6 one.
pub record SockaddrUnion : Type 0 where
  pub ss_family : ℕ
  pub port : ℕ
  pub s_addr : ℕ
  pub s6_addr : List ℕ

-- `mem::zeroed()`.
abbrev pub zeroed : SockaddrUnion
zeroed = record { ss_family = 0; port = 0; s_addr = 0; s6_addr = replicate 16 0 }

-- `u16::to_be` and `u16::from_be`.
abbrev pub to_be : Endian → ℕ → ℕ
to_be little n = n % 256 * 256 + n / 256
to_be big n = n

-- `u32::from_ne_bytes` and `u32::to_ne_bytes`.
abbrev pub from_ne_bytes : Endian → Ipv4Addr → ℕ
from_ne_bytes little ip = ip.octet_a + ip.octet_b * 256 + ip.octet_c * 65536 + ip.octet_d * 16777216
from_ne_bytes big ip = ip.octet_d + ip.octet_c * 256 + ip.octet_b * 65536 + ip.octet_a * 16777216

abbrev pub to_ne_bytes : Endian → ℕ → Ipv4Addr
to_ne_bytes little n = record {
  octet_a = n % 256;
  octet_b = n / 256 % 256;
  octet_c = n / 65536 % 256;
  octet_d = n / 16777216 % 256;
}
to_ne_bytes big n = record {
  octet_a = n / 16777216 % 256;
  octet_b = n / 65536 % 256;
  octet_c = n / 256 % 256;
  octet_d = n % 256;
}

module _ (order : Endian) (af_inet af_inet6 : ℕ) where
  unfoldable pub rs_addr_to_sockaddr : SocketAddr → SockaddrUnion
  rs_addr_to_sockaddr (socket_v4 ip port) = record zeroed {
    ss_family = af_inet;
    s_addr = from_ne_bytes order ip;
    port = to_be order port;
  }
  rs_addr_to_sockaddr (socket_v6 octets port flowinfo scope_id) = record zeroed {
    ss_family = af_inet6;
    s6_addr = octets;
    port = to_be order port;
  }

  -- `SocketAddr::new` has no flow information and no scope.
  unfoldable pub sockaddr_to_rs_addr : SockaddrUnion → Option SocketAddr
  sockaddr_to_rs_addr sa =
      if sa.ss_family == af_inet
      then some (socket_v4 (to_ne_bytes order sa.s_addr) (to_be order sa.port))
      else (if sa.ss_family == af_inet6
          then some (socket_v6 sa.s6_addr (to_be order sa.port) 0 0)
          else none)
