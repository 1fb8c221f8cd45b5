-- ===== src/Sockaddr/Tests.antt =====
-- Two addresses on the way through the structures of a little-endian Linux.
use tun_rs.Base.{◌≡◌, refl, some, arith}
use tun_rs.Virtio.{little}
use tun_rs.Sockaddr.{SocketAddr, socket_v4, rs_addr_to_sockaddr, sockaddr_to_rs_addr}
use tun_rs.Sockaddr.RoundTrip.{sockaddr_to_rs_addr-rs_addr_to_sockaddr}

abbrev localhost : SocketAddr
localhost = socket_v4 (record { octet_a = 127; octet_b = 0; octet_c = 0; octet_d = 1 }) 0x0208

localhost_fields :
    ((rs_addr_to_sockaddr little 2 10 localhost).s_addr ≡ 0x0100007f)
    × ((rs_addr_to_sockaddr little 2 10 localhost).port ≡ 0x0802)
unfolding rs_addr_to_sockaddr
localhost_fields = (refl, refl)

sockaddr_to_rs_addr-rs_addr_to_sockaddr_example :
    sockaddr_to_rs_addr little 2 10 (rs_addr_to_sockaddr little 2 10 localhost) ≡ some localhost
sockaddr_to_rs_addr-rs_addr_to_sockaddr_example =
    sockaddr_to_rs_addr-rs_addr_to_sockaddr little 2 10 localhost (omega arith)
      (omega arith, omega arith, omega arith, omega arith, omega arith)
