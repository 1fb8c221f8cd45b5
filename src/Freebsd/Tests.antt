-- ===== src/Freebsd/Tests.antt =====
-- A system on which tun0 is in use, and an interface with two addresses.
use tun_rs.Base.{
  is_os_error, ℕ, ◌+◌, ◌-◌, ◌<◌, ◌≡◌, refl, true, false, List, [], ◌∷◌, if◌then◌else◌, ◌==◌, none,
  Option, some, ◌⊎◌, inl, inr, IoError, os_error, arith,
}
use tun_rs.Builder.Device.{layer_3}
use tun_rs.Freebsd.{IpAddr, Freebsd, FreebsdDevice, search_free, new_device}
use tun_rs.Freebsd.Network.{set_network_address}
use tun_rs.Freebsd.Search.{FirstFree, search_free-FirstFree}
use tun_rs.Freebsd.Addresses.{Counted, Wrong, Asked, Added, set_network_address_lem}

abbrev tun1 : List ℕ
tun1 = b't' ∷ b'u' ∷ b'n' ∷ b'1' ∷ []

-- The state is the number of IPv4 addresses.
abbrev sys : Freebsd ℕ
sys = record {
  ifnamsiz = 16;
  ebusy = 16;
  eaddrnotavail = 49;
  parse_u32 = λ digits. inl 1;
  open_dev = λ layer i world. (if i == 0 then inr (os_error 16) else inl (i + 2), world);
  close_fd = λ fd world. world;
  sioctunsifhead = λ fd world. (none, world);
  name_of_fd = λ fd world. inl tun1;
  ctl = λ world. (none, world);
  ctl_v6 = λ world. (none, world);
  siocsifinfoin6 = λ name world. (none, world);
  siocifdestroy = λ name world. (none, world);
  siocdifaddr = λ name world. (if world == 0 then some (os_error 49) else none, world - 1);
  siocaifaddr = λ name addr mask dest world. (none, world + 1);
  siocaifaddr_in6 = λ name addr mask world. (none, world);
  ip_mask_to_prefix = λ mask. inl 24;
  network_broadcast = λ addr prefix. inl (false, 255);
  if_index_impl = λ world. inl 5;
  route_add = λ addr prefix index world. (none, world);
}

abbrev device : FreebsdDevice
device = record { fd = 3; ignore_packet_info = true; associate_route = true }

opens_second :
    new_device sys
      (record { dev_name = none; layer = none; packet_information = none; associate_route = none })
      2
    ≡ (inl device, 2)
unfolding new_device
opens_second = refl

search_free-FirstFree_example : FirstFree sys layer_3 256 0 2 (search_free sys layer_3 256 0 2)
search_free-FirstFree_example = search_free-FirstFree sys layer_3 256 0 2

not_avail : is_os_error 49 (os_error 49) ≡ true
unfolding is_os_error
not_avail = refl

laws : Counted sys tun1
laws = record {
  count = λ world. world;
  ctl_ok = λ w. (refl, refl);
  takes = λ w n h. ground (arith, h);
  empty = λ w h. (os_error 49, ground (arith, h), not_avail, ground (arith, h));
  adds = λ w addr mask dest h. omega arith;
  routes = λ w addr len index. refl;
}

two_addresses : laws.count 2 < 5
unfolding laws
two_addresses = omega arith

replaced : set_network_address sys device 5 (inl 10) (inl 1) none 2 ≡ some (none, 1)
unfolding set_network_address
replaced = refl

set_network_address_lem_example :
    ((e : IoError) × Wrong sys device tun1 laws (inl 10) (inl 1) none e
      × (set_network_address sys device 5 (inl 10) (inl 1) none 2 ≡ some (some e, 2)))
    ⊎ ((a m : ℕ) × (dest : IpAddr) × (result : Option IoError × ℕ) × Asked sys device tun1 laws
          (inl 10)
          (inl 1)
          none
          a
          m
          dest
        × (set_network_address sys device 5 (inl 10) (inl 1) none 2 ≡ some result)
        × Added sys device tun1 laws (λ w. refl) a m dest result)
set_network_address_lem_example =
    set_network_address_lem sys device tun1 laws (λ w. refl) 5 2 (inl 10) (inl 1) none two_addresses
