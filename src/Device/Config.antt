-- ===== src/Device/Config.antt =====
-- src/platform/linux/device.rs: the calls that configure a device. The ioctls, the interface index and
-- the addresses that netlink lists are parameters, on the state `W` of the system.
pub mod Flags
use tun_rs.Base.{
  ℕ, ◌+◌, ◌-◌, bit_and, bit_or, Bool, true, false, ◌&&◌, List, [], ◌∷◌, ◌++◌, ltb, ◌==◌,
  if◌then◌else◌, length, take, replicate, put, Option, none, some, ◌⊎◌, inl, inr, IoError, not_u16,
}
use tun_rs.Device.Open.{Libc, checked_name}

-- An address: whether it is IPv6, and its number.
abbrev pub IpAddr : Type 0
IpAddr = Bool × ℕ

-- What a request hands to the kernel, by the field of `ifr_ifru` that is written.
pub data Ifru : Type 0 where
  ifru_addr : IpAddr → Ifru
  ifru_netmask : IpAddr → Ifru
  ifru_dstaddr : IpAddr → Ifru
  ifru_broadaddr : IpAddr → Ifru
  ifru_flags : ℕ → Ifru
  ifru_newname : List ℕ → Ifru
  ifru_mtu : ℕ → Ifru
  ifru_metric : ℕ → Ifru
  ifru_hwaddr : ℕ → List ℕ → Ifru

-- The state of the kernel: the name of the device, a control socket, the ioctls that set (with the name of
-- the interface) and those that get, those of IPv6 with the index, the prefix length and the address, and
-- what netconfig does. Flags are the 16 bits of an `i16`, an MTU the 32 bits of an `i32`.
pub record Interface (W : Type 0) : Type 0 where
  pub name_impl : W → List ℕ ⊎ IoError
  pub ctl : W → Option IoError × W
  pub ctl_v6 : W → Option IoError × W
  pub set_ifru : List ℕ → Ifru → W → Option IoError × W
  pub siocgifflags : List ℕ → W → ℕ ⊎ IoError
  pub siocgifmtu : List ℕ → W → ℕ ⊎ IoError
  pub siocgifhwaddr : List ℕ → W → List ℕ ⊎ IoError
  pub tx_queue_len_call : List ℕ → W → ℕ ⊎ IoError
  pub if_index_impl : W → ℕ ⊎ IoError
  pub siocsifaddr_in6 : ℕ → ℕ → ℕ → W → Option IoError × W
  pub siocdifaddr_in6 : ℕ → ℕ → ℕ → W → Option IoError × W
  pub addresses : ℕ → W → List (IpAddr × ℕ) ⊎ IoError
  pub remove_call : ℕ → IpAddr × ℕ → W → Option IoError × W
  pub add_call : ℕ → IpAddr × ℕ → W → Option IoError × W
  -- `get_if_addrs_by_name`: an address, and the prefix length of its netmask, or 0 if it is no mask.
  pub if_addrs : List ℕ → W → List (Option IpAddr × Option ℕ) ⊎ IoError

module _ {W : Type 0} where
  -- `answer?` before what follows.
  abbrev pub and_then :
      {A : Type 0} → Option IoError × W → (W → (A ⊎ IoError) × W) → (A ⊎ IoError) × W
  and_then (none, world) later = later world
  and_then (some error, world) later = (inr error, world)

  abbrev pub given :
      {A B : Type 0} → A ⊎ IoError → (A → W → (B ⊎ IoError) × W) → W → (B ⊎ IoError) × W
  given (inl a) later world = later a world
  given (inr error) later world = (inr error, world)

  -- `Ok(())` after a call.
  abbrev pub finish : Option IoError × W → (Unit {0} ⊎ IoError) × W
  finish (none, world) = (inl tt, world)
  finish (some error, world) = (inr error, world)

  -- The steps of a `()`-valued function, one after the other.
  abbrev pub then_do :
      (Unit {0} ⊎ IoError) × W → (W → (Unit {0} ⊎ IoError) × W) → (Unit {0} ⊎ IoError) × W
  then_do (inl done, world) later = later world
  then_do (inr error, world) later = (inr error, world)

module _ (libc : Libc) (iff_up iff_running arphrd_ether : ℕ) {W : Type 0}
    (interface : Interface W) where
  -- `request()?`, `ctl()?` and the ioctl, as in most of the calls.
  abbrev pub configure : Ifru → W → (Unit {0} ⊎ IoError) × W
  configure ifru world =
      given (interface.name_impl world)
        (λ name w. and_then (interface.ctl w) (λ w1. finish (interface.set_ifru name ifru w1)))
        world

  abbrev pub set_tx_queue_len : ℕ → W → (Unit {0} ⊎ IoError) × W
  set_tx_queue_len tx_queue_len = configure (ifru_metric tx_queue_len)

  -- `request()?`, `ctl()?` and an ioctl that gets.
  abbrev pub inquire : {A : Type 0} → (List ℕ → W → A ⊎ IoError) → W → (A ⊎ IoError) × W
  inquire call world =
      given (interface.name_impl world)
        (λ name w. and_then (interface.ctl w) (λ w1. (call name w1, w1))) world

  abbrev pub tx_queue_len : W → (ℕ ⊎ IoError) × W
  tx_queue_len = inquire interface.tx_queue_len_call

  abbrev pub set_address_v4 : ℕ → W → (Unit {0} ⊎ IoError) × W
  set_address_v4 addr = configure (ifru_addr (false, addr))

  abbrev pub set_netmask : ℕ → W → (Unit {0} ⊎ IoError) × W
  set_netmask value = configure (ifru_netmask (false, value))

  abbrev pub set_destination : ℕ → W → (Unit {0} ⊎ IoError) × W
  set_destination value = configure (ifru_dstaddr (false, value))

  abbrev pub set_broadcast : IpAddr → W → (Unit {0} ⊎ IoError) × W
  set_broadcast value = configure (ifru_broadaddr value)

  -- `ctl()?`, `request()?` and SIOCGIFFLAGS, in this order.
  unfoldable pub flags_of : W → (ℕ ⊎ IoError) × W
  flags_of world =
      and_then (interface.ctl world)
        (λ w. given (interface.name_impl w) (λ name w1. (interface.siocgifflags name w1, w1)) w)

  unfoldable pub is_running : W → (Bool ⊎ IoError) × W
  unfolding flags_of
  is_running world =
      let (answer, world1) = flags_of world in
      given answer
        (λ flags w.
          (inl (bit_and flags (bit_or iff_up iff_running) == bit_or iff_up iff_running), w))
        world1

  -- The flags that `enabled` writes: `!IFF_UP` has the other 15 bits.
  unfoldable pub enabled_flags : Bool → ℕ → ℕ
  enabled_flags value flags =
      if value then bit_or flags (bit_or iff_up iff_running) else bit_and flags (65535 - iff_up)

  unfoldable pub enabled : Bool → W → (Unit {0} ⊎ IoError) × W
  unfolding enabled_flags
  enabled value world = and_then (interface.ctl world) (λ w.
      given (interface.name_impl w)
        (λ name w1.
          given (interface.siocgifflags name w1)
            (λ flags w2.
              finish (interface.set_ifru name (ifru_flags (enabled_flags value flags)) w2))
            w1)
        w)

  -- `value.len()` bytes of the name, without the terminator, to a zeroed field.
  unfoldable pub set_name : List ℕ → W → (Unit {0} ⊎ IoError) × W
  set_name value world =
      given (checked_name libc value)
        (λ name. configure (ifru_newname (put (replicate libc.ifnamsiz 0) 0 name))) world

  -- The result as a `u16`.
  unfoldable pub mtu : W → (ℕ ⊎ IoError) × W
  mtu world =
      let (answer, world1) = inquire interface.siocgifmtu world in
      given answer (λ n w. (if ltb n 65536 then inl n else inr not_u16, w)) world1

  abbrev pub set_mtu : ℕ → W → (Unit {0} ⊎ IoError) × W
  set_mtu value = configure (ifru_mtu value)

  -- The first 6 of the 14 bytes of `sa_data`.
  abbrev pub set_mac_address : List ℕ → W → (Unit {0} ⊎ IoError) × W
  set_mac_address eth_addr = configure (ifru_hwaddr arphrd_ether (put (replicate 14 0) 0 eth_addr))

  unfoldable pub mac_address : W → (List ℕ ⊎ IoError) × W
  mac_address world =
      let (answer, world1) = inquire interface.siocgifhwaddr world in
      given answer (λ hw w. (inl (put (replicate 6 0) 0 (take 6 hw)), w)) world1

  -- The addresses of a list that pass the test are removed, up to the first failure.
  unfoldable pub remove_each :
      (IpAddr → Bool) → ℕ → List (IpAddr × ℕ) → W → (Unit {0} ⊎ IoError) × W
  remove_each test index [] world = (inl tt, world)
  remove_each test index ((addr, prefix) ∷ list) world =
      let further = λ (w : W). remove_each test index list w in
      if test addr
      then then_do (finish (interface.remove_call index (addr, prefix) world)) further
      else further world

  abbrev pub is_ipv4 : IpAddr → Bool
  is_ipv4 (true, bits) = false
  is_ipv4 (false, bits) = true

  abbrev pub same_addr : IpAddr → IpAddr → Bool
  same_addr (true, a) (true, b) = a == b
  same_addr (false, a) (false, b) = a == b
  same_addr _ _ = false

  unfoldable pub remove_all_address_v4 : W → (Unit {0} ⊎ IoError) × W
  unfolding remove_each
  remove_all_address_v4 world =
      given (interface.if_index_impl world)
        (λ index w. given (interface.addresses index w) (remove_each is_ipv4 index) w) world

  -- An address, a netmask and a destination stand as what their conversion answers.
  unfoldable pub set_network_address :
      (ℕ ⊎ IoError) → (ℕ ⊎ IoError) → Option (ℕ ⊎ IoError) → W → (Unit {0} ⊎ IoError) × W
  unfolding remove_all_address_v4
  set_network_address address netmask destination world =
      then_do (remove_all_address_v4 world) (λ w1. then_do (given address set_address_v4 w1) (λ w2.
        then_do (given netmask set_netmask w2) (λ w3. elim destination [
          | none ↦ (inl tt, w3)
          | some value ↦ given value set_destination w3
        ])))

  unfoldable pub add_address_v4 : (ℕ ⊎ IoError) → (ℕ ⊎ IoError) → W → (Unit {0} ⊎ IoError) × W
  add_address_v4 address prefix world =
      given (interface.if_index_impl world)
        (λ index.
          given address
            (λ a. given prefix (λ p w. finish (interface.add_call index ((false, a), p) w))))
        world

  unfoldable pub add_address_v6 : (ℕ ⊎ IoError) → (ℕ ⊎ IoError) → W → (Unit {0} ⊎ IoError) × W
  add_address_v6 addr prefix world =
      given (interface.if_index_impl world)
        (λ index w. and_then (interface.ctl_v6 w) (λ w1.
          given prefix (λ p. given addr (λ a w2. finish (interface.siocsifaddr_in6 index p a w2)))
            w1))
        world

  unfoldable pub remove_address_v6_impl : ℕ → ℕ → W → (Unit {0} ⊎ IoError) × W
  remove_address_v6_impl addr prefix world =
      given (interface.if_index_impl world)
        (λ index w.
          and_then (interface.ctl_v6 w)
            (λ w1. finish (interface.siocdifaddr_in6 index prefix addr w1)))
        world

  -- The loop over the addresses of the interface, for an IPv6 address.
  unfoldable pub remove_v6_each : ℕ → List (Option IpAddr × Option ℕ) → W → (Unit {0} ⊎ IoError) × W
  unfolding remove_address_v6_impl
  remove_v6_each addr [] world = (inl tt, world)
  remove_v6_each addr ((some ip_addr, some prefix) ∷ addrs) world =
      let further = λ (w : W). remove_v6_each addr addrs w in
      if same_addr ip_addr (true, addr)
      then then_do (remove_address_v6_impl addr prefix world) further
      else further world
  remove_v6_each addr (_ ∷ addrs) world = remove_v6_each addr addrs world

  unfoldable pub remove_address : IpAddr → W → (Unit {0} ⊎ IoError) × W
  unfolding remove_each remove_v6_each
  remove_address (false, addr) world =
      given (interface.if_index_impl world)
        (λ index w.
          given (interface.addresses index w) (remove_each (λ x. same_addr x (false, addr)) index)
            w)
        world
  remove_address (true, addr) world =
      given (interface.name_impl world)
        (λ name w. given (interface.if_addrs name w) (remove_v6_each addr) w) world
