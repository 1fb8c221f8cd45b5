-- ===== src/Freebsd.antt =====
-- src/platform/freebsd/device.rs: opening a device by its name or by the first index that is free, and
-- dropping it. Freebsd/Network.antt has its addresses. The system calls, the parsing of a number, and what the ipnet and route crates compute are
-- parameters, on the state `W` of the system.
pub mod Search
pub mod Network
pub mod Addresses
mod Tests
use tun_rs.Base.{
  starts_with, is_os_error, ℕ, zero, suc, ◌+◌, ◌-◌, bit_and, bit_or, Bool, true, false, not, ◌&&◌,
  List, [], ◌∷◌, ltb, leb, ◌==◌, if◌then◌else◌, length, take, drop, replicate, put, min, Option,
  none, some, ◌⊎◌, inl, inr, IoError, name_too_long, name_prefix, no_free_device, invalid_input,
  os_error, not_u16,
}
use tun_rs.Builder.Device.{Layer, layer_2, layer_3}
use tun_rs.Device.Open.{unwrap_or}

-- Whether an address is IPv6, and its number.
abbrev pub IpAddr : Type 0
IpAddr = Bool × ℕ

-- The settings of `DeviceConfig` that open a device here.
pub record FreebsdConfig : Type 0 where
  pub dev_name : Option (List ℕ)
  pub layer : Option Layer
  pub packet_information : Option Bool
  pub associate_route : Option Bool

-- `DeviceImpl`, by the descriptor and the setting of its `Tun`.
pub record FreebsdDevice : Type 0 where
  pub fd : ℕ
  pub ignore_packet_info : Bool
  pub associate_route : Bool

-- The calls: /dev/tun<i> or /dev/tap<i>; TUNSIFHEAD; the name of a descriptor's node; the control
-- sockets; the ioctls, by the name of the interface; and the crates. A mask as a prefix length, and the
-- broadcast address of a network.
pub record Freebsd (W : Type 0) : Type 0 where
  pub ifnamsiz : ℕ
  pub ebusy : ℕ
  pub eaddrnotavail : ℕ
  pub parse_u32 : List ℕ → ℕ ⊎ IoError
  pub open_dev : Layer → ℕ → W → (ℕ ⊎ IoError) × W
  pub close_fd : ℕ → W → W
  pub sioctunsifhead : ℕ → W → Option IoError × W
  pub name_of_fd : ℕ → W → List ℕ ⊎ IoError
  pub ctl : W → Option IoError × W
  pub ctl_v6 : W → Option IoError × W
  pub siocsifinfoin6 : List ℕ → W → Option IoError × W
  pub siocifdestroy : List ℕ → W → Option IoError × W
  pub siocdifaddr : List ℕ → W → Option IoError × W
  pub siocaifaddr : List ℕ → IpAddr → IpAddr → Option IpAddr → W → Option IoError × W
  pub siocaifaddr_in6 : List ℕ → IpAddr → IpAddr → W → Option IoError × W
  pub ip_mask_to_prefix : IpAddr → ℕ ⊎ IoError
  pub network_broadcast : IpAddr → ℕ → IpAddr ⊎ IoError
  pub if_index_impl : W → ℕ ⊎ IoError
  pub route_add : IpAddr → ℕ → ℕ → W → Option IoError × W

-- "tap" and "tun".
abbrev pub device_prefix : Layer → List ℕ
device_prefix layer_2 = b't' ∷ b'a' ∷ b'p' ∷ []
device_prefix layer_3 = b't' ∷ b'u' ∷ b'n' ∷ []

abbrev pub is_layer_3 : Layer → Bool
is_layer_3 layer_2 = false
is_layer_3 layer_3 = true

module _ {W : Type 0} (sys : Freebsd W) where
  -- `dev_index` of a name.
  unfoldable pub dev_index_of : Layer → List ℕ → ℕ ⊎ IoError
  unfolding starts_with
  dev_index_of layer tun_name =
      if ltb sys.ifnamsiz (length tun_name)
      then inr name_too_long
      else (if not (starts_with tun_name (device_prefix layer))
          then inr name_prefix
          else sys.parse_u32 (drop 3 tun_name))

  -- `for i in 0..256`, with the rounds that are left: the first index that is not busy.
  unfoldable pub search_free : Layer → ℕ → ℕ → W → (ℕ ⊎ IoError) × W
  unfolding is_os_error
  search_free layer zero i world = (inr no_free_device, world)
  search_free layer (suc left) i world =
      let (opened, world1) = sys.open_dev layer i world in
      let next = search_free layer left (i + 1) world1 in
      elim opened [
        | inl fd ↦ (inl fd, world1)
        | inr e ↦ if is_os_error sys.ebusy e then next else (inr e, world1)
      ]

  unfoldable pub open_device : Layer → Option (List ℕ) → W → (ℕ ⊎ IoError) × W
  unfolding dev_index_of search_free
  open_device layer none world = search_free layer 256 0 world
  open_device layer (some tun_name) world = elim (dev_index_of layer tun_name) [
    | inr error ↦ (inr error, world)
    | inl name_index ↦ sys.open_dev layer name_index world
  ]

  abbrev pub is_ok : {A : Type 0} → A ⊎ IoError → Bool
  is_ok (inl a) = true
  is_ok (inr error) = false

  -- `Drop for DeviceImpl`: the interface is destroyed if its name and a control socket are there.
  unfoldable pub drop_device : ℕ → W → W
  drop_device fd world =
      let (failed, world1) = sys.ctl world in
      elim failed [
        | some error ↦ sys.close_fd fd world1
        | none ↦ elim (sys.name_of_fd fd world1) [
          | inr error ↦ sys.close_fd fd world1
          | inl name ↦ sys.close_fd fd (sys.siocifdestroy name world1).1
        ]
      ]

  unfoldable pub disable_default_sys_local_ipv6 : ℕ → W → Option IoError × W
  disable_default_sys_local_ipv6 fd world = elim (sys.name_of_fd fd world) [
    | inr error ↦ (some error, world)
    | inl tun_name ↦
        let (failed, world1) = sys.ctl_v6 world in
        elim failed [
          | some error ↦ (some error, world1)
          | none ↦ sys.siocsifinfoin6 tun_name world1
        ]
  ]

  -- The device, unless its last step failed; then it is dropped.
  abbrev pub unless_failed : FreebsdDevice → Option IoError × W → (FreebsdDevice ⊎ IoError) × W
  unless_failed device (none, world) = (inl device, world)
  unless_failed device (some error, world) = (inr error, drop_device device.fd world)

  -- `new` from the descriptor on; before there is a device, a failure only closes it.
  unfoldable pub set_up : FreebsdConfig → Layer → ℕ → W → (FreebsdDevice ⊎ IoError) × W
  unfolding disable_default_sys_local_ipv6
  set_up config layer fd world =
      let associate_route = is_layer_3 layer && unwrap_or config.associate_route true in
      let device : FreebsdDevice = record {
        fd = fd;
        ignore_packet_info = is_layer_3 layer && not (unwrap_or config.packet_information false);
        associate_route = associate_route;
      } in
      if is_layer_3 layer
      then (let (failed, world1) = sys.sioctunsifhead fd world in
          elim failed [
            | some error ↦ (inr error, sys.close_fd fd world1)
            | none ↦ unless_failed device (disable_default_sys_local_ipv6 fd world1)
          ])
      else unless_failed device (disable_default_sys_local_ipv6 fd world)

  unfoldable pub new_device : FreebsdConfig → W → (FreebsdDevice ⊎ IoError) × W
  unfolding open_device set_up
  new_device config world =
      let layer = unwrap_or config.layer layer_3 in
      let (opened, world1) = open_device layer config.dev_name world in
      elim opened [ inr error ↦ (inr error, world1) | inl fd ↦ set_up config layer fd world1 ]

  unfoldable pub from_tun_fd : ℕ → W → (FreebsdDevice ⊎ IoError) × W
  unfolding starts_with
  from_tun_fd fd world = elim (sys.name_of_fd fd world) [
    | inr error ↦ (inr error, sys.close_fd fd world)
    | inl name ↦
        if starts_with name (device_prefix layer_2)
        then (inl (record { fd = fd; ignore_packet_info = false; associate_route = true }), world)
        else (let (failed, world1) = sys.sioctunsifhead fd world in
            elim failed [
              | some error ↦ (inr error, sys.close_fd fd world1)
              | none ↦ (
                inl (record { fd = fd; ignore_packet_info = true; associate_route = true }),
                world1,
              )
            ])
  ]
