-- ===== src/Bsd/Netbsd.antt =====
-- src/platform/netbsd/device.rs: `new` and `from_tun`. A TAP interface is created before its node is
-- opened, or /dev/tap makes one; a TUN interface comes with its node.
use tun_rs.Base.{
  starts_with, is_os_error, ℕ, Bool, true, false, not, ◌&&◌, List, drop, if◌then◌else◌, Option,
  none, some, ◌⊎◌, inl, inr, IoError, already_exists,
}
use tun_rs.Builder.Device.{Layer, layer_2, layer_3}
use tun_rs.Freebsd.{device_prefix, is_layer_3}
use tun_rs.Device.Open.{unwrap_or}
use tun_rs.Device.Config.{and_then, given}
use tun_rs.Bsd.{
  BsdConfig, BsdDevice, Bsd, check_name, create_dev, or_exists, open_and_makedev_dev, with_name,
  search_name,
}

module _ {W : Type 0} (sys : Bsd W) where
  -- The index in a name that was given, and its node.
  abbrev pub open_given : Layer → List ℕ → W → ((ℕ × List ℕ) ⊎ IoError) × W
  open_given layer dev_name = given (sys.parse_u32 (drop 3 dev_name)) (λ if_index world.
      with_name sys dev_name (open_and_makedev_dev sys layer dev_name if_index world))

  abbrev pub named_tap : (ℕ ⊎ IoError) × W → ((ℕ × List ℕ) ⊎ IoError) × W
  named_tap (inr error, world) = (inr error, world)
  named_tap (inl fd, world) = elim (sys.tapgifname fd world) [
    | inr error ↦ (inr error, sys.close_fd fd world)
    | inl dev_name ↦ (inl (fd, dev_name), world)
  ]

  unfoldable pub create_tap : Option (List ℕ) → W → ((ℕ × List ℕ) ⊎ IoError) × W
  unfolding is_os_error create_dev open_and_makedev_dev
  create_tap none world = named_tap (sys.open_tap world)
  create_tap (some dev_name) world =
      and_then (or_exists sys (create_dev sys dev_name world)) (open_given layer_2 dev_name)

  unfoldable pub create_tun : Option (List ℕ) → W → ((ℕ × List ℕ) ⊎ IoError) × W
  unfolding open_and_makedev_dev search_name
  create_tun none world = search_name sys layer_3 (open_and_makedev_dev sys layer_3) 256 0 world
  create_tun (some dev_name) world = open_given layer_3 dev_name world

  abbrev pub create : Layer → Option (List ℕ) → W → ((ℕ × List ℕ) ⊎ IoError) × W
  create layer_2 dev_name world = create_tap dev_name world
  create layer_3 dev_name world = create_tun dev_name world

  -- The answer of SIOCGIFFLAGS, which ENXIO makes false.
  abbrev pub flags_answer : Option IoError × W → (Bool ⊎ IoError) × W
  flags_answer (none, world) = (inl true, world)
  flags_answer (some err, world) = (if is_os_error sys.enxio err then inl false else inr err, world)

  unfoldable pub exists : List ℕ → W → (Bool ⊎ IoError) × W
  unfolding is_os_error
  exists dev_name world =
      and_then (sys.ctl world) (λ world1. flags_answer (sys.siocgifflags dev_name world1))

  abbrev pub refuse_existing : (Bool ⊎ IoError) × W → Option IoError × W
  refuse_existing (inr error, world) = (some error, world)
  refuse_existing (inl true, world) = (some already_exists, world)
  refuse_existing (inl false, world) = (none, world)

  -- What `new` tests before it creates anything.
  unfoldable pub admit : Layer → BsdConfig → W → Option IoError × W
  unfolding check_name exists
  admit layer config world = elim config.dev_name [
    | none ↦ (none, world)
    | some dev_name ↦ elim (check_name sys layer dev_name) [
      | some error ↦ (some error, world)
      | none ↦
          if unwrap_or config.reuse_dev true
          then (none, world)
          else refuse_existing (exists dev_name world)
    ]
  ]

  -- The device, unless TUNSIFHEAD failed; then the descriptor is closed.
  abbrev pub with_head : ℕ → BsdDevice → Option IoError × W → (BsdDevice ⊎ IoError) × W
  with_head fd device (none, world) = (inl device, world)
  with_head fd device (some error, world) = (inr error, sys.close_fd fd world)

  unfoldable pub finish_netbsd :
      BsdConfig → ((ℕ × List ℕ) ⊎ IoError) × W → (BsdDevice ⊎ IoError) × W
  finish_netbsd config (inr error, world) = (inr error, world)
  finish_netbsd config (inl (dev_fd, name), world) =
      let layer = unwrap_or config.layer layer_3 in
      let device : BsdDevice = record {
        name = name;
        fd = some dev_fd;
        ignore_packet_info = is_layer_3 layer && not (unwrap_or config.packet_information false);
        associate_route = is_layer_3 layer && unwrap_or config.associate_route true;
      } in
      if is_layer_3 layer
      then with_head dev_fd device (sys.sioctunsifhead dev_fd world)
      else (inl device, world)

  unfoldable pub new_netbsd : BsdConfig → W → (BsdDevice ⊎ IoError) × W
  unfolding admit create_tap create_tun finish_netbsd
  new_netbsd config world =
      let layer = unwrap_or config.layer layer_3 in
      and_then (admit layer config world)
        (λ world1. finish_netbsd config (create layer config.dev_name world1))

  unfoldable pub from_tun_netbsd : ℕ → W → (BsdDevice ⊎ IoError) × W
  unfolding starts_with
  from_tun_netbsd tun world = elim (sys.name_of_fd tun world) [
    | inr error ↦ (inr error, sys.close_fd tun world)
    | inl name ↦
        let is_tap = starts_with name (device_prefix layer_2) in
        let device : BsdDevice = record {
          name = name;
          fd = some tun;
          ignore_packet_info = not is_tap;
          associate_route = true;
        } in
        if is_tap then (inl device, world) else with_head tun device (sys.sioctunsifhead tun world)
  ]
