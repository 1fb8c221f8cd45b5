-- ===== src/Bsd.antt =====
-- src/platform/openbsd/device.rs and src/platform/netbsd/device.rs: how a device node is opened, and made
-- where it is missing. Bsd/Openbsd.antt and Bsd/Netbsd.antt have what is different. The system calls, the
-- MAKEDEV script and the parsing and printing of a number are parameters, on the state `W` of the system.
pub mod Openbsd
pub mod Netbsd
pub mod Named
mod Tests
use tun_rs.Base.{
  starts_with, is_os_error, ℕ, zero, suc, ◌+◌, Bool, true, false, not, List, [], ◌∷◌, ◌++◌, ltb,
  if◌then◌else◌, length, Option, none, some, ◌⊎◌, inl, inr, IoError, name_too_long, name_prefix,
  makedev_failed,
}
use tun_rs.Builder.Device.{Layer}
use tun_rs.Freebsd.{device_prefix}
use tun_rs.Device.Config.{and_then}

-- The settings of `DeviceConfig` that open a device here; OpenBSD has no use for `reuse_dev`.
pub record BsdConfig : Type 0 where
  pub dev_name : Option (List ℕ)
  pub layer : Option Layer
  pub reuse_dev : Option Bool
  pub packet_information : Option Bool
  pub associate_route : Option Bool

-- `DeviceImpl`, by the descriptor of its `Tun`, which is none for -1, and the setting of it.
pub record BsdDevice : Type 0 where
  pub name : List ℕ
  pub fd : Option ℕ
  pub ignore_packet_info : Bool
  pub associate_route : Bool

-- The calls: opening /dev/tun<i> or /dev/tap<i>, and /dev/tap; the exit of `sh MAKEDEV <name>`, true for
-- success; the control socket; the ioctls by the name of the interface or the descriptor.
pub record Bsd (W : Type 0) : Type 0 where
  pub ifnamsiz : ℕ
  pub enoent : ℕ
  pub eexist : ℕ
  pub ebusy : ℕ
  pub enxio : ℕ
  pub parse_u32 : List ℕ → ℕ ⊎ IoError
  pub print : ℕ → List ℕ
  pub open_dev : Layer → ℕ → W → (ℕ ⊎ IoError) × W
  pub open_tap : W → (ℕ ⊎ IoError) × W
  pub close_fd : ℕ → W → W
  pub last_os_error : W → IoError
  pub status : List ℕ → W → (Bool ⊎ IoError) × W
  pub ctl : W → Option IoError × W
  pub siocifcreate : List ℕ → W → Option IoError × W
  pub siocifdestroy : List ℕ → W → Option IoError × W
  pub siocgifflags : List ℕ → W → Option IoError × W
  pub sioctunsifhead : ℕ → W → Option IoError × W
  pub tapgifname : ℕ → W → List ℕ ⊎ IoError
  pub name_of_fd : ℕ → W → List ℕ ⊎ IoError

module _ {W : Type 0} (sys : Bsd W) where
  unfoldable pub check_name : Layer → List ℕ → Option IoError
  unfolding starts_with
  check_name layer dev_name =
      if ltb sys.ifnamsiz (length dev_name)
      then some name_too_long
      else (if not (starts_with dev_name (device_prefix layer)) then some name_prefix else none)

  abbrev pub makedev_exit : (Bool ⊎ IoError) × W → Option IoError × W
  makedev_exit (inl true, world) = (none, world)
  makedev_exit (inl false, world) = (some makedev_failed, world)
  makedev_exit (inr error, world) = (some error, world)

  unfoldable pub makedev_dev : List ℕ → W → Option IoError × W
  makedev_dev name world = makedev_exit (sys.status name world)

  unfoldable pub create_dev : List ℕ → W → Option IoError × W
  create_dev name world =
      let (failed, world1) = sys.ctl world in
      elim failed [ some error ↦ (some error, world1) | none ↦ sys.siocifcreate name world1 ]

  -- `create_dev`, for which an interface that is already there is no error.
  abbrev pub or_exists : Option IoError × W → Option IoError × W
  or_exists (none, world) = (none, world)
  or_exists (some e, world) = (if is_os_error sys.eexist e then none else some e, world)

  -- The three arms of `match Fd::new(fd)`: what follows where the node is not found.
  abbrev pub if_not_found : (ℕ ⊎ IoError) × W → (W → (ℕ ⊎ IoError) × W) → (ℕ ⊎ IoError) × W
  if_not_found (inl fd, world) later = (inl fd, world)
  if_not_found (inr e, world) later =
      if is_os_error sys.enoent e then later world else (inr e, world)

  -- `open_and_makedev_dev`, with the path as the layer and the index in it.
  unfoldable pub open_and_makedev_dev : Layer → List ℕ → ℕ → W → (ℕ ⊎ IoError) × W
  unfolding is_os_error makedev_dev
  open_and_makedev_dev layer dev_name index world =
      if_not_found (sys.open_dev layer index world)
        (λ world1. and_then (makedev_dev dev_name world1) (sys.open_dev layer index))

  -- `Ok((fd, dev_name))`.
  abbrev pub with_name : List ℕ → (ℕ ⊎ IoError) × W → ((ℕ × List ℕ) ⊎ IoError) × W
  with_name dev_name (inl fd, world) = (inl (fd, dev_name), world)
  with_name dev_name (inr error, world) = (inr error, world)

  -- A round of the search: what follows where the device is busy.
  abbrev pub if_busy :
      List ℕ → (ℕ ⊎ IoError) × W → (W → ((ℕ × List ℕ) ⊎ IoError) × W) → ((ℕ × List ℕ) ⊎ IoError) × W
  if_busy dev_name (inl fd, world) later = (inl (fd, dev_name), world)
  if_busy dev_name (inr e, world) later =
      if is_os_error sys.ebusy e then later world else (inr e, world)

  -- `for index in 0..256`, with the rounds that are left and how a node is opened.
  unfoldable pub search_name :
      Layer → (List ℕ → ℕ → W → (ℕ ⊎ IoError) × W) → ℕ → ℕ → W → ((ℕ × List ℕ) ⊎ IoError) × W
  unfolding is_os_error
  search_name layer open_node zero index world = (inr (sys.last_os_error world), world)
  search_name layer open_node (suc left) index world =
      let dev_name = device_prefix layer ++ sys.print index in
      if_busy dev_name (open_node dev_name index world)
        (search_name layer open_node left (index + 1))

  -- The interface is destroyed if a control socket is there, and the descriptor closed.
  unfoldable pub drop_bsd : BsdDevice → W → W
  drop_bsd device world = elim device.fd [
    | none ↦ world
    | some fd ↦
        let (failed, world1) = sys.ctl world in
        elim failed [
          | some error ↦ sys.close_fd fd world1
          | none ↦ sys.close_fd fd (sys.siocifdestroy device.name world1).1
        ]
  ]

  -- `into_raw_fd`: the descriptor, and the state after the device has been dropped without it.
  unfoldable pub into_raw_fd : BsdDevice → W → Option ℕ × W
  unfolding drop_bsd
  into_raw_fd device world = (
    device.fd,
    drop_bsd
        (record {
          name = device.name;
          fd = none;
          ignore_packet_info = device.ignore_packet_info;
          associate_route = device.associate_route;
        })
        world,
  )
