-- ===== src/Bsd/Openbsd.antt =====
-- src/platform/openbsd/device.rs: `new` and `from_tun`, and the interface that is created where there is
-- no node.
use tun_rs.Base.{
  starts_with, is_os_error, ℕ, true, false, not, ◌&&◌, List, drop, if◌then◌else◌, Option, none,
  some, ◌⊎◌, inl, inr, IoError, name_prefix,
}
use tun_rs.Builder.Device.{Layer, layer_2, layer_3}
use tun_rs.Freebsd.{device_prefix, is_layer_3}
use tun_rs.Device.Open.{unwrap_or}
use tun_rs.Device.Config.{and_then}
use tun_rs.Bsd.{
  BsdConfig, BsdDevice, Bsd, check_name, create_dev, or_exists, if_not_found, open_and_makedev_dev,
  with_name, search_name,
}

module _ {W : Type 0} (sys : Bsd W) where
  unfoldable pub open_create_dev : Layer → List ℕ → ℕ → W → (ℕ ⊎ IoError) × W
  unfolding is_os_error create_dev open_and_makedev_dev
  open_create_dev layer dev_name index world =
      if_not_found sys (sys.open_dev layer index world) (λ world1.
        and_then (or_exists sys (create_dev sys dev_name world1))
          (open_and_makedev_dev sys layer dev_name index))

  unfoldable pub create_tuntap : Layer → Option (List ℕ) → W → ((ℕ × List ℕ) ⊎ IoError) × W
  unfolding starts_with open_create_dev search_name
  create_tuntap layer none world = search_name sys layer (open_create_dev layer) 256 0 world
  create_tuntap layer (some dev_name) world =
      if not (starts_with dev_name (device_prefix layer))
      then (inr name_prefix, world)
      else elim (sys.parse_u32 (drop 3 dev_name)) [
        | inr error ↦ (inr error, world)
        | inl if_index ↦ with_name sys dev_name (open_create_dev layer dev_name if_index world)
      ]

  abbrev pub checked : Layer → Option (List ℕ) → Option IoError
  checked layer none = none
  checked layer (some dev_name) = check_name sys layer dev_name

  unfoldable pub new_openbsd : BsdConfig → W → (BsdDevice ⊎ IoError) × W
  unfolding check_name create_tuntap
  new_openbsd config world =
      let layer = unwrap_or config.layer layer_3 in
      let (created, world1) = create_tuntap layer config.dev_name world in
      elim (checked layer config.dev_name) [
        | some error ↦ (inr error, world)
        | none ↦ elim created [
          | inr error ↦ (inr error, world1)
          | inl (dev_fd, name) ↦ (
            inl (record {
              name = name;
              fd = some dev_fd;
              ignore_packet_info =
                  is_layer_3 layer && not (unwrap_or config.packet_information false);
              associate_route = is_layer_3 layer && unwrap_or config.associate_route true;
            }),
            world1,
          )
        ]
      ]

  unfoldable pub from_tun_openbsd : ℕ → W → (BsdDevice ⊎ IoError) × W
  unfolding starts_with
  from_tun_openbsd tun world = elim (sys.name_of_fd tun world) [
    | inr error ↦ (inr error, sys.close_fd tun world)
    | inl name ↦ (
      inl (record {
        name = name;
        fd = some tun;
        ignore_packet_info = not (starts_with name (device_prefix layer_2));
        associate_route = true;
      }),
      world,
    )
  ]
