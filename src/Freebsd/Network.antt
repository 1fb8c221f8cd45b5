-- ===== src/Freebsd/Network.antt =====
-- src/platform/freebsd/device.rs: the addresses of a device, and the route that an address brings.
use tun_rs.Base.{
  is_os_error, ℕ, zero, suc, Bool, true, false, List, if◌then◌else◌, Option, none, some, ◌⊎◌, inl,
  inr, IoError, invalid_input,
}
use tun_rs.Freebsd.{IpAddr, Freebsd, FreebsdDevice}

module _ {W : Type 0} (sys : Freebsd W) where
  unfoldable pub calc_dest_addr : IpAddr → IpAddr → IpAddr ⊎ IoError
  calc_dest_addr addr netmask = elim (sys.ip_mask_to_prefix netmask) [
    | inr error ↦ inr error
    | inl prefix_len ↦ sys.network_broadcast addr prefix_len
  ]

  module _ (device : FreebsdDevice) where
    -- `add_route`, whose failure is only logged: the state after it.
    unfoldable pub add_route : IpAddr → IpAddr → Bool → W → W
    add_route addr netmask associate_route world =
        if associate_route
        then elim (sys.if_index_impl world) [
          | inr error ↦ world
          | inl if_index ↦ elim (sys.ip_mask_to_prefix netmask) [
            | inr error ↦ world
            | inl prefix_len ↦ (sys.route_add addr prefix_len if_index world).1
          ]
        ]
        else world

    abbrev pub routed : IpAddr → IpAddr → Bool → Option IoError × W → Option IoError × W
    routed addr mask associate_route (none, world) =
        (none, add_route addr mask associate_route world)
    routed addr mask associate_route (some error, world) = (some error, world)

    -- `add_address`.
    unfoldable pub add_address : IpAddr → IpAddr → Option IpAddr → Bool → W → Option IoError × W
    unfolding add_route
    add_address (false, addr) mask dest associate_route world =
        let (failed, world1) = sys.ctl world in
        elim failed [
          | some error ↦ (some error, world1)
          | none ↦ elim (sys.name_of_fd device.fd world1) [
            | inr error ↦ (some error, world1)
            | inl tun_name ↦
                routed (false, addr) mask associate_route
                  (sys.siocaifaddr tun_name (false, addr) mask dest world1)
          ]
        ]
    add_address (true, addr) (false, mask) dest associate_route world = (some invalid_input, world)
    add_address (true, addr) (true, mask) dest associate_route world =
        elim (sys.name_of_fd device.fd world) [
          | inr error ↦ (some error, world)
          | inl tun_name ↦
              let (failed, world1) = sys.ctl_v6 world in
              elim failed [
                | some error ↦ (some error, world1)
                | none ↦ sys.siocaifaddr_in6 tun_name (true, addr) (true, mask) world1
              ]
        ]

    -- The loop of `remove_all_address_v4`: none when the fuel does not last.
    unfoldable pub remove_until : ℕ → List ℕ → W → Option (Option IoError × W)
    unfolding is_os_error
    remove_until zero name world = none
    remove_until (suc fuel) name world =
        let (failed, world1) = sys.ctl world in
        let (removed, world2) = sys.siocdifaddr name world1 in
        let again = remove_until fuel name world2 in
        elim failed [
          | some error ↦ some (some error, world1)
          | none ↦ elim removed [
            | none ↦ again
            | some err ↦
                if is_os_error sys.eaddrnotavail err
                then some (none, world2)
                else some (some err, world2)
          ]
        ]

    unfoldable pub remove_all_address_v4 : ℕ → W → Option (Option IoError × W)
    unfolding remove_until
    remove_all_address_v4 fuel world = elim (sys.name_of_fd device.fd world) [
      | inr error ↦ some (some error, world)
      | inl name ↦ remove_until fuel name world
    ]

    -- `set_network_address_impl`. The arguments stand as what their conversion answers.
    unfoldable pub destination_of :
        (ℕ ⊎ IoError) → (ℕ ⊎ IoError) → Option (ℕ ⊎ IoError) → (IpAddr × IpAddr × IpAddr) ⊎ IoError
    unfolding calc_dest_addr
    destination_of (inr error) netmask destination = inr error
    destination_of (inl addr) (inr error) destination = inr error
    destination_of (inl addr) (inl mask) destination =
        elim (calc_dest_addr (false, addr) (false, mask)) [
          | inr error ↦ inr error
          | inl default_dest ↦ elim destination [
            | none ↦ inl ((false, addr), (false, mask), default_dest)
            | some given ↦ elim given [
              | inr error ↦ inr error
              | inl dest ↦ inl ((false, addr), (false, mask), (false, dest))
            ]
          ]
        ]

    abbrev pub then_add :
        IpAddr × IpAddr × IpAddr → Bool → Option (Option IoError × W) → Option (Option IoError × W)
    then_add request associate_route none = none
    then_add request associate_route (some (some error, world)) = some (some error, world)
    then_add (addr, mask, dest) associate_route (some (none, world)) =
        some (add_address addr mask (some dest) associate_route world)

    unfoldable pub set_network_address :
        ℕ → (ℕ ⊎ IoError) → (ℕ ⊎ IoError) → Option (ℕ ⊎ IoError) → W → Option (Option IoError × W)
    unfolding destination_of remove_all_address_v4 add_address
    set_network_address fuel address netmask destination world =
        elim (destination_of address netmask destination) [
          | inr error ↦ some (some error, world)
          | inl request ↦ then_add request device.associate_route (remove_all_address_v4 fuel world)
        ]
