-- ===== src/Freebsd/Addresses.antt =====
-- Removing every IPv4 address of an interface, and setting another in their place.
use tun_rs.Base.{
  is_os_error, ℕ, zero, suc, ◌≡◌, refl, ◌∙◌, ◌<◌, ◌⊎◌, inl, inr, true, false, Bool, ap, sym, List,
  Option, none, some, IoError, arith,
}
use tun_rs.Freebsd.{IpAddr, Freebsd, FreebsdDevice}
use tun_rs.Freebsd.Network.{
  remove_until, remove_all_address_v4, destination_of, calc_dest_addr, add_route, routed,
  add_address, set_network_address,
}

-- An interface with a number of IPv4 addresses: a control socket is there and does not change it; SIOCDIFADDR
-- takes one address away, and without any fails with EADDRNOTAVAIL; SIOCAIFADDR adds one where it succeeds,
-- and a route does not change them.
pub record Counted {W : Type 0} (sys : Freebsd W) (name : List ℕ) : Type 0 where
  pub count : W → ℕ
  pub ctl_ok : (w : W) → ((sys.ctl w).0 ≡ none) × (count (sys.ctl w).1 ≡ count w)
  pub takes :
      (w : W) (n : ℕ)
      → count w ≡ suc n
      → ((sys.siocdifaddr name w).0 ≡ none) × (count (sys.siocdifaddr name w).1 ≡ n)
  pub empty :
      (w : W)
      → count w ≡ 0
      → (e : IoError) × ((sys.siocdifaddr name w).0 ≡ some e)
        × (is_os_error sys.eaddrnotavail e ≡ true)
        × (count (sys.siocdifaddr name w).1 ≡ 0)
  pub adds :
      (w : W) (addr mask dest : IpAddr)
      → (sys.siocaifaddr name addr mask (some dest) w).0 ≡ none
      → count (sys.siocaifaddr name addr mask (some dest) w).1 ≡ suc (count w)
  pub routes :
      (w : W) (addr : IpAddr) (len index : ℕ) → count (sys.route_add addr len index w).1 ≡ count w

Sum-cases : {A : Type 0} (x : A ⊎ IoError) → ((a : A) × (x ≡ inl a)) ⊎ ((e : IoError) × (x ≡ inr e))
Sum-cases (inl a) = inl (a, refl)
Sum-cases (inr e) = inr (e, refl)

module _ {W : Type 0} (sys : Freebsd W) (device : FreebsdDevice) (name : List ℕ)
    (laws : Counted sys name) where
  remove_until_from :
      (fuel : ℕ) (w : W) (n : ℕ)
      → laws.count w ≡ n
      → n < fuel
      → (w1 : W) × (remove_until sys device fuel name w ≡ some (none, w1)) × (laws.count w1 ≡ 0)
  unfolding remove_until
  remove_until_from zero w n c h = absurd (omega arith)
  remove_until_from (suc fuel) w zero c h =
      let (ready, same) = laws.ctl_ok w in
      let (e, failed, code, none_left) = laws.empty (sys.ctl w).1 (same ∙ c) in
      ((sys.siocdifaddr name (sys.ctl w).1).1, ground (arith, ready, failed, code), none_left)
  remove_until_from (suc fuel) w (suc n) c h =
      let (ready, same) = laws.ctl_ok w in
      let (taken, fewer) = laws.takes (sys.ctl w).1 n (same ∙ c) in
      let (w1, ends, none_left) =
        remove_until_from fuel (sys.siocdifaddr name (sys.ctl w).1).1 n fewer (omega arith) in
      (w1, ground (arith, ready, taken, ends), none_left)

  -- An error of the conversions: of the address, the netmask or the destination, or of the broadcast
  -- address of their network, which is the destination where none is given.
  abbrev pub Wrong : ℕ ⊎ IoError → ℕ ⊎ IoError → Option (ℕ ⊎ IoError) → IoError → Type 0
  Wrong address netmask destination e =
      (address ≡ inr e)
      ⊎ ((netmask ≡ inr e)
          ⊎ ((destination ≡ some (inr e))
              ⊎ ((a m : ℕ) × (address ≡ inl a)
                  × (netmask ≡ inl m)
                  × ((sys.ip_mask_to_prefix (false, m) ≡ inr e)
                      ⊎ ((len : ℕ) × (sys.ip_mask_to_prefix (false, m) ≡ inl len)
                          × (sys.network_broadcast (false, a) len ≡ inr e))))))

  -- What is to be set: the address and the mask, and the destination, or without one the broadcast address.
  abbrev pub Asked : ℕ ⊎ IoError → ℕ ⊎ IoError → Option (ℕ ⊎ IoError) → ℕ → ℕ → IpAddr → Type 0
  Asked address netmask destination a m dest =
      (address ≡ inl a)
      × (netmask ≡ inl m)
      × (((destination ≡ none)
            × (len : ℕ) × (sys.ip_mask_to_prefix (false, m) ≡ inl len)
            × (sys.network_broadcast (false, a) len ≡ inl dest))
          ⊎ ((d : ℕ) × (destination ≡ some (inl d)) × (dest ≡ (false, d))))

  calc_cases :
      (a m : ℕ)
      → ((b : IpAddr) × (calc_dest_addr sys (false, a) (false, m) ≡ inl b)
          × (len : ℕ) × (sys.ip_mask_to_prefix (false, m) ≡ inl len)
          × (sys.network_broadcast (false, a) len ≡ inl b))
        ⊎ ((e : IoError) × (calc_dest_addr sys (false, a) (false, m) ≡ inr e)
            × ((sys.ip_mask_to_prefix (false, m) ≡ inr e)
                ⊎ ((len : ℕ) × (sys.ip_mask_to_prefix (false, m) ≡ inl len)
                    × (sys.network_broadcast (false, a) len ≡ inr e))))
  unfolding calc_dest_addr
  calc_cases a m = elim (Sum-cases (sys.ip_mask_to_prefix (false, m))) [
    | inr (e, bad) ↦ inr (e, rw (bad, calc_dest_addr) refl, inl bad)
    | inl (len, good) ↦ elim (Sum-cases (sys.network_broadcast (false, a) len)) [
      | inr (e, bad) ↦ inr (e, rw (good, calc_dest_addr) bad, inr (len, good, bad))
      | inl (b, fine) ↦ inl (b, rw (good, calc_dest_addr) fine, len, good, fine)
    ]
  ]

  destination_cases :
      (address netmask : ℕ ⊎ IoError) (destination : Option (ℕ ⊎ IoError))
      → ((e : IoError) × Wrong address netmask destination e
          × (destination_of sys device address netmask destination ≡ inr e))
        ⊎ ((a m : ℕ) × (dest : IpAddr) × Asked address netmask destination a m dest
            × (destination_of sys device address netmask destination
                ≡ inl ((false, a), (false, m), dest)))
  unfolding destination_of
  destination_cases (inr e) netmask destination = inl (e, inl refl, refl)
  destination_cases (inl a) (inr e) destination = inl (e, inr (inl refl), refl)
  destination_cases (inl a) (inl m) destination = elim (calc_cases a m) [
    | inr (e, bad, why) ↦
        inl (e, inr (inr (inr (a, m, refl, refl, why))), rw (bad, destination_of) refl)
    | inl (b, fine, len, prefix, network) ↦ chosen b fine len prefix network destination
  ]
    where
      chosen :
          (b : IpAddr)
          → calc_dest_addr sys (false, a) (false, m) ≡ inl b
          → (len : ℕ) → sys.ip_mask_to_prefix (false, m) ≡ inl len
          → sys.network_broadcast (false, a) len ≡ inl b
          → (destination : Option (ℕ ⊎ IoError))
          → ((e : IoError) × Wrong (inl a) (inl m) destination e
              × (destination_of sys device (inl a) (inl m) destination ≡ inr e))
            ⊎ ((a1 m1 : ℕ) × (dest : IpAddr) × Asked (inl a) (inl m) destination a1 m1 dest
                × (destination_of sys device (inl a) (inl m) destination
                    ≡ inl ((false, a1), (false, m1), dest)))
      chosen b fine len prefix network none =
          inr (
            a,
            m,
            b,
            (refl, refl, inl (refl, len, prefix, network)),
            rw (fine, destination_of) refl,
          )
      chosen b fine len prefix network (some (inr e)) =
          inl (e, inr (inr (inl refl)), rw (fine, destination_of) refl)
      chosen b fine len prefix network (some (inl d)) =
          inr (a, m, (false, d), (refl, refl, inr (d, refl, refl)), rw (fine, destination_of) refl)

  module _ (named : (w : W) → sys.name_of_fd device.fd w ≡ inl name) where
    add_route-count :
        (addr mask : IpAddr) (wanted : Bool) (w : W)
        → laws.count (add_route sys device addr mask wanted w) ≡ laws.count w
    unfolding add_route
    add_route-count addr mask false w = refl
    add_route-count addr mask true w = elim (Sum-cases (sys.if_index_impl w)) [
      | inr (e, bad) ↦ rw (bad, add_route) refl
      | inl (index, found) ↦ elim (Sum-cases (sys.ip_mask_to_prefix mask)) [
        | inr (e, bad) ↦ rw (found, add_route) (rw (bad, add_route) refl)
        | inl (len, prefix) ↦
            rw (found, add_route) (rw (prefix, add_route) (laws.routes w addr len index))
      ]
    ]

    -- Where an address is asked for by SIOCAIFADDR in a state without addresses, what becomes of it: its
    -- error, or the address is the only one.
    abbrev pub Added : ℕ → ℕ → IpAddr → Option IoError × W → Type 0
    Added a m dest result =
        (w1 : W) × (laws.count w1 ≡ 0)
        × (((e : IoError) × ((sys.siocaifaddr name (false, a) (false, m) (some dest) w1).0 ≡ some e)
              × (result ≡ (some e, (sys.siocaifaddr name (false, a) (false, m) (some dest) w1).1)))
            ⊎ ((sys.siocaifaddr name (false, a) (false, m) (some dest) w1).0 ≡ none)
              × (result.0 ≡ none)
              × (laws.count result.1 ≡ 1))

    add_address-Added :
        (a m : ℕ) (dest : IpAddr) (wanted : Bool) (w : W)
        → laws.count w ≡ 0
        → Added a m dest (add_address sys device (false, a) (false, m) (some dest) wanted w)
    unfolding add_address
    add_address-Added a m dest wanted w empty =
        let (ready, same) = laws.ctl_ok w in
        let w1 = (sys.ctl w).1 in
        let added = sys.siocaifaddr name (false, a) (false, m) (some dest) w1 in
        let shape : add_address sys device (false, a) (false, m) (some dest) wanted w
            ≡ routed sys device (false, a) (false, m) wanted added =
          rw (ready, add_address) (rw (named w1, add_address) refl) in
        (w1, same ∙ empty, rw shape (answer added refl (same ∙ empty)))
      where
        answer :
            (x : Option IoError × W)
            → sys.siocaifaddr name (false, a) (false, m) (some dest) (sys.ctl w).1 ≡ x
            → laws.count (sys.ctl w).1 ≡ 0
            → ((e : IoError) × (x.0 ≡ some e)
                × (routed sys device (false, a) (false, m) wanted x ≡ (some e, x.1)))
              ⊎ (x.0 ≡ none)
                × ((routed sys device (false, a) (false, m) wanted x).0 ≡ none)
                × (laws.count (routed sys device (false, a) (false, m) wanted x).1 ≡ 1)
        answer (some e, w2) same none_yet = inl (e, refl, refl)
        answer (none, w2) same none_yet =
            let more = laws.adds (sys.ctl w).1 (false, a) (false, m) dest (ap (λ t. t.0) same) in
            let one : laws.count w2 ≡ 1 =
              ap (λ t. laws.count t.1) (sym same) ∙ more ∙ ap suc none_yet in
            inr (refl, refl, add_route-count (false, a) (false, m) wanted w2 ∙ one)

    -- On an interface with a name, and with fewer addresses than there is fuel, setting a network address
    -- ends. If the address, the netmask, the destination or the broadcast address of the network is
    -- wrong, the error is returned and nothing has changed. Otherwise every IPv4 address is removed, and
    -- then the one that was asked for, with its mask and destination, is requested: where that fails, its
    -- error is returned; where it succeeds, it is the only address of the interface.
    pub set_network_address_lem :
        (fuel : ℕ) (world : W) (address netmask : ℕ ⊎ IoError) (destination : Option (ℕ ⊎ IoError))
        → laws.count world < fuel
        → ((e : IoError) × Wrong address netmask destination e
            × (set_network_address sys device fuel address netmask destination world
                ≡ some (some e, world)))
          ⊎ ((a m : ℕ) × (dest : IpAddr) × (result : Option IoError × W) × Asked address netmask
                destination a m dest
              × (set_network_address sys device fuel address netmask destination world
                  ≡ some result)
              × Added a m dest result)
    unfolding set_network_address remove_all_address_v4
    set_network_address_lem fuel world address netmask destination enough =
        elim (destination_cases address netmask destination) [
          | inl (e, why, same) ↦ inl (e, why, rw (same, set_network_address) refl)
          | inr (a, m, dest, asked, same) ↦
              let (w1, ends, none_left) =
                remove_until_from fuel world (laws.count world) refl enough in
              inr (
                a,
                m,
                dest,
                add_address sys device (false, a) (false, m) (some dest) device.associate_route w1,
                asked,
                rw (same, set_network_address)
                    (rw (named world, remove_all_address_v4) (rw ends refl)),
                add_address-Added a m dest device.associate_route w1 none_left,
              )
        ]
