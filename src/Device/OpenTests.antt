-- ===== src/Device/OpenTests.antt =====
-- A driver that keeps requests as they are and refuses offloads, or grants them.
use tun_rs.Base.{
  ℕ, ◌+◌, ◌≤◌, ◌≡◌, refl, Bool, true, false, not, ◌&&◌, List, [], ◌∷◌, length, Option, none, some,
  inl, IoError, os_error, arith,
}
use tun_rs.Builder.Device.{DeviceConfig}
use tun_rs.Device.Open.{
  linux, TunDriver, DeviceImpl, c_str, checked_name, name_field, dev_name_of, request_flags, new,
  try_clone, unwrap_or,
}
use tun_rs.Device.Open.Offload.{has_flag, new_flags, new-offload_refused, try_clone-new}
use tun_rs.Device.Open.Names.{checked_name_bounds}
use tun_rs.Device.Config.{Interface, ifru_flags, finish, enabled, enabled_flags}
use tun_rs.Device.Config.Flags.{bit, enabled-bit}

-- The state is the next descriptor.
abbrev driver : Option IoError → TunDriver ℕ
driver refusal = record {
  make_node = λ world. world;
  open_tun = λ world. (inl world, world + 1);
  tunsetiff = λ fd req world. (inl req, world);
  tunsetoffload = λ fd mask world. (refusal, world);
  tungetiff = λ fd world. inl (b't' ∷ b'0' ∷ 0 ∷ []);
  close_fd = λ fd world. world;
}

abbrev t0 : List ℕ
t0 = b't' ∷ b'0' ∷ []

abbrev config : DeviceConfig (List ℕ)
config = record {
  dev_name = some t0;
  layer = none;
  packet_information = none;
  offload = some true;
  multi_queue = some true;
}

-- IFF_TUN | IFF_NO_PI | IFF_MULTI_QUEUE | IFF_VNET_HDR.
abbrev opened : Bool → DeviceImpl
opened granted = record { tun = 3; vnet_hdr = granted; udp_gso = granted; flags = 0x5101 }

named : dev_name_of linux config.dev_name ≡ inl config.dev_name
unfolding dev_name_of
named = refl

opens : new linux (driver none) config 3 ≡ (inl (opened true), 4)
unfolding new
opens = refl

clones : try_clone linux (driver none) (opened true) 4 ≡ (inl (record (opened true) { tun = 4 }), 5)
unfolding try_clone
clones = refl

new_flags_example :
    (has_flag 0x5101 0x100 ≡ true)
    × (has_flag 0x5101 0x4000 ≡ true)
    × (true && not (has_flag 0x5101 0x4000) ≡ false)
    × (has_flag 0x5101 1 ≡ true)
    × (has_flag 0x5101 2 ≡ false)
    × (has_flag 0x5101 0x1000 ≡ true)
new_flags_example =
    new_flags (driver none) config 3 4 (opened true)
      (λ fd req world req1 world1 h. ground (arith, h)) opens

try_clone-new_example :
    (unwrap_or config.multi_queue false ≡ true)
    × (record (opened true) { tun = 4 } ≡ record (opened true) { tun = 4 })
try_clone-new_example =
    try_clone-new (driver none) config 3 4 4 5 (opened true) (record (opened true) { tun = 4 })
      (λ fd req world req1 world1 h. ground (arith, h)) opens clones

new-offload_refused_example :
    (device : DeviceImpl) × (new linux (driver (some (os_error 22))) config 3 ≡ (inl device, 4))
    × (device.vnet_hdr ≡ false)
    × (has_flag device.flags 0x4000 ≡ true)
new-offload_refused_example =
    new-offload_refused (driver (some (os_error 22))) config 3 4 4 4 config.dev_name 3
      (record {
        ifr_name = name_field linux config.dev_name;
        ifru_flags = request_flags linux config;
      })
      (os_error 22) (λ fd req world req1 world1 h. ground (arith, h)) named refl refl refl refl

accepted : checked_name linux t0 ≡ inl t0
unfolding checked_name
accepted = refl

checked_name_bounds_example :
    (◌≡◌ {A = List ℕ} t0 t0)
    × (length t0 + 1 ≤ 16)
    × (length (name_field linux (some t0)) ≡ 16)
    × (c_str (name_field linux (some t0)) ≡ t0)
checked_name_bounds_example = checked_name_bounds linux t0 t0 accepted

-- An interface whose flags are the state.
abbrev interface : Interface ℕ
interface = record {
  name_impl = λ world. inl t0;
  ctl = λ world. (none, world);
  ctl_v6 = λ world. (none, world);
  set_ifru = λ name ifru world. (none, elim ifru [ ifru_flags flags ↦ flags | _ ↦ world ]);
  siocgifflags = λ name world. inl world;
  siocgifmtu = λ name world. inl 1500;
  siocgifhwaddr = λ name world. inl [];
  tx_queue_len_call = λ name world. inl 500;
  if_index_impl = λ world. inl 2;
  siocsifaddr_in6 = λ index prefix address world. (none, world);
  siocdifaddr_in6 = λ index prefix address world. (none, world);
  addresses = λ index world. inl [];
  remove_call = λ index address world. (none, world);
  add_call = λ index address world. (none, world);
  if_addrs = λ name world. inl [];
}

enabled-bit_example :
    (enabled linux 1 64 1 interface true 0x1002
      ≡ finish (
          interface.set_ifru t0
            (ifru_flags (enabled_flags linux 1 64 1 interface true 0x1002))
            0x1002))
    × (bit 6 (enabled_flags linux 1 64 1 interface true 0x1002) ≡ 1)
    × (enabled linux 1 64 1 interface false 0x1002
        ≡ finish (
            interface.set_ifru t0
              (ifru_flags (enabled_flags linux 1 64 1 interface false 0x1002))
              0x1002))
    × (bit 6 (enabled_flags linux 1 64 1 interface false 0x1002) ≡ 0)
enabled-bit_example =
    enabled-bit linux 1 interface 0x1002 0x1002 t0 0x1002 6 refl refl refl (omega arith)
