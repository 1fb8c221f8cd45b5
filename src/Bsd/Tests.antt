-- ===== src/Bsd/Tests.antt =====
-- A system on which tun0 is in use and some nodes are missing.
use tun_rs.Base.{
  ℕ, ◌+◌, ◌-◌, ◌*◌, ◌/◌, ◌%◌, ◌<◌, ◌≡◌, refl, Bool, true, false, List, [], ◌∷◌, ltb, ◌==◌,
  if◌then◌else◌, Option, none, some, ◌⊎◌, inl, inr, IoError, os_error, already_exists,
  makedev_failed, arith,
}
use tun_rs.Builder.Device.{layer_3}
use tun_rs.Bsd.{open_and_makedev_dev, BsdConfig, BsdDevice, Bsd, into_raw_fd, drop_bsd}
use tun_rs.Bsd.Openbsd.{open_create_dev, create_tuntap, new_openbsd}
use tun_rs.Bsd.Netbsd.{create_tun, new_netbsd}
use tun_rs.Bsd.Named.{Named, Searched, create-Named}

abbrev read_digits : ℕ → List ℕ → ℕ ⊎ IoError
read_digits n [] = inl n
read_digits n (c ∷ digits) = read_digits (10 * n + (c - 48)) digits

abbrev digits_of : ℕ → List ℕ
digits_of i =
    if ltb i 10
    then (48 + i) ∷ []
    else (if ltb i 100
        then (48 + i / 10) ∷ (48 + i % 10) ∷ []
        else (48 + i / 100) ∷ (48 + (i / 10) % 10) ∷ (48 + i % 10) ∷ [])

-- The state is the number of nodes that are there; MAKEDEV makes the next one.
abbrev sys : Bsd ℕ
sys = record {
  ifnamsiz = 16;
  enoent = 2;
  eexist = 17;
  ebusy = 16;
  enxio = 6;
  parse_u32 = read_digits 0;
  print = digits_of;
  open_dev = λ layer i world. (
    if i == 0 then inr (os_error 16) else (if ltb i world then inl (i + 2) else inr (os_error 2)),
    world,
  );
  open_tap = λ world. (inl 9, world);
  close_fd = λ fd world. world;
  last_os_error = λ world. os_error 16;
  status = λ name world. (inl (ltb world 4), world + 1);
  ctl = λ world. (none, world);
  siocifcreate = λ name world. (some (os_error 17), world);
  siocifdestroy = λ name world. (none, world - 1);
  siocgifflags = λ name world. (none, world);
  sioctunsifhead = λ fd world. (none, world);
  tapgifname = λ fd world. inl (b't' ∷ b'a' ∷ b'p' ∷ b'9' ∷ []);
  name_of_fd = λ fd world. inr (os_error 2);
}

parse_print : (i : ℕ) → i < 256 → read_digits 0 (digits_of i) ≡ inl i
parse_print i h = ground arith

abbrev tun1 : List ℕ
tun1 = b't' ∷ b'u' ∷ b'n' ∷ b'1' ∷ []

abbrev tun01 : List ℕ
tun01 = b't' ∷ b'u' ∷ b'n' ∷ b'0' ∷ b'1' ∷ []

abbrev config_of : Option (List ℕ) → Bool → BsdConfig
config_of dev_name reuse_dev = record {
  dev_name = dev_name;
  layer = none;
  reuse_dev = some reuse_dev;
  packet_information = none;
  associate_route = none;
}

abbrev device_1 : BsdDevice
device_1 = record { name = tun1; fd = some 3; ignore_packet_info = true; associate_route = true }

makes_node : new_openbsd sys (config_of none true) 1 ≡ (inl device_1, 2)
unfolding new_openbsd
makes_node = refl

makes_node_netbsd : new_netbsd sys (config_of none true) 1 ≡ (inl device_1, 2)
unfolding new_netbsd
makes_node_netbsd = refl

-- The node is missing, and MAKEDEV fails.
no_node :
    create_tuntap sys layer_3 (some (b't' ∷ b'u' ∷ b'n' ∷ b'7' ∷ [])) 4 ≡ (inr makedev_failed, 5)
unfolding create_tuntap
no_node = refl

-- A name with a leading zero opens tun1, and is kept as the name of the device.
leading_zero : create_tuntap sys layer_3 (some tun01) 4 ≡ (inl (3, tun01), 4)
unfolding create_tuntap
leading_zero = refl

refuses_existing : new_netbsd sys (config_of (some tun1) false) 4 ≡ (inr already_exists, 4)
unfolding new_netbsd
refuses_existing = refl

destroyed : drop_bsd sys device_1 4 ≡ 3
unfolding drop_bsd
destroyed = refl

-- A device that has given up its descriptor is not destroyed.
kept_interface : into_raw_fd sys device_1 4 ≡ (some 3, 4)
unfolding into_raw_fd
kept_interface = refl

create-Named_example :
    Named sys none layer_3 (create_tuntap sys layer_3 none 1)
    × Named sys none layer_3 (create_tun sys none 1)
    × Searched sys layer_3 (open_create_dev sys layer_3) 256 0 1 (create_tuntap sys layer_3 none 1)
    × Searched sys layer_3 (open_and_makedev_dev sys layer_3) 256 0 1 (create_tun sys none 1)
create-Named_example = create-Named sys parse_print layer_3 none 1
