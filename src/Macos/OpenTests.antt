-- ===== src/Macos/OpenTests.antt =====
-- A system on which the connection of the socket fails.
use tun_rs.Base.{
  ap, suc, arith, false, ℕ, ◌+◌, ◌-◌, ◌≡◌, refl, List, [], ◌∷◌, ◌++◌, replicate, none, some, inl,
  inr, os_error,
}
use tun_rs.Macos.Open.{FethConfig, Darwin, new_pair, utun_unit, feth, utun}
use tun_rs.Macos.Open.Cleanup.{Counts, Ledger}

abbrev named : ℕ → List ℕ
named digit = feth ++ digit ∷ replicate 11 0

-- The state is the number of interfaces that exist, and of descriptors that are open; a new interface is
-- named by the first.
abbrev sys : Darwin (ℕ × ℕ)
sys = record {
  ifnamsiz = 16;
  eexist = 17;
  ebusy = 16;
  snd_name_len = 16;
  parse_u32 = λ digits. inl 4294967295;
  ndrv_socket = λ world. (inl 3, (world.0, suc world.1));
  siocifcreate = λ fd name world. ((none, named (b'0' + world.0)), (suc world.0, world.1));
  ifconfig_peer = λ peer dev world. (none, world);
  ifconfig_destroy = λ name world. (world.0 - 1, world.1);
  bind_ndrv = λ fd name world. (none, world);
  connect_ndrv = λ fd name world. (some (os_error 61), world);
  open_bpf_call = λ i world. (inl 4, (world.0, suc world.1));
  bpf_ioctl = λ fd request world. (none, world);
  close_fd = λ fd world. (world.0, world.1 - 1);
}

abbrev counts : Counts (ℕ × ℕ)
counts = record { interfaces = λ world. world.0; descriptors = λ world. world.1 }

laws : Ledger sys counts
laws = record {
  opens_socket = λ i d w at. (at.0, ap suc at.1);
  opens_bpf = λ i d w minor at. (at.0, ap suc at.1);
  creates = λ i d w fd name at. (ap suc at.0, at.1);
  destroys = λ i d w name at. (omega (arith, at.0), at.1);
  closes = λ i d w fd at. (at.0, omega (arith, at.1));
  peers = λ i d w peer dev at. at;
  binds = λ i d w fd name at. at;
  connects = λ i d w fd name at. at;
  requests = λ i d w fd request at. at;
}

abbrev config : FethConfig
config = record { dev_name = none; peer_feth = none; reuse_dev = some false; persist = none }

-- Neither interface is left, and the socket is closed.
fails : new_pair sys config (2, 5) ≡ (inr (os_error 61), (2, 5))
unfolding new_pair
fails = refl

-- The unit of the last name that parses is zero, by which the kernel takes the next unit that is free.
last_unit : utun_unit sys (some (utun ++ b'9' ∷ [])) ≡ inl 0
unfolding utun_unit
last_unit = refl
