-- ===== src/Macos/Open.antt =====
-- src/platform/macos/tuntap.rs and src/platform/macos/tap/mod.rs: opening a `utun` device or a pair of
-- `feth` interfaces. The system calls, the `ifconfig` command and the parsing of a number are parameters,
-- on the state `W` of the system.
pub mod Cleanup
use tun_rs.Base.{
  starts_with, is_os_error, ℕ, zero, suc, ◌+◌, ◌-◌, ◌%◌, Bool, true, false, not, ◌&&◌, ◌||◌, List,
  [], ◌∷◌, ◌++◌, ltb, leb, ◌==◌, if◌then◌else◌, length, take, drop, replicate, put, Option, none,
  some, ◌⊎◌, inl, inr, IoError, name_too_long, name_prefix, no_bpf_device,
}
use tun_rs.Device.Open.{unwrap_or, c_str}

-- What setting up a pair of `feth` interfaces takes from `DeviceConfig`.
pub record FethConfig : Type 0 where
  pub dev_name : Option (List ℕ)
  pub peer_feth : Option (List ℕ)
  pub reuse_dev : Option Bool
  pub persist : Option Bool

-- The requests that follow one another on the BPF descriptor; `set_interface` has the name of the peer.
pub data BpfRequest : Type 0 where
  set_buffer_len : ℕ → BpfRequest
  immediate : BpfRequest
  no_see_sent : BpfRequest
  set_interface : List ℕ → BpfRequest
  header_complete : BpfRequest
  promiscuous : BpfRequest

-- The calls. SIOCIFCREATE answers the name that the request has after it; a socket or a BPF device that
-- is open may get close-on-exec, whose failure is not looked at.
pub record Darwin (W : Type 0) : Type 0 where
  pub ifnamsiz : ℕ
  pub eexist : ℕ
  pub ebusy : ℕ
  pub snd_name_len : ℕ
  pub parse_u32 : List ℕ → ℕ ⊎ IoError
  pub ndrv_socket : W → (ℕ ⊎ IoError) × W
  pub siocifcreate : ℕ → List ℕ → W → (Option IoError × List ℕ) × W
  pub ifconfig_peer : List ℕ → List ℕ → W → Option IoError × W
  pub ifconfig_destroy : List ℕ → W → W
  pub bind_ndrv : ℕ → List ℕ → W → Option IoError × W
  pub connect_ndrv : ℕ → List ℕ → W → Option IoError × W
  pub open_bpf_call : ℕ → W → (ℕ ⊎ IoError) × W
  pub bpf_ioctl : ℕ → BpfRequest → W → Option IoError × W
  pub close_fd : ℕ → W → W

-- "feth" and "utun".
abbrev pub feth : List ℕ
feth = b'f' ∷ b'e' ∷ b't' ∷ b'h' ∷ []

abbrev pub utun : List ℕ
utun = b'u' ∷ b't' ∷ b'u' ∷ b'n' ∷ []

-- `Feth`: whether it is destroyed when it is dropped, and its name.
pub record Feth : Type 0 where
  pub is_drop : Bool
  pub name : List ℕ

-- The descriptors and the interfaces of a `Tap` that has been set up.
pub record FethPair : Type 0 where
  pub s_bpf_fd : ℕ
  pub s_ndrv_fd : ℕ
  pub peer_feth : Feth
  pub dev_feth : Feth

module _ {W : Type 0} (sys : Darwin W) where
  -- The unit of a `utun` name, zero without a name; `v + 1` on `u32` wraps.
  unfoldable pub utun_unit : Option (List ℕ) → ℕ ⊎ IoError
  unfolding starts_with
  utun_unit none = inl 0
  utun_unit (some tun_name) =
      if ltb sys.ifnamsiz (length tun_name)
      then inr name_too_long
      else (if not (starts_with tun_name utun)
          then inr name_prefix
          else elim (sys.parse_u32 (drop 4 tun_name)) [
            | inr error ↦ inr error
            | inl v ↦ inl ((v + 1) % 4294967296)
          ])

  -- `new_ifreq_str`: the name field of the request.
  unfoldable pub new_ifreq_str : List ℕ → List ℕ ⊎ IoError
  unfolding starts_with
  new_ifreq_str name =
      if leb sys.ifnamsiz (length name)
      then inr name_too_long
      else (if not (starts_with name feth)
          then inr name_prefix
          else inl (put (replicate sys.ifnamsiz 0) 0 name))

  abbrev pub new_ifreq : Option (List ℕ) → List ℕ ⊎ IoError
  new_ifreq name = new_ifreq_str (unwrap_or name feth)

  -- `for i in 1..5000`, with the rounds that are left.
  unfoldable pub open_bpf : ℕ → ℕ → W → (ℕ ⊎ IoError) × W
  unfolding is_os_error
  open_bpf zero i world = (inr no_bpf_device, world)
  open_bpf (suc left) i world =
      let (opened, world1) = sys.open_bpf_call i world in
      let next = open_bpf left (i + 1) world1 in
      elim opened [
        | inl fd ↦ (inl fd, world1)
        | inr e ↦ if is_os_error sys.ebusy e then next else (inr e, world1)
      ]

  -- `Drop for Feth`.
  abbrev pub drop_feth : Feth → W → W
  drop_feth f world = if f.is_drop then sys.ifconfig_destroy f.name world else world

  -- A local value that is dropped if what follows fails.
  abbrev pub or_else_drop : {A : Type 0} → (W → W) → (A ⊎ IoError) × W → (A ⊎ IoError) × W
  or_else_drop drop_local (inl a, world) = (inl a, world)
  or_else_drop drop_local (inr error, world) = (inr error, drop_local world)

  abbrev pub step : {A : Type 0} → Option IoError × W → (W → (A ⊎ IoError) × W) → (A ⊎ IoError) × W
  step (none, world) later = later world
  step (some error, world) later = (inr error, world)

  -- `siocifcreate`, where an interface that exists will do if it may be reused.
  unfoldable pub create_feth : FethConfig → ℕ → List ℕ → W → (Feth ⊎ IoError) × W
  unfolding is_os_error c_str
  create_feth config fd ifr_name world =
      let (answer, world1) = sys.siocifcreate fd ifr_name world in
      let created : Feth = record {
        is_drop = not (unwrap_or config.persist false);
        name = c_str answer.1;
      } in
      elim answer.0 [
        | none ↦ (inl created, world1)
        | some e ↦
            if not (is_os_error sys.eexist e) || not (unwrap_or config.reuse_dev true)
            then (inr e, world1)
            else (inl created, world1)
      ]

  abbrev pub given :
      {A B : Type 0} → (A ⊎ IoError) × W → (A → W → (B ⊎ IoError) × W) → (B ⊎ IoError) × W
  given (inl a, world) later = later a world
  given (inr error, world) later = (inr error, world)

  -- The requests to the BPF descriptor, in order.
  unfoldable pub set_up_bpf : ℕ → List BpfRequest → W → Option IoError × W
  set_up_bpf fd [] world = (none, world)
  set_up_bpf fd (request ∷ requests) world =
      let (failed, world1) = sys.bpf_ioctl fd request world in
      let later = set_up_bpf fd requests world1 in
      elim failed [ none ↦ later | some error ↦ (some error, world1) ]

  abbrev pub bpf_requests : List ℕ → List BpfRequest
  bpf_requests peer =
      set_buffer_len 131072
      ∷ immediate
      ∷ no_see_sent
      ∷ set_interface peer
      ∷ header_complete
      ∷ promiscuous
      ∷ []

  -- `new` once both interfaces are there.
  unfoldable pub join_feth : ℕ → Feth → Feth → W → (FethPair ⊎ IoError) × W
  unfolding open_bpf set_up_bpf
  join_feth ndrv dev_feth peer_feth world =
      step (sys.ifconfig_peer peer_feth.name dev_feth.name world) (λ w1.
        if ltb sys.snd_name_len (length peer_feth.name)
        then (inr name_too_long, w1)
        else step (sys.bind_ndrv ndrv peer_feth.name w1) (λ w2.
          step (sys.connect_ndrv ndrv peer_feth.name w2) (λ w3.
            given (open_bpf 4999 1 w3) (λ bpf w4. or_else_drop (sys.close_fd bpf) (
              step (set_up_bpf bpf (bpf_requests peer_feth.name) w4) (λ w5. (
                inl (record {
                  s_bpf_fd = bpf;
                  s_ndrv_fd = ndrv;
                  peer_feth = peer_feth;
                  dev_feth = dev_feth;
                }),
                w5,
              )))))))

  -- `Tap::new`: what was made before a failure is dropped, the last first.
  unfoldable pub new_pair : FethConfig → W → (FethPair ⊎ IoError) × W
  unfolding new_ifreq_str create_feth join_feth
  new_pair config world = given (sys.ndrv_socket world) (λ ndrv w1.
      or_else_drop (sys.close_fd ndrv) (
        given (new_ifreq config.dev_name, w1)
          (λ ifr w2. given (create_feth config ndrv ifr w2) (λ dev_feth w3.
            or_else_drop (drop_feth dev_feth) (
              given (new_ifreq config.peer_feth, w3)
                (λ peer_ifr w4. given (create_feth config ndrv peer_ifr w4) (λ peer_feth w5.
                  or_else_drop (drop_feth peer_feth) (join_feth ndrv dev_feth peer_feth w5))))))))
