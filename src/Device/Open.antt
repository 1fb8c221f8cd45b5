-- ===== src/Device/Open.antt =====
-- src/platform/linux/device.rs: opening a device and duplicating a queue. The system calls are
-- parameters, on the state `W` of the system; so are the numbers of libc.
pub mod Offload
pub mod Names
use tun_rs.Base.{
  ℕ, zero, suc, ◌+◌, ◌≤◌, ◌<◌, bit_and, bit_or, Bool, true, false, not, ◌&&◌, List, [], ◌∷◌, ◌++◌,
  ltb, ◌==◌, if◌then◌else◌, length, replicate, put, Option, none, some, ◌⊎◌, inl, inr, IoError,
  nul_byte, name_too_long, unsupported,
}
use tun_rs.Builder.Device.{Layer, layer_2, layer_3, DeviceConfig}

-- IFNAMSIZ, and the flags of `c_short` as their 16 bits.
pub record Libc : Type 0 where
  pub ifnamsiz : ℕ
  pub iff_tun : ℕ
  pub iff_tap : ℕ
  pub iff_no_pi : ℕ
  pub iff_multi_queue : ℕ
  pub iff_vnet_hdr : ℕ
  pub tun_f_csum : ℕ
  pub tun_f_tso4 : ℕ
  pub tun_f_tso6 : ℕ
  pub tun_f_uso4 : ℕ
  pub tun_f_uso6 : ℕ

-- The numbers of Linux.
abbrev pub linux : Libc
linux = record {
  ifnamsiz = 16;
  iff_tun = 0x1;
  iff_tap = 0x2;
  iff_no_pi = 0x1000;
  iff_multi_queue = 0x100;
  iff_vnet_hdr = 0x4000;
  tun_f_csum = 0x1;
  tun_f_tso4 = 0x2;
  tun_f_tso6 = 0x4;
  tun_f_uso4 = 0x20;
  tun_f_uso6 = 0x40;
}

-- What the code uses of `ifreq` here: the name, with its terminator, and the flags.
pub record TunRequest : Type 0 where
  pub ifr_name : List ℕ
  pub ifru_flags : ℕ

-- The calls: the node under /dev made if it is missing, its results not looked at; a descriptor of it;
-- TUNSETIFF, which answers the request as the kernel leaves it; TUNSETOFFLOAD; TUNGETIFF; `close`.
pub record TunDriver (W : Type 0) : Type 0 where
  pub make_node : W → W
  pub open_tun : W → (ℕ ⊎ IoError) × W
  pub tunsetiff : ℕ → TunRequest → W → (TunRequest ⊎ IoError) × W
  pub tunsetoffload : ℕ → ℕ → W → Option IoError × W
  pub tungetiff : ℕ → W → List ℕ ⊎ IoError
  pub close_fd : ℕ → W → W

-- `DeviceImpl`, by the descriptor of its `Tun`. The lock does not show in a sequence of calls.
pub record DeviceImpl : Type 0 where
  pub tun : ℕ
  pub vnet_hdr : Bool
  pub udp_gso : Bool
  pub flags : ℕ

-- `unwrap_or`.
abbrev pub unwrap_or : {A : Type 0} → Option A → A → A
unwrap_or none default = default
unwrap_or (some a) default = a

-- `CString::new` refuses a byte that is zero.
unfoldable pub has_nul : List ℕ → Bool
has_nul [] = false
has_nul (x ∷ bytes) = if x == 0 then true else has_nul bytes

-- The bytes before the first zero: `CStr::from_ptr`. The name is taken as bytes; the source replaces what
-- is not UTF-8.
unfoldable pub c_str : List ℕ → List ℕ
c_str [] = []
c_str (x ∷ bytes) = let rest = c_str bytes in if x == 0 then [] else x ∷ rest

module _ (libc : Libc) where
  -- The check of a name, the same in `new` and `set_name`.
  unfoldable pub checked_name : List ℕ → List ℕ ⊎ IoError
  unfolding has_nul
  checked_name name =
      if has_nul name
      then inr nul_byte
      else (if ltb libc.ifnamsiz (length name + 1) then inr name_too_long else inl name)

  -- `dev_name` in `new`.
  unfoldable pub dev_name_of : Option (List ℕ) → Option (List ℕ) ⊎ IoError
  unfolding checked_name
  dev_name_of none = inl none
  dev_name_of (some tun_name) = elim (checked_name tun_name) [
    | inl name ↦ inl (some name)
    | inr error ↦ inr error
  ]

  -- `ifr_name` of a zeroed request, with the name and its terminator copied to the front.
  abbrev pub name_field : Option (List ℕ) → List ℕ
  name_field none = replicate libc.ifnamsiz 0
  name_field (some name) = put (replicate libc.ifnamsiz 0) 0 (name ++ 0 ∷ [])

  -- `c_short::from(layer)`.
  abbrev pub device_type : Layer → ℕ
  device_type layer_2 = libc.iff_tap
  device_type layer_3 = libc.iff_tun

  unfoldable pub request_flags : {S : Type 0} → DeviceConfig S → ℕ
  request_flags config =
      bit_or
        (bit_or
          (bit_or (device_type (unwrap_or config.layer layer_3))
            (if unwrap_or config.packet_information false then 0 else libc.iff_no_pi))
          (if unwrap_or config.multi_queue false then libc.iff_multi_queue else 0))
        (if unwrap_or config.offload false then libc.iff_vnet_hdr else 0)

  abbrev pub tun_tcp_offloads : ℕ
  tun_tcp_offloads = bit_or (bit_or libc.tun_f_csum libc.tun_f_tso4) libc.tun_f_tso6

  abbrev pub tun_udp_offloads : ℕ
  tun_udp_offloads = bit_or libc.tun_f_uso4 libc.tun_f_uso6

  abbrev pub is_none : Option IoError → Bool
  is_none none = true
  is_none (some error) = false

  module _ {W : Type 0} (driver : TunDriver W) where
    -- `(vnet_hdr, udp_gso)` in `new`.
    unfoldable pub negotiate : Bool → ℕ → W → (Bool × Bool) × W
    negotiate offload fd world =
        if offload && not (libc.iff_vnet_hdr == 0)
        then (let (refused, world1) = driver.tunsetoffload fd tun_tcp_offloads world in
            elim refused [
              | some error ↦ ((false, false), world1)
              | none ↦
                  let (rs, world2) =
                    driver.tunsetoffload fd (bit_or tun_tcp_offloads tun_udp_offloads) world1 in
                  ((true, is_none rs), world2)
            ])
        else ((false, false), (driver.tunsetoffload fd 0 world).1)

    -- The device of a descriptor, once the offloads are settled.
    abbrev pub settled : ℕ → TunRequest → (Bool × Bool) × W → (DeviceImpl ⊎ IoError) × W
    settled fd req ((vnet_hdr, udp_gso), world) = (
      inl (record { tun = fd; vnet_hdr = vnet_hdr; udp_gso = udp_gso; flags = req.ifru_flags }),
      world,
    )

    -- From TUNSETIFF on. A failure drops the descriptor.
    unfoldable pub attach : Bool → TunRequest → ℕ → W → (DeviceImpl ⊎ IoError) × W
    unfolding negotiate
    attach offload req fd world =
        let (answer, world1) = driver.tunsetiff fd req world in
        elim answer [
          | inr error ↦ (inr error, driver.close_fd fd world1)
          | inl req1 ↦ settled fd req1 (negotiate offload fd world1)
        ]

    -- `DeviceImpl::new`.
    unfoldable pub new : DeviceConfig (List ℕ) → W → (DeviceImpl ⊎ IoError) × W
    unfolding dev_name_of request_flags attach
    new config world = elim (dev_name_of config.dev_name) [
      | inr error ↦ (inr error, world)
      | inl dev_name ↦
          let req : TunRequest = record {
            ifr_name = name_field dev_name;
            ifru_flags = request_flags config;
          } in
          let (opened, world1) = driver.open_tun (driver.make_node world) in
          elim opened [
            | inr error ↦ (inr error, world1)
            | inl fd ↦ attach (unwrap_or config.offload false) req fd world1
          ]
    ]

    abbrev pub from_tun : ℕ → DeviceImpl
    from_tun tun = record { tun = tun; vnet_hdr = false; udp_gso = false; flags = 0 }

    abbrev pub set_tcp_offloads : DeviceImpl → W → Option IoError × W
    set_tcp_offloads device = driver.tunsetoffload device.tun tun_tcp_offloads

    abbrev pub set_tcp_udp_offloads : DeviceImpl → W → Option IoError × W
    set_tcp_udp_offloads device =
        driver.tunsetoffload device.tun (bit_or tun_tcp_offloads tun_udp_offloads)

    -- `name`.
    unfoldable pub name_impl : DeviceImpl → W → List ℕ ⊎ IoError
    unfolding c_str
    name_impl device world = elim (driver.tungetiff device.tun world) [
      | inr error ↦ inr error
      | inl ifr_name ↦ inl (c_str ifr_name)
    ]

    -- `request` copies the name to a zeroed request, without a terminator of its own.
    abbrev pub request_name : List ℕ → List ℕ
    request_name name = put (replicate libc.ifnamsiz 0) 0 name

    -- The offloads of a duplicated queue. A failure drops the new device.
    unfoldable pub offload_clone : DeviceImpl → W → (DeviceImpl ⊎ IoError) × W
    offload_clone dev world =
        if dev.vnet_hdr
        then (let (refused, world1) =
              if dev.udp_gso then set_tcp_udp_offloads dev world else set_tcp_offloads dev world in
            elim refused [
              | some error ↦ (inr error, driver.close_fd dev.tun world1)
              | none ↦ (inl dev, world1)
            ])
        else (inl dev, world)

    unfoldable pub attach_clone : DeviceImpl → TunRequest → ℕ → W → (DeviceImpl ⊎ IoError) × W
    unfolding offload_clone
    attach_clone device req fd world =
        let (answer, world1) = driver.tunsetiff fd req world in
        elim answer [
          | inr error ↦ (inr error, driver.close_fd fd world1)
          | inl req1 ↦ offload_clone (record device { tun = fd }) world1
        ]

    unfoldable pub try_clone : DeviceImpl → W → (DeviceImpl ⊎ IoError) × W
    unfolding name_impl attach_clone
    try_clone device world =
        if not (bit_and device.flags libc.iff_multi_queue == libc.iff_multi_queue)
        then (inr unsupported, world)
        else elim (name_impl device world) [
          | inr error ↦ (inr error, world)
          | inl name ↦
              let (opened, world1) = driver.open_tun world in
              elim opened [
                | inr error ↦ (inr error, world1)
                | inl fd ↦
                    attach_clone device
                      (record { ifr_name = request_name name; ifru_flags = device.flags }) fd world1
              ]
        ]
