-- ===== src/Device/Open/Offload.antt =====
-- What a device that was opened, and a queue that was duplicated, have in common with the request.
use tun_rs.Base.{
  ℕ, bit_and, bit_or, ◌≡◌, refl, ap, sym, ◌∙◌, ◌⊎◌, inl, inr, Bool, true, false, not, ◌&&◌, List,
  ◌==◌, if◌then◌else◌, Bool-cases, Option, some, IoError, arith,
}
use tun_rs.Builder.Device.{Layer, layer_2, layer_3, DeviceConfig}
use tun_rs.Device.Open.{
  linux, TunRequest, TunDriver, DeviceImpl, unwrap_or, dev_name_of, name_field, device_type,
  request_flags, tun_tcp_offloads, negotiate, settled, attach, new, offload_clone, attach_clone,
  try_clone, name_impl, request_name,
}

-- The flags have this one.
abbrev pub has_flag : ℕ → ℕ → Bool
has_flag flags flag = bit_and flags flag == flag

-- A device of the third layer is a TUN device, one of the second a TAP device.
abbrev pub is_tun : Layer → Bool
is_tun layer_2 = false
is_tun layer_3 = true

request_flags_cases :
    (layer : Layer) (pi mq vnet : Bool)
    → let flags =
        bit_or
          (bit_or
            (bit_or (device_type linux layer) (if pi then 0 else 0x1000))
            (if mq then 0x100 else 0))
          (if vnet then 0x4000 else 0) in
      (has_flag flags 0x100 ≡ mq)
      × (has_flag flags 0x4000 ≡ vnet)
      × (has_flag flags 1 ≡ is_tun layer)
      × (has_flag flags 2 ≡ not (is_tun layer))
      × (has_flag flags 0x1000 ≡ not pi)
request_flags_cases layer_2 false false false = (refl, refl, refl, refl, refl)
request_flags_cases layer_2 false false true = (refl, refl, refl, refl, refl)
request_flags_cases layer_2 false true false = (refl, refl, refl, refl, refl)
request_flags_cases layer_2 false true true = (refl, refl, refl, refl, refl)
request_flags_cases layer_2 true false false = (refl, refl, refl, refl, refl)
request_flags_cases layer_2 true false true = (refl, refl, refl, refl, refl)
request_flags_cases layer_2 true true false = (refl, refl, refl, refl, refl)
request_flags_cases layer_2 true true true = (refl, refl, refl, refl, refl)
request_flags_cases layer_3 false false false = (refl, refl, refl, refl, refl)
request_flags_cases layer_3 false false true = (refl, refl, refl, refl, refl)
request_flags_cases layer_3 false true false = (refl, refl, refl, refl, refl)
request_flags_cases layer_3 false true true = (refl, refl, refl, refl, refl)
request_flags_cases layer_3 true false false = (refl, refl, refl, refl, refl)
request_flags_cases layer_3 true false true = (refl, refl, refl, refl, refl)
request_flags_cases layer_3 true true false = (refl, refl, refl, refl, refl)
request_flags_cases layer_3 true true true = (refl, refl, refl, refl, refl)

-- A request asks for what is configured: IFF_MULTI_QUEUE, IFF_VNET_HDR, IFF_TUN, IFF_TAP and IFF_NO_PI.
pub request_flags_lem :
    (config : DeviceConfig (List ℕ))
    → (has_flag (request_flags linux config) 0x100 ≡ unwrap_or config.multi_queue false)
      × (has_flag (request_flags linux config) 0x4000 ≡ unwrap_or config.offload false)
      × (has_flag (request_flags linux config) 1 ≡ is_tun (unwrap_or config.layer layer_3))
      × (has_flag (request_flags linux config) 2 ≡ not (is_tun (unwrap_or config.layer layer_3)))
      × (has_flag (request_flags linux config) 0x1000
          ≡ not (unwrap_or config.packet_information false))
unfolding request_flags
request_flags_lem config =
    request_flags_cases (unwrap_or config.layer layer_3) (unwrap_or config.packet_information false)
      (unwrap_or config.multi_queue false) (unwrap_or config.offload false)

module _ {W : Type 0} (driver : TunDriver W) where
  negotiate_vnet :
      (offload : Bool) (fd : ℕ) (world : W) {given : (Bool × Bool) × W}
      → negotiate linux driver offload fd world ≡ given
      → given.0.0 ≡ true
      → offload ≡ true
  unfolding negotiate
  negotiate_vnet true fd world h k = refl
  negotiate_vnet false fd world h k = ground (arith, h, k)

  -- TUNSETIFF leaves the flags of a request as they are.
  abbrev pub KeepsFlags : Type 0
  KeepsFlags =
      (fd : ℕ) (req : TunRequest) (world : W) (req1 : TunRequest) (world1 : W)
      → driver.tunsetiff fd req world ≡ (inl req1, world1)
      → req1.ifru_flags ≡ req.ifru_flags

  attach_answer :
      (offload : Bool) (req : TunRequest) (fd : ℕ) (world : W) (answer : (TunRequest ⊎ IoError) × W)
      {device : DeviceImpl} {world1 : W}
      → driver.tunsetiff fd req world ≡ answer
      → KeepsFlags
      → attach linux driver offload req fd world ≡ (inl device, world1)
      → (device.flags ≡ req.ifru_flags) × (device.vnet_hdr ≡ true → offload ≡ true)
  unfolding attach
  attach_answer offload req fd world (inr error, w) e keeps h =
      absurd (ground (arith, ap (λ t. t.0) e, h))
  attach_answer offload req fd world (inl req1, w) {device} {world1} e keeps h =
      let given = negotiate linux driver offload fd (driver.tunsetiff fd req world).1 in
      let shape : settled linux driver fd req1 given ≡ (inl device, world1) =
        rw (ap (λ t. t.0) e, attach) at h in
      let flags_kept : req1.ifru_flags ≡ req.ifru_flags = keeps fd req world req1 w e in
      (
        ground (arith, shape, flags_kept),
        λ on.
            negotiate_vnet offload fd (driver.tunsetiff fd req world).1 refl
              (ground (arith, shape, on)),
      )

  new_answer :
      (config : DeviceConfig (List ℕ)) (world : W) (named : Option (List ℕ) ⊎ IoError)
      (opened : (ℕ ⊎ IoError) × W) {device : DeviceImpl} {world1 : W}
      → dev_name_of linux config.dev_name ≡ named
      → driver.open_tun (driver.make_node world) ≡ opened
      → KeepsFlags
      → new linux driver config world ≡ (inl device, world1)
      → (device.flags ≡ request_flags linux config)
        × (device.vnet_hdr ≡ true → unwrap_or config.offload false ≡ true)
  unfolding new
  new_answer config world (inr error) opened e o keeps h = absurd (ground (arith, rw (e, new) at h))
  new_answer config world (inl name) (inr error, w) e o keeps h =
      absurd (ground (arith, ap (λ t. t.0) o, rw (e, new) at h))
  new_answer config world (inl name) (inl fd, w) e o keeps h =
      let req : TunRequest = record {
        ifr_name = name_field linux name;
        ifru_flags = request_flags linux config;
      } in
      attach_answer (unwrap_or config.offload false) req fd
        (driver.open_tun (driver.make_node world)).1
        (driver.tunsetiff fd req (driver.open_tun (driver.make_node world)).1) refl keeps
        (rw (ap (λ t. t.0) o, new) at (rw (e, new) at h))

  -- If TUNSETIFF leaves the flags of a request alone, a device that `new` opened has IFF_MULTI_QUEUE
  -- exactly if several queues were configured, IFF_VNET_HDR exactly if offload was, IFF_TUN exactly on
  -- layer 3, IFF_TAP exactly on layer 2, and IFF_NO_PI exactly without packet information. It takes
  -- packets with headers only if IFF_VNET_HDR is set.
  pub new_flags :
      (config : DeviceConfig (List ℕ)) (world world1 : W) (device : DeviceImpl)
      → KeepsFlags
      → new linux driver config world ≡ (inl device, world1)
      → (has_flag device.flags 0x100 ≡ unwrap_or config.multi_queue false)
        × (has_flag device.flags 0x4000 ≡ unwrap_or config.offload false)
        × (device.vnet_hdr && not (has_flag device.flags 0x4000) ≡ false)
        × (has_flag device.flags 1 ≡ is_tun (unwrap_or config.layer layer_3))
        × (has_flag device.flags 2 ≡ not (is_tun (unwrap_or config.layer layer_3)))
        × (has_flag device.flags 0x1000 ≡ not (unwrap_or config.packet_information false))
  new_flags config world world1 device keeps h =
      let (same, sound) =
        new_answer config world (dev_name_of linux config.dev_name)
          (driver.open_tun (driver.make_node world)) refl refl keeps h in
      let requested = request_flags_lem config in
      let headers : has_flag device.flags 0x4000 ≡ unwrap_or config.offload false =
        rw same requested.1 in
      (
        rw same requested.0,
        headers,
        elim (Bool-cases device.vnet_hdr) [
          | inl on ↦ rw (on, headers, sound on) refl
          | inr off ↦ rw off refl
        ],
        rw same requested.2,
        rw same requested.3,
        rw same requested.4,
      )

  -- Where the kernel refuses the offloads that were asked for, the device opens all the same and takes
  -- packets without headers; but its flags, with which TUNSETIFF attached it, say that it has headers.
  pub new-offload_refused :
      (config : DeviceConfig (List ℕ)) (world world1 world2 world3 : W) (named : Option (List ℕ))
      (fd : ℕ) (req1 : TunRequest) (refusal : IoError)
      → KeepsFlags
      → dev_name_of linux config.dev_name ≡ inl named
      → config.offload ≡ some true
      → driver.open_tun (driver.make_node world) ≡ (inl fd, world1)
      → driver.tunsetiff fd
          (record { ifr_name = name_field linux named; ifru_flags = request_flags linux config })
          world1
        ≡ (inl req1, world2)
      → driver.tunsetoffload fd (tun_tcp_offloads linux) world2 ≡ (some refusal, world3)
      → (device : DeviceImpl) × (new linux driver config world ≡ (inl device, world3))
        × (device.vnet_hdr ≡ false)
        × (has_flag device.flags 0x4000 ≡ true)
  unfolding new attach negotiate
  new-offload_refused config world world1 world2 world3 named fd req1 refusal keeps e on o t r =
      let req : TunRequest = record {
        ifr_name = name_field linux named;
        ifru_flags = request_flags linux config;
      } in
      (
        record { tun = fd; vnet_hdr = false; udp_gso = false; flags = req1.ifru_flags },
        ground (arith, e, on, o, t, r),
        refl,
        rw (keeps fd req world1 req1 world2 t, (request_flags_lem config).1, on) refl,
      )

  offload_clone_lem :
      (dev clone : DeviceImpl) (world world1 : W)
      → offload_clone linux driver dev world ≡ (inl clone, world1)
      → clone ≡ dev
  unfolding offload_clone
  offload_clone_lem dev clone world world1 h = ground (arith, h)

  attach_clone_lem :
      (device clone : DeviceImpl) (req : TunRequest) (fd : ℕ) (world world1 : W)
      → attach_clone linux driver device req fd world ≡ (inl clone, world1)
      → clone ≡ record device { tun = fd }
  unfolding attach_clone
  attach_clone_lem device clone req fd world world1 h = ground (
    arith,
    h,
    offload_clone_lem (record device { tun = fd }) clone (driver.tunsetiff fd req world).1 world1,
  )

  try_clone_cases :
      (device clone : DeviceImpl) (world world1 : W) (named : List ℕ ⊎ IoError)
      (opened : (ℕ ⊎ IoError) × W)
      → has_flag device.flags 0x100 ≡ true
      → name_impl linux driver device world ≡ named
      → driver.open_tun world ≡ opened
      → try_clone linux driver device world ≡ (inl clone, world1)
      → clone ≡ record device { tun = clone.tun }
  unfolding try_clone
  try_clone_cases device clone world world1 (inr error) opened several e o h =
      absurd (ground (arith, several, rw (e, try_clone) at h))
  try_clone_cases device clone world world1 (inl name) (inr error, w) several e o h =
      absurd (ground (arith, several, e, ap (λ t. t.0) o, h))
  try_clone_cases device clone world world1 (inl name) (inl fd, w) several e o h =
      let req : TunRequest = record {
        ifr_name = request_name linux driver name;
        ifru_flags = device.flags;
      } in
      let same : clone ≡ record device { tun = fd } =
        attach_clone_lem device clone req fd (driver.open_tun world).1 world1
          (ground (arith, several, e, ap (λ t. t.0) o, h)) in
      ground (arith, same)

  -- A queue is duplicated only if several were configured; the new one differs from the old one in its
  -- descriptor alone.
  pub try_clone-new :
      (config : DeviceConfig (List ℕ)) (world world1 world2 world3 : W) (device clone : DeviceImpl)
      → KeepsFlags
      → new linux driver config world ≡ (inl device, world1)
      → try_clone linux driver device world2 ≡ (inl clone, world3)
      → (unwrap_or config.multi_queue false ≡ true) × (clone ≡ record device { tun = clone.tun })
  unfolding try_clone
  try_clone-new config world world1 world2 world3 device clone keeps h k =
      let several : has_flag device.flags 0x100 ≡ true = ground (arith, k) in
      (
        sym (new_flags config world world1 device keeps h).0 ∙ several,
        try_clone_cases device clone world2 world3 (name_impl linux driver device world2)
            (driver.open_tun world2) several refl refl k,
      )
