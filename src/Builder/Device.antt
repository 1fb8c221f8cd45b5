-- ===== src/Builder/Device.antt =====
-- src/builder.rs: `DeviceBuilder` with the settings that it has on Linux. The device that `config` sets up
-- is a parameter: what each of its calls answers, and the state `W` that they change.
pub mod Requests
use tun_rs.Base.{ℕ, Bool, true, List, [], ◌∷◌, ◌++◌, Option, none, some, ◌⊎◌, inl, inr, IoError}

pub data Layer : Type 0 where
  layer_2 : Layer
  layer_3 : Layer

-- `S` are the strings. An address, a prefix length and a destination stand as what their conversion
-- answered.
pub record DeviceBuilder (S : Type 0) : Type 0 where
  pub dev_name : Option S
  pub enabled : Option Bool
  pub mtu : Option ℕ
  pub ipv4 : Option ((ℕ ⊎ IoError) × (ℕ ⊎ IoError) × Option (ℕ ⊎ IoError))
  pub ipv6 : Option (List ((ℕ ⊎ IoError) × (ℕ ⊎ IoError)))
  pub layer : Option Layer
  pub mac_addr : Option (List ℕ)
  pub packet_information : Option Bool
  pub tx_queue_len : Option ℕ
  pub offload : Option Bool
  pub multi_queue : Option Bool

-- `DeviceConfig` on Linux.
pub record DeviceConfig (S : Type 0) : Type 0 where
  pub dev_name : Option S
  pub layer : Option Layer
  pub packet_information : Option Bool
  pub offload : Option Bool
  pub multi_queue : Option Bool

-- `new`.
abbrev pub new_builder : {S : Type 0} → DeviceBuilder S
new_builder = record {
  dev_name = none;
  enabled = some true;
  mtu = none;
  ipv4 = none;
  ipv6 = none;
  layer = none;
  mac_addr = none;
  packet_information = none;
  tx_queue_len = none;
  offload = none;
  multi_queue = none;
}

module _ {S : Type 0} (builder : DeviceBuilder S) where
  abbrev pub with_name : S → DeviceBuilder S
  with_name name = record builder { dev_name = some name }

  abbrev pub with_mtu : ℕ → DeviceBuilder S
  with_mtu size = record builder { mtu = some size }

  abbrev pub with_mac_addr : List ℕ → DeviceBuilder S
  with_mac_addr octets = record builder { mac_addr = some octets }

  abbrev pub with_layer : Layer → DeviceBuilder S
  with_layer setting = record builder { layer = some setting }

  abbrev pub with_tx_queue_len : ℕ → DeviceBuilder S
  with_tx_queue_len setting = record builder { tx_queue_len = some setting }

  abbrev pub with_offload : Bool → DeviceBuilder S
  with_offload setting = record builder { offload = some setting }

  abbrev pub with_multi_queue : Bool → DeviceBuilder S
  with_multi_queue setting = record builder { multi_queue = some setting }

  abbrev pub with_packet_information : Bool → DeviceBuilder S
  with_packet_information setting = record builder { packet_information = some setting }

  -- `ipv4` and `ipv6`, with what the conversions of their arguments answer.
  abbrev pub with_ipv4 : (ℕ ⊎ IoError) → (ℕ ⊎ IoError) → Option (ℕ ⊎ IoError) → DeviceBuilder S
  with_ipv4 address prefix destination = record builder {
    ipv4 = some (address, prefix, destination);
  }

  unfoldable pub with_ipv6 : (ℕ ⊎ IoError) → (ℕ ⊎ IoError) → DeviceBuilder S
  with_ipv6 address prefix = elim builder.ipv6 [
    | some addresses ↦ record builder { ipv6 = some (addresses ++ (address, prefix) ∷ []) }
    | none ↦ record builder { ipv6 = some ((address, prefix) ∷ []) }
  ]

  abbrev pub with_enable : Bool → DeviceBuilder S
  with_enable enable = record builder { enabled = some enable }

  abbrev pub inherit_enable_state : DeviceBuilder S
  inherit_enable_state = record builder { enabled = none }

  -- `build_config`: the settings that open the device are taken out of the builder.
  abbrev pub build_config : DeviceConfig S × DeviceBuilder S
  build_config = (
    record {
      dev_name = builder.dev_name;
      layer = builder.layer;
      packet_information = builder.packet_information;
      offload = builder.offload;
      multi_queue = builder.multi_queue;
    },
    record builder {
      dev_name = none;
      layer = none;
      packet_information = none;
      offload = none;
      multi_queue = none;
    },
  )

-- The calls that set up a device, each with none for `Ok(())`.
pub record Settings (W : Type 0) : Type 0 where
  pub set_mtu : ℕ → W → Option IoError × W
  pub set_tx_queue_len : ℕ → W → Option IoError × W
  pub set_mac_address : List ℕ → W → Option IoError × W
  pub set_network_address : ℕ → ℕ → Option ℕ → W → Option IoError × W
  pub add_address_v6 : ℕ → ℕ → W → Option IoError × W
  pub set_enabled : Bool → W → Option IoError × W

-- `destination.transpose()`.
abbrev pub transpose : Option (ℕ ⊎ IoError) → Option ℕ ⊎ IoError
transpose none = inl none
transpose (some (inl a)) = inl (some a)
transpose (some (inr error)) = inr error

module _ {W : Type 0} where
  -- `first?; then`.
  abbrev pub and_then : Option IoError × W → (W → Option IoError × W) → Option IoError × W
  and_then (none, world) later = later world
  and_then (some error, world) later = (some error, world)

  -- `if let Some(a) = setting { call(a)? }`.
  abbrev pub when_set :
      {A : Type 0} → Option A → (A → W → Option IoError × W) → W → Option IoError × W
  when_set none call world = (none, world)
  when_set (some a) call world = call a world

  -- A call with a value that has to be converted first.
  abbrev pub given :
      {A : Type 0} → (A ⊎ IoError) → (A → W → Option IoError × W) → W → Option IoError × W
  given (inl a) call world = call a world
  given (inr error) call world = (some error, world)

  module _ (device : Settings W) where
    abbrev pub config_ipv4 :
        (ℕ ⊎ IoError) × (ℕ ⊎ IoError) × Option (ℕ ⊎ IoError) → W → Option IoError × W
    config_ipv4 (address, prefix, destination) = given prefix (λ p.
        given address (λ a. given (transpose destination) (λ t. device.set_network_address a p t)))

    abbrev pub config_ipv6 : List ((ℕ ⊎ IoError) × (ℕ ⊎ IoError)) → W → Option IoError × W
    config_ipv6 [] world = (none, world)
    config_ipv6 ((address, prefix) ∷ rest) world =
        and_then (given prefix (λ p. given address (λ a. device.add_address_v6 a p)) world)
          (config_ipv6 rest)

    unfoldable pub config : {S : Type 0} → DeviceBuilder S → W → Option IoError × W
    config builder world = and_then (when_set builder.mtu device.set_mtu world) (λ w1.
        and_then (when_set builder.tx_queue_len device.set_tx_queue_len w1) (λ w2.
          and_then (when_set builder.mac_addr device.set_mac_address w2) (λ w3.
            and_then (when_set builder.ipv4 config_ipv4 w3) (λ w4.
              and_then (when_set builder.ipv6 config_ipv6 w4)
                (λ w5. when_set builder.enabled device.set_enabled w5)))))
