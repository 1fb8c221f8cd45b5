-- ===== src/Builder/Device/Requests.antt =====
-- `config` as a list of requests that are made one after the other, up to the first that fails.
use tun_rs.Base.{
  ℕ, ◌≡◌, refl, ap, ap₂, ◌∙◌, sym, Bool, List, [], ◌∷◌, ◌++◌, Option, none, some, ◌⊎◌, inl, inr,
  IoError,
}
use tun_rs.Builder.Device.{
  DeviceBuilder, Settings, and_then, when_set, given, transpose, config_ipv4, config_ipv6, config,
}

pub data Request : Type 0 where
  mtu_of : ℕ → Request
  tx_queue_len_of : ℕ → Request
  mac_address_of : List ℕ → Request
  network_address_of : ℕ → ℕ → Option ℕ → Request
  address_v6_of : ℕ → ℕ → Request
  enabled_of : Bool → Request
  -- A value that could not be converted.
  invalid : IoError → Request

-- The first of three results that is an error, or the request.
abbrev checked : {A : Type 0} → (A ⊎ IoError) → (A → List Request) → List Request
checked (inl a) make = make a
checked (inr error) make = invalid error ∷ []

abbrev pub network_request : (ℕ ⊎ IoError) × (ℕ ⊎ IoError) × Option (ℕ ⊎ IoError) → List Request
network_request (address, prefix, destination) = checked prefix (λ p.
    checked address (λ a. checked (transpose destination) (λ t. network_address_of a p t ∷ [])))

abbrev pub v6_requests : List ((ℕ ⊎ IoError) × (ℕ ⊎ IoError)) → List Request
v6_requests [] = []
v6_requests ((address, prefix) ∷ rest) =
    checked prefix (λ p. checked address (λ a. address_v6_of a p ∷ [])) ++ v6_requests rest

abbrev one : {A : Type 0} → (A → List Request) → Option A → List Request
one make none = []
one make (some a) = make a

-- What a builder asks of the device, in order.
abbrev pub requests : {S : Type 0} → DeviceBuilder S → List Request
requests builder =
    one (λ n. mtu_of n ∷ []) builder.mtu
    ++ (one (λ n. tx_queue_len_of n ∷ []) builder.tx_queue_len
        ++ (one (λ m. mac_address_of m ∷ []) builder.mac_addr
            ++ (one network_request builder.ipv4
                ++ (one v6_requests builder.ipv6 ++ one (λ e. enabled_of e ∷ []) builder.enabled))))

module _ {W : Type 0} (device : Settings W) where
  abbrev pub perform_one : Request → W → Option IoError × W
  perform_one (mtu_of n) = device.set_mtu n
  perform_one (tx_queue_len_of n) = device.set_tx_queue_len n
  perform_one (mac_address_of m) = device.set_mac_address m
  perform_one (network_address_of a p t) = device.set_network_address a p t
  perform_one (address_v6_of a p) = device.add_address_v6 a p
  perform_one (enabled_of e) = device.set_enabled e
  perform_one (invalid error) = λ world. (some error, world)

  abbrev pub perform : List Request → W → Option IoError × W
  perform [] world = (none, world)
  perform (r ∷ rs) world = and_then (perform_one r world) (perform rs)

  and_then_assoc :
      (r : Option IoError × W) (f g : W → Option IoError × W)
      → and_then (and_then r f) g ≡ and_then r (λ w. and_then (f w) g)
  and_then_assoc (none, world) f g = refl
  and_then_assoc (some error, world) f g = refl

  and_then_nothing : (r : Option IoError × W) → and_then r (λ w. (none, w)) ≡ r
  and_then_nothing (none, world) = refl
  and_then_nothing (some error, world) = refl

  alone : (r : Request) (world : W) → perform (r ∷ []) world ≡ perform_one r world
  alone r world = and_then_nothing (perform_one r world)

  perform-append :
      (rs later : List Request) (world : W)
      → perform (rs ++ later) world ≡ and_then (perform rs world) (perform later)
  perform-append [] later world = refl
  perform-append (r ∷ rs) later world =
      ap (and_then (perform_one r world)) (λ i w. perform-append rs later w i)
      ∙ sym (and_then_assoc (perform_one r world) (perform rs) (perform later))

  in_turn :
      (rs later : List Request) (f g : W → Option IoError × W)
      → ((w : W) → perform rs w ≡ f w)
      → ((w : W) → perform later w ≡ g w)
      → (world : W) → perform (rs ++ later) world ≡ and_then (f world) g
  in_turn rs later f g first rest world =
      perform-append rs later world ∙ ap₂ and_then (first world) (λ i w. rest w i)

  one_lem :
      {A : Type 0} (make : A → List Request) (call : A → W → Option IoError × W) (o : Option A)
      → ((a : A) (w : W) → perform (make a) w ≡ call a w)
      → (world : W) → perform (one make o) world ≡ when_set o call world
  one_lem make call none same world = refl
  one_lem make call (some a) same world = same a world

  checked_lem :
      {A : Type 0} (make : A → List Request) (call : A → W → Option IoError × W) (r : A ⊎ IoError)
      → ((a : A) (w : W) → perform (make a) w ≡ call a w)
      → (world : W) → perform (checked r make) world ≡ given r call world
  checked_lem make call (inl a) same world = same a world
  checked_lem make call (inr error) same world = refl

  network_lem :
      (setting : (ℕ ⊎ IoError) × (ℕ ⊎ IoError) × Option (ℕ ⊎ IoError)) (world : W)
      → perform (network_request setting) world ≡ config_ipv4 device setting world
  network_lem (address, prefix, destination) = checked_lem _ _ prefix (λ p.
      checked_lem _ _ address
        (λ a. checked_lem _ _ (transpose destination) (λ t. alone (network_address_of a p t))))

  v6_lem :
      (addresses : List ((ℕ ⊎ IoError) × (ℕ ⊎ IoError))) (world : W)
      → perform (v6_requests addresses) world ≡ config_ipv6 device addresses world
  v6_lem [] world = refl
  v6_lem ((address, prefix) ∷ rest) world =
      in_turn _ (v6_requests rest) _ (config_ipv6 device rest)
        (checked_lem _ _ prefix (λ p. checked_lem _ _ address (λ a. alone (address_v6_of a p))))
        (v6_lem rest) world

  -- `config` makes the requests of the builder one after the other, up to the first that fails: the MTU,
  -- the queue length, the MAC address, the IPv4 network, the IPv6 addresses in the order of the list,
  -- and at last whether the device is enabled. A value that could not be converted fails in
  -- its place, the prefix length before the address and the destination, and after the first failure
  -- the device is not touched.
  pub config-perform :
      {S : Type 0} (builder : DeviceBuilder S) (world : W)
      → config device builder world ≡ perform (requests builder) world
  unfolding config
  config-perform builder world = sym (
      in_turn _ _ _ _ (one_lem _ _ builder.mtu (λ n. alone (mtu_of n)))
        (in_turn _ _ _ _ (one_lem _ _ builder.tx_queue_len (λ n. alone (tx_queue_len_of n))) (
          in_turn _ _ _ _ (one_lem _ _ builder.mac_addr (λ m. alone (mac_address_of m))) (
            in_turn _ _ _ _ (one_lem _ _ builder.ipv4 network_lem) (
              in_turn _ _ _ _ (one_lem _ _ builder.ipv6 v6_lem)
                (one_lem _ _ builder.enabled (λ e. alone (enabled_of e)))))))
        world)
