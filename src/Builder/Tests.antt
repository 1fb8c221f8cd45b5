-- ===== src/Builder/Tests.antt =====
-- Runs of the masks and of the builder.
use tun_rs.Base.{
  ℕ, ◌≤◌, ◌≡◌, ◌↔◌, refl, false, List, [], ◌∷◌, ◌++◌, ◌==◌, if◌then◌else◌, none, some, ok, err,
  invalid_netmask, os_error, inl, arith,
}
use tun_rs.Builder.{prefix_of_ip, netmask}
use tun_rs.Builder.Masks.{prefix_of_ip-netmask}
use tun_rs.Builder.Device.{
  DeviceBuilder, Settings, new_builder, with_mtu, with_ipv4, with_ipv6, config,
}
use tun_rs.Builder.Device.Requests.{requests, perform, config-perform}

-- 255.255.255.0 and 255.0.255.0.
mask_runs :
    (netmask false (ok 24) ≡ ok 0xffffff00)
    × (prefix_of_ip false 0xffffff00 ≡ ok 24)
    × (prefix_of_ip false 0xff00ff00 ≡ err invalid_netmask)
unfolding netmask prefix_of_ip
mask_runs = (refl, refl, refl)

prefix_of_ip-netmask_example :
    (prefix_of_ip false 0xffffff00 ≡ ok 24) ↔ ((24 ≤ 32) × (netmask false (ok 24) ≡ ok 0xffffff00))
prefix_of_ip-netmask_example = prefix_of_ip-netmask false 0xffffff00 24 (omega arith)

-- A device that logs the calls, as numbers, and refuses the IPv6 address 7.
abbrev logging : Settings (List ℕ)
logging = record {
  set_mtu = λ n log. (none, log ++ n ∷ []);
  set_tx_queue_len = λ n log. (none, log ++ n ∷ []);
  set_mac_address = λ m log. (none, log ++ m);
  set_network_address = λ a p t log. (none, log ++ a ∷ p ∷ []);
  add_address_v6 =
      λ a p log. if a == 7 then (some (os_error 99), log) else (none, log ++ a ∷ p ∷ []);
  set_enabled = λ e log. (none, log ++ 1 ∷ []);
}

abbrev builder : DeviceBuilder ℕ
builder =
    with_ipv6
      (with_ipv6
        (with_ipv6 (with_ipv4 (with_mtu new_builder 1400) (inl 10) (inl 24) none) (inl 5) (inl 64))
        (inl 7) (inl 64))
      (inl 6) (inl 64)

-- The address 6 is not reached, and the device is not enabled.
config_run : config logging builder [] ≡ (some (os_error 99), 1400 ∷ 10 ∷ 24 ∷ 5 ∷ 64 ∷ [])
unfolding config with_ipv6
config_run = refl

config-perform_example : config logging builder [] ≡ perform logging (requests builder) []
config-perform_example = config-perform logging builder []
