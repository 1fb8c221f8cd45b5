-- ===== src/Builder.antt =====
-- src/builder.rs: netmasks, and the builder of a device as it is built for Linux.
pub mod Masks
pub mod Device
mod Tests
use tun_rs.Base.{
  ℕ, zero, suc, ◌+◌, ◌-◌, ◌*◌, ◌%◌, ◌^◌, Bool, not, List, [], ◌∷◌, ltb, leb, ◌==◌, if◌then◌else◌,
  Option, none, some, Outcome, ok, err, panic, ◌>>=◌, ◌>>◌, fail_if, IoError, invalid_prefix_length,
  invalid_netmask, invalid_netmask_str,
}

-- `leading_ones` and `count_ones` of a number of `width` bits.
unfoldable pub leading_ones : ℕ → ℕ → ℕ
leading_ones zero n = 0
leading_ones (suc width) n =
    let rest = leading_ones width (n - 2 ^ width) in if leb (2 ^ width) n then suc rest else 0

unfoldable pub count_ones : ℕ → ℕ → ℕ
count_ones zero n = 0
count_ones (suc width) n =
    let high = leb (2 ^ width) n in
    let rest = count_ones width (if high then n - 2 ^ width else n) in
    if high then suc rest else rest

-- The bits of an IPv4 or an IPv6 address; addresses are numbers.
abbrev pub ip_bits : Bool → ℕ
ip_bits is_v6 = if is_v6 then 128 else 32

-- `checked_shl` of the greatest number, and zero when the shift is too wide.
unfoldable pub shifted_max : ℕ → ℕ → ℕ
shifted_max width shift = if ltb shift width then (2 ^ width - 1) * 2 ^ shift % 2 ^ width else 0

-- `prefix` of a prefix length.
unfoldable pub prefix_of_u8 : Bool → ℕ → Outcome ℕ
prefix_of_u8 is_v6 prefix =
    if ltb (ip_bits is_v6) prefix then err invalid_prefix_length else ok prefix

-- `prefix` of a netmask.
unfoldable pub prefix_of_ip : Bool → ℕ → Outcome ℕ
unfolding leading_ones count_ones
prefix_of_ip is_v6 ip =
    let leading = leading_ones (ip_bits is_v6) ip in
    if not (leading == count_ones (ip_bits is_v6) ip) then err invalid_netmask else ok leading

-- `prefix` of a string, which the standard library parses.
unfoldable pub prefix_of_str : {S : Type 0} → (S → Option ℕ) → Bool → S → Outcome ℕ
unfolding prefix_of_ip
prefix_of_str from_str is_v6 text = elim (from_str text) [
  | some ip ↦ prefix_of_ip is_v6 ip
  | none ↦ err invalid_netmask_str
]

-- `netmask`, on what `prefix` answers.
unfoldable pub netmask : Bool → Outcome ℕ → Outcome ℕ
unfolding shifted_max
netmask is_v6 answer = do prefix ← answer; ok (shifted_max (ip_bits is_v6) (ip_bits is_v6 - prefix))
