-- ===== src/Device/Config/Flags.antt =====
-- The flags that `enabled` writes, bit by bit.
use tun_rs.Base.{
  ℕ, zero, suc, ◌/◌, ◌%◌, ◌≤◌, ◌<◌, bit_and, bit_or, min, ◌≡◌, refl, ap, ◌∙◌, Bool, ◌||◌, ◌&&◌,
  ◌==◌, List, none, inl, true, false, if◌then◌else◌, arith,
}
use Prim.Native.Nat.{max}
use tun_rs.Base.Bits.{bit_and-halves}
use tun_rs.Base.Ors.{bit_or-halves}
use tun_rs.Device.Config.{Interface, ifru_flags, finish, enabled_flags, enabled}
use tun_rs.Device.Open.{Libc}

-- The bit `k` of a number.
abbrev pub bit : ℕ → ℕ → ℕ
bit zero n = n % 2
bit (suc k) n = bit k (n / 2)

bit-bit_and : (k a b : ℕ) → bit k (bit_and a b) ≡ min (bit k a) (bit k b)
bit-bit_and zero a b = omega (arith, bit_and-halves a b)
bit-bit_and (suc k) a b =
    ap (bit k) (omega (arith, bit_and-halves a b)) ∙ bit-bit_and k (a / 2) (b / 2)

bit-bit_or : (k a b : ℕ) → bit k (bit_or a b) ≡ max (bit k a) (bit k b)
bit-bit_or zero a b = omega (arith, bit_or-halves a b)
bit-bit_or (suc k) a b =
    ap (bit k) (omega (arith, bit_or-halves a b)) ∙ bit-bit_or k (a / 2) (b / 2)

bit-le : (k n : ℕ) → bit k n ≤ 1
bit-le zero n = omega arith
bit-le (suc k) n = bit-le k (n / 2)

-- The bits 0 and 6 of IFF_UP | IFF_RUNNING, and all but the bit 0 of the 16 bits of !IFF_UP.
mask_bits : ℕ → Bool
mask_bits k =
    (bit k 65 == (if (k == 0) || (k == 6) then 1 else 0))
    && (bit k 65534 == (if k == 0 then 0 else 1))

below : ℕ → (ℕ → Bool) → Bool
below zero p = true
below (suc n) p = p n && below n p

below_sound : (n : ℕ) (p : ℕ → Bool) (x : ℕ) → below n p ≡ true → x < n → p x ≡ true
unfolding below
below_sound zero p x h lt = absurd (omega arith)
below_sound (suc n) p x h lt = ground (arith, below_sound n p x)

mask_table : below 16 mask_bits ≡ true
unfolding below mask_bits
mask_table = refl

module _ (libc : Libc) (arphrd_ether : ℕ) {W : Type 0} (interface : Interface W) where
  -- Once the flags of the interface have been read, `enabled` writes back 16 bits of which it has changed
  -- these: IFF_UP and IFF_RUNNING are set to enable the device, and IFF_UP is cleared to disable it.
  pub enabled-bit :
      (world w : W) (name : List ℕ) (flags k : ℕ)
      → interface.ctl world ≡ (none, w)
      → interface.name_impl w ≡ inl name
      → interface.siocgifflags name w ≡ inl flags
      → k < 16
      → (enabled libc 1 64 arphrd_ether interface true world
          ≡ finish (
              interface.set_ifru name
                (ifru_flags (enabled_flags libc 1 64 arphrd_ether interface true flags))
                w))
        × (bit k (enabled_flags libc 1 64 arphrd_ether interface true flags)
            ≡ (if (k == 0) || (k == 6) then 1 else bit k flags))
        × (enabled libc 1 64 arphrd_ether interface false world
            ≡ finish (
                interface.set_ifru name
                  (ifru_flags (enabled_flags libc 1 64 arphrd_ether interface false flags))
                  w))
        × (bit k (enabled_flags libc 1 64 arphrd_ether interface false flags)
            ≡ (if k == 0 then 0 else bit k flags))
  unfolding enabled_flags enabled mask_bits
  enabled-bit world w name flags k c n f h =
      let row : mask_bits k ≡ true = below_sound 16 mask_bits k mask_table h in
      let up : bit_or 1 64 ≡ 65 = refl in
      (
        ground (arith, c, n, f),
        rw (bit-bit_or k flags 65) (ground (arith, row, bit-le k flags)),
        ground (arith, c, n, f),
        rw (bit-bit_and k flags 65534) (ground (arith, row, bit-le k flags)),
      )
