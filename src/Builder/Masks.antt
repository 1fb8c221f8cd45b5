-- ===== src/Builder/Masks.antt =====
-- A netmask is recognised exactly when it is the mask of its prefix length.
use tun_rs.Base.{
  ==_iff, IoError, invalid_netmask, ℕ, zero, suc, ◌+◌, ◌-◌, ◌^◌, ◌≤◌, ◌<◌, ◌≡◌, ◌↔◌, refl, sym, ap,
  ◌∙◌, subst, Bool, true, false, ◌&&◌, Bool-cases, leb, le→leb, leb→le, ◌==◌, ok, err, ok_eq, inl,
  inr, arith,
}
use native.Mathlib.Nat.{pow-suc, one-le-pow}
use tun_rs.Builder.{leading_ones, count_ones, ip_bits, shifted_max, prefix_of_ip, netmask}

-- The mask of `prefix` ones among `width` bits.
abbrev pub ones : ℕ → ℕ → ℕ
ones width zero = 0
ones zero (suc prefix) = 0
ones (suc width) (suc prefix) = 2 ^ width + ones width prefix

positive : (n : ℕ) → 0 < 2 ^ n
positive n = one-le-pow n 2 (omega arith)

double : (n : ℕ) → 2 ^ suc n ≡ 2 ^ n + 2 ^ n
double n = omega (arith, pow-suc 2 n)

above_leb : (a b : ℕ) → b < a → leb a b ≡ false
above_leb a b h = ground arith

no_ones : (width n : ℕ) → n < 2 ^ width → count_ones width n ≡ 0 → n ≡ 0
unfolding count_ones
no_ones zero n h c = omega (arith, h)
no_ones (suc width) n h c = elim (Bool-cases (leb (2 ^ width) n)) [
  | inl high ↦
      let counts : suc (count_ones width (n - 2 ^ width)) ≡ 0 = sym (rw high refl) ∙ c in
      absurd (omega (arith, counts))
  | inr low ↦
      let counts : count_ones width n ≡ 0 = sym (rw low refl) ∙ c in
      no_ones width n (ground (arith, low)) counts
]

ones_below : (width prefix : ℕ) → prefix ≤ width → ones width prefix < 2 ^ width
ones_below width zero h = positive width
ones_below zero (suc prefix) h = absurd (omega arith)
ones_below (suc width) (suc prefix) h =
    omega (arith, double width, ones_below width prefix (omega (arith, h)))

counted :
    (width prefix : ℕ)
    → prefix ≤ width
    → (leading_ones width (ones width prefix) ≡ prefix)
      × (count_ones width (ones width prefix) ≡ prefix)
unfolding leading_ones count_ones
counted zero zero h = (refl, refl)
counted (suc width) zero h =
    let low : leb (2 ^ width) 0 ≡ false = above_leb _ _ (positive width) in
    (rw low refl, rw low (counted width zero (omega arith)).1)
counted zero (suc prefix) h = absurd (omega arith)
counted (suc width) (suc prefix) h =
    let high : leb (2 ^ width) (2 ^ width + ones width prefix) ≡ true = le→leb _ _ (omega arith) in
    let rest : 2 ^ width + ones width prefix - 2 ^ width ≡ ones width prefix = omega arith in
    let (leading, count) = counted width prefix (omega (arith, h)) in
    (rw (high, rest) (ap suc leading), rw (high, rest) (ap suc count))

contiguous :
    (width n : ℕ)
    → n < 2 ^ width
    → leading_ones width n ≡ count_ones width n
    → (leading_ones width n ≤ width) × (n ≡ ones width (leading_ones width n))
unfolding leading_ones count_ones
contiguous zero n h same = (omega arith, omega (arith, h))
contiguous (suc width) n h same = elim (Bool-cases (leb (2 ^ width) n)) [
  | inl high ↦
      let half = n - 2 ^ width in
      let leads : leading_ones (suc width) n ≡ suc (leading_ones width half) = rw high refl in
      let counts : count_ones (suc width) n ≡ suc (count_ones width half) = rw high refl in
      let (few, is) =
        contiguous width half (omega (arith, h, double width))
          (omega (arith, same, leads, counts)) in
      subst (λ l. (l ≤ suc width) × (n ≡ ones (suc width) l)) (sym leads)
        (omega (arith, few), omega (arith, is, leb→le _ _ high))
  | inr low ↦
      let leads : leading_ones (suc width) n ≡ 0 = rw low refl in
      let counts : count_ones (suc width) n ≡ count_ones width n = rw low refl in
      subst (λ l. (l ≤ suc width) × (n ≡ ones (suc width) l)) (sym leads)
        (omega arith, no_ones width n (ground (arith, low)) (omega (arith, same, leads, counts)))
]

-- That the shift makes the mask of each prefix length up to `most`.
abbrev agrees : ℕ → ℕ → Bool
agrees width zero = shifted_max width (width - 0) == ones width 0
agrees width (suc most) =
    (shifted_max width (width - suc most) == ones width (suc most)) && agrees width most

and_true : (a b : Bool) → (a && b) ≡ true → (a ≡ true) × (b ≡ true)
and_true true b h = (refl, h)
and_true false b h = absurd (ground arith)

agrees_at :
    (width most prefix : ℕ)
    → agrees width most ≡ true
    → prefix ≤ most
    → shifted_max width (width - prefix) ≡ ones width prefix
agrees_at width zero zero all h = ground (arith, all)
agrees_at width zero (suc prefix) all h = absurd (omega arith)
agrees_at width (suc most) prefix all h =
    let (here, rest) = and_true _ (agrees width most) all in
    elim (Bool-cases (prefix == suc most)) [
      | inl top ↦
          let is : prefix ≡ suc most = ground (arith, top) in
          subst (λ k. shifted_max width (width - k) ≡ ones width k) (sym is) (ground (arith, here))
      | inr below ↦ agrees_at width most prefix rest (ground (arith, h, below))
    ]

agrees_ip : (is_v6 : Bool) → agrees (ip_bits is_v6) (ip_bits is_v6) ≡ true
unfolding shifted_max
agrees_ip false = refl
agrees_ip true = refl

mask_ones :
    (is_v6 : Bool) (prefix : ℕ)
    → prefix ≤ ip_bits is_v6
    → netmask is_v6 (ok prefix) ≡ ok (ones (ip_bits is_v6) prefix)
unfolding netmask
mask_ones is_v6 prefix h =
    ap ok (agrees_at (ip_bits is_v6) (ip_bits is_v6) prefix (agrees_ip is_v6) h)

not_ok : (error : IoError) (n : ℕ) → err error ≡ ok n → ⊥
not_ok error n h = ground arith

recognised :
    (is_v6 : Bool) (ip prefix : ℕ)
    → ip < 2 ^ ip_bits is_v6
    → prefix_of_ip is_v6 ip ≡ ok prefix
    → (prefix ≤ ip_bits is_v6) × (netmask is_v6 (ok prefix) ≡ ok ip)
unfolding prefix_of_ip
recognised is_v6 ip prefix h answers =
    let bits = ip_bits is_v6 in
    elim (Bool-cases (leading_ones bits ip == count_ones bits ip)) [
      | inl same ↦
          let leads : leading_ones bits ip ≡ prefix = ok_eq (sym (rw same refl) ∙ answers) in
          let (few, is) = contiguous bits ip h ((==_iff _ _).0 same) in
          let small = subst (λ l. l ≤ bits) leads few in
          (
            small,
            mask_ones is_v6 prefix small ∙ ap (λ l. ok (ones bits l)) (sym leads) ∙ ap ok (sym is),
          )
      | inr differs ↦
          let refuses : err invalid_netmask ≡ ok prefix = sym (rw differs refl) ∙ answers in
          absurd (not_ok invalid_netmask prefix refuses)
    ]

-- For IPv4 and for IPv6 and any address in range: `prefix` of the address answers a length exactly when
-- the length is in range and `netmask` makes the address of it. So each prefix length survives the way
-- to its mask and back, and every address that is not a mask is refused.
pub prefix_of_ip-netmask :
    (is_v6 : Bool) (ip prefix : ℕ)
    → ip < 2 ^ ip_bits is_v6
    → (prefix_of_ip is_v6 ip ≡ ok prefix)
      ↔ ((prefix ≤ ip_bits is_v6) × (netmask is_v6 (ok prefix) ≡ ok ip))
unfolding prefix_of_ip
prefix_of_ip-netmask is_v6 ip prefix h = (
  λ answers. recognised is_v6 ip prefix h answers,
  λ (few, makes).
      let is = ok_eq (sym makes ∙ mask_ones is_v6 prefix few) in
      let (leading, count) = counted (ip_bits is_v6) prefix few in
      let same : (prefix == prefix) ≡ true = (==_iff prefix prefix).1 refl in
      subst (λ i. prefix_of_ip is_v6 i ≡ ok prefix) (sym is) (rw (leading, count, same) refl),
)
