-- ===== src/Gro/Merge/Joined.antt =====
-- What `coalesce_udp_packets` leaves.
use tun_rs.Base.{
  ok_eq, ℕ, zero, suc, ◌+◌, ◌-◌, ◌*◌, ◌%◌, ◌==◌, take, slice, ◌≤◌, ◌⊎◌, inl, inr, ◌≡◌, ◌≢◌, refl,
  sym, ap, ◌∙◌, Bool, true, false, not, List, [], ◌∷◌, ◌++◌, length, length-set, set, drop, leb,
  ltb, as_u16, add64, sub64, if◌then◌else◌, Outcome, ok, slice_from, bind_ok, arith, Bool-cases,
  leb→le,
}
use tun_rs.Checksum.{CpuFeatures, checksum, pseudo_header_checksum_no_fold}
use tun_rs.Gso.{ipproto_udp, udp_h_len, src_addr_offset, addr_len}
use tun_rs.Gro.{
  ExpandBuffer, IsExpandBuffer, CoalesceResult, success, insufficient_cap, item_invalid_csum,
  pkt_invalid_csum, nth,
}
use tun_rs.Gro.Flow.{UdpGroItem}
use tun_rs.Gro.Merge.{Merged, checksum_valid, first_csum_bad, coalesce_udp_packets}

-- A buffer that is written is the one that is read, and no other.
pub nth-set {ℓ} :
    {A : Type ℓ} (xs : List A) (i : ℕ) (old new : A)
    → nth xs i ≡ ok old
    → nth (set xs i new) i ≡ ok new
unfolding nth
nth-set [] i old new h = absurd (ground arith)
nth-set (x ∷ xs) zero old new h = refl
nth-set (x ∷ xs) (suc i) old new h = nth-set xs i old new h

pub nth-set_other {ℓ} :
    {A : Type ℓ} (xs : List A) (i j : ℕ) (new : A) → i ≢ j → nth (set xs i new) j ≡ nth xs j
unfolding nth
nth-set_other [] i j new h = refl
nth-set_other (x ∷ xs) zero zero new h = absurd (h refl)
nth-set_other (x ∷ xs) zero (suc j) new h = refl
nth-set_other (x ∷ xs) (suc i) zero new h = refl
nth-set_other (x ∷ xs) (suc i) (suc j) new h = nth-set_other xs i j new (λ p. h (ap suc p))

not-false : {b : Bool} → not b ≡ false → b ≡ true
not-false h = ground arith

-- A test with an early return, and what follows from either way of returning.
pub returned {ℓ κ} :
    {A : Type ℓ} {P : Type κ} (c : Bool) (early : A) (rest : Outcome A) (m : A)
    → (if c then ok early else rest) ≡ ok m
    → (early ≡ m → P)
    → (c ≡ false → rest ≡ ok m → P)
    → P
returned true early rest m h refuses goes = refuses (ground arith)
returned false early rest m h refuses goes = goes refl h

pub slice_from-drop {ℓ} :
    {A : Type ℓ} (l : List A) (lo : ℕ) {part : List A}
    → slice_from l lo ≡ ok part
    → (lo ≤ length l) × (drop lo l ≡ part)
unfolding slice_from
slice_from-drop l lo h = elim (Bool-cases (leb lo (length l))) [
  | inl fits ↦ (leb→le lo (length l) fits, ground (arith, fits))
  | inr beyond ↦ absurd (ground (arith, beyond))
]

-- Nothing was joined: the item and the buffers are as before.
pub record Refused {B : Type 0} {I : Type 0} (item : I) (bufs : List B) (m : Merged B I)
    : Type 0 where
  pub failed : m.result ≢ success
  pub same_item : m.item ≡ item
  pub same_bufs : m.bufs ≡ bufs

pub refused :
    {B : Type 0} {I : Type 0} (result : CoalesceResult) (item : I) (bufs : List B) (m : Merged B I)
    → record { result = result; item = item; bufs = bufs } ≡ m
    → result ≢ success
    → Refused item bufs m
refused result item bufs m same other = record {
  failed = λ p. other (ap (λ (x : Merged _ _). x.result) same ∙ p);
  same_item = sym (ap (λ (x : Merged _ _). x.item) same);
  same_bufs = sym (ap (λ (x : Merged _ _). x.bufs) same);
}

-- The UDP checksum of a packet verifies: the bytes behind the IP header and the pseudo-header, with the
-- addresses of the IP header and the length behind it, sum to 65535.
abbrev pub Verifies : CpuFeatures → Bool → List ℕ → ℕ → Type 0
Verifies cpu is_v6 pkt iph_len =
    let at = if is_v6 then 8 else 12 in
    let size = if is_v6 then 16 else 4 in
    checksum cpu (drop iph_len pkt) (
      pseudo_header_checksum_no_fold cpu 17 (take size (drop at pkt))
        (take size (drop (at + size) pkt)) (length pkt % 65536 - iph_len))
    ≡ 65535

slice_bytes :
    (l : List ℕ) (lo hi : ℕ) {bytes : List ℕ}
    → slice l lo hi ≡ ok bytes
    → bytes ≡ take (hi - lo) (drop lo l)
unfolding slice
slice_bytes l lo hi h = ground (arith, h)

checksum_small : (cpu : CpuFeatures) (b : List ℕ) (initial : ℕ) → checksum cpu b initial ≤ 65535
unfolding checksum
checksum_small cpu b initial = omega arith

checksum_valid-Verifies :
    (cpu : CpuFeatures) (is_v6 : Bool) (pkt : List ℕ) (iph_len : ℕ)
    → checksum_valid cpu pkt iph_len ipproto_udp is_v6 ≡ ok true
    → Verifies cpu is_v6 pkt iph_len
unfolding checksum_valid
checksum_valid-Verifies cpu is_v6 pkt iph_len h =
    let (src, at_src, h1) =
      bind_ok (slice pkt (src_addr_offset is_v6) (src_addr_offset is_v6 + addr_len is_v6)) _ h in
    let (dst, at_dst, h2) =
      bind_ok
        (slice pkt (src_addr_offset is_v6 + addr_len is_v6)
          (src_addr_offset is_v6 + addr_len is_v6 * 2))
        _ h1 in
    let (rest, at_rest, h3) = bind_ok (slice_from pkt iph_len) _ h2 in
    let sum =
      checksum cpu rest
        (pseudo_header_checksum_no_fold cpu 17 src dst (length pkt % 65536 - iph_len)) in
    let full : sum ≡ 65535 = ground (
      arith,
      ok_eq h3,
      checksum_small cpu rest
          (pseudo_header_checksum_no_fold cpu 17 src dst (length pkt % 65536 - iph_len)),
    ) in
    shape is_v6 src dst rest (slice_bytes pkt _ _ at_src) (slice_bytes pkt _ _ at_dst)
      (sym (slice_from-drop pkt iph_len at_rest).1) full
  where
    shape :
        (is_v6 : Bool) (src dst rest : List ℕ)
        → src
          ≡ take
              (src_addr_offset is_v6 + addr_len is_v6 - src_addr_offset is_v6)
              (drop (src_addr_offset is_v6) pkt)
        → dst
          ≡ take
              (src_addr_offset is_v6
                + addr_len is_v6 * 2
                - (src_addr_offset is_v6 + addr_len is_v6))
              (drop (src_addr_offset is_v6 + addr_len is_v6) pkt)
        → rest ≡ drop iph_len pkt
        → checksum cpu rest
            (pseudo_header_checksum_no_fold cpu 17 src dst (length pkt % 65536 - iph_len))
          ≡ 65535
        → Verifies cpu is_v6 pkt iph_len
    shape true src dst rest s d r full = rw (← s, ← d, ← r) full
    shape false src dst rest s d r full = rw (← s, ← d, ← r) full

-- The packet of an item to which nothing has been joined is looked at, and no other.
first_csum_bad-Verifies :
    (cpu : CpuFeatures) (is_v6 : Bool) (head : List ℕ) (iph_len num_merged : ℕ) (invalid : Bool)
    → first_csum_bad cpu is_v6 head iph_len ipproto_udp num_merged invalid ≡ ok false
    → num_merged ≡ 0
    → (invalid ≡ false) × Verifies cpu is_v6 head iph_len
unfolding first_csum_bad
first_csum_bad-Verifies cpu is_v6 head iph_len num_merged true h first =
    let none_yet : (num_merged == 0) ≡ true = ground arith in
    absurd (ground (arith, rw (none_yet, first_csum_bad) at h))
first_csum_bad-Verifies cpu is_v6 head iph_len num_merged false h first =
    let none_yet : (num_merged == 0) ≡ true = ground arith in
    let (valid, checked, h1) =
      bind_ok (checksum_valid cpu head iph_len ipproto_udp is_v6) _
        (rw (none_yet, first_csum_bad) at h) in
    (
      refl,
      checksum_valid-Verifies cpu is_v6 head iph_len
          (checked ∙ ap ok (not-false (ground (arith, ok_eq h1)))),
    )

module _ {B : Type 0} (e : ExpandBuffer B) (laws : IsExpandBuffer e) (bufs_offset : ℕ)
    (cpu : CpuFeatures) (is_v6 : Bool) where
  -- The packet of the item was followed by the payload of `pkt`, and no other buffer changed. The checksum
  -- of `pkt` verifies, and that of the item's packet does if nothing had been joined to it before.
  pub record UdpJoined (pkt : List ℕ) (item : UdpGroItem) (bufs : List B) (m : Merged B UdpGroItem)
      : Type 0 where
    pub head : B
    pub joined : B
    pub succeeded : m.result ≡ success
    pub found : nth bufs item.bufs_index ≡ ok head
    pub first_valid :
        (h : List ℕ) × (slice_from (e.as_ref head) bufs_offset ≡ ok h)
        × (item.num_merged ≡ 0
            → (item.c_sum_known_invalid ≡ false) × Verifies cpu is_v6 h item.iph_len)
    pub valid : Verifies cpu is_v6 pkt item.iph_len
    pub counted : m.item ≡ record item { num_merged = as_u16 (item.num_merged + 1) }
    pub stored : nth m.bufs item.bufs_index ≡ ok joined
    pub content : e.as_ref joined ≡ e.as_ref head ++ drop (item.iph_len + 8) pkt
    pub others : (j : ℕ) → item.bufs_index ≢ j → nth m.bufs j ≡ nth bufs j
    pub same_length : length m.bufs ≡ length bufs

  udp_joined :
      (pkt : List ℕ) (item : UdpGroItem) (bufs : List B) (m : Merged B UdpGroItem) (buf : B)
      (head payload : List ℕ)
      → nth bufs item.bufs_index ≡ ok buf
      → slice_from (e.as_ref buf) bufs_offset ≡ ok head
      → first_csum_bad cpu is_v6 head item.iph_len ipproto_udp item.num_merged
          item.c_sum_known_invalid
        ≡ ok false
      → checksum_valid cpu pkt item.iph_len ipproto_udp is_v6 ≡ ok true
      → drop (item.iph_len + udp_h_len) pkt ≡ payload
      → record {
        result = success;
        item = record item { num_merged = as_u16 (item.num_merged + 1) };
        bufs = set bufs item.bufs_index (e.buf_extend_from_slice buf payload);
      }
        ≡ m
      → UdpJoined pkt item bufs m
  udp_joined pkt item bufs m buf head payload found at_head good fine cut same =
      let written : m.bufs ≡ set bufs item.bufs_index (e.buf_extend_from_slice buf payload) =
        sym (ap (λ (o : Merged B UdpGroItem). o.bufs) same) in
      record {
        head = buf;
        joined = e.buf_extend_from_slice buf payload;
        succeeded = sym (ap (λ (o : Merged B UdpGroItem). o.result) same);
        found = found;
        first_valid = (
          head,
          at_head,
          first_csum_bad-Verifies cpu is_v6 head item.iph_len item.num_merged
              item.c_sum_known_invalid good,
        );
        valid = checksum_valid-Verifies cpu is_v6 pkt item.iph_len fine;
        counted = sym (ap (λ (o : Merged B UdpGroItem). o.item) same);
        stored =
            rw written
              (nth-set bufs item.bufs_index buf (e.buf_extend_from_slice buf payload) found);
        content = laws.as_ref-extend buf payload ∙ ap (λ rest. e.as_ref buf ++ rest) (sym cut);
        others = λ j other.
            rw written
              (nth-set_other bufs item.bufs_index j (e.buf_extend_from_slice buf payload) other);
        same_length =
            rw written (length-set bufs item.bufs_index (e.buf_extend_from_slice buf payload));
      }

  -- When `coalesce_udp_packets` returns, it has either refused the packet, and then item and buffers
  -- are as before, or joined it. Then the packet's checksum verifies, and if nothing had been joined to
  -- the item before, that of the item's packet does, too, and was not known to be invalid; the item's
  -- buffer holds what it held with the packet's payload behind, the item counts one more, and no other
  -- buffer changed.
  pub coalesce_udp_lem :
      (pkt : List ℕ) (item : UdpGroItem) (bufs : List B) (m : Merged B UdpGroItem)
      → coalesce_udp_packets e bufs_offset cpu is_v6 pkt item bufs ≡ ok m
      → Refused item bufs m ⊎ UdpJoined pkt item bufs m
  unfolding coalesce_udp_packets
  coalesce_udp_lem pkt item bufs m h =
      let (buf, found, h1) = bind_ok (nth bufs item.bufs_index) _ h in
      let (head, at_head, h2) = bind_ok (slice_from (e.as_ref buf) bufs_offset) _ h1 in
      returned
        (ltb (e.buf_capacity buf)
          (add64 (bufs_offset * 2) (sub64 (length head + length pkt) (item.iph_len + udp_h_len))))
        _ _ m h2 (λ early. inl (refused insufficient_cap item bufs m early (ground arith)))
        (λ room h3.
          let (bad, tested, h4) =
            bind_ok
              (first_csum_bad cpu is_v6 head item.iph_len ipproto_udp item.num_merged
                item.c_sum_known_invalid)
              _ h3 in
          returned bad _ _ m h4
            (λ early. inl (refused item_invalid_csum item bufs m early (ground arith)))
            (λ good h5.
              let (pkt_valid, checked, h6) =
                bind_ok (checksum_valid cpu pkt item.iph_len ipproto_udp is_v6) _ h5 in
              returned (not pkt_valid) _ _ m h6
                (λ early. inl (refused pkt_invalid_csum item bufs m early (ground arith)))
                (λ good2 h7.
                  let (payload, cut, h8) =
                    bind_ok (slice_from pkt (item.iph_len + udp_h_len)) _ h7 in
                  inr (
                    udp_joined pkt item bufs m buf head payload found at_head (tested ∙ ap ok good)
                      (checked ∙ ap ok (not-false good2))
                      (slice_from-drop pkt (item.iph_len + udp_h_len) cut).1 (ok_eq h8)))))
