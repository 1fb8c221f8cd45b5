-- ===== src/Gso/IpHeader.antt =====
-- The IP header of a segment: what `patch_ip` writes and what it leaves alone.
use tun_rs.Base.{
  ℕ, ◌+◌, ◌-◌, ◌%◌, ◌/◌, ◌≤◌, ◌<◌, inl, inr, ◌≡◌, refl, ◌∙◌, true, false, ltb, if◌then◌else◌,
  Bool-cases, List, length, get_or, take, put, be16, be16_bytes, not16, as_u16, IsBytes, Outcome,
  ok, arith, length-put, length-take, get_or-take, write_u16_ok, read_u16_ok, slice_front_ok,
}
use tun_rs.Base.Bytes.{IsBytes-take, be16_bytes-IsBytes}
use tun_rs.Base.Put.{take-put_inside, get_or-put_pair, get_or-put_outside}
use tun_rs.Checksum.{CpuFeatures, checksum}
use tun_rs.Checksum.Internet.{checksum-put-not16}
use tun_rs.Gso.{Plan, patch_ip, bump_id}
use tun_rs.Gso.Changes.{Changes, Changes-put, Changes-refl, Changes-trans, Changes-weaken}

bump_id_lem :
    (i : ℕ) (out : List ℕ)
    → 6 ≤ length out
    → (out' : List ℕ) × (bump_id i out ≡ ok out') × Changes 4 6 out out'
unfolding bump_id
bump_id_lem i out h =
    let id = be16 (get_or out 4 0) (get_or out 5 0) in
    let v = as_u16 (id + as_u16 i) in
    elim (Bool-cases (ltb 0 i)) [
      | inl later ↦ (
        put out 4 (be16_bytes v),
        rw (later, read_u16_ok out 4 (omega arith), write_u16_ok out 4 v (omega arith)),
        Changes-put 4 6 4 out (be16_bytes v) (omega arith) (omega arith) (be16_bytes-IsBytes v),
      )
      | inr first ↦ (out, rw first, Changes-refl 4 6 out)
    ]

-- What `patch_ip` does to the header of `len` bytes at the front of `out`.
pub record IpPatched (cpu : CpuFeatures) (plan : Plan) (total_len : ℕ) (out : List ℕ)
    (result : Outcome (List ℕ)) : Type 0 where
  pub out' : List ℕ
  pub returns : result ≡ ok out'
  pub changes : Changes 0 plan.hdr.csum_start out out'
  pub checked :
      plan.is_v6 ≡ false
      → (checksum cpu (take plan.hdr.csum_start out') 0 ≡ 65535)
        × (be16 (get_or out' 2 0) (get_or out' 3 0) ≡ as_u16 total_len)
  pub payload_length :
      plan.is_v6 ≡ true → be16 (get_or out' 4 0) (get_or out' 5 0) ≡ as_u16 (total_len - 40)

module _ (cpu : CpuFeatures) (plan : Plan) (i total_len : ℕ) (out : List ℕ)
    (bytes : IsBytes out) where
  open plan.hdr use {csum_start as c}

  patch_ip_v6 :
      40 ≤ c
      → c ≤ length out
      → plan.is_v6 ≡ true
      → IpPatched cpu plan total_len out (patch_ip cpu plan i total_len out)
  unfolding patch_ip
  patch_ip_v6 room fits v6 =
      let v = as_u16 (total_len - 40) in
      let field = get_or-put_pair out 4 (v / 256 % 256) (v % 256) 0 (omega arith) in
      record {
        out' = put out 4 (be16_bytes v);
        returns = rw (v6, write_u16_ok out 4 v (omega arith));
        changes =
            Changes-put 0 c 4 out (be16_bytes v) (omega arith) (omega arith) (be16_bytes-IsBytes v);
        checked = λ v4. cc;
        payload_length = λ h. omega arith;
      }

  -- The rest of the IPv4 case, from the buffer that `bump_id` leaves.
  module _ (v4 : plan.is_v6 ≡ false) (room : 20 ≤ c) (small : c < 65536) (out1 : List ℕ)
      (bumped : bump_id i out ≡ ok out1) (c1 : Changes 4 6 out out1) (fits : c ≤ length out)
      (z0 : get_or out 10 0 ≡ 0) (z1 : get_or out 11 0 ≡ 0) where
    abbrev sized : List ℕ
    sized = put out1 2 (be16_bytes (as_u16 total_len))

    abbrev ip_sum : ℕ
    ip_sum = not16 (checksum cpu (take c sized) 0)

    abbrev summed : List ℕ
    summed = put sized 10 (be16_bytes ip_sum)

    summed_returns : patch_ip cpu plan i total_len out ≡ ok summed
    unfolding patch_ip
    summed_returns =
        let size = length-put out1 2 (be16_bytes (as_u16 total_len)) in
        rw (
          v4,
          bumped,
          write_u16_ok out1 2 (as_u16 total_len) (omega (arith, c1.same_length)),
          slice_front_ok sized c (omega (arith, c1.same_length)),
          write_u16_ok sized 10 ip_sum (omega (arith, c1.same_length)),
        )

    sized-Changes : Changes 2 4 out1 sized
    sized-Changes =
        Changes-put 2 4 2 out1 (be16_bytes (as_u16 total_len)) (omega arith) (omega arith)
          (be16_bytes-IsBytes (as_u16 total_len))

    summed-Changes : Changes 0 c out summed
    summed-Changes =
        Changes-trans
          (Changes-trans (Changes-weaken c (omega arith) c1)
            (Changes-weaken c (omega arith) sized-Changes))
          (Changes-weaken c (omega arith) (
            Changes-put 10 12 10 sized (be16_bytes ip_sum) (omega arith) (omega arith)
              (be16_bytes-IsBytes ip_sum)))

    sized_field : (j : ℕ) → 6 ≤ j → get_or sized j 0 ≡ get_or out j 0
    sized_field j h = sized-Changes.outside j (omega arith) ∙ c1.outside j (omega arith)

    summed_checked : checksum cpu (take c summed) 0 ≡ 65535
    summed_checked =
        let size = length-put out1 2 (be16_bytes (as_u16 total_len)) in
        let front = length-take c sized in
        rw (take-put_inside c 10 sized (be16_bytes ip_sum) (omega arith)) (
          checksum-put-not16 cpu (take c sized) 10 0
            (IsBytes-take c sized (sized-Changes.bytes (c1.bytes bytes)))
            (omega (arith, c1.same_length)) refl (omega (arith, c1.same_length))
            (get_or-take c 10 sized 0 ∙ ground (arith, sized_field 10 (omega arith)))
            (get_or-take c 11 sized 0 ∙ ground (arith, sized_field 11 (omega arith))))

    summed_total : be16 (get_or summed 2 0) (get_or summed 3 0) ≡ as_u16 total_len
    summed_total =
        let v = as_u16 total_len in
        let field =
          get_or-put_pair out1 2 (v / 256 % 256) (v % 256) 0 (omega (arith, c1.same_length)) in
        omega (
          arith,
          get_or-put_outside sized 10 (be16_bytes ip_sum) 2 0 (omega arith),
          get_or-put_outside sized 10 (be16_bytes ip_sum) 3 0 (omega arith),
          field.0,
          field.1,
        )

    summed-IpPatched : IpPatched cpu plan total_len out (patch_ip cpu plan i total_len out)
    summed-IpPatched = record {
      out' = summed;
      returns = summed_returns;
      changes = summed-Changes;
      checked = λ h. (summed_checked, summed_total);
      payload_length = λ v6. cc;
    }

-- On a buffer of bytes that holds an IP header of `csum_start` bytes, whose IPv4 checksum field is
-- clear, `patch_ip` succeeds, sets the length field and changes nothing behind the header; an IPv4
-- header sums to 0xFFFF afterwards.
pub patch_ip-IpPatched :
    (cpu : CpuFeatures) (plan : Plan) (i total_len : ℕ) (out : List ℕ)
    → IsBytes out
    → (if plan.is_v6 then 40 else 20) ≤ plan.hdr.csum_start
    → plan.hdr.csum_start < 65536
    → plan.hdr.csum_start ≤ length out
    → (plan.is_v6 ≡ false → (get_or out 10 0 ≡ 0) × (get_or out 11 0 ≡ 0))
    → IpPatched cpu plan total_len out (patch_ip cpu plan i total_len out)
patch_ip-IpPatched cpu plan i total_len out bytes room small fits zeros =
    elim (Bool-cases plan.is_v6) [
      | inl v6 ↦ patch_ip_v6 cpu plan i total_len out bytes (ground arith) fits v6
      | inr v4 ↦
          let bumped = bump_id_lem i out (ground arith) in
          summed-IpPatched cpu plan i total_len out bytes v4 (ground arith) small bumped.0 bumped.1
            bumped.2 fits (zeros v4).0 (zeros v4).1
    ]
