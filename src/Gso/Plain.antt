-- ===== src/Gso/Plain.antt =====
-- `gso_none_checksum`: the transport checksum of a packet that is not segmented.
use tun_rs.Base.{
  ap, sym, ◌∙◌, ok_eq, ℕ, ◌+◌, ◌%◌, ◌≤◌, ◌<◌, ◌⊎◌, ◌≡◌, refl, List, [], ◌∷◌, length, get_or, drop,
  put, be16, be16_bytes, not16, as_u16, IsBytes, ok, arith, length-put, length-drop, write_at_ok,
  write_u16_ok, slice_from_ok, read_u16_ok,
}
use tun_rs.Base.Bytes.{IsBytes-put, IsBytes-drop, IsBytes-get_or}
use tun_rs.Base.Put.{put_pair, put-put, drop-put, get_or-put_pair, get_or-put_outside}
use tun_rs.Checksum.{CpuFeatures, checksum}
use tun_rs.Checksum.Internet.{checksum-put-not16}
use tun_rs.Gso.{gso_none_checksum}

module _ (cpu : CpuFeatures) (in_buf : List ℕ) (start offset : ℕ) (bytes : IsBytes in_buf)
    (small : length in_buf ≤ 4294967296) (in_u16 : start + offset < 65536)
    (inside : start + offset + 2 ≤ length in_buf) where
  -- What the field holds at first: the sum of the pseudo-header.
  abbrev initial : ℕ
  initial = be16 (get_or in_buf (start + offset) 0) (get_or in_buf (start + offset + 1) 0)

  abbrev cleared : List ℕ
  cleared = put in_buf (start + offset) (0 ∷ 0 ∷ [])

  abbrev stored : ℕ
  stored = not16 (checksum cpu (drop start cleared) initial)

  gso_none_checksum_ok :
      gso_none_checksum cpu in_buf start offset
      ≡ ok (put in_buf (start + offset) (be16_bytes stored))
  unfolding gso_none_checksum
  gso_none_checksum_ok =
      let k : as_u16 (start + offset) ≡ start + offset = omega arith in
      let one = start + offset in
      rw (
        k,
        read_u16_ok in_buf one inside,
        write_at_ok in_buf one 0 (omega arith),
        write_at_ok (put in_buf one (0 ∷ [])) (one + 1) 0
            (omega (arith, length-put in_buf one (0 ∷ []))),
        put_pair in_buf one 0 0,
        slice_from_ok cleared start (omega (arith, length-put in_buf one (0 ∷ 0 ∷ []))),
        write_u16_ok cleared one stored (omega (arith, length-put in_buf one (0 ∷ 0 ∷ []))),
        put-put in_buf one (0 ∷ 0 ∷ []) (be16_bytes stored) refl,
      )

  pub gso_none_checksum-length :
      (out : List ℕ)
      → gso_none_checksum cpu in_buf start offset ≡ ok out
      → length out ≡ length in_buf
  gso_none_checksum-length out h =
      ap length (ok_eq (sym h ∙ gso_none_checksum_ok))
      ∙ length-put in_buf (start + offset) (be16_bytes stored)

  -- For a packet of at most 2 ^ 32 bytes whose checksum field lies inside it, at a position below 2 ^ 16
  -- and an even offset from where the sum starts, `gso_none_checksum` succeeds; a receiver that sums from the start on, with the value that
  -- the field held first (the sum of the pseudo-header), gets 0xFFFF; no byte but the field's changes.
  pub gso_none_checksum_lem :
      offset % 2 ≡ 0
      → (out : List ℕ) × (gso_none_checksum cpu in_buf start offset ≡ ok out)
        × (checksum cpu (drop start out) initial ≡ 65535)
        × ((i : ℕ)
            → (i < start + offset) ⊎ (start + offset + 2 ≤ i)
            → get_or out i 0 ≡ get_or in_buf i 0)
  gso_none_checksum_lem even =
      let one = start + offset in
      let rest = drop start in_buf in
      let blank = put rest offset (0 ∷ 0 ∷ []) in
      let field = be16_bytes stored in
      let size = length-put rest offset (0 ∷ 0 ∷ []) in
      let rest_size = length-drop start in_buf in
      let clear_rest : drop start cleared ≡ blank = drop-put start offset in_buf (0 ∷ 0 ∷ []) in
      let filled : put blank offset field ≡ put rest offset field =
        put-put rest offset (0 ∷ 0 ∷ []) field refl in
      let zeros = get_or-put_pair rest offset 0 0 0 (omega arith) in
      let checked =
        checksum-put-not16 cpu blank offset initial
          (IsBytes-put rest offset (0 ∷ 0 ∷ []) (IsBytes-drop start in_buf bytes) (omega arith))
          (omega (arith, IsBytes-get_or in_buf one bytes, IsBytes-get_or in_buf (one + 1) bytes))
          even (omega arith) zeros.0 zeros.1 in
      (
        put in_buf one field,
        gso_none_checksum_ok,
        rw (drop-put start offset in_buf field, ← filled) (rw clear_rest checked),
        λ i away. get_or-put_outside in_buf one field i 0 away,
      )
