-- ===== src/Device/Open/Names.antt =====
-- The name in a request: it fits, and it reads back.
use tun_rs.Base.{
  ℕ, zero, suc, ◌+◌, ◌≤◌, ◌≡◌, refl, ap, ◌∙◌, inl, false, List, [], ◌∷◌, ◌++◌, length,
  length-append, length-put, drop, replicate, some, arith,
}
use mathlib.Core.List.{append_assoc}
use tun_rs.Base.Put.{put_front}
use tun_rs.Device.Open.{Libc, has_nul, c_str, checked_name, name_field}

length-replicate : (n x : ℕ) → length (replicate n x) ≡ n
length-replicate zero x = refl
length-replicate (suc n) x = ap suc (length-replicate n x)

c_str-append : (name rest : List ℕ) → has_nul name ≡ false → c_str (name ++ 0 ∷ rest) ≡ name
unfolding c_str has_nul
c_str-append [] rest h = refl
c_str-append (x ∷ name) rest h = ground (arith, h, c_str-append name rest)

-- A name that `new` and `set_name` accept is the one that was given. With its terminator it fits in the
-- field of the request, which keeps its size; and as a C string the field is the name.
pub checked_name_bounds :
    (libc : Libc) (name accepted : List ℕ)
    → checked_name libc name ≡ inl accepted
    → (accepted ≡ name)
      × (length name + 1 ≤ libc.ifnamsiz)
      × (length (name_field libc (some name)) ≡ libc.ifnamsiz)
      × (c_str (name_field libc (some name)) ≡ name)
unfolding checked_name
checked_name_bounds libc name accepted h =
    let clean : has_nul name ≡ false = ground (arith, h) in
    let short : length name + 1 ≤ libc.ifnamsiz = ground (arith, h) in
    let zeros : List ℕ = replicate libc.ifnamsiz 0 in
    let room : length (name ++ 0 ∷ []) ≤ length zeros =
      omega (arith, length-append name (0 ∷ []), length-replicate libc.ifnamsiz 0) in
    (
      ground (arith, h),
      short,
      length-put zeros 0 (name ++ 0 ∷ []) ∙ length-replicate libc.ifnamsiz 0,
      ap c_str (
            put_front zeros (name ++ 0 ∷ []) room
            ∙ append_assoc name (0 ∷ []) (drop (length (name ++ 0 ∷ [])) zeros))
          ∙ c_str-append name (drop (length (name ++ 0 ∷ [])) zeros) clean,
    )
