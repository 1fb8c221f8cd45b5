-- ===== src/Base/Fallible.antt =====
-- What a Rust function that returns `io::Result` can do: return a value, return an error, or panic
-- (an index out of range, a failed `expect`). The errors of the offload code, one for each message.
use Prim.Native.Nat.{ℕ, ◌+◌, ◌-◌, ◌≤◌, ◌<◌}
use mathlib.Core.Path.{◌≡◌, refl}
use mathlib.Core.Bool.{Bool, true, false, ◌&&◌}
use mathlib.Core.List.{List, [], ◌∷◌}
use native.Mathlib.Omega.{arith}
use tun_rs.Base.Test.{leb, ltb, ◌==◌, if◌then◌else◌, le→leb}
use tun_rs.Base.Lists.{length, get_or, take, drop, put}
use tun_rs.Base.Word.{be16, be32, be16_bytes, be32_bytes}

pub data IoError : Type 0 where
  too_short : IoError
  sizes_too_short : IoError
  too_many_buffers : IoError
  zero_gso_size : IoError
  hdr_len_below_csum_start : IoError
  csum_start_below_ip_header : IoError
  input_below_hdr_len : IoError
  ip_packet_too_short : IoError
  csum_past_input : IoError
  tcp_header_too_short : IoError
  udp_header_too_short : IoError
  addresses_past_input : IoError
  too_many_segments : IoError
  output_buffer_too_small : IoError
  invalid_offset : IoError
  bufs_error : IoError
  length_below_hdr : IoError
  read_overflows : IoError
  unsupported_gso_type : ℕ → IoError
  version_gso_type : ℕ → ℕ → IoError
  invalid_ip_version : ℕ → IoError
  packet_too_short : IoError
  bytes_remaining : IoError
  more_than_spare : IoError
  tcp_header_len_invalid : ℕ → IoError
  packet_below_hdr_len : IoError
  csum_end_past_packet : IoError
  would_block : IoError
  interrupted : IoError
  timed_out : IoError
  fd_error : IoError
  value_zero : IoError
  zero_length_data : IoError
  ip_version_data : ℕ → IoError
  invalid_input : IoError
  invalid_prefix_length : IoError
  invalid_netmask : IoError
  invalid_netmask_str : IoError
  recv_buffer_empty : IoError
  buffer_too_small : IoError
  name_too_long : IoError
  name_prefix : IoError
  no_bpf_device : IoError
  nul_byte : IoError
  unsupported : IoError
  packet_too_large : IoError
  not_utf8 : IoError
  not_u16 : IoError
  closed : IoError
  no_free_device : IoError
  makedev_failed : IoError
  already_exists : IoError
  -- An error number of the operating system.
  os_error : ℕ → IoError

pub data Outcome {ℓ} (A : Type ℓ) : Type ℓ where
  ok : A → Outcome A
  err : IoError → Outcome A
  panic : Outcome A

infixl 5 ◌>>=◌ ◌>>◌
abbrev pub ◌>>=◌ {ℓ κ} : {A : Type ℓ} {B : Type κ} → Outcome A → (A → Outcome B) → Outcome B
ok a >>= f = f a
err e >>= f = err e
panic >>= f = panic

abbrev pub ◌>>◌ {ℓ} : {B : Type ℓ} → Outcome (Unit {0}) → Outcome B → Outcome B
m >> k = m >>= λ _. k

-- `if bad { return Err(e) }`.
abbrev pub fail_if : Bool → IoError → Outcome (Unit {0})
fail_if true e = err e
fail_if false e = ok tt

-- `l[i]`.
unfoldable pub at : List ℕ → ℕ → Outcome ℕ
at l i = if ltb i (length l) then ok (get_or l i 0) else panic

-- `l[lo..]` and `l[lo..hi]`.
unfoldable pub slice_from {ℓ} : {A : Type ℓ} → List A → ℕ → Outcome (List A)
slice_from l lo = if leb lo (length l) then ok (drop lo l) else panic

unfoldable pub slice {ℓ} : {A : Type ℓ} → List A → ℕ → ℕ → Outcome (List A)
slice l lo hi = if leb lo hi && leb hi (length l) then ok (take (hi - lo) (drop lo l)) else panic

-- `l[k..k + src.len()].copy_from_slice(src)`.
unfoldable pub write : List ℕ → ℕ → List ℕ → Outcome (List ℕ)
write l k src = if leb (k + length src) (length l) then ok (put l k src) else panic

-- `l[i] = v`.
unfoldable pub write_at : List ℕ → ℕ → ℕ → Outcome (List ℕ)
unfolding write
write_at l i v = write l i (v ∷ [])

-- `BigEndian::read_u16(&l[k..])`, `read_u32`, `write_u16` and `write_u32` at an offset.
unfoldable pub read_u16 : List ℕ → ℕ → Outcome ℕ
read_u16 l k =
    if leb (k + 2) (length l) then ok (be16 (get_or l k 0) (get_or l (k + 1) 0)) else panic

unfoldable pub read_u32 : List ℕ → ℕ → Outcome ℕ
read_u32 l k =
    if leb (k + 4) (length l)
    then ok (be32 (get_or l k 0) (get_or l (k + 1) 0) (get_or l (k + 2) 0) (get_or l (k + 3) 0))
    else panic

unfoldable pub write_u16 : List ℕ → ℕ → ℕ → Outcome (List ℕ)
unfolding write
write_u16 l k v = write l k (be16_bytes v)

unfoldable pub write_u32 : List ℕ → ℕ → ℕ → Outcome (List ℕ)
unfolding write
write_u32 l k v = write l k (be32_bytes v)

-- `starts_with`.
unfoldable pub starts_with : List ℕ → List ℕ → Bool
starts_with name [] = true
starts_with [] (c ∷ prefix) = false
starts_with (x ∷ name) (c ∷ prefix) = if x == c then starts_with name prefix else false

-- `e.raw_os_error() == Some(code)`.
unfoldable pub is_os_error : ℕ → IoError → Bool
is_os_error code (os_error n) = n == code
is_os_error code _ = false

pub ok_eq {ℓ} : {A : Type ℓ} {x y : A} → ok x ≡ ok y → x ≡ y
ok_eq h = ground arith

-- A chain that returns has had a first step that returned.
pub bind_ok {ℓ κ} :
    {A : Type ℓ} {B : Type κ} (m : Outcome A) (f : A → Outcome B) {b : B}
    → (m >>= f) ≡ ok b
    → (a : A) × (m ≡ ok a) × (f a ≡ ok b)
bind_ok (ok a) f h = (a, refl, h)
bind_ok (err e) f h = absurd (ground arith)
bind_ok panic f h = absurd (ground arith)

-- In range, none of these panics.
pub at_ok : (l : List ℕ) (i : ℕ) → i < length l → at l i ≡ ok (get_or l i 0)
unfolding at
at_ok l i h = ground arith

pub slice_from_ok {ℓ} :
    {A : Type ℓ} (l : List A) (lo : ℕ) → lo ≤ length l → slice_from l lo ≡ ok (drop lo l)
unfolding slice_from
slice_from_ok l lo h = rw (le→leb lo (length l) h)

pub slice_ok {ℓ} :
    {A : Type ℓ} (l : List A) (lo hi : ℕ)
    → lo ≤ hi
    → hi ≤ length l
    → slice l lo hi ≡ ok (take (hi - lo) (drop lo l))
unfolding slice
slice_ok l lo hi h k = rw (le→leb lo hi h, le→leb hi (length l) k)

pub slice_front_ok {ℓ} :
    {A : Type ℓ} (l : List A) (hi : ℕ) → hi ≤ length l → slice l 0 hi ≡ ok (take hi l)
slice_front_ok l hi h =
    let same : hi - 0 ≡ hi = omega arith in rw (slice_ok l 0 hi (omega arith) h, same)

pub write_ok :
    (l : List ℕ) (k : ℕ) (src : List ℕ)
    → k + length src ≤ length l
    → write l k src ≡ ok (put l k src)
unfolding write
write_ok l k src h = rw (le→leb (k + length src) (length l) h)

pub write_at_ok : (l : List ℕ) (i v : ℕ) → i + 1 ≤ length l → write_at l i v ≡ ok (put l i (v ∷ []))
unfolding write_at
write_at_ok l i v h = write_ok l i (v ∷ []) h

pub write_u16_ok :
    (l : List ℕ) (k v : ℕ) → k + 2 ≤ length l → write_u16 l k v ≡ ok (put l k (be16_bytes v))
unfolding write_u16
write_u16_ok l k v h = write_ok l k (be16_bytes v) h

pub write_u32_ok :
    (l : List ℕ) (k v : ℕ) → k + 4 ≤ length l → write_u32 l k v ≡ ok (put l k (be32_bytes v))
unfolding write_u32
write_u32_ok l k v h = write_ok l k (be32_bytes v) h

pub read_u16_ok :
    (l : List ℕ) (k : ℕ)
    → k + 2 ≤ length l
    → read_u16 l k ≡ ok (be16 (get_or l k 0) (get_or l (k + 1) 0))
unfolding read_u16
read_u16_ok l k h = rw (le→leb (k + 2) (length l) h)

pub read_u32_ok :
    (l : List ℕ) (k : ℕ)
    → k + 4 ≤ length l
    → read_u32 l k
      ≡ ok (be32 (get_or l k 0) (get_or l (k + 1) 0) (get_or l (k + 2) 0) (get_or l (k + 3) 0))
unfolding read_u32
read_u32_ok l k h = rw (le→leb (k + 4) (length l) h)
