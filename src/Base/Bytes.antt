-- ===== src/Base/Bytes.antt =====
-- Buffers of bytes stay so.
use Prim.Native.Nat.{ℕ, zero, suc, ◌<◌}
use mathlib.Core.List.{List, [], ◌∷◌, ◌++◌}
use native.Mathlib.Omega.{arith}
use tun_rs.Base.Lists.{get_or, take, drop, put}
use tun_rs.Base.Word.{IsBytes, be16_bytes, be32_bytes}

pub IsBytes-take : (n : ℕ) (l : List ℕ) → IsBytes l → IsBytes (take n l)
IsBytes-take zero l h = tt
IsBytes-take (suc n) [] h = tt
IsBytes-take (suc n) (x ∷ l) h = (h.0, IsBytes-take n l h.1)

pub IsBytes-drop : (n : ℕ) (l : List ℕ) → IsBytes l → IsBytes (drop n l)
IsBytes-drop zero l h = h
IsBytes-drop (suc n) [] h = tt
IsBytes-drop (suc n) (x ∷ l) h = IsBytes-drop n l h.1

pub IsBytes-append : (l m : List ℕ) → IsBytes l → IsBytes m → IsBytes (l ++ m)
IsBytes-append [] m h k = k
IsBytes-append (x ∷ l) m h k = (h.0, IsBytes-append l m h.1 k)

pub IsBytes-put :
    (l : List ℕ) (k : ℕ) (src : List ℕ) → IsBytes l → IsBytes src → IsBytes (put l k src)
IsBytes-put l k [] h hs = h
IsBytes-put [] k (s ∷ src) h hs = tt
IsBytes-put (x ∷ l) zero (s ∷ src) h hs = (hs.0, IsBytes-put l zero src h.1 hs.1)
IsBytes-put (x ∷ l) (suc k) (s ∷ src) h hs = (h.0, IsBytes-put l k (s ∷ src) h.1 hs)

pub be16_bytes-IsBytes : (v : ℕ) → IsBytes (be16_bytes v)
be16_bytes-IsBytes v = omega arith

pub be32_bytes-IsBytes : (v : ℕ) → IsBytes (be32_bytes v)
be32_bytes-IsBytes v = omega arith

pub IsBytes-get_or : (l : List ℕ) (i : ℕ) → IsBytes l → get_or l i 0 < 256
IsBytes-get_or [] i h = omega arith
IsBytes-get_or (x ∷ l) zero h = h.0
IsBytes-get_or (x ∷ l) (suc i) h = IsBytes-get_or l i h.1
