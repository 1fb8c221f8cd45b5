-- ===== src/Base/Word.antt =====
-- Unsigned machine words as numbers: sums wrap at the width, as the release profile does.
use Prim.Native.Nat.{ℕ, ◌+◌, ◌-◌, ◌*◌, ◌/◌, ◌%◌, ◌<◌}
use mathlib.Core.List.{List, [], ◌∷◌}
use tun_rs.Base.Lists.{get_or}

-- `x as u8`, `x as u16`, `x as u32`.
abbrev pub as_u8 : ℕ → ℕ
as_u8 n = n % 256

abbrev pub as_u16 : ℕ → ℕ
as_u16 n = n % 65536

abbrev pub as_u32 : ℕ → ℕ
as_u32 n = n % 4294967296

-- `a + b` on `u64`.
abbrev pub add64 : ℕ → ℕ → ℕ
add64 a b = (a + b) % 18446744073709551616

-- `a - b` on `usize` and on `u16`.
abbrev pub sub64 : ℕ → ℕ → ℕ
sub64 a b = (a + 18446744073709551616 - b) % 18446744073709551616

abbrev pub sub16 : ℕ → ℕ → ℕ
sub16 a b = (a + 65536 - b) % 65536

-- `!x` on `u16`.
abbrev pub not16 : ℕ → ℕ
not16 x = 65535 - x

-- `BigEndian::read_u16` and `read_u32` of the bytes in the order of memory.
abbrev pub be16 : ℕ → ℕ → ℕ
be16 a b = a * 256 + b

abbrev pub be32 : ℕ → ℕ → ℕ → ℕ → ℕ
be32 a b c d = a * 16777216 + b * 65536 + c * 256 + d

-- `to_be_bytes` of a `u16` and of a `u32`.
abbrev pub be16_bytes : ℕ → List ℕ
be16_bytes v = v / 256 % 256 ∷ v % 256 ∷ []

abbrev pub be32_bytes : ℕ → List ℕ
be32_bytes v = v / 16777216 % 256 ∷ v / 65536 % 256 ∷ v / 256 % 256 ∷ v % 256 ∷ []

-- Every entry is a byte.
abbrev pub IsBytes : List ℕ → Type 0
IsBytes [] = Unit
IsBytes (x ∷ xs) = (x < 256) × IsBytes xs

-- The big-endian words that stand at an offset of a buffer.
abbrev pub be16_at : List ℕ → ℕ → ℕ
be16_at l k = be16 (get_or l k 0) (get_or l (k + 1) 0)

abbrev pub be32_at : List ℕ → ℕ → ℕ
be32_at l k = be32 (get_or l k 0) (get_or l (k + 1) 0) (get_or l (k + 2) 0) (get_or l (k + 3) 0)
