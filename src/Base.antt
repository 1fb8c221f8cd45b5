-- ===== src/Base.antt =====
-- Helpers that the components share: tests, lists, machine words, results that may panic, and the
-- libraries' names.
mod Test
mod Lists
mod Word
mod Fallible
pub mod Bits
pub mod Put
pub mod Parts
pub mod Ors
pub mod Bytes
pub use Test.*
pub use Lists.*
pub use Word.*
unfoldable pub use Fallible.{
  at, slice, slice_from, write, write_at, read_u16, read_u32, write_u16, write_u32, starts_with,
  is_os_error,
}
pub use Fallible.*
pub use Prim.Native.Nat.{ℕ, zero, suc, ◌+◌, ◌-◌, ◌*◌, ◌/◌, ◌%◌, ◌^◌, ◌≤◌, ◌<◌, min, bit_and, bit_or}
pub use mathlib.Core.Path.{◌≡◌, refl, sym, ap, ap₂, ◌∙◌, subst}
pub use mathlib.Core.Logic.{◌≢◌, ◌↔◌, ◌⊎◌, inl, inr}
pub use mathlib.Core.Bool.{Bool, true, false, not, ◌&&◌, ◌||◌}
pub use mathlib.Core.Option.{Option, none, some}
pub use mathlib.Core.List.{List, [], ◌∷◌, ◌++◌, map}
pub use native.Mathlib.Omega.{arith}
