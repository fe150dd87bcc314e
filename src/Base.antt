-- ===== src/Base.antt =====
-- Names shared by every module: the libraries' names passed on, Boolean tests, and the
-- arithmetic of machine words, bits and byte memory that the kernel utilities are written in.
pub mod Tests
pub mod Word
pub mod Bits
pub mod Fields
pub mod Flips
pub mod Memory
pub mod Bitmap
pub mod Lists
pub mod Scan
pub use Tests.*
pub use Word.*
pub use Prim.Native.Nat.{
  ℕ, zero, suc, ◌+◌, ◌-◌, ◌*◌, ◌/◌, ◌%◌, ◌^◌, ◌≤◌, ◌<◌, bit_and, bit_or, bit_xor, min, max,
}
pub use mathlib.Core.Path.{◌≡◌, refl, sym, ap, ◌∙◌, fun_ext}
pub use mathlib.Core.Logic.{◌≢◌, ◌↔◌, ◌⊎◌, inl, inr}
pub use mathlib.Core.Bool.{Bool, true, false, not, ◌&&◌, ◌||◌}
pub use mathlib.Core.Option.{Option, none, some}
pub use mathlib.Core.List.{List, [], ◌∷◌, ◌++◌}
pub use native.Mathlib.Omega.{arith}
