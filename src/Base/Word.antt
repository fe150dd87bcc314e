-- ===== src/Base/Word.antt =====
-- Rust's fixed-width integers as native numbers: casts cut off high bits, wrapping subtraction
-- adds the modulus first, and a signed reading is by the sign bit of the pattern.
use Prim.Native.Nat.{ℕ, ◌+◌, ◌-◌, ◌*◌, ◌/◌, ◌%◌, ◌^◌}
use mathlib.Core.Bool.{Bool}
use kolibri_os_reloaded.Base.Tests.{ltb, leb}

abbrev pub u8 : ℕ → ℕ
u8 n = n % 2 ^ 8

abbrev pub u16 : ℕ → ℕ
u16 n = n % 2 ^ 16

abbrev pub u32 : ℕ → ℕ
u32 n = n % 2 ^ 32

-- `wrapping_sub` on u32 patterns.
abbrev pub sub_u32 : ℕ → ℕ → ℕ
sub_u32 a b = (a + 2 ^ 32 - b) % 2 ^ 32

infixl 75 ◌<<<◌ ◌>>>◌
abbrev pub ◌<<<◌ : ℕ → ℕ → ℕ
x <<< k = x * 2 ^ k

abbrev pub ◌>>>◌ : ℕ → ℕ → ℕ
x >>> k = x / 2 ^ k

-- A u32 pattern read as an i32, moved up by 2^31: an order-preserving picture of the signed value.
abbrev pub biased_i32 : ℕ → ℕ
biased_i32 x = (x + 2 ^ 31) % 2 ^ 32

-- `(a as i32) < (b as i32)` and `(a as i32) <= (b as i32)`.
abbrev pub lt_i32 : ℕ → ℕ → Bool
lt_i32 a b = ltb (biased_i32 a) (biased_i32 b)

abbrev pub le_i32 : ℕ → ℕ → Bool
le_i32 a b = leb (biased_i32 a) (biased_i32 b)
