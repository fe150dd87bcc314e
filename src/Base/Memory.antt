-- ===== src/Base/Memory.antt =====
-- Byte memory as the pointer code sees it: a cell for every offset from a base pointer. A read or
-- write outside the object is undefined behaviour in the source and is not modelled: offsets are
-- those that the callers' contracts allow. Multi-byte accesses are little-endian.
use Prim.Native.Nat.{ℕ, suc, ◌+◌, ◌*◌, ◌/◌, ◌%◌, ◌^◌, ◌≤◌, ◌<◌}
use mathlib.Core.Path.{◌≡◌}
use mathlib.Core.Logic.{◌⊎◌, ◌≢◌}
use native.Mathlib.Omega.{arith}
use kolibri_os_reloaded.Base.Tests.{◌==◌, if◌then◌else◌}

abbrev pub Memory : Type 0
Memory = ℕ → ℕ

abbrev pub IsBytes : Memory → Type 0
IsBytes m = (a : ℕ) → m a < 256

-- `*base.add(a) = v`.
unfoldable pub store_u8 : Memory → ℕ → ℕ → Memory
store_u8 m a v b = if a == b then v else m b

pub store_u8-IsBytes : (m : Memory) (a v : ℕ) → IsBytes m → v < 256 → IsBytes (store_u8 m a v)
unfolding store_u8
store_u8-IsBytes m a v h k b = ground (arith, h b)

unfoldable pub load_u16 : Memory → ℕ → ℕ
load_u16 m a = m a + 256 * m (a + 1)

unfoldable pub load_u32 : Memory → ℕ → ℕ
load_u32 m a = m a + 256 * (m (a + 1) + 256 * (m (a + 2) + 256 * m (a + 3)))

unfoldable pub store_u16 : Memory → ℕ → ℕ → Memory
unfolding store_u8
store_u16 m a v = store_u8 (store_u8 m a (v % 256)) (a + 1) (v / 256 % 256)

unfoldable pub store_u32 : Memory → ℕ → ℕ → Memory
unfolding store_u8
store_u32 m a v =
    store_u8
      (store_u8 (store_u8 (store_u8 m a (v % 256)) (a + 1) (v / 256 % 256)) (a + 2)
        (v / 65536 % 256))
      (a + 3) (v / 16777216 % 256)

pub load_u32-lt : (m : Memory) (a : ℕ) → IsBytes m → load_u32 m a < 2 ^ 32
unfolding load_u32
load_u32-lt m a h = omega (arith, h a, h (a + 1), h (a + 2), h (a + 3))

pub load_u16-lt : (m : Memory) (a : ℕ) → IsBytes m → load_u16 m a < 2 ^ 16
unfolding load_u16
load_u16-lt m a h = omega (arith, h a, h (a + 1))

pub store_u32-IsBytes : (m : Memory) (a v : ℕ) → IsBytes m → IsBytes (store_u32 m a v)
unfolding store_u32
store_u32-IsBytes m a v h b = ground (arith, h b)

pub store_u16-IsBytes : (m : Memory) (a v : ℕ) → IsBytes m → IsBytes (store_u16 m a v)
unfolding store_u16
store_u16-IsBytes m a v h b = ground (arith, h b)

-- A store leaves the cells outside its four (two) bytes alone.
pub store_u32_frame : (m : Memory) (a v b : ℕ) → (b < a) ⊎ (a + 4 ≤ b) → store_u32 m a v b ≡ m b
unfolding store_u32
store_u32_frame m a v b h = ground arith

pub store_u16_frame : (m : Memory) (a v b : ℕ) → (b < a) ⊎ (a + 2 ≤ b) → store_u16 m a v b ≡ m b
unfolding store_u16
store_u16_frame m a v b h = ground arith

pub load_u32-store_u32 : (m : Memory) (a v : ℕ) → v < 2 ^ 32 → load_u32 (store_u32 m a v) a ≡ v
unfolding load_u32 store_u32
load_u32-store_u32 m a v h = ground arith

pub load_u16-store_u16 : (m : Memory) (a v : ℕ) → v < 2 ^ 16 → load_u16 (store_u16 m a v) a ≡ v
unfolding load_u16 store_u16
load_u16-store_u16 m a v h = ground arith

pub load_u32-store_u32_ne :
    (m : Memory) (a v b : ℕ)
    → (b + 4 ≤ a) ⊎ (a + 4 ≤ b)
    → load_u32 (store_u32 m a v) b ≡ load_u32 m b
unfolding load_u32
load_u32-store_u32_ne m a v b h = ground (
  arith,
  store_u32_frame m a v b,
  store_u32_frame m a v (b + 1),
  store_u32_frame m a v (b + 2),
  store_u32_frame m a v (b + 3),
)

-- The address of the first cell of a region, and of a cell of the region behind it.
pub first_cell : (s : ℕ) → s + 0 ≡ s
first_cell s = omega arith

pub next_cell : (s i : ℕ) → s + suc i ≡ s + 1 + i
next_cell s i = omega arith

pub store_u8_same : (m : Memory) (a v : ℕ) → store_u8 m a v a ≡ v
unfolding store_u8
store_u8_same m a v = ground arith

pub store_u8_other : (m : Memory) (a v b : ℕ) → a ≢ b → store_u8 m a v b ≡ m b
unfolding store_u8
store_u8_other m a v b h = ground arith

pub load_u32-store_u8_ne :
    (m : Memory) (a v b : ℕ) → (a < b) ⊎ (b + 4 ≤ a) → load_u32 (store_u8 m a v) b ≡ load_u32 m b
unfolding load_u32
load_u32-store_u8_ne m a v b h = ground (
  arith,
  store_u8_other m a v b,
  store_u8_other m a v (b + 1),
  store_u8_other m a v (b + 2),
  store_u8_other m a v (b + 3),
)
