-- ===== src/Base/Bitmap.antt =====
-- Bitmaps in byte memory, as `bt`, `bts` and `btr` address them: bit `i` is bit `i % 8` of byte
-- `i / 8`. The laws say what the byte and dword updates of the source do to every bit.
use Prim.Native.Nat.{ℕ, ◌+◌, ◌-◌, ◌*◌, ◌/◌, ◌%◌, ◌^◌, ◌≤◌, ◌<◌, bit_and, bit_or}
use mathlib.Core.Path.{◌≡◌, refl}
use mathlib.Core.Logic.{◌⊎◌}
use mathlib.Core.Bool.{◌&&◌}
use native.Mathlib.Omega.{arith}
use kolibri_os_reloaded.Base.Tests.{◌==◌, leb, ltb, if◌then◌else◌}
use kolibri_os_reloaded.Base.Bits.{
  test_bit, test_bit-low, test_bit-high, test_bit-set, test_bit-clear,
}
use kolibri_os_reloaded.Base.Bits.{bit_not, bit_or-lt, bit_and-le, two_pow_mono, test_bit-le}
use kolibri_os_reloaded.Base.Memory.{
  Memory, IsBytes, store_u8, store_u8-IsBytes, load_u32, store_u32, store_u32_frame,
  load_u32-store_u32, store_u32-IsBytes,
}

unfoldable pub map_bit : Memory → ℕ → ℕ
map_bit m i = test_bit (m (i / 8)) (i % 8)

pub map_bit-le : (m : Memory) (i : ℕ) → map_bit m i ≤ 1
unfolding map_bit
map_bit-le m i = test_bit-le _ _

-- A bit named by its byte and its place in the byte.
map_bit-byte : (m : Memory) (a i n : ℕ) → n ≡ 8 * a + i → i < 8 → map_bit m n ≡ test_bit (m a) i
unfolding map_bit
map_bit-byte m a i n e h =
    let q : n / 8 ≡ a = omega arith in let r : n % 8 ≡ i = omega arith in rw (q, r)

test_bit-byte_high :
    (b w i : ℕ)
    → b < 256
    → test_bit (b + 256 * w) i ≡ (if ltb i 8 then test_bit b i else test_bit w (i - 8))
test_bit-byte_high b w i h = ground (arith, test_bit-low 8 b w i, test_bit-high 8 b w (i - 8) i)

-- Bit `i` of a dword read at byte `a` is bit `8 * a + i` of the map.
pub test_bit-load_u32 :
    (m : Memory) (a i n : ℕ)
    → IsBytes m
    → i < 32
    → n ≡ 8 * a + i
    → test_bit (load_u32 m a) i ≡ map_bit m n
unfolding load_u32
test_bit-load_u32 m a i n h k e = ground (
  arith,
  test_bit-byte_high (m a) (m (a + 1) + 256 * (m (a + 2) + 256 * m (a + 3))) i (h a),
  test_bit-byte_high (m (a + 1)) (m (a + 2) + 256 * m (a + 3)) (i - 8) (h (a + 1)),
  test_bit-byte_high (m (a + 2)) (m (a + 3)) (i - 16) (h (a + 2)),
  map_bit-byte m a i n,
  map_bit-byte m (a + 1) (i - 8) n,
  map_bit-byte m (a + 2) (i - 16) n,
  map_bit-byte m (a + 3) (i - 24) n,
)

pub map_bit-store_u32 :
    (m : Memory) (a v n : ℕ)
    → IsBytes m
    → v < 2 ^ 32
    → map_bit (store_u32 m a v) n
      ≡ (if leb (8 * a) n && ltb n (8 * a + 32) then test_bit v (n - 8 * a) else map_bit m n)
map_bit-store_u32 m a v n h hv = ground (
  arith,
  test_bit-load_u32 (store_u32 m a v) a (n - 8 * a) n (store_u32-IsBytes m a v h),
  load_u32-store_u32 m a v hv,
  outside,
)
  where
    outside : (n < 8 * a) ⊎ (8 * a + 32 ≤ n) → map_bit (store_u32 m a v) n ≡ map_bit m n
    outside o = unfold map_bit in rw (store_u32_frame m a v (n / 8) (omega arith)) refl

-- `bts`: byte `k >> 3` gets `| (1 << (k & 7))`; `btr`: it gets `& !(1 << (k & 7))`.
unfoldable pub bts : Memory → ℕ → Memory
bts m k = store_u8 m (k / 8) (bit_or (m (k / 8)) (2 ^ (k % 8)))

unfoldable pub btr : Memory → ℕ → Memory
btr m k = store_u8 m (k / 8) (bit_and (m (k / 8)) (bit_not 8 (2 ^ (k % 8))))

pub bts-IsBytes : (m : Memory) (k : ℕ) → IsBytes m → IsBytes (bts m k)
unfolding bts
bts-IsBytes m k h =
    store_u8-IsBytes m _ _ h (bit_or-lt 8 _ _ (h _) (two_pow_mono (k % 8) 8 (omega arith)))

pub btr-IsBytes : (m : Memory) (k : ℕ) → IsBytes m → IsBytes (btr m k)
unfolding btr
btr-IsBytes m k h =
    store_u8-IsBytes m _ _ h
      (omega (arith, bit_and-le 8 (m (k / 8)) (bit_not 8 (2 ^ (k % 8))) (h _), h (k / 8)))

pub map_bit-bts : (m : Memory) (k i : ℕ) → map_bit (bts m k) i ≡ (if k == i then 1 else map_bit m i)
unfolding map_bit bts store_u8
map_bit-bts m k i = ground (arith, test_bit-set (m (k / 8)) (k % 8) (i % 8))

pub map_bit-btr :
    (m : Memory) (k i : ℕ) → IsBytes m → map_bit (btr m k) i ≡ (if k == i then 0 else map_bit m i)
unfolding map_bit btr store_u8
map_bit-btr m k i h =
    ground (arith, test_bit-clear 8 (m (k / 8)) (k % 8) (i % 8) (h (k / 8)) (omega arith))
