-- ===== src/PhysBitmap/Accounting.antt =====
-- The counter `pages_free` against the number of set bits, for every operation.
use kolibri_os_reloaded.Base.{
  ℕ, zero, suc, ◌+◌, ◌-◌, ◌*◌, ◌/◌, ◌%◌, ◌≤◌, ◌<◌, ◌≡◌, refl, ap, ◌∙◌, arith, ◌==◌, if◌then◌else◌,
  ltb, leb, min, ◌&&◌,
}
use kolibri_os_reloaded.Base.Bits.{test_bit-zero, test_bit-bit_not}
use kolibri_os_reloaded.Base.Memory.{Memory, IsBytes}
use kolibri_os_reloaded.Base.Bitmap.{map_bit, map_bit-le}
use kolibri_os_reloaded.PhysBitmap.{PageMap}
use kolibri_os_reloaded.PhysBitmap.AllocPages.{IsFreeRun, IsReserved}

-- The set bits among the first `n` of a map.
unfoldable pub count_free : Memory → ℕ → ℕ
count_free m zero = 0
count_free m (suc n) = map_bit m n + count_free m n

pub count_free-le : (m : Memory) (n : ℕ) → count_free m n ≤ n
unfolding count_free
count_free-le m zero = omega arith
count_free-le m (suc n) = omega (arith, count_free-le m n, map_bit-le m n)

-- Where one bit is cleared, or set, and the rest stays.
pub count_free-clear :
    (m m' : Memory) (i n : ℕ)
    → ((j : ℕ) → map_bit m' j ≡ (if i == j then 0 else map_bit m j))
    → map_bit m i ≡ 1
    → count_free m' n + (if ltb i n then 1 else 0) ≡ count_free m n
unfolding count_free
count_free-clear m m' i zero h e = ground arith
count_free-clear m m' i (suc n) h e = ground (arith, h n, count_free-clear m m' i n h e)

pub count_free-set :
    (m m' : Memory) (i n : ℕ)
    → ((j : ℕ) → map_bit m' j ≡ (if i == j then 1 else map_bit m j))
    → map_bit m i ≡ 0
    → count_free m' n ≡ count_free m n + (if ltb i n then 1 else 0)
unfolding count_free
count_free-set m m' i zero h e = ground arith
count_free-set m m' i (suc n) h e = ground (arith, h n, count_free-set m m' i n h e)

count_free_ext :
    (m m' : Memory) (n : ℕ)
    → ((j : ℕ) → map_bit m' j ≡ map_bit m j)
    → count_free m' n ≡ count_free m n
unfolding count_free
count_free_ext m m' zero h = refl
count_free_ext m m' (suc n) h = omega (arith, h n, count_free_ext m m' n h)

pub count_free-set_again :
    (m m' : Memory) (i n : ℕ)
    → ((j : ℕ) → map_bit m' j ≡ (if i == j then 1 else map_bit m j))
    → map_bit m i ≡ 1
    → count_free m' n ≡ count_free m n
count_free-set_again m m' i n h e = count_free_ext m m' n (λ j. ground (arith, h j, e))

-- Where the bits from `lo` up to `hi` were set and are cleared.
pub count_free-clear_range :
    (m m' : Memory) (lo hi n : ℕ)
    → lo ≤ hi
    → ((j : ℕ) → map_bit m' j ≡ (if leb lo j && ltb j hi then 0 else map_bit m j))
    → ((j : ℕ) → lo ≤ j → j < hi → map_bit m j ≡ 1)
    → count_free m' n + (min n hi - min n lo) ≡ count_free m n
unfolding count_free
count_free-clear_range m m' lo hi zero le h ones = omega arith
count_free-clear_range m m' lo hi (suc n) le h ones =
    ground (arith, h n, ones n, count_free-clear_range m m' lo hi n le h ones)

-- A run of whole bytes is cleared: the map still holds bytes, and the pages of the run are taken.
pub cleared-IsBytes :
    (s t : PageMap) (need c : ℕ) → IsReserved s need c t → IsBytes s.map → IsBytes t.map
cleared-IsBytes s t need c r h a = ground (arith, r.cleared a, h a)

pub map_bit-cleared :
    (s t : PageMap) (need c j : ℕ)
    → IsReserved s need c t
    → map_bit t.map j ≡ (if leb (8 * c) j && ltb j (8 * (c + need)) then 0 else map_bit s.map j)
unfolding map_bit
map_bit-cleared s t need c j r = ground (arith, r.cleared (j / 8), test_bit-zero (j % 8))

-- Every page of a free run is free.
pub IsFreeRun-map_bit :
    (s : PageMap) (need c j : ℕ)
    → IsFreeRun s need c
    → 8 * c ≤ j
    → j < 8 * (c + need)
    → map_bit s.map j ≡ 1
unfolding map_bit
IsFreeRun-map_bit s need c j run lo hi =
    let here : c + (j / 8 - c) ≡ j / 8 = omega arith in
    let byte : s.map (j / 8) ≡ 255 = ap s.map (omega arith) ∙ run.1 (j / 8 - c) (omega arith) in
    rw byte (
      omega
        (arith, test_bit-bit_not 8 0 (j % 8) (omega arith) (omega arith), test_bit-zero (j % 8)))
