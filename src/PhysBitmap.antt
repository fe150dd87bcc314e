-- ===== src/PhysBitmap.antt =====
-- The physical page bitmap, rust_kernel/kolibri_utils/src/phys_bitmap.rs, with
-- the older release of rust_kernel/kolibri_utils/src/release_bitmap_page.rs. A set bit is a free page.
-- The state is the memory that the routines get pointers to: the bitmap, the cursor `page_start`
-- and the limit `page_end` (byte offsets into the map) and the counter `pages_free`, all u32.
-- A search loop takes fuel; `none` means that it ran out, and the theorems show that
-- `page_end + 1` rounds are enough. `#[inline]` wrappers ending in `_ptr` call these unchanged.
pub mod Invariant
pub mod FirstBit
pub mod AllocPage
pub mod FreePage
pub mod AllocPages
pub mod Accounting
pub mod System
pub mod Refinement
mod Examples
use kolibri_os_reloaded.Base.{
  ℕ, zero, suc, ◌+◌, ◌-◌, ◌*◌, ◌/◌, ◌%◌, ◌^◌, bit_and, Bool, true, false, ◌||◌, Option, none, some,
  ltb, leb, ◌==◌, if◌then◌else◌, u32, sub_u32, lt_i32, le_i32, ◌<<<◌, ◌>>>◌,
}
use kolibri_os_reloaded.Base.Bits.{bit_not}
use kolibri_os_reloaded.Base.Memory.{Memory, load_u32, store_u32, store_u8}
use kolibri_os_reloaded.Base.Bitmap.{map_bit, bts}

pub record PageMap : Type 0 where
  pub map : Memory
  pub page_start : ℕ
  pub page_end : ℕ
  pub pages_free : ℕ

-- A set bit: 1 if it was clear before, else 0. The new map is `bts`.
bitmap_bts_free_delta : ℕ → Memory → Memory × ℕ
bitmap_bts_free_delta page_index map =
    (bts map page_index, if map_bit map page_index == 0 then 1 else 0)

-- The same in release_bitmap_page.rs, for callers that keep the counter and the cursor themselves.
unfoldable release_bitmap_page_without_cursor_update : ℕ → Memory → Memory × ℕ
release_bitmap_page_without_cursor_update page_index map =
    (bts map page_index, if map_bit map page_index == 0 then 1 else 0)

pub release_bitmap_page_mode_b : ℕ → PageMap → PageMap × ℕ
unfolding bitmap_bts_free_delta
release_bitmap_page_mode_b page_index s =
    let (map, delta) = bitmap_bts_free_delta page_index s.map in
    if delta == 0
    then (record s { map = map }, delta)
    else (record s { map = map; pages_free = u32 (s.pages_free + delta) }, delta)

-- `word.trailing_zeros()` on a u32.
pub count_zeros : ℕ → ℕ → ℕ
count_zeros zero word = 0
count_zeros (suc width) word = if word % 2 == 0 then suc (count_zeros width (word / 2)) else 0

pub trailing_zeros : ℕ → ℕ
unfolding count_zeros
trailing_zeros = count_zeros 32

-- The body of the search loop at a dword that is not 0.
pub take_lowest_bit : PageMap → ℕ → ℕ → PageMap × ℕ
unfolding trailing_zeros
take_lowest_bit s ebx word =
    let bit = trailing_zeros word in
    let left = sub_u32 s.pages_free 1 in
    if left == 0 then (record s { pages_free = 1 }, 0) else (
      record s {
        map = store_u32 s.map ebx (bit_and word (bit_not 32 (2 ^ bit)));
        page_start = ebx;
        pages_free = left;
      },
      u32 (u32 (bit + u32 (ebx * 8)) <<< 12),
    )

pub alloc_page_loop : ℕ → PageMap → ℕ → Option (PageMap × ℕ)
unfolding take_lowest_bit
alloc_page_loop zero s ebx = none
alloc_page_loop (suc fuel) s ebx =
    let rest = alloc_page_loop fuel s (u32 (ebx + 4)) in
    let word = load_u32 s.map ebx in
    if ltb ebx s.page_end
    then (if word == 0 then rest else some (take_lowest_bit s ebx word))
    else some (s, 0)

-- The new state and the physical address of the page, or 0.
pub alloc_page : PageMap → Option (PageMap × ℕ)
unfolding alloc_page_loop
alloc_page s =
    if le_i32 s.pages_free 1
    then some (record s { pages_free = 1 }, 0)
    else alloc_page_loop (s.page_end + 1) s s.page_start

pub free_page : ℕ → PageMap → PageMap
unfolding bitmap_bts_free_delta
free_page phys s =
    let page_index = phys >>> 12 in
    let (map, delta) = bitmap_bts_free_delta page_index s.map in
    let dword_off = bit_and (page_index >>> 3) (bit_not 32 3) in
    record s {
      map = map;
      pages_free = if delta == 0 then s.pages_free else u32 (s.pages_free + 1);
      page_start = if ltb dword_off s.page_start then dword_off else s.page_start;
    }

-- The inner loop of `alloc_pages`, with as many wholly free bytes to find as its first argument.
pub data Run : Type 0 where
  complete ended : Run
  broken : ℕ → Run

pub run_from : ℕ → PageMap → ℕ → Run
run_from zero s cur = complete
run_from (suc edx) s cur =
    let rest = run_from edx s (u32 (cur + 1)) in
    if leb s.page_end cur then ended else if s.map cur == 0xff then rest else broken (u32 (cur + 1))

pub zero_bytes : ℕ → Memory → ℕ → Memory
zero_bytes zero map edi = map
zero_bytes (suc need) map edi = zero_bytes need (store_u8 map edi 0) (edi + 1)

pub alloc_pages_loop : ℕ → ℕ → PageMap → ℕ → Option (PageMap × ℕ)
unfolding run_from zero_bytes
alloc_pages_loop zero need s ecx = none
alloc_pages_loop (suc fuel) need s ecx =
    if ltb ecx s.page_end
    then elim (run_from need s ecx) [
      | complete ↦ some (
        record s {
          map = zero_bytes need s.map ecx;
          pages_free = sub_u32 s.pages_free (u32 (need <<< 3));
        },
        u32 (ecx <<< 15),
      )
      | ended ↦ some (s, 0)
      | broken next ↦ alloc_pages_loop fuel need s next
    ]
    else some (s, 0)

pub alloc_pages : ℕ → PageMap → Option (PageMap × ℕ)
unfolding alloc_pages_loop
alloc_pages count s =
    let need_bytes = u32 (count + 7) >>> 3 in
    let avail = sub_u32 s.pages_free 9 >>> 3 in
    if leb (2 ^ 31) (sub_u32 s.pages_free 9) || lt_i32 avail need_bytes || need_bytes == 0
    then some (s, 0)
    else alloc_pages_loop (s.page_end + 1) need_bytes s s.page_start
