-- ===== src/PhysBitmap/AllocPage.antt =====
-- `alloc_page`: the search takes the lowest free page, or finds that there is none.
use kolibri_os_reloaded.Base.{
  ℕ, zero, suc, ◌+◌, ◌-◌, ◌*◌, ◌%◌, ◌^◌, ◌≤◌, ◌<◌, bit_and, ◌≡◌, refl, ap, arith, ◌==◌, some,
  Bool-cases, inl, inr, if◌then◌else◌, ltb, u32, sub_u32, true, false, le_i32, ◌⊎◌,
}
use kolibri_os_reloaded.Base.Bits.{test_bit, test_bit-clear, test_bit-zero, bit_not, bit_and-le}
use kolibri_os_reloaded.Base.Memory.{
  Memory, IsBytes, load_u32, store_u32, load_u32-lt, store_u32-IsBytes,
}
use kolibri_os_reloaded.Base.Bitmap.{map_bit, map_bit-store_u32, test_bit-load_u32}
use kolibri_os_reloaded.PhysBitmap.{
  PageMap, trailing_zeros, take_lowest_bit, alloc_page_loop, alloc_page,
}
use kolibri_os_reloaded.PhysBitmap.FirstBit.{IsLowestBit, trailing_zeros-IsLowestBit}
use kolibri_os_reloaded.PhysBitmap.Invariant.{
  IsValid, IsAllocated, AllocOutcome, allocated, exhausted,
}

-- Clearing bit `b` of the dword at `a` clears bit `8 * a + b` of the map and no other.
map_bit-clear_dword :
    (m : Memory) (a b j : ℕ)
    → IsBytes m
    → b < 32
    → map_bit (store_u32 m a (bit_and (load_u32 m a) (bit_not 32 (2 ^ b)))) j
      ≡ (if 8 * a + b == j then 0 else map_bit m j)
map_bit-clear_dword m a b j h k = ground (
  arith,
  map_bit-store_u32 m a (bit_and (load_u32 m a) (bit_not 32 (2 ^ b))) j h fits,
  test_bit-clear 32 (load_u32 m a) b (j - 8 * a) (load_u32-lt m a h) k,
  test_bit-load_u32 m a (j - 8 * a) j h,
)
  where
    fits : bit_and (load_u32 m a) (bit_not 32 (2 ^ b)) < 2 ^ 32
    fits = omega (
      arith,
      bit_and-le 32 (load_u32 m a) (bit_not 32 (2 ^ b)) (load_u32-lt m a h),
      load_u32-lt m a h,
    )

module _ (s : PageMap) (v : IsValid s) where
  -- No page below byte `ebx` of the map is free.
  abbrev IsTakenBelow : ℕ → Type 0
  IsTakenBelow ebx = (j : ℕ) → j < 8 * ebx → map_bit s.map j ≡ 0

  -- A dword that is 0 has no free page.
  zero_dword : (ebx : ℕ) → load_u32 s.map ebx ≡ 0 → IsTakenBelow ebx → IsTakenBelow (ebx + 4)
  zero_dword ebx e below j h = ground (
    arith,
    below j,
    test_bit-load_u32 s.map ebx (j - 8 * ebx) j v.bytes,
    ap (λ w. test_bit w (j - 8 * ebx)) e,
    test_bit-zero (j - 8 * ebx),
  )

  module _ (ebx : ℕ) (aligned : ebx % 4 ≡ 0) (inside : ebx < s.page_end) (below : IsTakenBelow ebx)
      (nonzero : 0 < load_u32 s.map ebx) (more : 1 < s.pages_free)
      (fits : s.pages_free < 2 ^ 32) where
    abbrev bit : ℕ
    bit = trailing_zeros (load_u32 s.map ebx)

    abbrev after : PageMap
    after = record s {
      map = store_u32 s.map ebx (bit_and (load_u32 s.map ebx) (bit_not 32 (2 ^ bit)));
      page_start = ebx;
      pages_free = sub_u32 s.pages_free 1;
    }

    found : IsLowestBit 32 (load_u32 s.map ebx) bit
    found = trailing_zeros-IsLowestBit _ (load_u32-lt s.map ebx v.bytes) nonzero

    take_lowest_bit_lem :
        take_lowest_bit s ebx (load_u32 s.map ebx) ≡ (after, 4096 * (8 * ebx + bit))
    unfolding take_lowest_bit
    take_lowest_bit_lem = ground (arith, found.in_width, v.end_le)

    after-IsAllocated : IsAllocated s (8 * ebx + bit) after
    after-IsAllocated = record {
      in_window = omega (arith, found.in_width, v.end_aligned);
      was_free = ground (
        arith,
        found.is_set,
        found.in_width,
        test_bit-load_u32 s.map ebx bit (8 * ebx + bit) v.bytes,
      );
      lowest = λ j h. ground (
        arith,
        below j,
        found.in_width,
        found.clear_below (j - 8 * ebx),
        test_bit-load_u32 s.map ebx (j - 8 * ebx) j v.bytes,
      );
      taken = λ j. map_bit-clear_dword s.map ebx bit j v.bytes found.in_width;
      charged = omega arith;
      same_end = refl;
    }

    after-IsValid : IsValid after
    after-IsValid = record {
      bytes = store_u32-IsBytes s.map ebx _ v.bytes;
      start_aligned = aligned;
      end_aligned = v.end_aligned;
      start_le_end = omega arith;
      end_le = v.end_le;
      none_below = λ j h. ground (arith, below j, after-IsAllocated.taken j);
    }

  alloc_page_loop_lem :
      (fuel ebx : ℕ)
      → s.page_end < fuel + ebx
      → ebx % 4 ≡ 0
      → ebx ≤ s.page_end
      → IsTakenBelow ebx
      → 1 < s.pages_free
      → s.pages_free < 2 ^ 32
      → AllocOutcome s (alloc_page_loop fuel s ebx)
  unfolding alloc_page_loop
  alloc_page_loop_lem zero ebx enough aligned inside below more fits = absurd (omega arith)
  alloc_page_loop_lem (suc fuel) ebx enough aligned inside below more fits =
      elim (Bool-cases (ltb ebx s.page_end)) [
        | inr past ↦ rw past (exhausted refl (λ i h. below i (ground arith)))
        | inl within ↦ elim (Bool-cases (load_u32 s.map ebx == 0)) [
          | inl none_here ↦
              let next : u32 (ebx + 4) ≡ ebx + 4 = ground (arith, v.end_le) in
              rw (within, none_here, next)
                (alloc_page_loop_lem fuel (ebx + 4) (omega arith) (omega arith)
                  (ground (arith, v.end_aligned)) (zero_dword ebx (ground arith) below) more fits)
          | inr some_here ↦
              let lt : ebx < s.page_end = ground arith in
              let pos : 0 < load_u32 s.map ebx = ground arith in
              rw (within, some_here, take_lowest_bit_lem ebx aligned lt below pos more fits)
                (allocated _ _ refl (after-IsAllocated ebx aligned lt below pos more fits)
                  (after-IsValid ebx aligned lt below pos more fits))
        ]
      ]

-- On a well-formed map with more than one page in the counter, `alloc_page` ends; it takes the
-- lowest free page of the whole map, returns its address, clears its bit and no other, counts one
-- page less and keeps the map well formed; or no page of the map is free and it returns 0 with the
-- state unchanged.
pub alloc_page_outcome :
    (s : PageMap)
    → IsValid s
    → 1 < s.pages_free
    → s.pages_free < 2 ^ 31
    → AllocOutcome s (alloc_page s)
unfolding alloc_page
alloc_page_outcome s v more fits =
    let enough : le_i32 s.pages_free 1 ≡ false = ground arith in
    rw enough (
      alloc_page_loop_lem s v (s.page_end + 1) s.page_start (omega arith) v.start_aligned
        v.start_le_end v.none_below more (omega arith))

-- With a counter that reads as a signed number of at most 1, `alloc_page` fails: it returns 0 and
-- sets the counter to 1, and does not touch the map or the cursor.
pub alloc_page_reserve :
    (s : PageMap)
    → (s.pages_free ≤ 1) ⊎ ((2 ^ 31 ≤ s.pages_free) × (s.pages_free < 2 ^ 32))
    → alloc_page s ≡ some (record s { pages_free = 1 }, 0)
unfolding alloc_page
alloc_page_reserve s h = let low : le_i32 s.pages_free 1 ≡ true = ground arith in rw low
