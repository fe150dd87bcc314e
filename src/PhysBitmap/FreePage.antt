-- ===== src/PhysBitmap/FreePage.antt =====
-- `free_page` and `release_bitmap_page_mode_b`: exactly one bit is set, a page that was free
-- already is not counted again, and freeing undoes an allocation.
use kolibri_os_reloaded.Base.{
  ℕ, ◌+◌, ◌*◌, ◌/◌, ◌%◌, ◌^◌, ◌<◌, bit_and, ◌≡◌, refl, arith, ◌==◌, some, if◌then◌else◌, ◌≢◌,
  Bool-cases, inl, inr,
}
use kolibri_os_reloaded.Base.Bits.{bit_not}
use kolibri_os_reloaded.Base.Memory.{IsBytes}
use kolibri_os_reloaded.Base.Fields.{bit_and-dword}
use kolibri_os_reloaded.Base.Bitmap.{map_bit, map_bit-le, bts-IsBytes, map_bit-bts}
use kolibri_os_reloaded.PhysBitmap.{PageMap, free_page, release_bitmap_page_mode_b, alloc_page}
use kolibri_os_reloaded.PhysBitmap.Invariant.{
  IsValid, IsAllocated, AllocOutcome, allocated, exhausted,
}
use kolibri_os_reloaded.PhysBitmap.AllocPage.{alloc_page_outcome}

-- Freeing the page at address `phys` sets its bit and no other. The counter grows by one if the
-- page was not free, and wraps as a u32; otherwise it stays.
pub free_page_lem :
    (s : PageMap) (phys : ℕ)
    → phys < 2 ^ 32
    → ((j : ℕ)
        → map_bit (free_page phys s).map j ≡ (if phys / 4096 == j then 1 else map_bit s.map j))
      × ((free_page phys s).pages_free ≡ (
          if map_bit s.map (phys / 4096) == 0 then (s.pages_free + 1) % 2 ^ 32 else s.pages_free))
      × ((free_page phys s).page_end ≡ s.page_end)
unfolding free_page
free_page_lem s phys h =
    (λ j. map_bit-bts s.map (phys / 4096) j, ground (arith, map_bit-le s.map (phys / 4096)), refl)

-- Freeing any page keeps the map well formed: the cursor moves down to the page's dword if it was
-- above it.
pub free_page-IsValid :
    (s : PageMap) (phys : ℕ) → phys < 2 ^ 32 → IsValid s → IsValid (free_page phys s)
unfolding free_page
free_page-IsValid s phys h v = record {
  bytes = bts-IsBytes s.map (phys / 4096) v.bytes;
  start_aligned = ground (arith, round, v.start_aligned);
  end_aligned = v.end_aligned;
  start_le_end = ground (arith, round, v.start_le_end);
  end_le = v.end_le;
  none_below = λ j k. ground (arith, round, map_bit-bts s.map (phys / 4096) j, v.none_below j);
}
  where
    round : bit_and (phys / 4096 / 8) (bit_not 32 3) ≡ phys / 4096 / 8 / 4 * 4
    round = bit_and-dword (phys / 4096 / 8) (omega arith)

freed_page :
    (s t : PageMap) (i : ℕ)
    → IsValid s
    → s.pages_free < 2 ^ 31
    → IsAllocated s i t
    → ((j : ℕ) → map_bit (free_page (4096 * i) t).map j ≡ map_bit s.map j)
      × ((free_page (4096 * i) t).pages_free ≡ s.pages_free)
freed_page s t i v fits a =
    let freed = free_page_lem t (4096 * i) (omega (arith, a.in_window, v.end_le)) in
    let here : 4096 * i / 4096 ≡ i = omega arith in
    (
      λ j. ground (arith, freed.0 j, a.taken j, a.was_free, here),
      ground (arith, freed.1, a.taken i, a.charged, here),
    )

by_outcome :
    (s t : PageMap) (phys : ℕ)
    → IsValid s
    → s.pages_free < 2 ^ 31
    → alloc_page s ≡ some (t, phys)
    → phys ≢ 0
    → AllocOutcome s (alloc_page s)
    → ((j : ℕ) → map_bit (free_page phys t).map j ≡ map_bit s.map j)
      × ((free_page phys t).pages_free ≡ s.pages_free)
by_outcome s t phys v fits e ne (allocated i u h a w) =
    let same_state : t ≡ u = cc in
    let same_page : phys ≡ 4096 * i = cc in rw (same_state, same_page) (freed_page s u i v fits a)
by_outcome s t phys v fits e ne (exhausted h none_free) =
    let zero_page : phys ≡ 0 = cc in absurd (ne zero_page)

-- Freeing the page that `alloc_page` just returned, on a well-formed map with more than one page
-- in the counter, gives back every bit of the map and the counter.
free_page-alloc_page :
    (s t : PageMap) (phys : ℕ)
    → IsValid s
    → 1 < s.pages_free
    → s.pages_free < 2 ^ 31
    → alloc_page s ≡ some (t, phys)
    → phys ≢ 0
    → ((j : ℕ) → map_bit (free_page phys t).map j ≡ map_bit s.map j)
      × ((free_page phys t).pages_free ≡ s.pages_free)
free_page-alloc_page s t phys v more fits e ne =
    by_outcome s t phys v fits e ne (alloc_page_outcome s v more fits)

-- Releasing by page number sets the page's bit and no other, counts a page that was not free, and
-- leaves the cursor and the limit alone.
pub release_bitmap_page_mode_b_lem :
    (s : PageMap) (page_index : ℕ)
    → IsBytes s.map
    → let t = (release_bitmap_page_mode_b page_index s).0 in
      ((j : ℕ) → map_bit t.map j ≡ (if page_index == j then 1 else map_bit s.map j))
      × (t.pages_free
          ≡ (if map_bit s.map page_index == 0 then (s.pages_free + 1) % 2 ^ 32 else s.pages_free))
      × (t.page_start ≡ s.page_start)
      × (t.page_end ≡ s.page_end)
      × IsBytes t.map
unfolding release_bitmap_page_mode_b
release_bitmap_page_mode_b_lem s page_index h = elim (Bool-cases (map_bit s.map page_index == 0)) [
  | inl taken ↦
      rw taken
        (λ j. map_bit-bts s.map page_index j, refl, refl, refl, bts-IsBytes s.map page_index h)
  | inr free ↦
      rw free
        (λ j. map_bit-bts s.map page_index j, refl, refl, refl, bts-IsBytes s.map page_index h)
]

-- Releasing by page number changes the map and the counter as `free_page` does at the page's
-- address, returns 1 exactly when the page was not free, and leaves the cursor alone.
release_bitmap_page_mode_b-free_page :
    (s : PageMap) (page_index : ℕ)
    → page_index < 2 ^ 20
    → let (t, delta) = release_bitmap_page_mode_b page_index s in
      (t.map ≡ (free_page (4096 * page_index) s).map)
      × (t.pages_free ≡ (free_page (4096 * page_index) s).pages_free)
      × (t.page_start ≡ s.page_start)
      × (delta ≡ (if map_bit s.map page_index == 0 then 1 else 0))
unfolding release_bitmap_page_mode_b free_page
release_bitmap_page_mode_b-free_page s page_index h =
    let here : 4096 * page_index / 4096 ≡ page_index = omega arith in rw here (ground arith)
