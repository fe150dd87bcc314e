-- ===== src/PhysBitmap/Invariant.antt =====
-- Well-formedness of the page map, shared by the proofs about phys_bitmap.rs.
use kolibri_os_reloaded.Base.{
  ℕ, ◌+◌, ◌*◌, ◌%◌, ◌^◌, ◌≤◌, ◌<◌, ◌≡◌, if◌then◌else◌, ◌==◌, Option, some,
}
use kolibri_os_reloaded.Base.Memory.{IsBytes}
use kolibri_os_reloaded.Base.Bitmap.{map_bit}
use kolibri_os_reloaded.PhysBitmap.{PageMap}

-- The map covers at most the 2^20 pages of a 32-bit address space, the cursor and the limit are
-- dword offsets, and no page below the cursor is free.
pub record IsValid (s : PageMap) : Type 0 where
  pub bytes : IsBytes s.map
  pub start_aligned : s.page_start % 4 ≡ 0
  pub end_aligned : s.page_end % 4 ≡ 0
  pub start_le_end : s.page_start ≤ s.page_end
  pub end_le : s.page_end ≤ 2 ^ 17
  pub none_below : (i : ℕ) → i < 8 * s.page_start → map_bit s.map i ≡ 0

-- What a successful allocation of the page with index `i` does.
pub record IsAllocated (s : PageMap) (i : ℕ) (t : PageMap) : Type 0 where
  pub in_window : i < 8 * s.page_end
  pub was_free : map_bit s.map i ≡ 1
  pub lowest : (j : ℕ) → j < i → map_bit s.map j ≡ 0
  pub taken : (j : ℕ) → map_bit t.map j ≡ (if i == j then 0 else map_bit s.map j)
  pub charged : t.pages_free + 1 ≡ s.pages_free
  pub same_end : t.page_end ≡ s.page_end

-- The two ways in which a search for a page ends.
pub data AllocOutcome (s : PageMap) (r : Option (PageMap × ℕ)) : Type 0 where
  allocated :
      (i : ℕ) (t : PageMap)
      → r ≡ some (t, 4096 * i)
      → IsAllocated s i t
      → IsValid t
      → AllocOutcome s r
  exhausted :
      r ≡ some (s, 0) → ((i : ℕ) → i < 8 * s.page_end → map_bit s.map i ≡ 0) → AllocOutcome s r
