-- ===== src/PhysBitmap/Examples.antt =====
-- Runs of the page bitmap on small maps, and the theorems at concrete states.
use kolibri_os_reloaded.Base.{ℕ, ◌*◌, ◌≡◌, refl, arith, ◌==◌, some, if◌then◌else◌, ltb}
use kolibri_os_reloaded.Base.Memory.{Memory, load_u32, store_u32}
use kolibri_os_reloaded.Base.Bitmap.{map_bit}
use kolibri_os_reloaded.Base.Bits.{test_bit}
use kolibri_os_reloaded.PhysBitmap.{PageMap, alloc_page, alloc_pages, free_page, zero_bytes}
use kolibri_os_reloaded.PhysBitmap.Invariant.{IsValid, AllocOutcome}
use kolibri_os_reloaded.PhysBitmap.AllocPage.{alloc_page_outcome}
use kolibri_os_reloaded.PhysBitmap.AllocPages.{PagesOutcome, bytes_for, alloc_pages_outcome}
use kolibri_os_reloaded.PhysBitmap.Accounting.{count_free}
use kolibri_os_reloaded.PhysBitmap.Refinement.{Takes, free_set, alloc_page-Takes}
use kolibri_os_reloaded.PhysBitmap.System.{IsSound, alloc, free, here, next, Reach-IsSound}

-- Sixty-four pages: the first ten are taken, the others are free.
abbrev sample_map : Memory
sample_map a = if a == 0 then 0 else if a == 1 then 0xfc else if ltb a 8 then 0xff else 0

abbrev sample : PageMap
sample = record { map = sample_map; page_start = 0; page_end = 8; pages_free = 54 }

sample-IsValid : IsValid sample
sample-IsValid = record {
  bytes = λ a. ground arith;
  start_aligned = refl;
  end_aligned = refl;
  start_le_end = omega arith;
  end_le = omega arith;
  none_below = λ i h. absurd (omega arith);
}

sample-IsSound : IsSound sample
unfolding count_free map_bit test_bit
sample-IsSound = record { valid = sample-IsValid; accounted = refl; reserve = omega arith }

abbrev after_alloc : PageMap
after_alloc = record sample {
  map = store_u32 sample_map 0 0xfffff800;
  page_start = 0;
  pages_free = 53;
}

alloc_tenth : alloc_page sample ≡ some (after_alloc, 10 * 4096)
unfolding alloc_page load_u32
alloc_tenth = refl

alloc_page_outcome_example : AllocOutcome sample (alloc_page sample)
alloc_page_outcome_example = alloc_page_outcome sample sample-IsValid (omega arith) (omega arith)

abbrev starved : PageMap
starved = record sample { pages_free = 1 }

alloc_pages_outcome_example : PagesOutcome sample (bytes_for 16) (alloc_pages 16 sample)
alloc_pages_outcome_example =
    alloc_pages_outcome sample 16 sample-IsValid (omega arith) (omega arith) (omega arith)

-- The first run of two wholly free bytes is at byte 2, which is page 16.
alloc_two_bytes :
    alloc_pages 16 sample
    ≡ some (record sample { map = zero_bytes 2 sample_map 2; pages_free = 38 }, 16 * 4096)
unfolding alloc_pages
alloc_two_bytes = refl

Reach-IsSound_example : IsSound (free_page 40960 after_alloc)
Reach-IsSound_example =
    Reach-IsSound sample (free_page 40960 after_alloc)
      (next (next here (alloc 40960 alloc_tenth)) (free 40960 (omega arith) (omega arith) refl))
      sample-IsSound

alloc_page-Takes_example :
    (t : PageMap) × (phys : ℕ) × (alloc_page sample ≡ some (t, phys))
    × IsSound t
    × Takes (free_set sample) (free_set t) phys
alloc_page-Takes_example = alloc_page-Takes sample sample-IsSound
