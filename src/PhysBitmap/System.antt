-- ===== src/PhysBitmap/System.antt =====
-- The allocator as a system: any sequence of its calls, from a map whose counter is right, keeps
-- the map well formed and the counter right, as long as no page is released by number below the cursor.
use kolibri_os_reloaded.Base.{
  ℕ, ◌+◌, ◌*◌, ◌/◌, ◌^◌, ◌≤◌, ◌<◌, ◌≡◌, arith, some, inl, inr, ◌⊎◌, leb, ltb, ◌&&◌, if◌then◌else◌,
}
use kolibri_os_reloaded.Base.Bitmap.{map_bit, map_bit-le}
use kolibri_os_reloaded.PhysBitmap.{
  PageMap, alloc_page, alloc_pages, free_page, release_bitmap_page_mode_b,
}
use kolibri_os_reloaded.PhysBitmap.Invariant.{
  IsValid, IsAllocated, AllocOutcome, allocated, exhausted,
}
use kolibri_os_reloaded.PhysBitmap.AllocPage.{alloc_page_outcome, alloc_page_reserve}
use kolibri_os_reloaded.PhysBitmap.FreePage.{
  free_page_lem, free_page-IsValid, release_bitmap_page_mode_b_lem,
}
use kolibri_os_reloaded.PhysBitmap.AllocPages.{
  IsFreeRun, IsReserved, PagesOutcome, reserved, no_run, bytes_for, alloc_pages_outcome,
  alloc_pages_refused,
}
use kolibri_os_reloaded.PhysBitmap.Accounting.{
  count_free, count_free-le, count_free-clear, count_free-set, count_free-set_again,
  count_free-clear_range, cleared-IsBytes, map_bit-cleared, IsFreeRun-map_bit,
}
use native.Mathlib.Decide.{dec_lt, dec_le}

-- A well-formed map whose counter is the number of free pages in it, never 0.
pub record IsSound (s : PageMap) : Type 0 where
  pub valid : IsValid s
  pub accounted : s.pages_free ≡ count_free s.map (8 * s.page_end)
  pub reserve : 1 ≤ s.pages_free

-- One call of the allocator's interface. Pages are freed inside the window that the map describes,
-- and released by number only from the cursor on: `release_bitmap_page_mode_b` leaves the cursor
-- where it is, so that a page released below it is free but out of the reach of the searches.
pub data Step (s t : PageMap) : Type 0 where
  alloc : (phys : ℕ) → alloc_page s ≡ some (t, phys) → Step s t
  alloc_run : (count phys : ℕ) → alloc_pages count s ≡ some (t, phys) → Step s t
  free : (phys : ℕ) → phys < 2 ^ 32 → phys / 4096 < 8 * s.page_end → t ≡ free_page phys s → Step s t
  release :
      (page_index : ℕ)
      → 8 * s.page_start ≤ page_index
      → page_index < 8 * s.page_end
      → t ≡ (release_bitmap_page_mode_b page_index s).0
      → Step s t

pub data Reach (s : PageMap) : PageMap → Type 0 where
  here : Reach s s
  next : {t u : PageMap} → Reach s t → Step t u → Reach s u

pub pages_free-le : (s : PageMap) → IsSound s → s.pages_free ≤ 2 ^ 20
pages_free-le s g = omega (arith, g.accounted, g.valid.end_le, count_free-le s.map (8 * s.page_end))

allocated-IsSound :
    (s t : PageMap) (i : ℕ)
    → IsSound s
    → 1 < s.pages_free
    → IsAllocated s i t
    → IsValid t
    → IsSound t
allocated-IsSound s t i g more a v = record {
  valid = v;
  accounted = ground (
    arith,
    g.accounted,
    a.charged,
    a.in_window,
    a.same_end,
    count_free-clear s.map t.map i (8 * s.page_end) a.taken a.was_free,
  );
  reserve = omega (arith, a.charged);
}

reserved-IsSound :
    (s t : PageMap) (need c : ℕ)
    → IsSound s
    → need * 8 + 9 ≤ s.pages_free
    → IsFreeRun s need c
    → IsReserved s need c t
    → IsSound t
reserved-IsSound s t need c g room run r =
    let bit : (j : ℕ)
        → map_bit t.map j
          ≡ (if leb (8 * c) j && ltb j (8 * (c + need)) then 0 else map_bit s.map j) =
      λ j. map_bit-cleared s t need c j r in
    let counted =
      count_free-clear_range s.map t.map (8 * c) (8 * (c + need)) (8 * s.page_end) (omega arith) bit
        (λ j lo hi. IsFreeRun-map_bit s need c j run lo hi) in
    record {
      valid = record {
        bytes = cleared-IsBytes s t need c r g.valid.bytes;
        start_aligned = rw r.same_start g.valid.start_aligned;
        end_aligned = rw r.same_end g.valid.end_aligned;
        start_le_end = rw (r.same_start, r.same_end) g.valid.start_le_end;
        end_le = rw r.same_end g.valid.end_le;
        none_below =
            λ j h. ground (arith, bit j, g.valid.none_below j (omega (arith, h, r.same_start)));
      };
      accounted = rw r.same_end (omega (arith, r.charged, counted, g.accounted, run.0));
      reserve = omega (arith, r.charged, room);
    }

free_page-IsSound :
    (s : PageMap) (phys : ℕ)
    → phys < 2 ^ 32
    → phys / 4096 < 8 * s.page_end
    → IsSound s
    → IsSound (free_page phys s)
free_page-IsSound s phys h inside g =
    let freed = free_page_lem s phys h in
    record {
      valid = free_page-IsValid s phys h g.valid;
      accounted = ground (
        arith,
        freed.1,
        freed.2,
        g.accounted,
        pages_free-le s g,
        map_bit-le s.map (phys / 4096),
        count_free-set s.map (free_page phys s).map (phys / 4096) (8 * s.page_end) freed.0,
        count_free-set_again s.map (free_page phys s).map (phys / 4096) (8 * s.page_end) freed.0,
      );
      reserve = ground (arith, freed.1, pages_free-le s g, g.reserve);
    }

-- A released page is counted as a freed one, and the cursor stays below it.
release-IsSound :
    (s : PageMap) (page_index : ℕ)
    → 8 * s.page_start ≤ page_index
    → page_index < 8 * s.page_end
    → IsSound s
    → IsSound (release_bitmap_page_mode_b page_index s).0
release-IsSound s page_index above inside g =
    let t = (release_bitmap_page_mode_b page_index s).0 in
    let freed = release_bitmap_page_mode_b_lem s page_index g.valid.bytes in
    record {
      valid = record {
        bytes = freed.4;
        start_aligned = rw freed.2 g.valid.start_aligned;
        end_aligned = rw freed.3 g.valid.end_aligned;
        start_le_end = rw (freed.2, freed.3) g.valid.start_le_end;
        end_le = rw freed.3 g.valid.end_le;
        none_below = λ j h.
            ground (arith, freed.0 j, freed.2, g.valid.none_below j (omega (arith, h, freed.2)));
      };
      accounted = rw freed.3 (
          ground (
            arith,
            freed.1,
            g.accounted,
            pages_free-le s g,
            map_bit-le s.map page_index,
            count_free-set s.map t.map page_index (8 * s.page_end) freed.0,
            count_free-set_again s.map t.map page_index (8 * s.page_end) freed.0,
          ));
      reserve = ground (arith, freed.1, pages_free-le s g, g.reserve);
    }

alloc-IsSound :
    (s t : PageMap) (phys : ℕ)
    → IsSound s
    → alloc_page s ≡ some (t, phys)
    → AllocOutcome s (alloc_page s)
    → 1 < s.pages_free
    → IsSound t
alloc-IsSound s t phys g e (allocated i u h a v) more =
    let same : t ≡ u = cc in rw same (allocated-IsSound s u i g more a v)
alloc-IsSound s t phys g e (exhausted h none_free) more = let same : t ≡ s = cc in rw same g

alloc_run-IsSound :
    (s t : PageMap) (count phys : ℕ)
    → IsSound s
    → alloc_pages count s ≡ some (t, phys)
    → bytes_for count * 8 + 9 ≤ s.pages_free
    → PagesOutcome s (bytes_for count) (alloc_pages count s)
    → IsSound t
alloc_run-IsSound s t count phys g e room (reserved c u h r start run first) =
    let same : t ≡ u = cc in rw same (reserved-IsSound s u (bytes_for count) c g room run r)
alloc_run-IsSound s t count phys g e room (no_run h none_there) = let same : t ≡ s = cc in rw same g

refused_run :
    (s t : PageMap) (count phys : ℕ)
    → IsSound s
    → alloc_pages count s ≡ some (t, phys)
    → (bytes_for count ≡ 0) ⊎ (s.pages_free < bytes_for count * 8 + 9)
    → IsSound t
refused_run s t count phys g e h =
    let unchanged = alloc_pages_refused s count (omega (arith, pages_free-le s g)) h in
    let same : t ≡ s = cc in rw same g

-- One call of `alloc_page`, `alloc_pages` (with any count), `free_page` (of any page of the window,
-- free or not) or `release_bitmap_page_mode_b` (of any page of the window from the cursor on) keeps
-- the map well formed and the counter equal to the number of free pages.
pub Step-IsSound : (s t : PageMap) → Step s t → IsSound s → IsSound t
Step-IsSound s t (alloc phys e) g = elim (dec_lt 1 s.pages_free) [
  | yes more ↦
      let small = pages_free-le s g in
      alloc-IsSound s t phys g e (alloc_page_outcome s g.valid more (omega arith)) more
  | no low ↦
      let one : s.pages_free ≡ 1 = omega (arith, g.reserve) in
      let unchanged = alloc_page_reserve s (inl (omega arith)) in let same : t ≡ s = cc in rw same g
]
Step-IsSound s t (alloc_run count phys e) g = elim (dec_lt 0 (bytes_for count)) [
  | no zero_bytes ↦ refused_run s t count phys g e (inl (omega arith))
  | yes pos ↦ elim (dec_le (bytes_for count * 8 + 9) s.pages_free) [
    | no short ↦ refused_run s t count phys g e (inr (omega arith))
    | yes room ↦
        alloc_run-IsSound s t count phys g e room
          (alloc_pages_outcome s count g.valid pos (omega (arith, pages_free-le s g)) room)
  ]
]
Step-IsSound s t (free phys h inside e) g = rw e (free_page-IsSound s phys h inside g)
Step-IsSound s t (release page_index above inside e) g =
    rw e (release-IsSound s page_index above inside g)

-- From a sound state (the map well formed, no page below the cursor free, and `pages_free` the
-- number of free pages, and not 0), any sequence of calls of `alloc_page`, of `alloc_pages`, of
-- `free_page` for pages of the window, and of `release_bitmap_page_mode_b` for pages of the window
-- that are not below the cursor at the time, leads to a sound state. A release below the cursor is
-- not covered: it leaves a free page there.
pub Reach-IsSound : (s t : PageMap) → Reach s t → IsSound s → IsSound t
Reach-IsSound s t here g = g
Reach-IsSound s t (next {t = m} r st) g = Step-IsSound m t st (Reach-IsSound s m r g)
