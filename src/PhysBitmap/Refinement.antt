-- ===== src/PhysBitmap/Refinement.antt =====
-- The allocator as a set of free pages: what its calls promise without the bitmap, the cursor and
-- the counter, and that the calls keep the promise.
use kolibri_os_reloaded.Base.{
  ℕ, zero, suc, ◌*◌, ◌/◌, ◌^◌, ◌≤◌, ◌<◌, ◌≡◌, ◌↔◌, inl, inr, refl, sym, arith, some, Bool, true,
  false, ◌&&◌, ltb, ◌==◌, eq_cases, if◌then◌else◌,
}
use native.Mathlib.Decide.{dec_lt}
use kolibri_os_reloaded.Base.Memory.{Memory}
use kolibri_os_reloaded.Base.Bitmap.{map_bit}
use kolibri_os_reloaded.PhysBitmap.{PageMap, alloc_page, free_page}
use kolibri_os_reloaded.PhysBitmap.Invariant.{IsAllocated, allocated, exhausted}
use kolibri_os_reloaded.PhysBitmap.AllocPage.{alloc_page_outcome, alloc_page_reserve}
use kolibri_os_reloaded.PhysBitmap.FreePage.{free_page_lem}
use kolibri_os_reloaded.PhysBitmap.Accounting.{count_free}
use kolibri_os_reloaded.PhysBitmap.System.{IsSound, alloc, free, pages_free-le, Step-IsSound}

-- The set of free pages, and the set that a state of the allocator stands for.
abbrev FreeSet : Type 0
FreeSet = ℕ → Bool

unfoldable pub free_set : PageMap → FreeSet
free_set s i = ltb i (8 * s.page_end) && (map_bit s.map i == 1)

-- Taking a page: the lowest free page and its address; or the address 0, when at most one page is
-- free, with the set as it was.
pub data Takes (F G : FreeSet) (phys : ℕ) : Type 0 where
  took :
      (i : ℕ)
      → phys ≡ 4096 * i
      → F i ≡ true
      → ((j : ℕ) → j < i → F j ≡ false)
      → ((j : ℕ) → G j ≡ (if i == j then false else F j))
      → Takes F G phys
  kept :
      phys ≡ 0
      → ((i j : ℕ) → F i ≡ true → F j ≡ true → i ≡ j)
      → ((j : ℕ) → G j ≡ F j)
      → Takes F G phys

one_free : (m : Memory) (n i : ℕ) → i < n → map_bit m i ≡ 1 → 1 ≤ count_free m n
unfolding count_free
one_free m zero i h e = absurd (omega arith)
one_free m (suc n) i h e = elim (eq_cases i n) [
  | inl last ↦ (let here : map_bit m n ≡ 1 = rw (sym last) e in omega arith)
  | inr before ↦ omega (arith, one_free m n i (omega arith) e)
]

two_free :
    (m : Memory) (n i j : ℕ)
    → i < j
    → j < n
    → map_bit m i ≡ 1
    → map_bit m j ≡ 1
    → 2 ≤ count_free m n
unfolding count_free
two_free m zero i j l h e f = absurd (omega arith)
two_free m (suc n) i j l h e f = elim (eq_cases j n) [
  | inl last ↦
      (let here : map_bit m n ≡ 1 = rw (sym last) f in
        omega (arith, one_free m n i (omega arith) e))
  | inr before ↦ omega (arith, two_free m n i j l (omega arith) e f)
]

free_set_iff :
    (s : PageMap) (i : ℕ) → (free_set s i ≡ true) ↔ ((i < 8 * s.page_end) × (map_bit s.map i ≡ 1))
unfolding free_set
free_set_iff s i = ground arith

at_most_one :
    (s : PageMap)
    → count_free s.map (8 * s.page_end) ≤ 1
    → (i j : ℕ) → free_set s i ≡ true
    → free_set s j ≡ true
    → i ≡ j
at_most_one s few i j fi fj =
    let (hi, bi) = (free_set_iff s i).0 fi in
    let (hj, bj) = (free_set_iff s j).0 fj in
    elim (dec_lt i j) [
      | yes l ↦ absurd (omega (arith, two_free s.map (8 * s.page_end) i j l hj bi bj))
      | no nl ↦ elim (dec_lt j i) [
        | yes l ↦ absurd (omega (arith, two_free s.map (8 * s.page_end) j i l hi bj bi))
        | no nl' ↦ omega arith
      ]
    ]

allocated-took :
    (s t : PageMap) (i : ℕ) → IsAllocated s i t → Takes (free_set s) (free_set t) (4096 * i)
unfolding free_set
allocated-took s t i a =
    took i refl ((free_set_iff s i).1 (a.in_window, a.was_free))
      (λ j h. ground (arith, a.lowest j h)) (λ j. ground (arith, a.taken j, a.same_end))

-- `alloc_page` refines taking a page: on a sound state it ends, the state it ends in is sound, and on
-- the sets of free pages it does what taking a page promises, which does not mention the bitmap, the
-- cursor or the counter.
pub alloc_page-Takes :
    (s : PageMap)
    → IsSound s
    → (t : PageMap) × (phys : ℕ) × (alloc_page s ≡ some (t, phys))
      × IsSound t
      × Takes (free_set s) (free_set t) phys
unfolding free_set
alloc_page-Takes s g = elim (dec_lt 1 s.pages_free) [
  | yes more ↦ elim (alloc_page_outcome s g.valid more (omega (arith, pages_free-le s g))) [
    | allocated i t h a v ↦
        (t, 4096 * i, h, Step-IsSound s t (alloc (4096 * i) h) g, allocated-took s t i a)
    | exhausted h none_free ↦ (
      s,
      0,
      h,
      g,
      kept refl (λ i j fi fj. absurd (ground (arith, none_free i, (free_set_iff s i).0 fi)))
          (λ j. refl),
    )
  ]
  | no low ↦
      (let h = alloc_page_reserve s (inl (omega arith)) in
        (
          _,
          0,
          h,
          Step-IsSound s _ (alloc 0 h) g,
          kept refl (at_most_one s (omega (arith, g.accounted))) (λ j. refl),
        ))
]

-- `free_page` refines giving a page back: the page of the address is in the set and the others stay
-- as they were, and the state it ends in is sound. The page is one of the window.
free_page-Gives :
    (s : PageMap) (phys : ℕ)
    → IsSound s
    → phys < 2 ^ 32
    → phys / 4096 < 8 * s.page_end
    → IsSound (free_page phys s)
      × ((j : ℕ)
          → free_set (free_page phys s) j ≡ (if phys / 4096 == j then true else free_set s j))
unfolding free_set
free_page-Gives s phys g h inside =
    let (bits, counter, limit) = free_page_lem s phys h in
    (
      Step-IsSound s (free_page phys s) (free phys h inside refl) g,
      λ j. ground (arith, bits j, limit, inside),
    )
