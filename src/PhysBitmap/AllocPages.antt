-- ===== src/PhysBitmap/AllocPages.antt =====
-- `alloc_pages`: the first run of wholly free bytes that is long enough, or none.
use kolibri_os_reloaded.Base.{
  ℕ, zero, suc, ◌+◌, ◌-◌, ◌*◌, ◌^◌, ◌≤◌, ◌<◌, ◌≡◌, ◌≢◌, refl, arith, ◌==◌, some, Bool-cases, inl,
  inr, ltb, u32, sub_u32, Option, true, false, ◌||◌, leb, lt_i32, ◌⊎◌, lt→ltb, ltb-false, ◌>>>◌,
  ◌&&◌, if◌then◌else◌,
}
use native.Mathlib.Decide.{dec_lt}
use kolibri_os_reloaded.Base.Memory.{Memory, store_u8}
use kolibri_os_reloaded.PhysBitmap.{
  PageMap, Run, complete, ended, broken, run_from, zero_bytes, alloc_pages_loop, alloc_pages,
}
use kolibri_os_reloaded.PhysBitmap.Invariant.{IsValid}

-- `need` bytes from `c` on, all of whose pages are free.
abbrev pub IsFreeRun : PageMap → ℕ → ℕ → Type 0
IsFreeRun s need c = (c + need ≤ s.page_end) × ((k : ℕ) → k < need → s.map (c + k) ≡ 255)

abbrev RunSpec : PageMap → ℕ → ℕ → Run → Type 0
RunSpec s need cur complete = IsFreeRun s need cur
RunSpec s need cur ended = s.page_end < cur + need
RunSpec s need cur (broken c) =
    (cur < c) × (c ≤ cur + need) × (c ≤ s.page_end) × (s.map (c - 1) ≢ 255)

RunSpec-suc :
    (s : PageMap) (need cur : ℕ) (r : Run)
    → s.map cur ≡ 255
    → RunSpec s need (cur + 1) r
    → RunSpec s (suc need) cur r
RunSpec-suc s need cur complete e (fits, all) = (omega arith, at)
  where
    at : (k : ℕ) → k < suc need → s.map (cur + k) ≡ 255
    at zero h = ground arith
    at (suc k) h = ground (arith, all k (omega arith))
RunSpec-suc s need cur ended e h = omega arith
RunSpec-suc s need cur (broken c) e h = (omega arith, omega arith, h.2, h.3)

run_from-RunSpec :
    (s : PageMap) (need cur : ℕ)
    → s.page_end ≤ 2 ^ 17
    → cur ≤ s.page_end
    → RunSpec s need cur (run_from need s cur)
unfolding run_from
run_from-RunSpec s zero cur hi h = (omega arith, λ k l. absurd (omega arith))
run_from-RunSpec s (suc need) cur hi h = elim (Bool-cases (leb s.page_end cur)) [
  | inl past ↦ rw past (ground arith)
  | inr within ↦
      let next : u32 (cur + 1) ≡ cur + 1 = ground arith in
      elim (Bool-cases (s.map cur == 255)) [
        | inl free ↦
            rw (within, free, next)
              (RunSpec-suc s need cur _ (ground arith)
                (run_from-RunSpec s need (cur + 1) hi (ground arith)))
        | inr taken ↦
            rw (within, taken, next) (ground arith, ground arith, ground arith, ground arith)
      ]
]

-- A run that holds a byte which is not wholly free is no free run.
not-IsFreeRun :
    (s : PageMap) (need c at : ℕ) → s.map at ≢ 255 → c ≤ at → at < c + need → ¬ IsFreeRun s need c
not-IsFreeRun s need c at ne lo hi (fits, all) =
    let here : c + (at - c) ≡ at = omega arith in
    ne (ground (arith, all (at - c) (omega arith), here))

-- What taking the run at `c` does: its bytes are cleared and no other, and its pages are charged.
pub record IsReserved (s : PageMap) (need c : ℕ) (t : PageMap) : Type 0 where
  pub cleared : (a : ℕ) → t.map a ≡ (if leb c a && ltb a (c + need) then 0 else s.map a)
  pub charged : t.pages_free + need * 8 ≡ s.pages_free
  pub same_start : t.page_start ≡ s.page_start
  pub same_end : t.page_end ≡ s.page_end

zero_bytes_lem :
    (need : ℕ) (m : Memory) (c a : ℕ)
    → zero_bytes need m c a ≡ (if leb c a && ltb a (c + need) then 0 else m a)
unfolding zero_bytes store_u8
zero_bytes_lem zero m c a = ground arith
zero_bytes_lem (suc need) m c a = ground (arith, zero_bytes_lem need (store_u8 m c 0) (c + 1) a)

-- The state that the code leaves after it took the run at `c`.
abbrev taken_run : PageMap → ℕ → ℕ → PageMap
taken_run s need c = record s {
  map = zero_bytes need s.map c;
  pages_free = sub_u32 s.pages_free (u32 (need * 8));
}

taken_run-IsReserved :
    (s : PageMap) (need c : ℕ)
    → s.pages_free < 2 ^ 31
    → need * 8 ≤ s.pages_free
    → IsReserved s need c (taken_run s need c)
taken_run-IsReserved s need c small room = record {
  cleared = zero_bytes_lem need s.map c;
  charged = omega arith;
  same_start = refl;
  same_end = refl;
}

-- The ways in which the search ends: the first free run is taken, or there is none.
pub data PagesOutcome (s : PageMap) (need : ℕ) (r : Option (PageMap × ℕ)) : Type 0 where
  reserved :
      (c : ℕ) (t : PageMap)
      → r ≡ some (t, 2 ^ 15 * c)
      → IsReserved s need c t
      → s.page_start ≤ c
      → IsFreeRun s need c
      → ((d : ℕ) → s.page_start ≤ d → d < c → ¬ IsFreeRun s need d)
      → PagesOutcome s need r
  no_run :
      r ≡ some (s, 0) → ((d : ℕ) → s.page_start ≤ d → ¬ IsFreeRun s need d) → PagesOutcome s need r

module _ (s : PageMap) (need : ℕ) (hi : s.page_end ≤ 2 ^ 17) (pos : 0 < need)
    (small : s.pages_free < 2 ^ 31) (room : need * 8 ≤ s.pages_free) where
  abbrev NoRunBelow : ℕ → Type 0
  NoRunBelow ecx = (d : ℕ) → s.page_start ≤ d → d < ecx → ¬ IsFreeRun s need d

  after_run :
      (fuel ecx : ℕ) (r : Run)
      → run_from need s ecx ≡ r
      → RunSpec s need ecx r
      → ecx < s.page_end
      → s.page_end < suc fuel + ecx
      → s.page_start ≤ ecx
      → NoRunBelow ecx
      → ((next : ℕ)
          → s.page_end < fuel + next
          → s.page_start ≤ next
          → next ≤ s.page_end
          → NoRunBelow next
          → PagesOutcome s need (alloc_pages_loop fuel need s next))
      → PagesOutcome s need (alloc_pages_loop (suc fuel) need s ecx)
  unfolding alloc_pages_loop
  after_run fuel ecx complete e spec within enough start below next =
      let t : ltb ecx s.page_end ≡ true = lt→ltb _ _ within in
      rw (t, e)
        (reserved ecx (taken_run s need ecx) (ground arith)
          (taken_run-IsReserved s need ecx small room) start spec below)
  after_run fuel ecx ended e spec within enough start below next =
      let t : ltb ecx s.page_end ≡ true = lt→ltb _ _ within in
      rw (t, e)
        (no_run refl (λ d h run. elim (dec_lt d ecx) [
          | yes lt ↦ below d h lt run
          | no ge ↦ omega (arith, run.0)
        ]))
  after_run fuel ecx (broken c) e spec within enough start below next =
      let t : ltb ecx s.page_end ≡ true = lt→ltb _ _ within in
      rw (t, e)
        (next c (omega arith) (omega arith) spec.2 (λ d h lt run. elim (dec_lt d ecx) [
          | yes before ↦ below d h before run
          | no ge ↦ not-IsFreeRun s need d (c - 1) spec.3 (omega arith) (omega arith) run
        ]))

  alloc_pages_loop_lem :
      (fuel ecx : ℕ)
      → s.page_end < fuel + ecx
      → s.page_start ≤ ecx
      → ecx ≤ s.page_end
      → NoRunBelow ecx
      → PagesOutcome s need (alloc_pages_loop fuel need s ecx)
  alloc_pages_loop_lem zero ecx enough start inside below = absurd (omega arith)
  alloc_pages_loop_lem (suc fuel) ecx enough start inside below = elim (dec_lt ecx s.page_end) [
    | yes within ↦
        after_run fuel ecx (run_from need s ecx) refl (run_from-RunSpec s need ecx hi inside) within
          enough start below (alloc_pages_loop_lem fuel)
    | no past ↦ at_end fuel ecx (omega arith) below
  ]
    where
      at_end :
          (fuel ecx : ℕ)
          → s.page_end ≤ ecx
          → NoRunBelow ecx
          → PagesOutcome s need (alloc_pages_loop (suc fuel) need s ecx)
      at_end fuel ecx past below =
          let t : ltb ecx s.page_end ≡ false = ltb-false _ _ past in
          unfold alloc_pages_loop in
          rw t (no_run refl (λ d h run. below d h (omega (arith, run.0)) run))

-- The bytes of the map that a request for `count` pages takes.
abbrev pub bytes_for : ℕ → ℕ
bytes_for count = u32 (count + 7) >>> 3

-- With a well-formed map, a request for pages that fills at least one byte of the map and fits
-- beside the nine pages kept in reserve ends. It takes the first run of that many wholly free bytes
-- from the cursor on: the bytes of the run are 0 after it and all others as before, the counter is
-- less by eight pages for each of them, the cursor and the limit stay, and the result is the address
-- of the run's first page. Or there is no such run, and the result is 0 with the state unchanged.
-- The counter is below 2^31.
pub alloc_pages_outcome :
    (s : PageMap) (count : ℕ)
    → IsValid s
    → 0 < bytes_for count
    → s.pages_free < 2 ^ 31
    → bytes_for count * 8 + 9 ≤ s.pages_free
    → PagesOutcome s (bytes_for count) (alloc_pages count s)
unfolding alloc_pages
alloc_pages_outcome s count v pos fits room =
    let enough : (leb (2 ^ 31) (sub_u32 s.pages_free 9)
          || lt_i32 (sub_u32 s.pages_free 9 >>> 3) (bytes_for count)
          || bytes_for count == 0)
        ≡ false =
      ground arith in
    rw enough (
      alloc_pages_loop_lem s (bytes_for count) v.end_le (omega arith) fits (omega arith)
        (s.page_end + 1) s.page_start (omega arith) (omega arith) v.start_le_end
        (λ d h lt. absurd (omega arith)))

-- A request that fills no byte of the map, or that does not fit beside the reserve, returns 0 and
-- changes nothing.
pub alloc_pages_refused :
    (s : PageMap) (count : ℕ)
    → s.pages_free < 2 ^ 31
    → (bytes_for count ≡ 0) ⊎ (s.pages_free < bytes_for count * 8 + 9)
    → alloc_pages count s ≡ some (s, 0)
unfolding alloc_pages
alloc_pages_refused s count fits h = ground arith
