-- ===== src/PidToSlot/Lookup.antt =====
-- The slot found is the first live one with the thread id.
use kolibri_os_reloaded.Base.{
  ℕ, zero, suc, ◌+◌, ◌*◌, ◌/◌, ◌^◌, ◌≤◌, ◌<◌, ◌≡◌, ◌≢◌, ◌⊎◌, inl, inr, refl, arith, u32, eq_cases,
  Option, some,
}
use native.Mathlib.Decide.{dec_lt}
use kolibri_os_reloaded.Base.Memory.{Memory, load_u32}
use kolibri_os_reloaded.PidToSlot.{slot_loop, pid_to_slot}

-- Slot `j` is not free and has the thread id, and the opposite.
abbrev IsSlotOf : ℕ → Memory → ℕ → Type 0
IsSlotOf pid m j = (m (j * 256 + 124) ≢ 9) × (load_u32 m (j * 256 + 112) ≡ pid)

abbrev IsOther : ℕ → Memory → ℕ → Type 0
IsOther pid m j = (m (j * 256 + 124) ≡ 9) ⊎ (load_u32 m (j * 256 + 112) ≢ pid)

-- The result of a search through the slots from `from` to `last`: the first slot of the thread, or
-- 0 if there is none.
abbrev SlotFound : ℕ → Memory → ℕ → ℕ → Option ℕ → Type 0
SlotFound pid m from last o =
    (r : ℕ) × (o ≡ some r)
    × (((from ≤ r) × (r ≤ last) × ((j : ℕ) → from ≤ j → j < r → IsOther pid m j) × IsSlotOf pid m r)
        ⊎ ((r ≡ 0) × ((j : ℕ) → from ≤ j → j ≤ last → IsOther pid m j)))

module _ (fuel pid : ℕ) (m : Memory) (last j : ℕ) (h : last < 2 ^ 22) where
  slot_loop_end : last < j → j ≤ 2 ^ 22 → slot_loop (suc fuel) pid m (last * 256) (j * 256) ≡ some 0
  unfolding slot_loop
  slot_loop_end k l = ground arith

  slot_loop_found :
      j ≤ last
      → m (j * 256 + 124) ≢ 9
      → load_u32 m (j * 256 + 112) ≡ pid
      → slot_loop (suc fuel) pid m (last * 256) (j * 256) ≡ some j
  unfolding slot_loop
  slot_loop_found k live same = let index : j * 256 / 256 ≡ j = omega arith in ground (arith, index)

  slot_loop_free :
      j ≤ last
      → m (j * 256 + 124) ≡ 9
      → slot_loop (suc fuel) pid m (last * 256) (j * 256)
        ≡ slot_loop fuel pid m (last * 256) (suc j * 256)
  unfolding slot_loop
  slot_loop_free k free =
      let next : u32 (j * 256 + 256) ≡ suc j * 256 = omega arith in rw next (ground arith)

  slot_loop_other :
      j ≤ last
      → load_u32 m (j * 256 + 112) ≢ pid
      → slot_loop (suc fuel) pid m (last * 256) (j * 256)
        ≡ slot_loop fuel pid m (last * 256) (suc j * 256)
  unfolding slot_loop
  slot_loop_other k other =
      let next : u32 (j * 256 + 256) ≡ suc j * 256 = omega arith in rw next (ground arith)

IsOther-from :
    (pid : ℕ) (m : Memory) (from top : ℕ)
    → IsOther pid m from
    → ((j : ℕ) → suc from ≤ j → j < top → IsOther pid m j)
    → (j : ℕ) → from ≤ j
    → j < top
    → IsOther pid m j
IsOther-from pid m from top first rest j h k = elim (dec_lt from j) [
  | yes later ↦ rest j later k
  | no same ↦ (let e : j ≡ from = omega arith in rw e first)
]

SlotFound-skip :
    (pid : ℕ) (m : Memory) (from last : ℕ) (o : Option ℕ)
    → IsOther pid m from
    → SlotFound pid m (suc from) last o
    → SlotFound pid m from last o
SlotFound-skip pid m from last o first (r, e, inl (ge, le, before, is)) =
    (r, e, inl (omega arith, le, IsOther-from pid m from r first before, is))
SlotFound-skip pid m from last o first (r, e, inr (is, all)) =
    let rest = IsOther-from pid m from (suc last) first (λ j h k. all j h (omega arith)) in
    (r, e, inr (is, λ j h k. rest j h (omega arith)))

slot_loop-SlotFound :
    (fuel pid : ℕ) (m : Memory) (last j : ℕ)
    → last < 2 ^ 22
    → j + fuel ≡ last + 2
    → 0 < fuel
    → SlotFound pid m j last (slot_loop fuel pid m (last * 256) (j * 256))
slot_loop-SlotFound zero pid m last j h e k = absurd (omega arith)
slot_loop-SlotFound (suc fuel) pid m last j h e k = elim (dec_lt last j) [
  | yes past ↦ (
    0,
    slot_loop_end fuel pid m last j h past (omega arith),
    inr (refl, λ i a b. absurd (omega arith)),
  )
  | no inside ↦ elim (eq_cases (m (j * 256 + 124)) 9) [
    | inl free ↦ rw (slot_loop_free fuel pid m last j h (omega arith) free) (
        SlotFound-skip pid m j last _ (inl free)
          (slot_loop-SlotFound fuel pid m last (suc j) h (omega arith) (omega arith)))
    | inr live ↦ elim (eq_cases (load_u32 m (j * 256 + 112)) pid) [
      | inl same ↦ (
        j,
        slot_loop_found fuel pid m last j h (omega arith) live same,
        inl (omega arith, omega arith, λ i a b. absurd (omega arith), (live, same)),
      )
      | inr other ↦ rw (slot_loop_other fuel pid m last j h (omega arith) other) (
          SlotFound-skip pid m j last _ (inr other)
            (slot_loop-SlotFound fuel pid m last (suc j) h (omega arith) (omega arith)))
    ]
  ]
]

-- With fewer than 2^22 threads the search ends, and returns the first slot from 1 to the count that
-- is not free and has the thread id, or 0 if there is none.
pid_to_slot-SlotFound :
    (pid : ℕ) (m : Memory) (thread_count : ℕ)
    → thread_count < 2 ^ 22
    → SlotFound pid m 1 thread_count (pid_to_slot pid m thread_count)
unfolding pid_to_slot
pid_to_slot-SlotFound pid m thread_count h =
    let bound : u32 (thread_count * 256) ≡ thread_count * 256 = omega arith in
    rw bound
      (slot_loop-SlotFound (thread_count + 1) pid m thread_count 1 h (omega arith) (omega arith))
