-- ===== src/Partition/Protective.antt =====
-- The test of a protective MBR.
use kolibri_os_reloaded.Base.{
  ℕ, zero, suc, ◌+◌, ◌-◌, ◌%◌, ◌^◌, ◌<◌, ◌≡◌, ◌↔◌, ◌⊎◌, refl, arith, Bool, true, false, ◌&&◌, ◌||◌,
  ◌==◌, if◌then◌else◌, u32,
}
use kolibri_os_reloaded.Base.Memory.{
  Memory, IsBytes, load_u32, first_cell, next_cell, load_u16, load_u32-lt,
}
use kolibri_os_reloaded.Partition.{all_zero, is_protective_mbr, is_protective_mbr_ptr}

cells_zero :
    (n : ℕ) (m : Memory) (at : ℕ)
    → (all_zero n m (at + 1) ≡ true → (i : ℕ) → i < n → m (at + 1 + i) ≡ 0)
    → ((m at == 0) && all_zero n m (at + 1)) ≡ true
    → (i : ℕ) → i < suc n
    → m (at + i) ≡ 0
cells_zero n m at to all zero below = rw (first_cell at) (ground (arith, all))
cells_zero n m at to all (suc i) below =
    rw (next_cell at i) (to (ground (arith, all)) i (omega arith))

all_zero_iff :
    (n : ℕ) (m : Memory) (at : ℕ) → (all_zero n m at ≡ true) ↔ ((i : ℕ) → i < n → m (at + i) ≡ 0)
unfolding all_zero
all_zero_iff zero m at = (λ _ i below. absurd (omega arith), λ _. refl)
all_zero_iff (suc n) m at =
    let (to, from) = all_zero_iff n m (at + 1) in
    (
      cells_zero n m at to,
      λ all.
          let first : m at ≡ 0 = rw (first_cell at) at (all 0 (omega arith)) in
          let rest = from (λ i below. rw (next_cell at i) at (all (suc i) (omega arith))) in
          rw (first, rest) refl,
    )

-- The tests on the values that are read.
abbrev fields_pass : ℕ → ℕ → ℕ → ℕ → ℕ → ℕ → Bool → Bool
fields_pass w b t f l c z =
    (w == 0)
    && (b == 0)
    && (t == 0xEE)
    && (f == 1)
    && ((l == 0xffffffff) || (l == u32 (0xffffffff + c)))
    && z

fields_pass_iff :
    (w b t f l c : ℕ) (z : Bool)
    → l < 2 ^ 32
    → c < 2 ^ 32
    → (fields_pass w b t f l c z ≡ true) ↔ (
        (w ≡ 0)
        × (b ≡ 0)
        × (t ≡ 0xEE)
        × (f ≡ 1)
        × ((l ≡ 2 ^ 32 - 1) ⊎ ((l + 1) % 2 ^ 32 ≡ c))
        × (z ≡ true))
fields_pass_iff w b t f l c z h k = ground arith

zero_result : (b : Bool) → (◌≡◌ {A = ℕ} (if b then 0 else 1) 0) ↔ (b ≡ true)
zero_result true = (λ _. refl, λ _. refl)
zero_result false = (λ e. absurd (omega arith), λ e. absurd (ground arith))

-- Zero means that the word before the table is 0, the first entry is inactive, of type 0xEE, from
-- sector 1, as long as the disk less one sector (by the low dword of the capacity) or of the largest
-- length, and the other three entries are 48 bytes of zero.
is_protective_mbr_ptr_outcome :
    (m : Memory) (pt capacity_lo : ℕ)
    → IsBytes m
    → capacity_lo < 2 ^ 32
    → (is_protective_mbr_ptr m pt capacity_lo ≡ 0) ↔ (
        (load_u16 m (pt - 2) ≡ 0)
        × (m (pt + 0) ≡ 0)
        × (m (pt + 4) ≡ 0xEE)
        × (load_u32 m (pt + 8) ≡ 1)
        × ((load_u32 m (pt + 12) ≡ 2 ^ 32 - 1)
            ⊎ ((load_u32 m (pt + 12) + 1) % 2 ^ 32 ≡ capacity_lo))
        × ((i : ℕ) → i < 48 → m (pt + 16 + i) ≡ 0))
unfolding is_protective_mbr_ptr is_protective_mbr
is_protective_mbr_ptr_outcome m pt capacity_lo bytes h =
    let (to, from) = all_zero_iff 48 m (pt + 16) in
    let small = load_u32-lt m (pt + 12) bytes in
    let all = all_zero 48 m (pt + 16) in
    let (pass, unpass) =
      fields_pass_iff (load_u16 m (pt - 2)) (m (pt + 0)) (m (pt + 4)) (load_u32 m (pt + 8))
        (load_u32 m (pt + 12)) capacity_lo all small h in
    let (read, write) = zero_result (
      fields_pass (load_u16 m (pt - 2)) (m (pt + 0)) (m (pt + 4)) (load_u32 m (pt + 8))
        (load_u32 m (pt + 12)) capacity_lo all) in
    (
      λ e. (let (a, b, c, d, l, z) = pass (read e) in (a, b, c, d, l, to z)),
      λ (a, b, c, d, l, z). write (unpass (a, b, c, d, l, from z)),
    )
