-- ===== src/Strings/Compare.antt =====
-- `strncmp`: the verdict at the first place where the strings differ or end.
use kolibri_os_reloaded.Base.{ℕ, zero, suc, ◌+◌, ◌<◌, ◌≡◌, ◌≢◌, refl, ap, arith, sub_u32}
use native.Mathlib.Decide.{dec_lt}
use kolibri_os_reloaded.Base.Memory.{Memory, first_cell, next_cell}
use kolibri_os_reloaded.Strings.{strncmp, minus_one}

-- The first `k` bytes are the same and none is 0.
abbrev Agree : Memory → ℕ → ℕ → ℕ → Type 0
Agree m s1 s2 k = (i : ℕ) → i < k → (m (s1 + i) ≡ m (s2 + i)) × (m (s1 + i) ≢ 0)

-- What a verdict says of the place `k` that decided it, with `n` bytes to compare.
pub data Verdict (m : Memory) (s1 s2 n k : ℕ) : ℕ → Type 0 where
  exhausted : k ≡ n → Verdict m s1 s2 n k 0
  both_end : k < n → m (s1 + k) ≡ 0 → m (s2 + k) ≡ 0 → Verdict m s1 s2 n k 0
  less : k < n → m (s1 + k) < m (s2 + k) → Verdict m s1 s2 n k minus_one
  greater : k < n → m (s2 + k) < m (s1 + k) → Verdict m s1 s2 n k 1

abbrev CompareOutcome : Memory → ℕ → ℕ → ℕ → ℕ → Type 0
CompareOutcome m s1 s2 n r = (k : ℕ) × Agree m s1 s2 k × Verdict m s1 s2 n k r

-- One byte that agrees goes in front of a verdict on the rest.
Verdict-suc :
    (m : Memory) (s1 s2 n k r : ℕ)
    → Verdict m (s1 + 1) (s2 + 1) n k r
    → Verdict m s1 s2 (suc n) (suc k) r
Verdict-suc m s1 s2 n k _ (exhausted e) = exhausted (ap suc e)
Verdict-suc m s1 s2 n k _ (both_end h a b) =
    both_end (omega arith) (rw (next_cell s1 k) a) (rw (next_cell s2 k) b)
Verdict-suc m s1 s2 n k _ (less h lt) = less (omega arith) (rw (next_cell s1 k, next_cell s2 k) lt)
Verdict-suc m s1 s2 n k _ (greater h lt) =
    greater (omega arith) (rw (next_cell s1 k, next_cell s2 k) lt)

Agree-suc :
    (m : Memory) (s1 s2 k : ℕ)
    → m s1 ≡ m s2
    → m s1 ≢ 0
    → Agree m (s1 + 1) (s2 + 1) k
    → Agree m s1 s2 (suc k)
Agree-suc m s1 s2 k same filled agree zero h = rw (first_cell s1, first_cell s2) (same, filled)
Agree-suc m s1 s2 k same filled agree (suc i) h =
    rw (next_cell s1 i, next_cell s2 i) (agree i (omega arith))

-- One round of `strncmp`.
module _ (m : Memory) (s1 s2 n : ℕ) where
  strncmp_less : m s1 < m s2 → strncmp m s1 s2 (suc n) ≡ minus_one
  unfolding strncmp
  strncmp_less h = ground arith

  strncmp_greater : m s2 < m s1 → strncmp m s1 s2 (suc n) ≡ 1
  unfolding strncmp
  strncmp_greater h = ground arith

  strncmp_both_end : m s1 ≡ 0 → m s2 ≡ 0 → strncmp m s1 s2 (suc n) ≡ 0
  unfolding strncmp
  strncmp_both_end h k = ground arith

  strncmp_same : m s1 ≡ m s2 → m s1 ≢ 0 → strncmp m s1 s2 (suc n) ≡ strncmp m (s1 + 1) (s2 + 1) n
  unfolding strncmp
  strncmp_same h k = elim (dec_lt 0 n) [
    | yes more ↦ ground arith
    | no over ↦ (let last : n ≡ 0 = omega arith in rw last (ground arith))
  ]

nothing_before : (m : Memory) (s1 s2 : ℕ) → Agree m s1 s2 0
nothing_before m s1 s2 i h = absurd (omega arith)

compare_first :
    (m : Memory) (s1 s2 n : ℕ)
    → CompareOutcome m (s1 + 1) (s2 + 1) n (strncmp m (s1 + 1) (s2 + 1) n)
    → CompareOutcome m s1 s2 (suc n) (strncmp m s1 s2 (suc n))
compare_first m s1 s2 n (k, agree, verdict) = elim (dec_lt (m s1) (m s2)) [
  | yes low ↦
      rw (strncmp_less m s1 s2 n low)
        (0, nothing_before m s1 s2, less (omega arith) (rw (first_cell s1, first_cell s2) low))
  | no not_low ↦ elim (dec_lt (m s2) (m s1)) [
    | yes high ↦
        rw (strncmp_greater m s1 s2 n high) (
          0,
          nothing_before m s1 s2,
          greater (omega arith) (rw (first_cell s1, first_cell s2) high),
        )
    | no not_high ↦ elim (dec_lt 0 (m s1)) [
      | yes filled ↦ rw (strncmp_same m s1 s2 n (omega arith) (omega arith)) (
        suc k,
        Agree-suc m s1 s2 k (omega arith) (omega arith) agree,
        Verdict-suc m s1 s2 n k _ verdict,
      )
      | no ended ↦ rw (strncmp_both_end m s1 s2 n (omega arith) (omega arith)) (
        0,
        nothing_before m s1 s2,
        both_end (omega arith) (rw (first_cell s1) (omega arith))
            (rw (first_cell s2) (omega arith)),
      )
    ]
  ]
]

-- `strncmp` ends, and its result is that of the first place where the strings differ or both end,
-- by the unsigned order of the bytes, or 0 if there is none among the first `n`.
strncmp_outcome : (m : Memory) (s1 s2 n : ℕ) → CompareOutcome m s1 s2 n (strncmp m s1 s2 n)
unfolding strncmp
strncmp_outcome m s1 s2 zero = (0, nothing_before m s1 s2, exhausted refl)
strncmp_outcome m s1 s2 (suc n) = compare_first m s1 s2 n (strncmp_outcome m (s1 + 1) (s2 + 1) n)

-- The comparison in the other order has the opposite sign.
strncmp_swap : (m : Memory) (s1 s2 n : ℕ) → strncmp m s2 s1 n ≡ sub_u32 0 (strncmp m s1 s2 n)
unfolding strncmp
strncmp_swap m s1 s2 zero = omega arith
strncmp_swap m s1 s2 (suc n) = ground (arith, strncmp_swap m (s1 + 1) (s2 + 1) n)
