-- ===== src/Strings/Scan.antt =====
-- `strchr` and `strrchr`: the first and the last place of a byte, the NUL included.
use kolibri_os_reloaded.Base.{
  ℕ, zero, suc, ◌+◌, ◌%◌, ◌^◌, ◌≤◌, ◌<◌, ◌≡◌, ◌≢◌, ◌⊎◌, inl, inr, refl, arith, Option, some,
  eq_cases, u32, u8, sub_u32,
}
use native.Mathlib.Decide.{dec_lt}
use kolibri_os_reloaded.Base.Memory.{Memory, first_cell, next_cell}
use kolibri_os_reloaded.Strings.{scan_end, scan_back, scan_first, strchr, strrchr}
use kolibri_os_reloaded.Strings.Length.{IsCstring, IsCstring-tail}

-- The byte is nowhere in the `n + 1` bytes at `s`.
abbrev IsAbsent : Memory → ℕ → ℕ → ℕ → Type 0
IsAbsent m s n needle = (i : ℕ) → i ≤ n → m (s + i) ≢ needle

abbrev IsFirst : Memory → ℕ → ℕ → ℕ → ℕ → Type 0
IsFirst m s n needle r =
    (i : ℕ) × (i ≤ n) × (r ≡ s + i) × (m (s + i) ≡ needle) × ((j : ℕ) → j < i → m (s + j) ≢ needle)

abbrev IsLast : Memory → ℕ → ℕ → ℕ → ℕ → Type 0
IsLast m s n needle r =
    (i : ℕ) × (i ≤ n)
    × (r ≡ s + i)
    × (m (s + i) ≡ needle)
    × ((j : ℕ) → i < j → j ≤ n → m (s + j) ≢ needle)

abbrev FirstOutcome : Memory → ℕ → ℕ → ℕ → Option ℕ → Type 0
FirstOutcome m s n needle o =
    (r : ℕ) × (o ≡ some r) × (IsFirst m s n needle r ⊎ ((r ≡ 0) × IsAbsent m s n needle))

abbrev LastOutcome : Memory → ℕ → ℕ → ℕ → ℕ → Type 0
LastOutcome m s n needle r = IsLast m s n needle r ⊎ ((r ≡ 0) × IsAbsent m s n needle)

-- A byte that is not the one looked for goes in front of bytes that are not.
in_front :
    (m : Memory) (s n needle : ℕ)
    → m s ≢ needle
    → ((j : ℕ) → j < n → m (s + 1 + j) ≢ needle)
    → (j : ℕ) → j < suc n
    → m (s + j) ≢ needle
in_front m s n needle other rest zero h = rw (first_cell s) other
in_front m s n needle other rest (suc j) h = rw (next_cell s j) (rest j (omega arith))

skip_byte :
    (m : Memory) (s n needle : ℕ) (o : Option ℕ)
    → m s ≢ needle
    → FirstOutcome m (s + 1) n needle o
    → FirstOutcome m s (suc n) needle o
skip_byte m s n needle o other (r, e, inl (i, le, at, is, before)) =
    let found : IsFirst m s (suc n) needle r = (
      suc i,
      omega arith,
      omega arith,
      rw (next_cell s i) is,
      in_front m s i needle other before,
    ) in
    (r, e, inl found)
skip_byte m s n needle o other (r, e, inr (is, absent)) =
    let rest = in_front m s (suc n) needle other (λ j h. absent j (omega arith)) in
    (r, e, inr (is, λ j h. rest j (omega arith)))

module _ (fuel : ℕ) (m : Memory) (p needle : ℕ) where
  scan_first_here : m p ≡ needle → scan_first (suc fuel) m p needle ≡ some p
  unfolding scan_first
  scan_first_here h = ground arith

  scan_first_end : m p ≢ needle → m p ≡ 0 → scan_first (suc fuel) m p needle ≡ some 0
  unfolding scan_first
  scan_first_end h k = ground arith

  scan_first_skip :
      m p ≢ needle → m p ≢ 0 → scan_first (suc fuel) m p needle ≡ scan_first fuel m (p + 1) needle
  unfolding scan_first
  scan_first_skip h k = ground arith

IsFirst-here : (m : Memory) (p n needle : ℕ) → m p ≡ needle → IsFirst m p n needle p
IsFirst-here m p n needle h =
    (0, omega arith, omega arith, rw (first_cell p) h, λ j k. absurd (omega arith))

scan_first_outcome :
    (fuel : ℕ) (m : Memory) (p n needle : ℕ)
    → n < fuel
    → IsCstring m p n
    → FirstOutcome m p n needle (scan_first fuel m p needle)
scan_first_outcome zero m p n needle h c = absurd (omega arith)
scan_first_outcome (suc fuel) m p zero needle h c = elim (eq_cases (m p) needle) [
  | inl here ↦ (p, scan_first_here fuel m p needle here, inl (IsFirst-here m p 0 needle here))
  | inr other ↦ (
    0,
    scan_first_end fuel m p needle other (rw (first_cell p) at c.ended),
    inr (refl, λ i le. let first : p + i ≡ p = omega arith in rw first other),
  )
]
scan_first_outcome (suc fuel) m p (suc n) needle h c = elim (eq_cases (m p) needle) [
  | inl here ↦ (p, scan_first_here fuel m p needle here, inl (IsFirst-here m p (suc n) needle here))
  | inr other ↦
      rw (scan_first_skip fuel m p needle other (rw (first_cell p) at (c.filled 0 (omega arith)))) (
        skip_byte m p n needle _ other
          (scan_first_outcome fuel m (p + 1) n needle (omega arith) (IsCstring-tail m p n c)))
]

-- On a C string `strchr` ends and returns the address of the first byte that is the low byte of
-- `c`, the NUL included, or 0 if there is none.
strchr_outcome :
    (m : Memory) (s n c : ℕ) → IsCstring m s n → FirstOutcome m s n (c % 2 ^ 8) (strchr m s c)
unfolding strchr
strchr_outcome m s n c str = scan_first_outcome (2 ^ 32) m s n (u8 c) (omega (arith, str.fits)) str

scan_end_lem :
    (fuel : ℕ) (m : Memory) (p len n : ℕ)
    → n < fuel
    → IsCstring m p n
    → scan_end fuel m p len ≡ some (u32 (p + n + 1), u32 (len + n + 1))
unfolding scan_end
scan_end_lem zero m p len n h c = absurd (omega arith)
scan_end_lem (suc fuel) m p len zero h c = ground (arith, rw (first_cell p) at c.ended)
scan_end_lem (suc fuel) m p len (suc n) h c =
    let next : u32 (p + 1) ≡ p + 1 = omega (arith, c.fits) in
    let rest =
      scan_end_lem fuel m (p + 1) (u32 (len + 1)) n (omega arith) (IsCstring-tail m p n c) in
    let at : p + 1 + n + 1 ≡ p + suc n + 1 = omega arith in
    let count : u32 (u32 (len + 1) + n + 1) ≡ u32 (len + suc n + 1) = omega arith in
    rw (next, rest, at, count) (ground (arith, rw (first_cell p) at (c.filled 0 (omega arith))))

scan_back_here :
    (k : ℕ) (m : Memory) (p needle : ℕ) → m p ≡ needle → scan_back (suc k) m p needle ≡ p
unfolding scan_back
scan_back_here k m p needle h = ground arith

scan_back_end : (m : Memory) (p needle : ℕ) → m p ≢ needle → scan_back 1 m p needle ≡ 0
unfolding scan_back
scan_back_end m p needle h = ground arith

scan_back_skip :
    (k : ℕ) (m : Memory) (p needle : ℕ)
    → m p ≢ needle
    → scan_back (suc (suc k)) m p needle ≡ scan_back (suc k) m (sub_u32 p 1) needle
unfolding scan_back
scan_back_skip k m p needle h = ground arith

-- A last byte that is not the one looked for goes behind an outcome.
skip_last :
    (m : Memory) (s n needle r : ℕ)
    → m (s + suc n) ≢ needle
    → LastOutcome m s n needle r
    → LastOutcome m s (suc n) needle r
skip_last m s n needle r other (inl (i, le, at, is, after)) = inl (
  i,
  omega arith,
  at,
  is,
  λ j h k. elim (dec_lt j (suc n)) [
    | yes low ↦ after j h (omega arith)
    | no high ↦ (let top : j ≡ suc n = omega arith in rw top other)
  ],
)
skip_last m s n needle r other (inr (is, absent)) = inr (
  is,
  λ j k. elim (dec_lt j (suc n)) [
    | yes low ↦ absent j (omega arith)
    | no high ↦ (let top : j ≡ suc n = omega arith in rw top other)
  ],
)

IsLast-here : (m : Memory) (s n needle : ℕ) → m (s + n) ≡ needle → IsLast m s n needle (s + n)
IsLast-here m s n needle h = (n, omega arith, refl, h, λ j k l. absurd (omega arith))

scan_back_outcome :
    (k : ℕ) (m : Memory) (s needle : ℕ)
    → s + k < 2 ^ 32
    → LastOutcome m s k needle (scan_back (suc k) m (s + k) needle)
scan_back_outcome zero m s needle h = elim (eq_cases (m (s + 0)) needle) [
  | inl here ↦ rw (scan_back_here 0 m (s + 0) needle here) (inl (IsLast-here m s 0 needle here))
  | inr other ↦
      rw (scan_back_end m (s + 0) needle other)
        (inr (refl, λ i le. let first : i ≡ 0 = omega arith in rw first other))
]
scan_back_outcome (suc k) m s needle h = elim (eq_cases (m (s + suc k)) needle) [
  | inl here ↦
      rw (scan_back_here (suc k) m (s + suc k) needle here)
        (inl (IsLast-here m s (suc k) needle here))
  | inr other ↦
      (let back : sub_u32 (s + suc k) 1 ≡ s + k = omega arith in
        rw (scan_back_skip k m (s + suc k) needle other, back)
          (skip_last m s k needle _ other (scan_back_outcome k m s needle (omega arith))))
]

-- On a C string that is not at address 0 `strrchr` ends and returns the address of the last byte
-- that is the low byte of `c`, the NUL included, or 0 if there is none.
strrchr_outcome :
    (m : Memory) (s n c : ℕ)
    → 0 < s
    → IsCstring m s n
    → (r : ℕ) × (strrchr m s c ≡ some r) × LastOutcome m s n (c % 2 ^ 8) r
unfolding strrchr
strrchr_outcome m s n c h str =
    let ended = scan_end_lem (2 ^ 32) m s 0 n (omega (arith, str.fits)) str in
    let back : sub_u32 (u32 (s + n + 1)) 1 ≡ s + n = omega (arith, str.fits) in
    let count : u32 (0 + n + 1) ≡ suc n = omega (arith, str.fits) in
    (
      scan_back (suc n) m (s + n) (u8 c),
      rw (ended, back, count) refl,
      scan_back_outcome n m s (u8 c) str.fits,
    )
