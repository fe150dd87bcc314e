-- ===== src/FatName/Next/Exhaust.antt =====
-- The sequence of names that calls of `fat_next_short_name` make, and its end.
use kolibri_os_reloaded.Base.{
  ℕ, zero, suc, ◌+◌, ◌-◌, ◌*◌, ◌^◌, ◌≤◌, ◌<◌, ◌≡◌, inl, inr, ◌∙◌, arith, some, true, false,
  eq_cases,
}
use kolibri_os_reloaded.Base.Memory.{Memory}
use native.Mathlib.Nat.{pow-le-pow_right}
use kolibri_os_reloaded.FatName.{fat_next_short_name}
use kolibri_os_reloaded.FatName.Walk.{Numbered}
use kolibri_os_reloaded.FatName.Next.Outcome.{number_after, Raised}
use kolibri_os_reloaded.FatName.Next.Step.{fat_next_short_name_outcome}

-- Finitely many calls in a row, of which the last refuses.
pub data Exhausts (name : ℕ) : Memory → Type 0 where
  refuses : {m : Memory} → fat_next_short_name m name ≡ some (m, false) → Exhausts name m
  goes_on :
      {m m1 : Memory}
      → fat_next_short_name m name ≡ some (m1, true)
      → Exhausts name m1
      → Exhausts name m

-- What gets less: the places before the tilde, then those without a digit, then the numbers left.
abbrev left_over : ℕ → ℕ → ℕ → ℕ
left_over t d n = (8 * t + (7 - d)) * 10 ^ 7 + (10 ^ d - n)

few : (d : ℕ) → d ≤ 6 → 10 ^ d ≤ 10 ^ 6
few d le = pow-le-pow_right (omega arith) le

left_over-lt :
    (m m1 : Memory) (name t d : ℕ)
    → 1 ≤ t
    → Numbered m name t d
    → Raised m m1 name t d
    → left_over t (7 - t) (number_after m1 name t (7 - t)) < left_over t d (number_after m name t d)
left_over-lt m m1 name t d valid named (named1, value, room) =
    let fits = named.fits in
    elim (eq_cases (t + d) 7) [
      | inl full ↦
          (let gap : 7 - t - d ≡ 0 = omega arith in
            let width : 7 - t ≡ d = omega arith in
            let value' : number_after m1 name t (7 - t) ≡ number_after m name t d + 1 =
              value ∙ rw gap (omega arith) in
            rw value' (rw width (omega arith)))
      | inr other ↦ omega (arith, few (7 - t) (omega arith))
    ]

exhausted :
    (k : ℕ) (m : Memory) (name t d : ℕ)
    → 1 ≤ t
    → Numbered m name t d
    → left_over t d (number_after m name t d) < k
    → Exhausts name m
exhausted zero m name t d valid named less = absurd (omega arith)
exhausted (suc k) m name t d valid named less =
    let fits = named.fits in
    elim (fat_next_short_name_outcome m name t d valid named) [
      | inr (refused, second, full, nines) ↦ Exhausts.refuses refused
      | inl (m1, result, inl up) ↦ Exhausts.goes_on result (
          exhausted k m1 name t (7 - t) valid up.0
            (omega (arith, left_over-lt m m1 name t d valid named up)))
      | inl (m1, result, inr (inl up)) ↦ Exhausts.goes_on result (
          exhausted k m1 name t (d + 1) valid up.0
            (omega (arith, up.3, few (d + 1) (omega (arith, up.3)))))
      | inl (m1, result, inr (inr up)) ↦ Exhausts.goes_on result (
          exhausted k m1 name (t - 1) (8 - t) (omega (arith, up.4)) up.0
            (omega (arith, up.3, up.4, few (8 - t) (omega (arith, up.4)))))
    ]

-- On a numbered base name that does not begin with the tilde, calls one after the other end with a
-- refusal.
pub fat_next_short_name-Exhausts :
    (m : Memory) (name t d : ℕ) → 1 ≤ t → Numbered m name t d → Exhausts name m
fat_next_short_name-Exhausts m name t d valid named =
    exhausted (suc (left_over t d (number_after m name t d))) m name t d valid named (omega arith)
