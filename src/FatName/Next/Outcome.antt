-- ===== src/FatName/Next/Outcome.antt =====
-- What a call of `fat_next_short_name` does to a name with a number.
use kolibri_os_reloaded.Base.{
  ℕ, ◌+◌, ◌-◌, ◌*◌, ◌^◌, ◌≤◌, ◌<◌, ◌≡◌, ◌⊎◌, inl, inr, refl, ◌∙◌, arith, Option, some, Bool, true,
  false, eq_cases,
}
use native.Mathlib.Decide.{dec_lt}
use kolibri_os_reloaded.Base.Memory.{Memory}
use kolibri_os_reloaded.FatName.Digits.{IsDigit, number, number_nines, number_zeros, number-lt}
use kolibri_os_reloaded.FatName.Walk.{digits_after, Numbered}
use kolibri_os_reloaded.FatName.Next.{Incremented}

abbrev pub number_after : Memory → ℕ → ℕ → ℕ → ℕ
number_after m name t d = number (digits_after m name t) d

-- The number is raised by one and filled up with zeros.
abbrev pub Raised : Memory → Memory → ℕ → ℕ → ℕ → Type 0
Raised m m1 name t d =
    Numbered m1 name t (7 - t)
    × (number_after m1 name t (7 - t) ≡ (number_after m name t d + 1) * 10 ^ (7 - t - d))
    × (number_after m name t d + 1 < 10 ^ d)

-- All digits are nines, and there is room for one more.
abbrev Longer : Memory → Memory → ℕ → ℕ → ℕ → Type 0
Longer m m1 name t d =
    Numbered m1 name t (d + 1)
    × (number_after m1 name t (d + 1) ≡ 10 ^ d)
    × (number_after m name t d + 1 ≡ 10 ^ d)
    × (t + d < 7)

-- All digits are nines, and the tilde moves to the left.
abbrev pub Shifted : Memory → Memory → ℕ → ℕ → ℕ → Type 0
Shifted m m1 name t d =
    Numbered m1 name (t - 1) (8 - t)
    × (number_after m1 name (t - 1) (8 - t) ≡ 10 ^ d)
    × (number_after m name t d + 1 ≡ 10 ^ d)
    × (t + d ≡ 7)
    × (2 ≤ t)

abbrev pub NextShortName : Memory → ℕ → ℕ → ℕ → Option (Memory × Bool) → Type 0
NextShortName m name t d result =
    ((m1 : Memory) × (result ≡ some (m1, true))
      × (Raised m m1 name t d ⊎ (Longer m m1 name t d ⊎ Shifted m m1 name t d)))
    ⊎ ((result ≡ some (m, false)) × (t ≡ 1) × (d ≡ 6) × (number_after m name t d + 1 ≡ 10 ^ d))

pub raised :
    (m m1 : Memory) (name t d : ℕ)
    → Numbered m name t d
    → Incremented m m1 name t d
    → Raised m m1 name t d
raised m m1 name t d named inc =
    let fits = named.fits in
    let width : d + (7 - t - d) ≡ 7 - t = omega arith in
    let zero_at : (i : ℕ) → d ≤ i → i < d + (7 - t - d) → digits_after m1 name t i ≡ b'0' =
      λ i le less. inc.zeros (t + 1 + i) (omega arith) (omega arith) in
    let value = rw width at (number_zeros (digits_after m1 name t) d (7 - t - d) zero_at) in
    let below = number-lt (digits_after m1 name t) d inc.digits in
    (
      record {
        fits = omega arith;
        tilde = inc.frame (name + t) (inl (omega arith)) ∙ named.tilde;
        digits = λ i less. elim (dec_lt i d) [
          | yes p ↦ inc.digits i p
          | no p ↦ (let z = zero_at i (omega arith) (omega arith) in rw z (omega arith))
        ];
        spaces = λ j le less. absurd (omega arith);
      },
      rw value (rw (inc.value) refl),
      omega (arith, inc.value),
    )

-- A one with `d` zeros behind it.
pub one_zeros :
    (f : ℕ → ℕ) (d : ℕ)
    → f 0 ≡ b'1'
    → ((i : ℕ) → 1 ≤ i → i ≤ d → f i ≡ b'0')
    → (number f (d + 1) ≡ 10 ^ d) × ((i : ℕ) → i < d + 1 → IsDigit (f i))
unfolding number
one_zeros f d first zeros =
    let turned : 1 + d ≡ d + 1 = omega arith in
    let whole = number_zeros f 1 d λ i le less. zeros i le (omega arith) in
    (
      rw turned at whole ∙ rw first (omega arith),
      λ i less. elim (eq_cases i 0) [
        | inl e ↦ rw (e, first) (omega arith)
        | inr e ↦ (let z = zeros i (omega arith) (omega arith) in rw z (omega arith))
      ],
    )

pub longer :
    (m m1 : Memory) (name t d : ℕ)
    → Numbered m name t d
    → t + d < 7
    → ((i : ℕ) → i < d → digits_after m name t i ≡ b'9')
    → m1 (name + (t + 1)) ≡ b'1'
    → ((i : ℕ) → 1 ≤ i → i ≤ d → m1 (name + (t + 1 + i)) ≡ b'0')
    → ((b : ℕ) → (b < name + (t + 1)) ⊎ (name + (t + 1 + d) < b) → m1 b ≡ m b)
    → Longer m m1 name t d
longer m m1 name t d named room nines first zeros frame =
    let start : t + 1 + 0 ≡ t + 1 = omega arith in
    let first' : digits_after m1 name t 0 ≡ b'1' = rw start first in
    let (value, digits) = one_zeros (digits_after m1 name t) d first' zeros in
    (
      record {
        fits = omega arith;
        tilde = frame (name + t) (inl (omega arith)) ∙ named.tilde;
        digits = digits;
        spaces =
            λ j le less. frame (name + j) (inr (omega arith)) ∙ named.spaces j (omega arith) less;
      },
      value,
      number_nines (digits_after m name t) d nines,
      room,
    )
