-- ===== src/FatName/Digits.antt =====
-- Decimal numbers in ASCII, the most significant digit first, as `fat_next_short_name` leaves them.
use kolibri_os_reloaded.Base.{ℕ, zero, suc, ◌+◌, ◌-◌, ◌*◌, ◌^◌, ◌≤◌, ◌<◌, ◌≡◌, refl, arith}
use native.Mathlib.Nat.{pow-suc}

abbrev pub IsDigit : ℕ → Type 0
IsDigit c = (b'0' ≤ c) × (c ≤ b'9')

-- The number that the first `d` characters write.
unfoldable pub number : (ℕ → ℕ) → ℕ → ℕ
number f zero = 0
number f (suc d) = 10 * number f d + (f d - b'0')

pub number_same : (f g : ℕ → ℕ) (d : ℕ) → ((i : ℕ) → i < d → f i ≡ g i) → number f d ≡ number g d
unfolding number
number_same f g zero same = refl
number_same f g (suc d) same =
    rw (same d (omega arith), number_same f g d λ i less. same i (omega arith)) refl

pub number-lt : (f : ℕ → ℕ) (d : ℕ) → ((i : ℕ) → i < d → IsDigit (f i)) → number f d + 1 ≤ 10 ^ d
unfolding number
number-lt f zero digits = omega arith
number-lt f (suc d) digits =
    omega
      (arith, pow-suc 10 d, digits d (omega arith), number-lt f d λ i less. digits i (omega arith))

pub number_nines : (f : ℕ → ℕ) (d : ℕ) → ((i : ℕ) → i < d → f i ≡ b'9') → number f d + 1 ≡ 10 ^ d
unfolding number
number_nines f zero nines = refl
number_nines f (suc d) nines =
    omega
      (arith, pow-suc 10 d, nines d (omega arith), number_nines f d λ i less. nines i (omega arith))

-- Zeros behind a number multiply it.
pub number_zeros :
    (f : ℕ → ℕ) (d g : ℕ)
    → ((i : ℕ) → d ≤ i → i < d + g → f i ≡ b'0')
    → number f (d + g) ≡ number f d * 10 ^ g
unfolding number
number_zeros f d zero zeros =
    let none_more : d + zero ≡ d = omega arith in rw none_more (omega arith)
number_zeros f d (suc g) zeros =
    let more : d + suc g ≡ suc (d + g) = omega arith in
    let before = number_zeros f d g λ i le less. zeros i le (omega arith) in
    let last = zeros (d + g) (omega arith) (omega arith) in
    let power : number f d * 10 ^ suc g ≡ 10 * (number f d * 10 ^ g) =
      rw (pow-suc 10 g) (grind arith) in
    rw (more, last, before, power) (omega arith)
