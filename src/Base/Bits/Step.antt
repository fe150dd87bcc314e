-- ===== src/Base/Bits/Step.antt =====
-- The lowest digit of `&`, `|` and `^`. The native operations stand for a recursion on binary digits
-- with fuel; any fuel that is not below the first number gives the same digits.
use Prim.Native.Nat.{ℕ, zero, suc, ◌+◌, ◌*◌, ◌/◌, ◌%◌, ◌≤◌, ◌<◌, min, max, digits, bitwise}
use Prim.Native.Nat.{
  bit_and, bit_or, bit_xor, differ, bit_and-bitwise, bit_or-bitwise, bit_xor-bitwise,
}
use mathlib.Core.Path.{◌≡◌, refl, ap, ◌∙◌}
use native.Mathlib.Decide.{dec_le, dec_lt}
use native.Mathlib.Omega.{arith}

-- Both operations, by what they do to a digit and to the digits that are left.
module _ (beyond : ℕ → ℕ) (digit : ℕ → ℕ → ℕ) where
  abbrev from_fuel : ℕ → ℕ → ℕ → ℕ
  from_fuel fuel x y = digits beyond digit fuel x y

  one_more_fuel : (fuel x y : ℕ) → x ≤ fuel → from_fuel (suc fuel) x y ≡ from_fuel fuel x y
  one_more_fuel zero zero y le = refl
  one_more_fuel (suc fuel) zero y le = refl
  one_more_fuel zero (suc x) y le = absurd (omega arith)
  one_more_fuel (suc fuel) (suc x) y le =
      let lower = one_more_fuel fuel (suc x / 2) (y / 2) (omega arith) in
      ap (λ higher. higher * 2 + digit (suc x % 2) (y % 2)) lower

  enough_fuel : (fuel x y : ℕ) → x ≤ fuel → from_fuel fuel x y ≡ bitwise beyond digit x y
  enough_fuel zero x y le = let none_left : x ≡ 0 = omega arith in rw none_left
  enough_fuel (suc fuel) x y le = elim (dec_le x fuel) [
    | yes spare ↦ one_more_fuel fuel x y spare ∙ enough_fuel fuel x y spare
    | no tight ↦ let exact : x ≡ suc fuel = omega arith in rw exact
  ]

  lowest_digit :
      (x y : ℕ)
      → 0 < x
      → bitwise beyond digit x y ≡ bitwise beyond digit (x / 2) (y / 2) * 2 + digit (x % 2) (y % 2)
  lowest_digit zero y pos = absurd (omega arith)
  lowest_digit (suc x) y pos =
      ap (λ higher. higher * 2 + digit (suc x % 2) (y % 2))
        (enough_fuel x (suc x / 2) (y / 2) (omega arith))

pub bit_and_step : (x y : ℕ) → bit_and x y ≡ bit_and (x / 2) (y / 2) * 2 + min (x % 2) (y % 2)
bit_and_step x y = elim (dec_lt 0 x) [
  | yes pos ↦
      bit_and-bitwise x y
      ∙ lowest_digit (λ _. zero) min x y pos
      ∙ omega (arith, bit_and-bitwise (x / 2) (y / 2))
  | no none_left ↦
      let e : x ≡ 0 = omega arith in
      rw e (omega (arith, bit_and-bitwise 0 y, bit_and-bitwise 0 (y / 2)))
]

pub bit_or_step : (x y : ℕ) → bit_or x y ≡ bit_or (x / 2) (y / 2) * 2 + max (x % 2) (y % 2)
bit_or_step x y = elim (dec_lt 0 x) [
  | yes pos ↦
      bit_or-bitwise x y
      ∙ lowest_digit (λ rest. rest) max x y pos
      ∙ omega (arith, bit_or-bitwise (x / 2) (y / 2))
  | no none_left ↦
      let e : x ≡ 0 = omega arith in
      rw e (omega (arith, bit_or-bitwise 0 y, bit_or-bitwise 0 (y / 2)))
]

differ_digits : (a b : ℕ) → a < 2 → b < 2 → differ a b ≡ (a + b) % 2
differ_digits zero b ha hb = omega arith
differ_digits (suc zero) zero ha hb = refl
differ_digits (suc zero) (suc zero) ha hb = refl
differ_digits (suc zero) (suc (suc b)) ha hb = absurd (omega arith)
differ_digits (suc (suc a)) b ha hb = absurd (omega arith)

pub bit_xor_step : (x y : ℕ) → bit_xor x y ≡ bit_xor (x / 2) (y / 2) * 2 + (x + y) % 2
bit_xor_step x y = elim (dec_lt 0 x) [
  | yes pos ↦
      bit_xor-bitwise x y
      ∙ lowest_digit (λ rest. rest) differ x y pos
      ∙ omega (
        arith,
        bit_xor-bitwise (x / 2) (y / 2),
        differ_digits (x % 2) (y % 2) (omega arith) (omega arith),
      )
  | no none_left ↦
      let e : x ≡ 0 = omega arith in
      rw e (omega (arith, bit_xor-bitwise 0 y, bit_xor-bitwise 0 (y / 2)))
]
