-- ===== src/Base/Bits.antt =====
-- Single bits of a number, and what `&`, `|`, `!` and shifts do to them, at every width.
mod Step
use Prim.Native.Nat.{
  ℕ, zero, suc, ◌+◌, ◌-◌, ◌*◌, ◌/◌, ◌%◌, ◌^◌, ◌≤◌, ◌<◌, bit_and, bit_or, min, max,
}
use Prim.Native.Nat.{bit_and-bitwise, bit_or-bitwise}
use mathlib.Core.Path.{◌≡◌, refl, ap, ◌∙◌}
use mathlib.Core.Logic.{◌≢◌}
use native.Mathlib.Nat.{pow-suc, one-le-pow, mul_comm, div-div-eq-div-mul, div-add-mod, mod-lt}
use native.Mathlib.Decide.{dec_lt}
use native.Mathlib.Omega.{arith}
use kolibri_os_reloaded.Base.Tests.{◌==◌, if◌then◌else◌}
pub use Step.{bit_or_step, bit_and_step, bit_xor_step}

-- Bit `i` of `x`, 0 or 1.
unfoldable pub test_bit : ℕ → ℕ → ℕ
test_bit x zero = x % 2
test_bit x (suc i) = test_bit (x / 2) i

pub test_bit-le : (x i : ℕ) → test_bit x i ≤ 1
unfolding test_bit
test_bit-le x zero = omega arith
test_bit-le x (suc i) = test_bit-le (x / 2) i

test_bit-eq-div : (x i : ℕ) → test_bit x i ≡ x / 2 ^ i % 2
unfolding test_bit
test_bit-eq-div x zero = omega arith
test_bit-eq-div x (suc i) =
    rw (test_bit-eq-div (x / 2) i, pow-suc, mul_comm (2 ^ i) 2, div-div-eq-div-mul)

test_bit-bit_and : (a b i : ℕ) → test_bit (bit_and a b) i ≡ min (test_bit a i) (test_bit b i)
unfolding test_bit
test_bit-bit_and a b zero = omega (arith, bit_and_step a b)
test_bit-bit_and a b (suc i) =
    ap (λ x. test_bit x i) (omega (arith, bit_and_step a b)) ∙ test_bit-bit_and (a / 2) (b / 2) i

test_bit-bit_or : (a b i : ℕ) → test_bit (bit_or a b) i ≡ max (test_bit a i) (test_bit b i)
unfolding test_bit
test_bit-bit_or a b zero = omega (arith, bit_or_step a b)
test_bit-bit_or a b (suc i) =
    ap (λ x. test_bit x i) (omega (arith, bit_or_step a b)) ∙ test_bit-bit_or (a / 2) (b / 2) i

test_bit-pow_self : (k : ℕ) → test_bit (2 ^ k) k ≡ 1
unfolding test_bit
test_bit-pow_self zero = refl
test_bit-pow_self (suc k) =
    ap (λ x. test_bit x k) (omega (arith, pow-suc 2 k)) ∙ test_bit-pow_self k

pub test_bit-zero : (i : ℕ) → test_bit 0 i ≡ 0
unfolding test_bit
test_bit-zero zero = refl
test_bit-zero (suc i) = test_bit-zero i

test_bit-pow_ne : (k i : ℕ) → k ≢ i → test_bit (2 ^ k) i ≡ 0
unfolding test_bit
test_bit-pow_ne zero zero ne = absurd (ne refl)
test_bit-pow_ne zero (suc i) ne = test_bit-zero i
test_bit-pow_ne (suc k) zero ne = omega (arith, pow-suc 2 k)
test_bit-pow_ne (suc k) (suc i) ne =
    ap (λ x. test_bit x i) (omega (arith, pow-suc 2 k)) ∙ test_bit-pow_ne k i (λ e. ne (ap suc e))

-- `!x` at width `w`.
abbrev pub bit_not : ℕ → ℕ → ℕ
bit_not w x = 2 ^ w - 1 - x

pub test_bit-bit_not : (w x i : ℕ) → x < 2 ^ w → i < w → test_bit (bit_not w x) i ≡ 1 - test_bit x i
unfolding test_bit
test_bit-bit_not zero x i h k = absurd (omega arith)
test_bit-bit_not (suc w) x zero h k = omega (arith, pow-suc 2 w)
test_bit-bit_not (suc w) x (suc i) h k =
    ap (λ y. test_bit y i) (omega (arith, pow-suc 2 w))
    ∙ test_bit-bit_not w (x / 2) i (omega (arith, pow-suc 2 w)) (omega arith)

-- A number below `2 ^ w` is known by its `w` low bits.
test_bit_ext :
    (w x y : ℕ) → x < 2 ^ w → y < 2 ^ w → ((i : ℕ) → i < w → test_bit x i ≡ test_bit y i) → x ≡ y
unfolding test_bit
test_bit_ext zero x y hx hy h = omega arith
test_bit_ext (suc w) x y hx hy h = omega (
  arith,
  h 0 (omega arith),
  test_bit_ext w (x / 2) (y / 2) (omega (arith, pow-suc 2 w)) (omega (arith, pow-suc 2 w))
      (λ i k. h (suc i) (omega arith)),
)

pub bit_and-le : (w a b : ℕ) → a < 2 ^ w → bit_and a b ≤ a
bit_and-le zero a b h = let e : a ≡ 0 = omega arith in rw (e, bit_and-bitwise) (omega arith)
bit_and-le (suc w) a b h = omega (
  arith,
  bit_and_step a b,
  pow-suc 2 w,
  bit_and-le w (a / 2) (b / 2) (omega (arith, pow-suc 2 w)),
)

pub bit_or-lt : (w a b : ℕ) → a < 2 ^ w → b < 2 ^ w → bit_or a b < 2 ^ w
bit_or-lt zero a b ha hb =
    let e : a ≡ 0 = omega arith in let e' : b ≡ 0 = omega arith in rw (e, e') (omega arith)
bit_or-lt (suc w) a b ha hb = omega (
  arith,
  bit_or_step a b,
  pow-suc 2 w,
  bit_or-lt w (a / 2) (b / 2) (omega (arith, pow-suc 2 w)) (omega (arith, pow-suc 2 w)),
)

-- The bits of two fields, the low one `k` bits wide.
pub test_bit-low : (k a b i : ℕ) → i < k → test_bit (a + 2 ^ k * b) i ≡ test_bit a i
unfolding test_bit
test_bit-low zero a b i h = absurd (omega arith)
test_bit-low (suc k) a b zero h = omega (arith, ap (λ (t : ℕ). t * b) (pow-suc 2 k))
test_bit-low (suc k) a b (suc i) h =
    ap (λ x. test_bit x i) (omega (arith, ap (λ (t : ℕ). t * b) (pow-suc 2 k)))
    ∙ test_bit-low k (a / 2) b i (omega arith)

pub test_bit-high :
    (k a b i j : ℕ) → a < 2 ^ k → k + i ≡ j → test_bit (a + 2 ^ k * b) j ≡ test_bit b i
unfolding test_bit
test_bit-high zero a b i j h e =
    let e' : j ≡ i = omega arith in rw e' (ap (λ x. test_bit x i) (omega arith))
test_bit-high (suc k) a b i zero h e = absurd (omega arith)
test_bit-high (suc k) a b i (suc j) h e =
    ap (λ x. test_bit x j) (omega (arith, ap (λ (t : ℕ). t * b) (pow-suc 2 k)))
    ∙ test_bit-high k (a / 2) b i j (omega (arith, pow-suc 2 k)) (omega arith)

-- The bits above the width are 0.
test_bit-above : (w x i : ℕ) → x < 2 ^ w → w ≤ i → test_bit x i ≡ 0
unfolding test_bit
test_bit-above zero x i h k = let e : x ≡ 0 = omega arith in rw e (test_bit-zero i)
test_bit-above (suc w) x zero h k = absurd (omega arith)
test_bit-above (suc w) x (suc i) h k =
    test_bit-above w (x / 2) i (omega (arith, pow-suc 2 w)) (omega arith)

pub two_pow_mono : (k w : ℕ) → k < w → 2 ^ k < 2 ^ w
two_pow_mono k zero h = absurd (omega arith)
two_pow_mono zero (suc w) h = omega (arith, pow-suc 2 w, one-le-pow w 2 (omega arith))
two_pow_mono (suc k) (suc w) h =
    omega (arith, pow-suc 2 w, pow-suc 2 k, two_pow_mono k w (omega arith))

-- `x | (1 << k)` and `x & !(1 << k)`: bit `k` becomes 1 or 0, the others stay.
pub test_bit-set :
    (x k i : ℕ) → test_bit (bit_or x (2 ^ k)) i ≡ (if k == i then 1 else test_bit x i)
test_bit-set x k i =
    ground (
      arith,
      test_bit-bit_or x (2 ^ k) i,
      test_bit-pow_self k,
      test_bit-pow_ne k i,
      test_bit-le x i,
    )

pub test_bit-clear :
    (w x k i : ℕ)
    → x < 2 ^ w
    → k < w
    → test_bit (bit_and x (bit_not w (2 ^ k))) i ≡ (if k == i then 0 else test_bit x i)
test_bit-clear w x k i hx hk = elim (dec_lt i w) [
  | yes hi ↦ ground (
    arith,
    test_bit-bit_and x (bit_not w (2 ^ k)) i,
    test_bit-bit_not w (2 ^ k) i (two_pow_mono k w hk) hi,
    test_bit-pow_self k,
    test_bit-pow_ne k i,
    test_bit-le x i,
  )
  | no hi ↦
      ground
        (arith, test_bit-bit_and x (bit_not w (2 ^ k)) i, test_bit-above w x i hx (omega arith))
]
