-- ===== src/Base/Flips.antt =====
-- `^` with no bit set and with every bit set.
use Prim.Native.Nat.{ℕ, zero, suc, ◌-◌, ◌/◌, ◌^◌, ◌<◌, bit_xor}
use mathlib.Core.Path.{◌≡◌, ap, ◌∙◌}
use native.Mathlib.Nat.{pow-suc, one-le-pow}
use native.Mathlib.Omega.{arith}
use kolibri_os_reloaded.Base.Bits.{bit_xor_step, bit_not}

pub bit_xor-zero : (w x : ℕ) → x < 2 ^ w → bit_xor x 0 ≡ x
bit_xor-zero zero x h = let e : x ≡ 0 = omega arith in rw e (omega (arith, bit_xor_step 0 0))
bit_xor-zero (suc w) x h =
    omega (arith, bit_xor_step x 0, bit_xor-zero w (x / 2) (omega (arith, pow-suc 2 w)))

pub bit_xor-ones : (w x : ℕ) → x < 2 ^ w → bit_xor x (2 ^ w - 1) ≡ bit_not w x
bit_xor-ones zero x h = let e : x ≡ 0 = omega arith in rw e (bit_xor-zero 0 0 (omega arith))
bit_xor-ones (suc w) x h =
    let half : (2 ^ suc w - 1) / 2 ≡ 2 ^ w - 1 = omega (arith, pow-suc 2 w) in
    let step = bit_xor_step x (2 ^ suc w - 1) in
    omega (
      arith,
      rw half at step,
      bit_xor-ones w (x / 2) (omega (arith, pow-suc 2 w)),
      pow-suc 2 w,
      one-le-pow w 2 (omega arith),
    )

pub bit_xor-lt : (w a b : ℕ) → a < 2 ^ w → b < 2 ^ w → bit_xor a b < 2 ^ w
bit_xor-lt zero a b h k =
    let a0 : a ≡ 0 = omega arith in let b0 : b ≡ 0 = omega arith in rw (a0, b0) (omega arith)
bit_xor-lt (suc w) a b h k = omega (
  arith,
  bit_xor_step a b,
  pow-suc 2 w,
  bit_xor-lt w (a / 2) (b / 2) (omega (arith, pow-suc 2 w)) (omega (arith, pow-suc 2 w)),
)

xor_half : (a b : ℕ) → bit_xor a b / 2 ≡ bit_xor (a / 2) (b / 2)
xor_half a b = omega (arith, bit_xor_step a b)

-- A second `^` with the same number takes the first back.
pub bit_xor_cancel : (w a b : ℕ) → a < 2 ^ w → b < 2 ^ w → bit_xor a (bit_xor a b) ≡ b
bit_xor_cancel zero a b h k =
    let a0 : a ≡ 0 = omega arith in
    let b0 : b ≡ 0 = omega arith in
    rw (a0, b0) (let z = bit_xor-zero 0 0 (omega arith) in ap (bit_xor 0) z ∙ z)
bit_xor_cancel (suc w) a b h k = omega (
  arith,
  bit_xor_step a b,
  bit_xor_step a (bit_xor a b),
  ap (bit_xor (a / 2)) (xor_half a b),
  bit_xor_cancel w (a / 2) (b / 2) (omega (arith, pow-suc 2 w)) (omega (arith, pow-suc 2 w)),
)

pub bit_xor_cancel_right : (w a b : ℕ) → a < 2 ^ w → b < 2 ^ w → bit_xor (bit_xor a b) b ≡ a
bit_xor_cancel_right zero a b h k =
    let a0 : a ≡ 0 = omega arith in
    let b0 : b ≡ 0 = omega arith in
    rw (a0, b0) (let z = bit_xor-zero 0 0 (omega arith) in ap (λ x. bit_xor x 0) z ∙ z)
bit_xor_cancel_right (suc w) a b h k = omega (
  arith,
  bit_xor_step a b,
  bit_xor_step (bit_xor a b) b,
  ap (λ x. bit_xor x (b / 2)) (xor_half a b),
  bit_xor_cancel_right w (a / 2) (b / 2) (omega (arith, pow-suc 2 w)) (omega (arith, pow-suc 2 w)),
)
