-- ===== src/Base/Fields.antt =====
-- `&` and `|` field by field, and with masks of low bits, as arithmetic.
use Prim.Native.Nat.{ℕ, zero, suc, ◌+◌, ◌-◌, ◌*◌, ◌/◌, ◌%◌, ◌^◌, ◌≤◌, ◌<◌, bit_and, bit_or}
use Prim.Native.Nat.{bit_and-bitwise, bit_or-bitwise}
use mathlib.Core.Path.{◌≡◌, ap, ◌∙◌}
use native.Mathlib.Nat.{pow-suc, one-le-pow, div-add-mod, mod-lt}
use native.Mathlib.Decide.{dec_lt}
use native.Mathlib.Omega.{arith}
use kolibri_os_reloaded.Base.Bits.{bit_not, bit_or_step, bit_and_step}

bit_and-zero_below : (n a : ℕ) → a ≤ n → bit_and a 0 ≡ 0
bit_and-zero_below zero a h = let e : a ≡ 0 = omega arith in rw (e, bit_and-bitwise)
bit_and-zero_below (suc n) a h = elim (dec_lt 0 a) [
  | yes pos ↦ omega (arith, bit_and_step a 0, bit_and-zero_below n (a / 2) (omega arith))
  | no zero_a ↦ let e : a ≡ 0 = omega arith in rw (e, bit_and-bitwise)
]

pub bit_and-zero : (a : ℕ) → bit_and a 0 ≡ 0
bit_and-zero a = bit_and-zero_below a a (omega arith)

pub bit_and_low_field : (k q r : ℕ) → r < 2 ^ k → bit_and (r + 2 ^ k * q) (2 ^ k - 1) ≡ r
bit_and_low_field zero q r h = omega (arith, bit_and-zero (r + 2 ^ 0 * q))
bit_and_low_field (suc k) q r h =
    let half : (r + 2 ^ suc k * q) / 2 ≡ r / 2 + 2 ^ k * q =
      omega (arith, ap (λ (t : ℕ). t * q) (pow-suc 2 k)) in
    let mask : (2 ^ suc k - 1) / 2 ≡ 2 ^ k - 1 = omega (arith, pow-suc 2 k) in
    let step = bit_and_step (r + 2 ^ suc k * q) (2 ^ suc k - 1) in
    let inner = bit_and_low_field k q (r / 2) (omega (arith, pow-suc 2 k)) in
    omega (
      arith,
      rw (half, mask, inner) at step,
      pow-suc 2 k,
      ap (λ (t : ℕ). t * q) (pow-suc 2 k),
      one-le-pow k 2 (omega arith),
    )

-- `&` with a mask of `k` low bits is the remainder by `2 ^ k`.
pub bit_and_mask : (k a : ℕ) → bit_and a (2 ^ k - 1) ≡ a % 2 ^ k
bit_and_mask k a =
    ap (λ x. bit_and x (2 ^ k - 1)) (omega (arith, div-add-mod a (2 ^ k)))
    ∙ bit_and_low_field k (a / 2 ^ k) (a % 2 ^ k) (mod-lt a (one-le-pow k 2 (omega arith)))

bit_or-zero_below : (n a : ℕ) → a ≤ n → (bit_or a 0 ≡ a) × (bit_or 0 a ≡ a)
bit_or-zero_below zero a h =
    let e : a ≡ 0 = omega arith in rw e (bit_or-bitwise 0 0, bit_or-bitwise 0 0)
bit_or-zero_below (suc n) a h = elim (dec_lt 0 a) [
  | yes pos ↦
      let half = bit_or-zero_below n (a / 2) (omega arith) in
      (omega (arith, bit_or_step a 0, half), omega (arith, bit_or_step 0 a, half))
  | no zero_a ↦ let e : a ≡ 0 = omega arith in rw e (bit_or-bitwise 0 0, bit_or-bitwise 0 0)
]

pub bit_or-zero : (a : ℕ) → (bit_or a 0 ≡ a) × (bit_or 0 a ≡ a)
bit_or-zero a = bit_or-zero_below a a (omega arith)

-- Fields that do not overlap are joined by `|` as by a sum.
pub bit_or_fields : (k q r : ℕ) → r < 2 ^ k → bit_or (2 ^ k * q) r ≡ 2 ^ k * q + r
bit_or_fields zero q r h =
    let e : r ≡ 0 = omega arith in rw e ((bit_or-zero (2 ^ 0 * q)).0 ∙ omega arith)
bit_or_fields (suc k) q r h =
    let half : 2 ^ suc k * q / 2 ≡ 2 ^ k * q = omega (arith, ap (λ (t : ℕ). t * q) (pow-suc 2 k)) in
    let step = bit_or_step (2 ^ suc k * q) r in
    omega (
      arith,
      rw (half, bit_or_fields k q (r / 2) (omega (arith, pow-suc 2 k))) at step,
      ap (λ (t : ℕ). t * q) (pow-suc 2 k),
    )

-- `&` goes field by field.
pub bit_and_split :
    (k a b r s : ℕ)
    → r < 2 ^ k
    → s < 2 ^ k
    → bit_and (2 ^ k * a + r) (2 ^ k * b + s) ≡ 2 ^ k * bit_and a b + bit_and r s
bit_and_split zero a b r s hr hs =
    let er : r ≡ 0 = omega arith in
    let es : s ≡ 0 = omega arith in
    let ea : 2 ^ 0 * a + 0 ≡ a = omega arith in
    let eb : 2 ^ 0 * b + 0 ≡ b = omega arith in rw (er, es, ea, eb) (omega (arith, bit_and-zero 0))
bit_and_split (suc k) a b r s hr hs =
    let ha : (2 ^ suc k * a + r) / 2 ≡ 2 ^ k * a + r / 2 =
      omega (arith, ap (λ (t : ℕ). t * a) (pow-suc 2 k)) in
    let hb : (2 ^ suc k * b + s) / 2 ≡ 2 ^ k * b + s / 2 =
      omega (arith, ap (λ (t : ℕ). t * b) (pow-suc 2 k)) in
    let inner =
      bit_and_split k a b (r / 2) (s / 2) (omega (arith, pow-suc 2 k))
        (omega (arith, pow-suc 2 k)) in
    let step = bit_and_step (2 ^ suc k * a + r) (2 ^ suc k * b + s) in
    omega (
      arith,
      rw (ha, hb, inner) at step,
      bit_and_step r s,
      ap (λ (t : ℕ). t * a) (pow-suc 2 k),
      ap (λ (t : ℕ). t * b) (pow-suc 2 k),
      ap (λ (t : ℕ). t * bit_and a b) (pow-suc 2 k),
    )

-- `|` goes field by field.
pub bit_or_split :
    (k a b r s : ℕ)
    → r < 2 ^ k
    → s < 2 ^ k
    → bit_or (2 ^ k * a + r) (2 ^ k * b + s) ≡ 2 ^ k * bit_or a b + bit_or r s
bit_or_split zero a b r s hr hs =
    let er : r ≡ 0 = omega arith in
    let es : s ≡ 0 = omega arith in
    let ea : 2 ^ 0 * a + 0 ≡ a = omega arith in
    let eb : 2 ^ 0 * b + 0 ≡ b = omega arith in rw (er, es, ea, eb) (omega (arith, bit_or-zero 0))
bit_or_split (suc k) a b r s hr hs =
    let ha : (2 ^ suc k * a + r) / 2 ≡ 2 ^ k * a + r / 2 =
      omega (arith, ap (λ (t : ℕ). t * a) (pow-suc 2 k)) in
    let hb : (2 ^ suc k * b + s) / 2 ≡ 2 ^ k * b + s / 2 =
      omega (arith, ap (λ (t : ℕ). t * b) (pow-suc 2 k)) in
    let inner =
      bit_or_split k a b (r / 2) (s / 2) (omega (arith, pow-suc 2 k))
        (omega (arith, pow-suc 2 k)) in
    let step = bit_or_step (2 ^ suc k * a + r) (2 ^ suc k * b + s) in
    omega (
      arith,
      rw (ha, hb, inner) at step,
      bit_or_step r s,
      ap (λ (t : ℕ). t * a) (pow-suc 2 k),
      ap (λ (t : ℕ). t * b) (pow-suc 2 k),
      ap (λ (t : ℕ). t * bit_or a b) (pow-suc 2 k),
    )

-- `x & !3` rounds down to a dword.
pub bit_and-dword : (x : ℕ) → x < 2 ^ 32 → bit_and x (bit_not 32 3) ≡ x / 4 * 4
bit_and-dword x h = omega (
  arith,
  bit_and_step x (bit_not 32 3),
  bit_and_step (x / 2) (2 ^ 31 - 2),
  bit_and_mask 30 (x / 2 / 2),
)

-- `&` with one bit.
pub bit_and_bit : (k x : ℕ) → bit_and x (2 ^ k) ≡ 2 ^ k * (x / 2 ^ k % 2)
bit_and_bit k x =
    let split =
      bit_and_split k (x / 2 ^ k) 1 (x % 2 ^ k) 0 (mod-lt x (one-le-pow k 2 (omega arith)))
        (one-le-pow k 2 (omega arith)) in
    let whole : 2 ^ k * (x / 2 ^ k) + x % 2 ^ k ≡ x = omega (arith, div-add-mod x (2 ^ k)) in
    let bit : 2 ^ k * 1 + 0 ≡ 2 ^ k = omega arith in
    rw (whole, bit, bit_and_mask 1 (x / 2 ^ k), bit_and-zero (x % 2 ^ k)) at split ∙ omega arith

-- Bits above a field are joined to it by `|` as by a sum.
pub bit_or_above : (k q r : ℕ) → r < 2 ^ k → bit_or r (q * 2 ^ k) ≡ r + q * 2 ^ k
bit_or_above k q r h =
    let split = bit_or_split k 0 q r 0 h (one-le-pow k 2 (omega arith)) in
    let low : 2 ^ k * 0 + r ≡ r = omega arith in
    let high : 2 ^ k * q + 0 ≡ q * 2 ^ k = omega arith in
    rw (low, high, (bit_or-zero q).1, (bit_or-zero r).0) at split ∙ omega arith

-- The masks that clear the low byte, and the low half, of a dword.
pub low_byte_cleared : (x : ℕ) → x < 2 ^ 32 → bit_and x (bit_not 32 0xff) ≡ x / 256 * 256
low_byte_cleared x h =
    let split = bit_and_split 8 (x / 256) (2 ^ 24 - 1) (x % 256) 0 (omega arith) (omega arith) in
    let whole : 2 ^ 8 * (x / 256) + x % 256 ≡ x = omega arith in
    rw (whole, bit_and_mask 24 (x / 256), bit_and-zero (x % 256)) at split ∙ omega arith

pub low_half_cleared : (x : ℕ) → x < 2 ^ 32 → bit_and x (bit_not 32 0xffff) ≡ x / 65536 * 65536
low_half_cleared x h =
    let split =
      bit_and_split 16 (x / 65536) (2 ^ 16 - 1) (x % 65536) 0 (omega arith) (omega arith) in
    let whole : 2 ^ 16 * (x / 65536) + x % 65536 ≡ x = omega arith in
    rw (whole, bit_and_mask 16 (x / 65536), bit_and-zero (x % 65536)) at split ∙ omega arith

pub second_byte_cleared :
    (x : ℕ) → x < 2 ^ 32 → bit_and x (bit_not 32 0xff00) ≡ x / 65536 * 65536 + x % 256
second_byte_cleared x h =
    let split =
      bit_and_split 16 (x / 65536) (2 ^ 16 - 1) (x % 65536) 255 (omega arith) (omega arith) in
    let whole : 2 ^ 16 * (x / 65536) + x % 65536 ≡ x = omega arith in
    rw (whole, bit_and_mask 16 (x / 65536), bit_and_mask 8 (x % 65536)) at split ∙ omega arith

-- A field put into the bits that were cleared.
pub with_low : (k q r : ℕ) → r < 2 ^ k → bit_or (q * 2 ^ k) r ≡ q * 2 ^ k + r
with_low k q r h =
    let turned : q * 2 ^ k ≡ 2 ^ k * q = omega arith in rw turned (bit_or_fields k q r h)
