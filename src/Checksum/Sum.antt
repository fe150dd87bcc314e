-- ===== src/Checksum/Sum.antt =====
-- The checksum of a buffer as a sum of big-endian words modulo 65535.
use kolibri_os_reloaded.Base.{
  ℕ, zero, suc, ◌+◌, ◌-◌, ◌*◌, ◌/◌, ◌%◌, ◌^◌, ◌≤◌, ◌<◌, ◌≡◌, inl, inr, refl, arith, Bool, true,
  false, ◌==◌, eq_cases, if◌then◌else◌,
}
use kolibri_os_reloaded.Base.Memory.{Memory, IsBytes}
use kolibri_os_reloaded.Checksum.{
  carry, adc_dh, adc_edx, add_word, add_two, rem_4, rem_2, finish_odd,
}
use kolibri_os_reloaded.Checksum.Words.{add_word_lem, adc_dh_word}

-- The sum of big-endian words from `p` on, and of `length` bytes: a last odd byte is the high half of
-- a word.
unfoldable pub words_sum : ℕ → Memory → ℕ → ℕ
words_sum zero m p = 0
words_sum (suc n) m p = 256 * m p + m (p + 1) + words_sum n m (p + 2)

unfoldable pub data_sum : ℕ → Memory → ℕ → ℕ
data_sum length m p =
    words_sum (length / 2) m p + (if length % 2 == 1 then 256 * m (p + (length - 1)) else 0)

-- A register that has taken in `d`, with at most `n` end-around carries into its high half.
unfoldable pub Folds : ℕ → ℕ → ℕ → ℕ → Type 0
Folds n sum d sum' =
    (k : ℕ) × (sum' + 65535 * k ≡ sum + d)
    × (sum' / 65536 ≤ sum / 65536 + n)
    × (0 < sum + d → 0 < sum')

pub carried_round :
    (sum d low : ℕ) (c : Bool) (k : ℕ)
    → sum / 65536 + 1 < 65536
    → low + 65536 * carry c + 65535 * k ≡ sum + d
    → low / 65536 ≡ sum / 65536
    → (0 < sum + d → 0 < low + carry c)
    → Folds 1 sum d (adc_edx low c).0 × ((adc_edx low c).1 ≡ false)
unfolding Folds adc_edx
carried_round sum d low true k h e q z =
    ((k + 1, omega arith, omega arith, λ p. omega arith), ground arith)
carried_round sum d low false k h e q z =
    ((k, omega arith, omega arith, λ p. omega (arith, z p)), refl)

pub add_two_lem :
    (m : Memory) (p sum : ℕ) (c : Bool)
    → IsBytes m
    → sum < 2 ^ 32
    → (k : ℕ) × ((add_two m p sum c).0 + 65536 * carry (add_two m p sum c).1 + 65535 * k
        ≡ sum + carry c + words_sum 2 m p)
      × ((add_two m p sum c).0 / 65536 ≡ sum / 65536)
      × (0 < sum + carry c + words_sum 2 m p
          → 0 < (add_two m p sum c).0 + carry (add_two m p sum c).1)
unfolding add_two words_sum
add_two_lem m p sum c bytes h =
    let (e1, q1) = add_word_lem m p sum c bytes h in
    let first = add_word m p sum c in
    let (e2, q2) = add_word_lem m (p + 2) first.0 first.1 bytes (omega arith) in
    (carry first.1, omega arith, omega arith, λ z. omega arith)

-- Units of four, of two and of one byte.
pub rem_4-Folds :
    (m : Memory) (sum p : ℕ)
    → IsBytes m
    → sum / 65536 + 1 < 65536
    → Folds 1 sum (words_sum 2 m p) (rem_4 m sum p true).0 × ((rem_4 m sum p true).1 ≡ p + 4)
unfolding rem_4
rem_4-Folds m sum p bytes h =
    let (k, e, q, z) = add_two_lem m p sum false bytes (omega arith) in
    (
      (carried_round sum (words_sum 2 m p) (add_two m p sum false).0 (add_two m p sum false).1 k h
          (omega arith) q (λ pos. z (omega arith))).0,
      refl,
    )

pub rem_2-Folds :
    (m : Memory) (sum p : ℕ)
    → IsBytes m
    → sum / 65536 + 1 < 65536
    → Folds 1 sum (words_sum 1 m p) (rem_2 m sum p true).0 × ((rem_2 m sum p true).1 ≡ p + 2)
unfolding rem_2 words_sum
rem_2-Folds m sum p bytes h =
    let (e, q) = add_word_lem m p sum false bytes (omega arith) in
    (
      (carried_round sum (256 * m p + m (p + 1) + 0) (add_word m p sum false).0
          (add_word m p sum false).1 0 h (omega arith) q (λ pos. omega arith)).0,
      refl,
    )

pub finish_odd-Folds :
    (m : Memory) (sum p : ℕ)
    → IsBytes m
    → sum / 65536 + 1 < 65536
    → Folds 1 sum (256 * m p) (finish_odd m sum p true)
unfolding finish_odd
finish_odd-Folds m sum p bytes h =
    let (e, q) = adc_dh_word sum (m p) (omega arith) (bytes p) in
    (carried_round sum (256 * m p) (adc_dh sum (m p) false).0 (adc_dh sum (m p) false).1 0 h
      (omega arith) q (λ pos. omega arith)).0

pub Folds-join :
    (n n' sum d mid d' last : ℕ)
    → Folds n sum d mid
    → Folds n' mid d' last
    → Folds (n + n') sum (d + d') last
unfolding Folds
Folds-join n n' sum d mid d' last (k, e, q, z) (k', e', q', z') = (
  k + k',
  omega arith,
  omega arith,
  λ p. elim (eq_cases (sum + d) 0) [
    | inl none_yet ↦ z' (omega arith)
    | inr some_yet ↦ z' (omega (arith, z (omega arith)))
  ],
)

pub Folds-nothing : (sum : ℕ) → Folds 0 sum 0 sum
unfolding Folds
Folds-nothing sum = (0, omega arith, omega arith, λ p. omega arith)

pub Folds-weaken : (n n' sum d last : ℕ) → n ≤ n' → Folds n sum d last → Folds n' sum d last
unfolding Folds
Folds-weaken n n' sum d last h (k, e, q, z) = (k, e, omega arith, z)

pub Folds-room :
    (n r sum d last : ℕ)
    → Folds n sum d last
    → sum / 65536 + n + r + 1 < 65536
    → last / 65536 + r + 1 < 65536
unfolding Folds
Folds-room n r sum d last (k, e, q, z) h = omega arith
