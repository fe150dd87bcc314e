-- ===== src/Checksum/Total.antt =====
-- The whole buffer: what `checksum_1` leaves in the register.
use kolibri_os_reloaded.Base.{
  ℕ, zero, suc, ◌+◌, ◌*◌, ◌/◌, ◌<◌, ◌≡◌, inl, inr, refl, ◌∙◌, arith, Bool, false, not, ◌==◌,
  eq_cases, if◌then◌else◌,
}
use kolibri_os_reloaded.Base.Memory.{Memory, IsBytes}
use kolibri_os_reloaded.Checksum.{
  carry, add_two, adc_edx, add_qwords, whole_qwords, rem_4, rem_2, finish_odd,
}
use kolibri_os_reloaded.Checksum.Sum.{
  words_sum, Folds, carried_round, add_two_lem, rem_4-Folds, rem_2-Folds, finish_odd-Folds,
  Folds-join, Folds-nothing, Folds-weaken, Folds-room,
}

pub words_sum-+ :
    (a b : ℕ) (m : Memory) (p : ℕ)
    → words_sum (a + b) m p ≡ words_sum a m p + words_sum b m (p + 2 * a)
unfolding words_sum
words_sum-+ zero b m p =
    let none_yet : 0 + b ≡ b = omega arith in
    let cells : p + 2 * 0 ≡ p = omega arith in rw (none_yet, cells) (omega arith)
words_sum-+ (suc a) b m p =
    let more : suc a + b ≡ suc (a + b) = omega arith in
    let cells : p + 2 * suc a ≡ p + 2 + 2 * a = omega arith in
    rw (more, words_sum-+ a b m (p + 2), cells) (omega arith)

-- One unit of eight bytes.
qword-Folds :
    (m : Memory) (p sum : ℕ)
    → IsBytes m
    → sum / 65536 + 1 < 65536
    → let first = add_two m p sum false in
      let second = add_two m (p + 4) first.0 first.1 in
      Folds 1 sum (words_sum 4 m p) (adc_edx second.0 second.1).0
      × ((adc_edx second.0 second.1).1 ≡ false)
qword-Folds m p sum bytes h =
    let first = add_two m p sum false in
    let (k, e, q, z) = add_two_lem m p sum false bytes (omega arith) in
    let (k', e', q', z') = add_two_lem m (p + 4) first.0 first.1 bytes (omega arith) in
    let second = add_two m (p + 4) first.0 first.1 in
    let both = words_sum-+ 2 2 m p in
    carried_round sum (words_sum 4 m p) second.0 second.1 (k + k' + carry first.1) h (omega arith)
      (q' ∙ q)
      (λ pos. z' (elim (eq_cases (sum + words_sum 2 m p) 0) [
        | inl none_yet ↦ omega arith
        | inr some_yet ↦ omega (arith, z (omega arith))
      ]))

add_qwords-suc :
    (n : ℕ) (m : Memory) (p sum : ℕ) (c : Bool)
    → let first = add_two m p sum false in
      let second = add_two m (p + 4) first.0 first.1 in
      let third = adc_edx second.0 second.1 in
      add_qwords (suc n) m p sum c ≡ add_qwords n m (p + 8) third.0 third.1
unfolding add_qwords
add_qwords-suc n m p sum c = refl

add_qwords-Folds :
    (n : ℕ) (m : Memory) (p sum : ℕ)
    → IsBytes m
    → sum / 65536 + n + 1 < 65536
    → Folds n sum (words_sum (4 * n) m p) (add_qwords n m p sum false).0
      × ((add_qwords n m p sum false).1 ≡ p + 8 * n)
      × ((add_qwords n m p sum false).2 ≡ false)
unfolding words_sum add_qwords
add_qwords-Folds zero m p sum bytes h = (Folds-nothing sum, omega arith, refl)
add_qwords-Folds (suc n) m p sum bytes h =
    let first = add_two m p sum false in
    let second = add_two m (p + 4) first.0 first.1 in
    let third = adc_edx second.0 second.1 in
    let (one, shut) = qword-Folds m p sum bytes (omega arith) in
    let (rest, moved, last_shut) =
      add_qwords-Folds n m (p + 8) third.0 bytes
        (Folds-room 1 n sum (words_sum 4 m p) third.0 one (omega arith)) in
    let four_more : 4 * suc n ≡ 4 + 4 * n = omega arith in
    let words : words_sum (4 * suc n) m p ≡ words_sum 4 m p + words_sum (4 * n) m (p + 8) =
      rw four_more (words_sum-+ 4 (4 * n) m p) in
    rw (add_qwords-suc n m p sum false, shut, words)
      (
        Folds-weaken (1 + n) (suc n) sum (words_sum 4 m p + words_sum (4 * n) m (p + 8))
            (add_qwords n m (p + 8) third.0 false).0 (omega arith)
            (Folds-join 1 n sum (words_sum 4 m p) third.0 (words_sum (4 * n) m (p + 8))
              (add_qwords n m (p + 8) third.0 false).0 one rest),
        moved ∙ omega arith,
        last_shut,
      )

pub whole_qwords-Folds :
    (m : Memory) (sum p n : ℕ)
    → IsBytes m
    → sum / 65536 + n + 1 < 65536
    → Folds n sum (words_sum (4 * n) m p) (whole_qwords m sum p n).0
      × ((whole_qwords m sum p n).1 ≡ p + 8 * n)
unfolding whole_qwords adc_edx words_sum
whole_qwords-Folds m sum p zero bytes h = (Folds-nothing sum, omega arith)
whole_qwords-Folds m sum p (suc n) bytes h =
    let (folds, moved, shut) = add_qwords-Folds (suc n) m p sum bytes h in
    let some_units : ((suc n == 0) ≡ false) = ground arith in rw (some_units, shut) (folds, moved)

-- A rest of four, of two and of one byte, taken when its bit of the length is set.
pub rem_4_step :
    (m : Memory) (sum p r : ℕ)
    → IsBytes m
    → sum / 65536 + 1 < 65536
    → r < 2
    → Folds 1 sum (words_sum (2 * r) m p) (rem_4 m sum p (not (r == 0))).0
      × ((rem_4 m sum p (not (r == 0))).1 ≡ p + 4 * r)
unfolding words_sum rem_4
rem_4_step m sum p zero bytes h small =
    (Folds-weaken 0 1 sum 0 sum (omega arith) (Folds-nothing sum), omega arith)
rem_4_step m sum p (suc zero) bytes h small = rem_4-Folds m sum p bytes h
rem_4_step m sum p (suc (suc r)) bytes h small = absurd (omega arith)

pub rem_2_step :
    (m : Memory) (sum p r : ℕ)
    → IsBytes m
    → sum / 65536 + 1 < 65536
    → r < 2
    → Folds 1 sum (words_sum r m p) (rem_2 m sum p (not (r == 0))).0
      × ((rem_2 m sum p (not (r == 0))).1 ≡ p + 2 * r)
unfolding words_sum rem_2
rem_2_step m sum p zero bytes h small =
    (Folds-weaken 0 1 sum 0 sum (omega arith) (Folds-nothing sum), omega arith)
rem_2_step m sum p (suc zero) bytes h small = rem_2-Folds m sum p bytes h
rem_2_step m sum p (suc (suc r)) bytes h small = absurd (omega arith)

pub finish_odd_step :
    (m : Memory) (sum p r : ℕ)
    → IsBytes m
    → sum / 65536 + 1 < 65536
    → r < 2
    → Folds 1 sum (if r == 1 then 256 * m p else 0) (finish_odd m sum p (not (r == 0)))
unfolding finish_odd
finish_odd_step m sum p zero bytes h small =
    Folds-weaken 0 1 sum 0 sum (omega arith) (Folds-nothing sum)
finish_odd_step m sum p (suc zero) bytes h small = finish_odd-Folds m sum p bytes h
finish_odd_step m sum p (suc (suc r)) bytes h small = absurd (omega arith)

pub whole_qwords_skip : (m : Memory) (sum p : ℕ) → whole_qwords m sum p 0 ≡ (sum, p)
unfolding whole_qwords
whole_qwords_skip m sum p = refl

pub rem_4_skip : (m : Memory) (sum p : ℕ) → rem_4 m sum p false ≡ (sum, p)
unfolding rem_4
rem_4_skip m sum p = refl

pub rem_2_skip : (m : Memory) (sum p : ℕ) → rem_2 m sum p false ≡ (sum, p)
unfolding rem_2
rem_2_skip m sum p = refl
