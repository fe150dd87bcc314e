-- ===== src/FatName/Next.antt =====
-- The walk of `fat_next_short_name` over the number behind the tilde.
pub mod Outcome
pub mod Step
pub mod Exhaust
use kolibri_os_reloaded.Base.{
  ℕ, zero, suc, ◌+◌, ◌-◌, ◌*◌, ◌/◌, ◌%◌, ◌^◌, ◌≤◌, ◌<◌, bit_and, bit_or, ◌≡◌, ◌≢◌, ◌↔◌, ◌⊎◌, inl,
  inr, refl, ap, sym, ◌∙◌, arith, Option, none, some, Bool, true, false, not, ◌&&◌, ◌||◌, ltb, leb,
  ◌==◌, lt→ltb, ltb-false, ltb→lt, Bool-cases, eq_cases, if◌then◌else◌, u8, u16, u32, sub_u32,
  lt_i32, le_i32, biased_i32, ◌<<<◌, ◌>>>◌, ◌>>=◌, List, [], ◌∷◌,
}
use native.Mathlib.Decide.{dec_lt, dec_le}
use native.Mathlib.Nat.{pow-suc}
use kolibri_os_reloaded.Base.Bits.{bit_not}
use kolibri_os_reloaded.Base.Memory.{
  Memory, IsBytes, load_u32, store_u32, store_u8, store_u32_frame, store_u32-IsBytes, first_cell,
  next_cell, store_u8_same, store_u8_other, store_u8-IsBytes, load_u16, store_u16, load_u16-lt,
  load_u32-lt,
}
use kolibri_os_reloaded.Base.Fields.{
  bit_and_mask, bit_or_fields, bit_or_split, bit_or-zero, bit_or_above, bit_and_split, bit_and-zero,
  bit_and_bit, with_low,
}
use kolibri_os_reloaded.FatName.{
  zerofill_to_end, expand, shrink, walk, last_tilde, mutate, fat_next_short_name,
}
use kolibri_os_reloaded.FatName.Digits.{
  IsDigit, number, number_same, number_nines, number_zeros, number-lt,
}
use kolibri_os_reloaded.FatName.Walk.{
  zerofill_to_end_in, zerofill_to_end_out, digits_after, Numbered, walk_spaces, found_tilde,
}

-- The number behind the tilde, one more, and zeros to the end of the base name.
pub record Incremented (m m1 : Memory) (name t d : ℕ) : Type 0 where
  pub frame : (b : ℕ) → (b < name + (t + 1)) ⊎ (name + 8 ≤ b) → m1 b ≡ m b
  pub digits : (i : ℕ) → i < d → IsDigit (digits_after m1 name t i)
  pub value : number (digits_after m1 name t) d ≡ number (digits_after m name t) d + 1
  pub zeros : (j : ℕ) → t + 1 + d ≤ j → j < 8 → m1 (name + j) ≡ b'0'

carried :
    (m m1 : Memory) (name t d : ℕ)
    → t + 1 + suc d ≤ 8
    → digits_after m name t d ≡ b'9'
    → Incremented m m1 name t d
    → Incremented m m1 name t (suc d)
unfolding number
carried m m1 name t d fits nine inc =
    let last : digits_after m1 name t d ≡ b'0' =
      inc.zeros (t + 1 + d) (omega arith) (omega arith) in
    record {
      frame = inc.frame;
      digits = λ i less. elim (eq_cases i d) [
        | inl e ↦ rw (e, last) (omega arith)
        | inr e ↦ inc.digits i (omega arith)
      ];
      value = omega (arith, inc.value);
      zeros = λ j le less. inc.zeros j (omega arith) less;
    }

stepped :
    (m : Memory) (name t d : ℕ)
    → t + 1 + suc d ≤ 8
    → ((i : ℕ) → i < suc d → IsDigit (digits_after m name t i))
    → digits_after m name t d ≢ b'9'
    → Incremented m
        (zerofill_to_end
          (store_u8 m (name + (t + 1 + d)) (u8 (m (name + (t + 1 + d)) + 1)))
          name
          (t + 1 + d + 1))
        name
        t
        (suc d)
unfolding number
stepped m name t d fits digits other =
    let at = name + (t + 1 + d) in
    let v = u8 (m at + 1) in
    let m0 = store_u8 m at v in
    let m1 = zerofill_to_end m0 name (t + 1 + d + 1) in
    let last_digit = digits d (omega arith) in
    let last : m1 at ≡ m at + 1 =
      zerofill_to_end_out m0 name (t + 1 + d + 1) at (inl (omega arith))
      ∙ (store_u8_same m at v ∙ omega arith) in
    let front : (i : ℕ) → i < d → digits_after m1 name t i ≡ digits_after m name t i = λ i less.
      zerofill_to_end_out m0 name (t + 1 + d + 1) (name + (t + 1 + i)) (inl (omega arith))
      ∙ store_u8_other m at v (name + (t + 1 + i)) (omega arith) in
    record {
      frame = λ b out.
          zerofill_to_end_out m0 name (t + 1 + d + 1) b (omega arith)
          ∙ store_u8_other m at v b (omega arith);
      digits = λ i less. elim (eq_cases i d) [
        | inl e ↦ rw (e, last) (omega arith)
        | inr e ↦ rw (front i (omega arith)) (digits i (omega arith))
      ];
      value =
          omega (arith, last, number_same (digits_after m1 name t) (digits_after m name t) d front);
      zeros = λ j le less. zerofill_to_end_in m0 name (t + 1 + d + 1) j (omega arith) less;
    }

-- The walk over the digits: all nines, or the last digit that is no nine is raised.
pub walk_digits :
    (d t : ℕ) (m : Memory) (name c : ℕ)
    → t + 1 + d ≤ 8
    → ((i : ℕ) → i < d → IsDigit (digits_after m name t i))
    → (((i : ℕ) → i < d → digits_after m name t i ≡ b'9')
        × (walk (t + 1 + d) m name c ≡ walk (t + 1) m name c))
      ⊎ ((m1 : Memory) × (walk (t + 1 + d) m name c ≡ some (m1, true)) × Incremented m m1 name t d)
unfolding walk
walk_digits zero t m name c fits digits =
    let end : t + 1 + zero ≡ t + 1 = omega arith in
    inl (λ i less. absurd (omega arith), rw end refl)
walk_digits (suc d) t m name c fits digits =
    let more : t + 1 + suc d ≡ suc (t + 1 + d) = omega arith in
    let last_digit = digits d (omega arith) in
    let no_tilde : ((m (name + (t + 1 + d)) == b'~') ≡ false) = ground arith in
    let no_space : ((m (name + (t + 1 + d)) == b' ') ≡ false) = ground arith in
    elim (eq_cases (m (name + (t + 1 + d))) b'9') [
      | inl nine ↦
          (let is_nine : ((m (name + (t + 1 + d)) == b'9') ≡ true) = ground arith in
            elim (walk_digits d t m name c (omega arith) λ i less. digits i (omega arith)) [
              | inl (nines, same) ↦ inl (
                λ i less. elim (eq_cases i d) [ inl e ↦ rw e nine | inr e ↦ nines i (omega arith) ],
                rw (more, no_tilde, no_space, is_nine) same,
              )
              | inr (m1, same, inc) ↦ inr (
                m1,
                rw (more, no_tilde, no_space, is_nine) same,
                carried m m1 name t d fits nine inc,
              )
            ])
      | inr other ↦
          (let no_nine : ((m (name + (t + 1 + d)) == b'9') ≡ false) = ground arith in
            inr (
              _,
              rw (more, no_tilde, no_space, no_nine) refl,
              stepped m name t d fits digits other,
            ))
    ]

-- The shift of `d` characters into the space behind them.
pub expand_lem :
    (d rest : ℕ) (m : Memory) (name pos al : ℕ)
    → ((i : ℕ) → i < d → m (name + (pos + i)) ≢ b' ')
    → m (name + (pos + d)) ≡ b' '
    → (m1 : Memory) × (expand (suc (d + rest)) m name pos al ≡ some (m1, true))
      × (m1 (name + pos) ≡ al)
      × ((i : ℕ) → 1 ≤ i → i ≤ d → m1 (name + (pos + i)) ≡ b'0')
      × ((b : ℕ) → (b < name + pos) ⊎ (name + (pos + d) < b) → m1 b ≡ m b)
unfolding expand
expand_lem zero rest m name pos al others space =
    let end : pos + zero ≡ pos = omega arith in
    let here = rw end at space in
    let is_space : ((m (name + pos) == b' ') ≡ true) = ground arith in
    (
      store_u8 m (name + pos) al,
      rw is_space refl,
      store_u8_same m (name + pos) al,
      λ i le less. absurd (omega arith),
      λ b out. store_u8_other m (name + pos) al b (omega arith),
    )
expand_lem (suc d) rest m name pos al others space =
    let end : pos + 0 ≡ pos = omega arith in
    let m0 = store_u8 m (name + pos) al in
    let here = rw end at (others 0 (omega arith)) in
    let no_space : ((m (name + pos) == b' ') ≡ false) = ground arith in
    let kept : (i : ℕ) → m0 (name + (pos + 1 + i)) ≡ m (name + (pos + suc i)) = λ i.
      (let there : pos + 1 + i ≡ pos + suc i = omega arith in
        rw there (store_u8_other m (name + pos) al (name + (pos + suc i)) (omega arith))) in
    let fuel : suc d + rest ≡ suc (d + rest) = omega arith in
    let (m1, result, first, zeros, frame) =
      expand_lem d rest m0 name (pos + 1) b'0'
        (λ i less. rw (kept i) (others (suc i) (omega arith))) (rw (kept d) space) in
    (
      m1,
      rw (no_space, fuel) result,
      frame (name + pos) (inl (omega arith)) ∙ store_u8_same m (name + pos) al,
      λ i le less. elim (eq_cases i 1) [
        | inl e ↦ rw e first
        | inr e ↦
            (let there : pos + i ≡ pos + 1 + (i - 1) = omega arith in
              rw there (zeros (i - 1) (omega arith) (omega arith)))
      ],
      λ b out. frame b (omega arith) ∙ store_u8_other m (name + pos) al b (omega arith),
    )
