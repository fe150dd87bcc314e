-- ===== src/FatName/Next/Step.antt =====
-- The cases of a call of `fat_next_short_name` on a name with a number.
use kolibri_os_reloaded.Base.{
  ℕ, suc, ◌+◌, ◌-◌, ◌≤◌, ◌<◌, ◌≡◌, inl, inr, refl, ◌∙◌, arith, true, false, ◌==◌, eq_cases,
}
use native.Mathlib.Decide.{dec_lt}
use kolibri_os_reloaded.Base.Memory.{Memory, store_u8, store_u8_same, store_u8_other}
use kolibri_os_reloaded.FatName.{zerofill_to_end, shrink, walk, mutate, fat_next_short_name}
use kolibri_os_reloaded.FatName.Digits.{number_nines}
use kolibri_os_reloaded.FatName.Walk.{
  zerofill_to_end_in, zerofill_to_end_out, digits_after, Numbered, walk_spaces, found_tilde,
}
use kolibri_os_reloaded.FatName.Next.{walk_digits, expand_lem}
use kolibri_os_reloaded.FatName.Next.Outcome.{Shifted, NextShortName, raised, longer, one_zeros}

-- What the last resort stores, with `p` the new place of the tilde.
abbrev moved : Memory → ℕ → ℕ → Memory
moved m name p =
    zerofill_to_end (store_u8 (store_u8 m (name + p) b'~') (name + (p + 1)) b'1') name (p + 2)

moved-Shifted :
    (m : Memory) (name p t d : ℕ)
    → t ≡ p + 1
    → Numbered m name t d
    → 1 ≤ p
    → t + d ≡ 7
    → ((i : ℕ) → i < d → digits_after m name t i ≡ b'9')
    → Shifted m (moved m name p) name t d
moved-Shifted m name p t d next named valid full nines =
    let m0 = store_u8 m (name + p) b'~' in
    let m1 = store_u8 m0 (name + (p + 1)) b'1' in
    let m2 = moved m name p in
    let one : m2 (name + (p + 1)) ≡ b'1' =
      zerofill_to_end_out m1 name (p + 2) (name + (p + 1)) (inl (omega arith))
      ∙ store_u8_same m0 (name + (p + 1)) b'1' in
    let tilde : m2 (name + p) ≡ b'~' =
      zerofill_to_end_out m1 name (p + 2) (name + p) (inl (omega arith))
      ∙ (store_u8_other m0 (name + (p + 1)) b'1' (name + p) (omega arith)
          ∙ store_u8_same m (name + p) b'~') in
    let back : t - 1 ≡ p = omega arith in
    let width : 8 - t ≡ d + 1 = omega arith in
    let start : p + 1 + 0 ≡ p + 1 = omega arith in
    let first : digits_after m2 name p 0 ≡ b'1' = rw start one in
    let (value, digits) =
      one_zeros (digits_after m2 name p) d first
        λ i le less. zerofill_to_end_in m1 name (p + 2) (p + 1 + i) (omega arith) (omega arith) in
    rw (back, width)
      (
        record {
          fits = omega arith;
          tilde = tilde;
          digits = digits;
          spaces = λ j le less. absurd (omega arith);
        },
        value,
        number_nines (digits_after m name t) d nines,
        full,
        omega arith,
      )

-- The walk at the tilde, when all digits are nines.
at_tilde :
    (m : Memory) (name t d : ℕ)
    → 1 ≤ t
    → Numbered m name t d
    → ((i : ℕ) → i < d → digits_after m name t i ≡ b'9')
    → NextShortName m name t d (walk (t + 1) m name (7 - t - d))
unfolding walk shrink
at_tilde m name t d valid named nines =
    let succ : t + 1 ≡ suc t = omega arith in
    let here = named.tilde in
    let is_tilde : ((m (name + t) == b'~') ≡ true) = ground arith in
    let value = number_nines (digits_after m name t) d nines in
    let fits = named.fits in
    rw (succ, is_tilde)
      (elim (dec_lt (t + d) 7) [
        | yes room ↦
            (let some_space : ((7 - t - d == 0) ≡ false) = ground arith in
              let fuel : 8 ≡ suc (d + (7 - d)) = omega arith in
              let (m1, result, first, zeros, frame) =
                expand_lem d (7 - d) m name (t + 1) b'1'
                  (λ i less. (let nine = nines i less in omega arith))
                  (named.spaces (t + 1 + d) (omega arith) (omega arith)) in
              inl (
                m1,
                rw (some_space, fuel) result,
                inr (inl (longer m m1 name t d named room nines first zeros frame)),
              ))
        | no full ↦
            (let no_space : ((7 - t - d == 0) ≡ true) = ground arith in
              elim (eq_cases t 1) [
                | inl e ↦
                    (let stop : ((t == 1) ≡ true) = ground arith in
                      inr (rw (no_space, stop) refl, e, omega arith, value))
                | inr other ↦
                    (let goes_on : ((t == 1) ≡ false) = ground arith in
                      let not_first : ((t == 0) ≡ false) = ground arith in
                      inl (
                        moved m name (t - 1),
                        rw (no_space, goes_on, not_first) refl,
                        inr (
                            inr (
                              moved-Shifted m name (t - 1) t d (omega arith) named (omega arith)
                                (omega arith) nines)),
                      ))
              ])
      ])

-- On a base name of a front of one character at least, a tilde, decimal digits and spaces the call
-- returns the next number: the number plus one, filled up with zeros to the end; for nines alone a
-- one with zeros, one digit longer, with the tilde moved to the left when there is no space; and it
-- refuses, with the name as it was, only for the tilde in the second place before six nines.
pub fat_next_short_name_outcome :
    (m : Memory) (name t d : ℕ)
    → 1 ≤ t
    → Numbered m name t d
    → NextShortName m name t d (fat_next_short_name m name)
unfolding fat_next_short_name mutate
fat_next_short_name_outcome m name t d valid named =
    let fits = named.fits in
    let search : t + 1 + (7 - t) ≡ 8 = omega arith in
    let found = rw search at (
      found_tilde (7 - t) t m name named.tilde λ i less. elim (dec_lt i d) [
        | yes p ↦ (let digit = named.digits i p in omega arith)
        | no p ↦ (let space = named.spaces (t + 1 + i) (omega arith) (omega arith) in omega arith)
      ]) in
    let width : t + 1 + d + (7 - t - d) ≡ 8 = omega arith in
    let passed =
      rw width at (
        walk_spaces (7 - t - d) (t + 1 + d) m name 0
          λ j le less. named.spaces j le (omega arith)) in
    let count : 0 + (7 - t - d) ≡ 7 - t - d = omega arith in
    rw (found, passed, count)
      (elim (walk_digits d t m name (7 - t - d) fits named.digits) [
        | inl (nines, same) ↦ rw same (at_tilde m name t d valid named nines)
        | inr (m1, same, inc) ↦ inl (m1, same, inl (raised m m1 name t d named inc))
      ])
