-- ===== src/FatName/Examples.antt =====
-- Some names, with the theorems there.
use kolibri_os_reloaded.Base.{
  ℕ, ◌+◌, ◌<◌, ◌≡◌, ◌≢◌, inl, refl, arith, ◌==◌, if◌then◌else◌, Option, some, none, Bool,
}
use kolibri_os_reloaded.Base.Memory.{Memory, store_u8}
use kolibri_os_reloaded.FatName.{
  fat_next_short_name, zerofill_to_end, walk, last_tilde, mutate, cp866_to_upper,
}
use kolibri_os_reloaded.FatName.Walk.{Numbered}
use kolibri_os_reloaded.FatName.Next.Outcome.{NextShortName}
use kolibri_os_reloaded.FatName.Next.Step.{fat_next_short_name_outcome}
use kolibri_os_reloaded.FatName.Next.Exhaust.{Exhausts, fat_next_short_name-Exhausts}
use kolibri_os_reloaded.FatName.Legal.{
  Judged, fat_name_is_legal, fat_name_is_legal_outcome, fat_short_char_ok,
}
use kolibri_os_reloaded.FatName.Generate.{
  fat_gen_short_name, gen_loop, gen_step, fill_spaces, numbered, first_dot, keep,
}
use kolibri_os_reloaded.FatName.Generate.Plain.{
  IsPlainName, IsShortNameOf, fat_gen_short_name_plain,
}

-- "FILE~19 TXT" at address 100.
abbrev file_19 : Memory
file_19 a =
    if a == 100
    then b'F'
    else if a == 101
    then b'I'
    else if a == 102
    then b'L'
    else if a == 103
    then b'E'
    else if a == 104
    then b'~'
    else if a == 105
    then b'1'
    else if a == 106
    then b'9'
    else b' '

file_19-Numbered : Numbered file_19 100 4 2
file_19-Numbered = record {
  fits = omega arith;
  tilde = refl;
  digits = λ i less. ground arith;
  spaces = λ j le less. ground arith;
}

fat_next_short_name_outcome_example :
    NextShortName file_19 100 4 2 (fat_next_short_name file_19 100)
fat_next_short_name_outcome_example =
    fat_next_short_name_outcome file_19 100 4 2 (omega arith) file_19-Numbered

fat_next_short_name-Exhausts_example : Exhausts 100 file_19
fat_next_short_name-Exhausts_example =
    fat_next_short_name-Exhausts file_19 100 4 2 (omega arith) file_19-Numbered

-- The byte of a result.
abbrev byte_of : Option (Memory × Bool) → ℕ → ℕ
byte_of none a = 0
byte_of (some (m, ok)) a = m a

-- "FILE~19 " becomes "FILE~200": the second and the third digit.
raised_digit : byte_of (fat_next_short_name file_19 100) 105 ≡ b'2'
unfolding fat_next_short_name mutate last_tilde walk store_u8 zerofill_to_end
raised_digit = refl

filled_digit : byte_of (fat_next_short_name file_19 100) 107 ≡ b'0'
unfolding fat_next_short_name mutate last_tilde walk store_u8 zerofill_to_end
filled_digit = refl

-- The long name "a.b" at address 16.
abbrev a_dot_b : Memory
a_dot_b a = if a == 16 then b'a' else if a == 17 then b'.' else if a == 18 then b'b' else 0

a_dot_b_bytes : (i : ℕ) → i < 3 → a_dot_b (16 + i) ≢ 0
a_dot_b_bytes i less = ground arith

fat_name_is_legal_outcome_example : Judged a_dot_b 16 3 (fat_name_is_legal a_dot_b 16)
fat_name_is_legal_outcome_example =
    fat_name_is_legal_outcome a_dot_b 16 3 (omega arith) a_dot_b_bytes refl

abbrev at : Option Memory → ℕ → ℕ
at none a = 0
at (some m) a = m a

-- "A       B  ".
base_letter : at (fat_gen_short_name a_dot_b 16 100) 100 ≡ b'A'
unfolding fat_gen_short_name gen_loop gen_step keep first_dot fill_spaces numbered store_u8
    cp866_to_upper fat_short_char_ok
base_letter = refl

extension_letter : at (fat_gen_short_name a_dot_b 16 100) 108 ≡ b'B'
unfolding fat_gen_short_name gen_loop gen_step keep first_dot fill_spaces numbered store_u8
    cp866_to_upper fat_short_char_ok
extension_letter = refl

a_dot_b-IsPlainName : IsPlainName a_dot_b 16 1 1
a_dot_b-IsPlainName = record {
  some_base = omega arith;
  base_fits = omega arith;
  ext_fits = omega arith;
  base = λ i less. ground arith;
  dot = refl;
  ext = λ i less. ground arith;
  nul = refl;
}

fat_gen_short_name_plain_example :
    (m' : Memory) × (fat_gen_short_name a_dot_b 16 100 ≡ some m')
    × IsShortNameOf a_dot_b 16 100 1 1 m'
fat_gen_short_name_plain_example =
    fat_gen_short_name_plain a_dot_b 16 100 1 1 a_dot_b-IsPlainName (inl (omega arith))

-- The long name "a~-" and a byte above 127: the number that is sought behind the tilde is the sign,
-- and the name that results holds a dot.
abbrev a_tilde : Memory
a_tilde a =
    if a == 16
    then b'a'
    else if a == 17
    then b'~'
    else if a == 18
    then b'-'
    else if a == 19
    then 233
    else 0

dot_in_base : at (fat_gen_short_name a_tilde 16 100) 102 ≡ b'.'
unfolding fat_gen_short_name gen_loop gen_step keep fill_spaces numbered store_u8 cp866_to_upper
    fat_short_char_ok fat_next_short_name mutate last_tilde walk zerofill_to_end
dot_in_base = refl
