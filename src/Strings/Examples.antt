-- ===== src/Strings/Examples.antt =====
-- Runs of the string routines on a small memory, and the theorems there.
use kolibri_os_reloaded.Base.{
  ℕ, ◌+◌, ◌≡◌, ◌⊎◌, ◌≤◌, ◌<◌, refl, arith, ◌==◌, if◌then◌else◌, some, inl, inr,
}
use kolibri_os_reloaded.Base.Memory.{Memory, IsBytes}
use kolibri_os_reloaded.Strings.{strlen, scan_length, strchr, scan_first, strncmp, memmove}
use kolibri_os_reloaded.Strings.Length.{IsCstring}
use kolibri_os_reloaded.Strings.Copy.{IsSource}
use kolibri_os_reloaded.Strings.Move.{memmove_lem}

-- "/a/b" at 16 and "/aZ" at 32, in a memory of zeros.
abbrev text : Memory
text a =
    if a == 16
    then 47
    else if a == 17
    then 97
    else if a == 18
    then 47
    else if a == 19
    then 98
    else if a == 32
    then 47
    else if a == 33
    then 97
    else if a == 34
    then 90
    else 0

text-IsBytes : IsBytes text
text-IsBytes a = ground arith

text-IsCstring : IsCstring text 16 4
text-IsCstring = record { filled = λ i h. ground arith; ended = refl; fits = omega arith }

text-IsSource : IsSource text 16 6 4
text-IsSource = record { filled = λ i h. ground arith; ended = inr refl }

length_of_text : strlen text 16 ≡ some 4
unfolding strlen scan_length
length_of_text = refl

first_slash : strchr text 16 98 ≡ some 19
unfolding strchr scan_first
first_slash = refl

first_is_greater : strncmp text 32 16 8 ≡ 1
unfolding strncmp
first_is_greater = refl

memmove_lem_example :
    ((k : ℕ) → k < 7 → memmove text 16 14 7 (14 + k) ≡ text (16 + k))
    × ((a : ℕ) → (a < 14) ⊎ (21 ≤ a) → memmove text 16 14 7 a ≡ text a)
memmove_lem_example =
    memmove_lem text 16 14 7 text-IsBytes (omega arith) (omega arith) (inl (omega arith))
