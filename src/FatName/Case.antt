-- ===== src/FatName/Case.antt =====
-- `cp866_to_upper` and `utf16_to_upper` of casefold.rs: a second change to upper case changes nothing.
use kolibri_os_reloaded.Base.{ℕ, ◌+◌, ◌*◌, ◌/◌, ◌%◌, ◌^◌, ◌<◌, ◌≡◌, ◌∙◌, bit_and, arith}
use kolibri_os_reloaded.Base.Fields.{bit_and_split, bit_and_mask, bit_and-zero}
use kolibri_os_reloaded.FatName.{cp866_to_upper, utf16_to_upper}

even : (c : ℕ) → c < 256 → bit_and c 254 ≡ c / 2 * 2
even c small =
    let split = bit_and_split 1 (c / 2) 127 (c % 2) 0 (omega arith) (omega arith) in
    let whole : 2 ^ 1 * (c / 2) + c % 2 ≡ c = omega arith in
    rw (whole, bit_and_mask 7 (c / 2), bit_and-zero (c % 2)) at split ∙ omega arith

cp866_to_upper_idem : (c : ℕ) → c < 256 → cp866_to_upper (cp866_to_upper c) ≡ cp866_to_upper c
unfolding cp866_to_upper
cp866_to_upper_idem c small = ground (arith, even c small, even (bit_and c 254))

utf16_to_upper_idem : (c : ℕ) → utf16_to_upper (utf16_to_upper c) ≡ utf16_to_upper c
unfolding utf16_to_upper
utf16_to_upper_idem c = ground arith
