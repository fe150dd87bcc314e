-- ===== src/Checksum.antt =====
-- The Internet checksum, rust_kernel/kolibri_utils/src/checksum.rs. `checksum_1` adds big-endian words
-- in the low half of a 32-bit register, byte by byte with the carry flag; `checksum_2` folds the sum,
-- takes the complement and swaps the bytes.
pub mod Words
pub mod Sum
pub mod Total
pub mod Inet
mod Examples
use kolibri_os_reloaded.Base.{
  ℕ, zero, suc, ◌+◌, ◌-◌, ◌*◌, ◌/◌, ◌%◌, ◌^◌, bit_and, bit_or, Bool, true, false, not, ltb, ◌==◌,
  if◌then◌else◌, u8, u16, u32, ◌<<<◌, ◌>>>◌,
}
use kolibri_os_reloaded.Base.Bits.{bit_not}
use kolibri_os_reloaded.Base.Memory.{Memory}

-- A carry flag as a number.
abbrev pub carry : Bool → ℕ
carry c = if c then 1 else 0

-- The register and the carry out.
unfoldable pub add_dl : ℕ → ℕ → Bool → ℕ × Bool
add_dl sum byte carry_in =
    let t = bit_and sum 0xff + byte + carry carry_in in
    (bit_or (bit_and sum (bit_not 32 0xff)) (u8 t), ltb 0xff t)

unfoldable pub adc_dh : ℕ → ℕ → Bool → ℕ × Bool
adc_dh sum byte carry_in =
    let t = bit_and (sum >>> 8) 0xff + byte + carry carry_in in
    (bit_or (bit_and sum (bit_not 32 0xff00)) (u8 t <<< 8), ltb 0xff t)

unfoldable pub adc_edx : ℕ → Bool → ℕ × Bool
adc_edx sum carry_in = if carry_in then (u32 (sum + 1), sum == 2 ^ 32 - 1) else (sum, false)

-- The word at `ptr`, its second byte first.
unfoldable pub add_word : Memory → ℕ → ℕ → Bool → ℕ × Bool
add_word m ptr sum cf = let (sum', cf') = add_dl sum (m (ptr + 1)) cf in adc_dh sum' (m ptr) cf'

unfoldable pub add_two : Memory → ℕ → ℕ → Bool → ℕ × Bool
add_two m ptr sum cf = let (sum', cf') = add_word m ptr sum cf in add_word m (ptr + 2) sum' cf'

-- The loop over units of eight bytes: the register, the pointer and the carry.
unfoldable pub add_qwords : ℕ → Memory → ℕ → ℕ → Bool → ℕ × ℕ × Bool
add_qwords zero m ptr sum cf = (sum, ptr, cf)
add_qwords (suc ecx) m ptr sum cf =
    let (sum1, cf1) = add_two m ptr sum false in
    let (sum2, cf2) = add_two m (ptr + 4) sum1 cf1 in
    let (sum3, cf3) = adc_edx sum2 cf2 in add_qwords ecx m (ptr + 8) sum3 cf3

-- A rest of four bytes, and of two: the register and the pointer.
unfoldable pub rem_4 : Memory → ℕ → ℕ → Bool → ℕ × ℕ
rem_4 m sum ptr do_it =
    let (sum', cf) = add_two m ptr sum false in
    if do_it then ((adc_edx sum' cf).0, ptr + 4) else (sum, ptr)

unfoldable pub rem_2 : Memory → ℕ → ℕ → Bool → ℕ × ℕ
rem_2 m sum ptr do_it =
    let (sum', cf) = add_word m ptr sum false in
    if do_it then ((adc_edx sum' cf).0, ptr + 2) else (sum, ptr)

unfoldable pub finish_odd : Memory → ℕ → ℕ → Bool → ℕ
finish_odd m sum ptr do_it =
    let (sum', cf) = adc_dh sum (m ptr) false in if do_it then (adc_edx sum' cf).0 else sum

-- The units of eight bytes, with the carry of the last one.
unfoldable pub whole_qwords : Memory → ℕ → ℕ → ℕ → ℕ × ℕ
whole_qwords m sum ptr qwords =
    let (sum', ptr', cf) = add_qwords qwords m ptr sum false in
    if qwords == 0 then (sum, ptr) else ((adc_edx sum' cf).0, ptr')

unfoldable pub checksum_1 : Memory → ℕ → ℕ → ℕ → ℕ
checksum_1 m sum ptr length =
    let cf_odd = not (bit_and length 1 == 0) in
    let words = length >>> 1 in
    let cf_2 = not (bit_and words 1 == 0) in
    let dwords = words >>> 1 in
    let cf_4 = not (bit_and dwords 1 == 0) in
    let (sum8, ptr8) = whole_qwords m sum ptr (dwords >>> 1) in
    let (sum4, ptr4) = rem_4 m sum8 ptr8 cf_4 in
    let (sum2, ptr2) = rem_2 m sum4 ptr4 cf_2 in
    let (sum2', ptr2') = rem_2 m sum ptr cf_2 in
    if words == 0
    then finish_odd m sum ptr cf_odd
    else if dwords == 0
    then finish_odd m sum2' ptr2' cf_odd
    else finish_odd m sum2 ptr2 cf_odd

-- `rotate_left(8)` on a u16.
abbrev pub swap_bytes : ℕ → ℕ
swap_bytes x = x % 2 ^ 8 * 2 ^ 8 + x / 2 ^ 8

unfoldable pub checksum_2 : ℕ → ℕ
checksum_2 sum =
    let edx = bit_and sum 0xffff + (sum >>> 16) in
    let dx = u16 (u16 edx + u16 (edx >>> 16)) in
    let dx' = if dx == 0 then bit_not 16 dx - 1 else bit_not 16 dx in swap_bytes dx'
