-- ===== src/Utf/Decode.antt =====
-- The decoder on the bytes of one unit.
use kolibri_os_reloaded.Base.{
  ℕ, suc, ◌+◌, ◌-◌, ◌*◌, ◌/◌, ◌%◌, ◌^◌, ◌≤◌, ◌<◌, bit_and, bit_or, ◌≡◌, refl, ◌∙◌, arith, Option,
  some, true, false, not, ◌==◌, if◌then◌else◌, u8, u16, u32, ◌<<<◌, ◌>>>◌,
}
use kolibri_os_reloaded.Base.Bits.{bit_not}
use kolibri_os_reloaded.Base.Memory.{Memory}
use kolibri_os_reloaded.Base.Fields.{
  bit_and_mask, bit_or_split, bit_or-zero, bit_or_above, bit_and_bit,
}
use kolibri_os_reloaded.Base.Fields.{
  low_byte_cleared, low_half_cleared, second_byte_cleared, with_low,
}
use kolibri_os_reloaded.Utf.{shl_al_cf, with_al, with_ax, got, is_ascii, gather, utf8to16_ptr}

-- A register with a byte, and with a half, put in.
with_al_lem : (x al : ℕ) → x < 2 ^ 32 → al < 256 → with_al x al ≡ x / 256 * 256 + al
with_al_lem x al h k = rw (low_byte_cleared x h) (with_low 8 (x / 256) al k)

pub with_ax_lem : (x ax : ℕ) → x < 2 ^ 32 → ax < 65536 → with_ax x ax ≡ x / 65536 * 65536 + ax
with_ax_lem x ax h k = rw (low_half_cleared x h) (with_low 16 (x / 65536) ax k)

with_ah_lem :
    (x ah : ℕ)
    → x < 2 ^ 32
    → ah < 256
    → bit_or (bit_and x (bit_not 32 0xff00)) (ah * 2 ^ 8) ≡ x / 65536 * 65536 + ah * 256 + x % 256
with_ah_lem x ah h k =
    let split = bit_or_split 16 (x / 65536) 0 (x % 256) (ah * 2 ^ 8) (omega arith) (omega arith) in
    let whole : 2 ^ 16 * (x / 65536) + x % 256 ≡ x / 65536 * 65536 + x % 256 = omega arith in
    let part : 2 ^ 16 * 0 + ah * 2 ^ 8 ≡ ah * 2 ^ 8 = omega arith in
    rw (second_byte_cleared x h) (
      rw (whole, part, (bit_or-zero (x / 65536)).0, bit_or_above 8 ah (x % 256) (omega arith)) at
        split
      ∙ omega arith)

shl_2_lem : (al : ℕ) → al < 256 → shl_al_cf al 2 ≡ (al * 4 % 256, al / 64 % 2 == 1)
unfolding shl_al_cf
shl_2_lem al h = rw (bit_and_mask 1 (al / 64)) refl

is_ascii_low : (x : ℕ) → x % 256 < 128 → is_ascii x ≡ true
is_ascii_low x h =
    let clear : 2 ^ 7 * (x % 256 / 2 ^ 7 % 2) ≡ 0 = omega arith in
    rw (bit_and_bit 7 (x % 256), clear) refl

is_ascii_high : (x : ℕ) → 128 ≤ x % 256 → is_ascii x ≡ false
is_ascii_high x h =
    let set : 2 ^ 7 * (x % 256 / 2 ^ 7 % 2) ≡ 128 = omega arith in
    rw (bit_and_bit 7 (x % 256), set) refl

-- A byte below 128 is the unit.
pub decode_1byte :
    (fuel : ℕ) (m : Memory) (esi eax : ℕ)
    → eax < 2 ^ 32
    → m esi < 128
    → utf8to16_ptr (suc fuel) m esi eax ≡ some (eax / 65536 * 65536 + m esi, esi + 1)
unfolding utf8to16_ptr
decode_1byte fuel m esi eax h k =
    let x : ℕ = eax / 256 * 256 + m esi in
    let ascii = is_ascii_low x (omega arith) in
    let result : x / 65536 * 65536 + x % 256 ≡ eax / 65536 * 65536 + m esi = omega arith in
    rw (with_al_lem eax (m esi) h (omega arith), ascii, second_byte_cleared x (omega arith), result)
      refl

-- A lead byte goes into the register, moved up by two bits.
pub lead_step :
    (fuel : ℕ) (m : Memory) (esi eax : ℕ)
    → eax < 2 ^ 32
    → 192 ≤ m esi
    → m esi < 256
    → utf8to16_ptr (suc fuel) m esi eax
      ≡ gather fuel m (esi + 1) (eax / 256 * 256 + m esi * 4 % 256)
unfolding utf8to16_ptr
lead_step fuel m esi eax h l k =
    let x : ℕ = eax / 256 * 256 + m esi in
    let byte : x % 256 ≡ m esi = omega arith in
    let lead : ((m esi / 64 % 2 == 1) ≡ true) = ground arith in
    let top : x / 256 * 256 + m esi * 4 % 256 ≡ eax / 256 * 256 + m esi * 4 % 256 = omega arith in
    rw
      (
        with_al_lem eax (m esi) h k,
        is_ascii_high x (omega arith),
        byte,
        shl_2_lem (m esi) k,
        lead,
        with_al_lem x (m esi * 4 % 256) (omega arith) (omega arith),
        top,
      )
      refl

-- A continuation byte: the registers up to the test of bit 13.
first_byte_in :
    (x b : ℕ)
    → x < 2 ^ 32
    → b < 256
    → with_al (with_ax x (u16 (u16 x <<< 8))) b ≡ x / 65536 * 65536 + x % 256 * 256 + b
first_byte_in x b h k =
    let half : x % 65536 * 2 ^ 8 % 2 ^ 16 ≡ x % 256 * 256 = omega arith in
    let y : ℕ = x / 65536 * 65536 + x % 256 * 256 in
    rw (half, with_ax_lem x (x % 256 * 256) h (omega arith), with_al_lem y b (omega arith) k)
      (omega arith)

-- What is left of a round once the continuation byte is in the register.
unfoldable after_first : ℕ → Memory → ℕ → ℕ → Option (ℕ × ℕ)
after_first fuel m esi eax3 =
    let eax4 = with_ax eax3 (u16 (u16 eax3 <<< 3)) in
    let eax7 = with_al (u32 (eax4 <<< 3)) (m (esi + 1)) in
    let (al5, cf_again) = shl_al_cf (u8 eax7) 2 in
    let eax8 = with_al eax7 al5 in
    if not (bit_and (u16 eax3 >>> 13) 1 == 1)
    then some (with_ax eax4 (u16 eax4 >>> 5), esi + 1)
    else if is_ascii eax7
    then some (got eax7 (esi + 2))
    else if cf_again
    then gather fuel m (esi + 2) eax8
    else some (eax8 >>> 2, esi + 2)

gather_first :
    (fuel : ℕ) (m : Memory) (esi x : ℕ)
    → x < 2 ^ 32
    → 128 ≤ m esi
    → m esi < 192
    → gather (suc fuel) m esi x
      ≡ after_first fuel m esi (x / 65536 * 65536 + x % 256 / 4 * 256 + (m esi - 128) * 4)
unfolding gather after_first
gather_first fuel m esi x h l k =
    let y1 : ℕ = x / 65536 * 65536 + x % 256 * 256 + m esi in
    let y2 : ℕ = x / 65536 * 65536 + x % 256 * 256 + (m esi - 128) * 4 in
    let byte : y1 % 256 ≡ m esi = omega arith in
    let shifted : m esi * 4 % 256 ≡ (m esi - 128) * 4 = omega arith in
    let no_more : ((m esi / 64 % 2 == 1) ≡ false) = ground arith in
    let second : y1 / 256 * 256 + (m esi - 128) * 4 ≡ y2 = omega arith in
    let ah : y2 / 2 ^ 8 % 2 ^ 8 / 2 ^ 2 ≡ x % 256 / 4 = omega arith in
    let third : y2 / 65536 * 65536 + x % 256 / 4 * 256 + y2 % 256
        ≡ x / 65536 * 65536 + x % 256 / 4 * 256 + (m esi - 128) * 4 =
      omega arith in
    rw
      (
        first_byte_in x (m esi) h (omega arith),
        is_ascii_high y1 (omega arith),
        byte,
        shl_2_lem (m esi) (omega arith),
        no_more,
        shifted,
        with_al_lem y1 ((m esi - 128) * 4) (omega arith) (omega arith),
        second,
        ah,
        with_ah_lem y2 (x % 256 / 4) (omega arith) (omega arith),
        third,
      )
      refl

-- The last byte of a unit of two bytes.
pub gather_2byte :
    (fuel : ℕ) (m : Memory) (esi x : ℕ)
    → x < 2 ^ 32
    → x % 256 < 128
    → 128 ≤ m esi
    → m esi < 192
    → gather (suc fuel) m esi x
      ≡ some (x / 65536 * 65536 + x % 256 / 4 * 64 + (m esi - 128), esi + 1)
unfolding after_first
gather_2byte fuel m esi x h low l k =
    let low_part : ℕ = x % 256 / 4 * 256 + (m esi - 128) * 4 in
    let y3 : ℕ = x / 65536 * 65536 + x % 256 / 4 * 256 + (m esi - 128) * 4 in
    let y4 : ℕ = x / 65536 * 65536 + low_part * 8 in
    let clear : y3 % 2 ^ 16 / 2 ^ 13 % 2 ^ 1 ≡ 0 = omega arith in
    let shift : y3 % 2 ^ 16 * 2 ^ 3 % 2 ^ 16 ≡ low_part * 8 = omega arith in
    let fourth : y3 / 65536 * 65536 + low_part * 8 ≡ y4 = omega arith in
    let back : y4 % 2 ^ 16 / 2 ^ 5 ≡ x % 256 / 4 * 64 + (m esi - 128) = omega arith in
    let last : y4 / 65536 * 65536 + (x % 256 / 4 * 64 + (m esi - 128))
        ≡ x / 65536 * 65536 + x % 256 / 4 * 64 + (m esi - 128) =
      omega arith in
    rw
      (
        gather_first fuel m esi x h l k,
        bit_and_mask 1 (y3 % 2 ^ 16 / 2 ^ 13),
        clear,
        shift,
        with_ax_lem y3 (low_part * 8) (omega arith) (omega arith),
        fourth,
        back,
        with_ax_lem y4 (x % 256 / 4 * 64 + (m esi - 128)) (omega arith) (omega arith),
        last,
      )
      refl

-- The second and the last byte of a unit of three bytes; high bits that the register came with are
-- left above bit 16.
pub gather_3byte :
    (fuel : ℕ) (m : Memory) (esi x : ℕ)
    → x < 2 ^ 32
    → 128 ≤ x % 256
    → x % 256 < 192
    → 128 ≤ m esi
    → m esi < 192
    → 128 ≤ m (esi + 1)
    → m (esi + 1) < 192
    → (e : ℕ) × (gather (suc fuel) m esi x ≡ some (e, esi + 2))
      × (e % 65536 ≡ (x % 256 / 4 - 32) * 4096 + (m esi - 128) * 64 + (m (esi + 1) - 128))
unfolding after_first
gather_3byte fuel m esi x h low high l k l' k' =
    let y3 : ℕ = x / 65536 * 65536 + x % 256 / 4 * 256 + (m esi - 128) * 4 in
    let part : ℕ = (x % 256 / 4 - 32) * 2048 + (m esi - 128) * 32 in
    let y4 : ℕ = x / 65536 * 65536 + part in
    let y6 : ℕ = y4 * 8 % 2 ^ 32 in
    let y7 : ℕ = y6 / 256 * 256 + m (esi + 1) in
    let set : y3 % 2 ^ 16 / 2 ^ 13 % 2 ^ 1 ≡ 1 = omega arith in
    let shift : y3 % 2 ^ 16 * 2 ^ 3 % 2 ^ 16 ≡ part = omega arith in
    let fourth : y3 / 65536 * 65536 + part ≡ y4 = omega arith in
    let byte : y7 % 256 ≡ m (esi + 1) = omega arith in
    let shifted : m (esi + 1) * 4 % 256 ≡ (m (esi + 1) - 128) * 4 = omega arith in
    let no_more : ((m (esi + 1) / 64 % 2 == 1) ≡ false) = ground arith in
    (
      (y7 / 256 * 256 + (m (esi + 1) - 128) * 4) / 4,
      rw
          (
            gather_first fuel m esi x h l k,
            bit_and_mask 1 (y3 % 2 ^ 16 / 2 ^ 13),
            set,
            shift,
            with_ax_lem y3 part (omega arith) (omega arith),
            fourth,
            with_al_lem y6 (m (esi + 1)) (omega arith) (omega arith),
            is_ascii_high y7 (omega arith),
            byte,
            shl_2_lem (m (esi + 1)) (omega arith),
            no_more,
            shifted,
            with_al_lem y7 ((m (esi + 1) - 128) * 4) (omega arith) (omega arith),
          )
          refl,
      omega arith,
    )
