-- ===== src/Checksum/Words.antt =====
-- One word more in the register, as arithmetic.
use kolibri_os_reloaded.Base.{
  ℕ, ◌+◌, ◌*◌, ◌/◌, ◌%◌, ◌^◌, ◌<◌, bit_and, ◌≡◌, refl, ◌∙◌, arith, Bool, false, ltb,
}
use kolibri_os_reloaded.Base.Bits.{bit_not}
use kolibri_os_reloaded.Base.Memory.{Memory, IsBytes}
use kolibri_os_reloaded.Base.Fields.{
  bit_and_mask, bit_or_fields, bit_or_split, bit_or-zero, bit_or_above, low_byte_cleared,
  second_byte_cleared,
}
use kolibri_os_reloaded.Checksum.{carry, add_dl, adc_dh, add_word}

high_byte_cleared :
    (sum : ℕ) → sum < 2 ^ 32 → bit_and sum (bit_not 32 0xff00) ≡ 2 ^ 16 * (sum / 65536) + sum % 256
high_byte_cleared sum h = second_byte_cleared sum h ∙ omega arith

add_dl_lem :
    (sum byte : ℕ) (c : Bool)
    → sum < 2 ^ 32
    → byte < 256
    → add_dl sum byte c
      ≡ (sum / 256 * 256 + (sum % 256 + byte + carry c) % 256, ltb 255 (sum % 256 + byte + carry c))
unfolding add_dl
add_dl_lem sum byte c h k =
    let low : sum / 256 * 256 ≡ 2 ^ 8 * (sum / 256) = omega arith in
    rw
      (
        low_byte_cleared sum h,
        bit_and_mask 8 sum,
        low,
        bit_or_fields 8 (sum / 256) ((sum % 256 + byte + carry c) % 256) (omega arith),
      )
      refl

adc_dh_lem :
    (sum byte : ℕ) (c : Bool)
    → sum < 2 ^ 32
    → byte < 256
    → adc_dh sum byte c ≡ (
      2 ^ 16 * (sum / 65536) + (sum % 256 + (sum / 256 % 256 + byte + carry c) % 256 * 2 ^ 8),
      ltb 255 (sum / 256 % 256 + byte + carry c),
    )
unfolding adc_dh
adc_dh_lem sum byte c h k =
    let t : ℕ = (sum / 256 % 256 + byte + carry c) % 256 in
    let joined =
      bit_or_split 16 (sum / 65536) 0 (sum % 256) (t * 2 ^ 8) (omega arith) (omega arith) in
    let high : 2 ^ 16 * 0 + t * 2 ^ 8 ≡ t * 2 ^ 8 = omega arith in
    let joined' =
      rw (high, (bit_or-zero (sum / 65536)).0, bit_or_above 8 t (sum % 256) (omega arith)) at
        joined in
    rw (high_byte_cleared sum h, bit_and_mask 8 (sum / 256), joined') refl

-- A word in the low half: the high half stays, and the carry is what does not fit.
pub add_word_lem :
    (m : Memory) (p sum : ℕ) (c : Bool)
    → IsBytes m
    → sum < 2 ^ 32
    → ((add_word m p sum c).0 + 65536 * carry (add_word m p sum c).1
        ≡ sum + 256 * m p + m (p + 1) + carry c)
      × ((add_word m p sum c).0 / 65536 ≡ sum / 65536)
unfolding add_word
add_word_lem m p sum c bytes h =
    let dl = add_dl_lem sum (m (p + 1)) c h (bytes (p + 1)) in
    let low : ℕ = sum / 256 * 256 + (sum % 256 + m (p + 1) + carry c) % 256 in
    let dh =
      adc_dh_lem low (m p) (ltb 255 (sum % 256 + m (p + 1) + carry c)) (omega arith) (bytes p) in
    rw (dl, dh) (ground (arith, bytes p, bytes (p + 1)))

-- The odd byte is the high half of a word.
pub adc_dh_word :
    (sum byte : ℕ)
    → sum < 2 ^ 32
    → byte < 256
    → ((adc_dh sum byte false).0 + 65536 * carry (adc_dh sum byte false).1 ≡ sum + 256 * byte)
      × ((adc_dh sum byte false).0 / 65536 ≡ sum / 65536)
adc_dh_word sum byte h k = rw (adc_dh_lem sum byte false h k) (ground arith)
