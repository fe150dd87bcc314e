-- ===== src/Utf/RoundTrip.antt =====
-- A unit that is written and read back.
use kolibri_os_reloaded.Base.{
  ℕ, suc, ◌+◌, ◌-◌, ◌*◌, ◌/◌, ◌%◌, ◌^◌, ◌≤◌, ◌<◌, ◌≡◌, inl, inr, sym, ◌∙◌, arith, some, lt→ltb,
  ltb-false,
}
use kolibri_os_reloaded.Base.Memory.{Memory}
use kolibri_os_reloaded.Utf.{utf16_to_8, utf8to16_ptr}
use kolibri_os_reloaded.Utf.Units.{unit_length, HoldsUnit, utf16_to_8_outcome}
use kolibri_os_reloaded.Utf.Decode.{decode_1byte, lead_step, gather_2byte, gather_3byte}

-- The decoder on the bytes of a unit: the unit is in AX, whatever the register held, and the pointer
-- is behind the bytes.
utf8to16_ptr-HoldsUnit :
    (fuel : ℕ) (m : Memory) (p c eax : ℕ)
    → c < 2 ^ 16
    → eax < 2 ^ 32
    → HoldsUnit m p c
    → (e : ℕ) × (utf8to16_ptr (suc (suc fuel)) m p eax ≡ some (e, p + unit_length c))
      × (e % 65536 ≡ c)
unfolding HoldsUnit
utf8to16_ptr-HoldsUnit fuel m p c eax hc h (inl (small, byte)) =
    rw (lt→ltb c 0x80 small)
      (eax / 65536 * 65536 + m p, decode_1byte (suc fuel) m p eax h (omega arith), omega arith)
utf8to16_ptr-HoldsUnit fuel m p c eax hc h (inr (inl (l, k, b0, b1))) =
    let x : ℕ = eax / 256 * 256 + m p * 4 % 256 in
    let two : p + 1 + 1 ≡ p + 2 = omega arith in
    let step =
      gather_2byte fuel m (p + 1) x (omega arith) (omega arith) (omega arith) (omega arith) in
    rw (ltb-false c 0x80 l, lt→ltb c 0x800 k)
      (
        x / 65536 * 65536 + x % 256 / 4 * 64 + (m (p + 1) - 128),
        rw two at (lead_step (suc fuel) m p eax h (omega arith) (omega arith) ∙ step),
        omega arith,
      )
utf8to16_ptr-HoldsUnit fuel m p c eax hc h (inr (inr (l, b0, b1, b2))) =
    let x : ℕ = eax / 256 * 256 + m p * 4 % 256 in
    let two : p + 1 + 1 ≡ p + 2 = omega arith in
    let three : p + 1 + 2 ≡ p + 3 = omega arith in
    let b2' = rw (sym two) at b2 in
    let (e, step, value) =
      gather_3byte fuel m (p + 1) x (omega arith) (omega arith) (omega arith) (omega arith)
        (omega arith) (omega (arith, b2')) (omega (arith, b2')) in
    rw (ltb-false c 0x80 (omega arith), ltb-false c 0x800 l)
      (
        e,
        rw three at (lead_step (suc fuel) m p eax h (omega arith) (omega arith) ∙ step),
        value ∙ omega (arith, b2'),
      )

-- Every UTF-16 unit, surrogates too, that is written with enough room is read back as itself in two
-- rounds, with the pointer behind its bytes and whatever the decoder's register held before.
pub utf8to16_ptr-utf16_to_8 :
    (m : Memory) (c dest n eax fuel : ℕ)
    → c < 2 ^ 16
    → unit_length c ≤ n
    → n < 2 ^ 31
    → eax < 2 ^ 32
    → (e : ℕ) × (utf8to16_ptr (suc (suc fuel)) (utf16_to_8 m c dest n).0 dest eax
        ≡ some (e, dest + (utf16_to_8 m c dest n).1.edi_delta))
      × (e % 65536 ≡ c)
utf8to16_ptr-utf16_to_8 m c dest n eax fuel hc room hn h =
    elim (utf16_to_8_outcome m c dest n hc hn) [
      | inl (_, ok, delta, left, bytes, frame) ↦
          rw delta (utf8to16_ptr-HoldsUnit fuel (utf16_to_8 m c dest n).0 dest c eax hc h bytes)
      | inr (short, _, _, _, _, _) ↦ absurd (omega arith)
    ]
