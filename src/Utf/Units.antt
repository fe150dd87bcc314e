-- ===== src/Utf/Units.antt =====
-- A call for one unit: the room that it needs and what it writes.
use kolibri_os_reloaded.Base.{
  ℕ, zero, suc, ◌+◌, ◌-◌, ◌*◌, ◌/◌, ◌%◌, ◌^◌, ◌≤◌, ◌<◌, ◌≡◌, ◌⊎◌, inl, inr, refl, ◌∙◌, arith, true,
  false, ltb, lt→ltb, ltb-false, if◌then◌else◌,
}
use native.Mathlib.Decide.{dec_lt}
use kolibri_os_reloaded.Base.Memory.{Memory, store_u8, store_u8_same, store_u8_other}
use kolibri_os_reloaded.Base.Fields.{bit_and_bit}
use kolibri_os_reloaded.Utf.{
  Utf16To8Result, dec_ecx, no_room, stored_1byte, stored_2byte, stored_3byte, utf16_to_8,
}
use kolibri_os_reloaded.Utf.Encode.{encode_2byte_lem, encode_3byte_lem}

abbrev pub unit_length : ℕ → ℕ
unit_length c = if ltb c 0x80 then 1 else if ltb c 0x800 then 2 else 3

dec_ecx_positive : (n : ℕ) → 0 < n → n < 2 ^ 31 → dec_ecx n ≡ (n - 1, false)
unfolding dec_ecx
dec_ecx_positive n p h =
    let less : (n + 2 ^ 32 - 1) % 2 ^ 32 ≡ n - 1 = omega arith in
    let clear : 2 ^ 31 * ((n - 1) / 2 ^ 31 % 2) ≡ 0 = omega arith in
    rw (less, bit_and_bit 31 (n - 1), clear) refl

dec_ecx_zero : dec_ecx 0 ≡ (2 ^ 32 - 1, true)
unfolding dec_ecx
dec_ecx_zero = refl

-- Room for the unit: the end is the one that its size asks for.
enough_1byte :
    (m : Memory) (c dest n : ℕ)
    → c < 0x80
    → 0 < n
    → n < 2 ^ 31
    → utf16_to_8 m c dest n ≡ stored_1byte m dest c (n - 1)
unfolding utf16_to_8
enough_1byte m c dest n h p k = rw (dec_ecx_positive n p k, lt→ltb c 0x80 h) refl

enough_2byte :
    (m : Memory) (c dest n : ℕ)
    → 0x80 ≤ c
    → c < 0x800
    → 1 < n
    → n < 2 ^ 31
    → utf16_to_8 m c dest n ≡ stored_2byte m dest c (n - 1 - 1)
unfolding utf16_to_8
enough_2byte m c dest n l h p k =
    rw
      (
        dec_ecx_positive n (omega arith) k,
        dec_ecx_positive (n - 1) (omega arith) (omega arith),
        ltb-false c 0x80 l,
        lt→ltb c 0x800 h,
      )
      refl

enough_3byte :
    (m : Memory) (c dest n : ℕ)
    → 0x800 ≤ c
    → 2 < n
    → n < 2 ^ 31
    → utf16_to_8 m c dest n ≡ stored_3byte m dest c (n - 1 - 1 - 1)
unfolding utf16_to_8
enough_3byte m c dest n l p k =
    rw
      (
        dec_ecx_positive n (omega arith) k,
        dec_ecx_positive (n - 1) (omega arith) (omega arith),
        dec_ecx_positive (n - 1 - 1) (omega arith) (omega arith),
        ltb-false c 0x80 (omega arith),
        ltb-false c 0x800 l,
      )
      refl

too_little :
    (m : Memory) (c dest n : ℕ)
    → n < unit_length c
    → utf16_to_8 m c dest n ≡ no_room m c (2 ^ 32 - 1)
unfolding utf16_to_8
too_little m c dest zero h = rw dec_ecx_zero refl
too_little m c dest (suc zero) h =
    let large : ltb c 0x80 ≡ false = ground arith in
    rw (dec_ecx_positive 1 (omega arith) (omega arith), large, dec_ecx_zero) refl
too_little m c dest (suc (suc zero)) h =
    let large : ltb c 0x80 ≡ false = ground arith in
    let larger : ltb c 0x800 ≡ false = ground arith in
    rw
      (
        dec_ecx_positive 2 (omega arith) (omega arith),
        large,
        dec_ecx_positive 1 (omega arith) (omega arith),
        larger,
        dec_ecx_zero,
      )
      refl
too_little m c dest (suc (suc (suc n))) h = absurd (ground arith)

-- The UTF-8 bytes of a unit in memory.
unfoldable pub HoldsUnit : Memory → ℕ → ℕ → Type 0
HoldsUnit m dest c =
    ((c < 0x80) × (m dest ≡ c))
    ⊎ ((0x80 ≤ c) × (c < 0x800) × (m dest ≡ c / 64 + 192) × (m (dest + 1) ≡ c % 64 + 128))
    ⊎ ((0x800 ≤ c)
        × (m dest ≡ c / 4096 + 224)
        × (m (dest + 1) ≡ c / 64 % 64 + 128)
        × (m (dest + 2) ≡ c % 64 + 128))

-- The outcome of a call.
abbrev UnitOutcome : Memory → ℕ → ℕ → ℕ → Memory × Utf16To8Result → Type 0
UnitOutcome m c dest n (m', r) =
    ((unit_length c ≤ n)
      × (r.sf ≡ 0)
      × (r.edi_delta ≡ unit_length c)
      × (r.ecx + unit_length c ≡ n)
      × HoldsUnit m' dest c
      × ((a : ℕ) → (a < dest) ⊎ (dest + unit_length c ≤ a) → m' a ≡ m a))
    ⊎ ((n < unit_length c)
        × (r.sf ≡ 1)
        × (r.edi_delta ≡ 0)
        × (r.ecx ≡ 2 ^ 32 - 1)
        × (r.eax ≡ c)
        × (m' ≡ m))

short_end :
    (m : Memory) (c dest n : ℕ)
    → n < unit_length c
    → UnitOutcome m c dest n (no_room m c (2 ^ 32 - 1))
unfolding no_room
short_end m c dest n h = inr (h, refl, refl, refl, refl, refl)

one_end :
    (m : Memory) (c dest n : ℕ)
    → c < 0x80
    → 0 < n
    → UnitOutcome m c dest n (stored_1byte m dest c (n - 1))
unfolding stored_1byte HoldsUnit
one_end m c dest n h k =
    let same : c % 256 ≡ c = omega arith in
    rw (lt→ltb c 0x80 h, same)
      (inl (
        omega arith,
        refl,
        refl,
        omega arith,
        inl (h, store_u8_same m dest c),
        λ a out. store_u8_other m dest c a (ground arith),
      ))

two_end :
    (m : Memory) (c dest n : ℕ)
    → 0x80 ≤ c
    → c < 0x800
    → 1 < n
    → UnitOutcome m c dest n (stored_2byte m dest c (n - 1 - 1))
unfolding stored_2byte HoldsUnit
two_end m c dest n l h k =
    let first = store_u8 m dest (c / 64 + 192) in
    rw (ltb-false c 0x80 l, lt→ltb c 0x800 h, encode_2byte_lem c h)
      (inl (
        omega arith,
        refl,
        refl,
        omega arith,
        inr (
            inl (
              l,
              h,
              store_u8_other first (dest + 1) (c % 64 + 128) dest (λ e. omega arith)
                  ∙ store_u8_same m dest (c / 64 + 192),
              store_u8_same first (dest + 1) (c % 64 + 128),
            )),
        λ a out.
            store_u8_other first (dest + 1) (c % 64 + 128) a (ground arith)
            ∙ store_u8_other m dest (c / 64 + 192) a (ground arith),
      ))

three_end :
    (m : Memory) (c dest n : ℕ)
    → 0x800 ≤ c
    → c < 2 ^ 16
    → 2 < n
    → UnitOutcome m c dest n (stored_3byte m dest c (n - 1 - 1 - 1))
unfolding stored_3byte HoldsUnit
three_end m c dest n l h k =
    let first = store_u8 m dest (c / 4096 + 224) in
    let second = store_u8 first (dest + 1) (c / 64 % 64 + 128) in
    rw (ltb-false c 0x80 (omega arith), ltb-false c 0x800 l, encode_3byte_lem c h)
      (inl (
        omega arith,
        refl,
        refl,
        omega arith,
        inr (
            inr (
              l,
              store_u8_other second (dest + 2) (c % 64 + 128) dest (λ e. omega arith)
                  ∙ store_u8_other first (dest + 1) (c / 64 % 64 + 128) dest (λ e. omega arith)
                  ∙ store_u8_same m dest (c / 4096 + 224),
              store_u8_other second (dest + 2) (c % 64 + 128) (dest + 1) (λ e. omega arith)
                  ∙ store_u8_same first (dest + 1) (c / 64 % 64 + 128),
              store_u8_same second (dest + 2) (c % 64 + 128),
            )),
        λ a out.
            store_u8_other second (dest + 2) (c % 64 + 128) a (ground arith)
            ∙ store_u8_other first (dest + 1) (c / 64 % 64 + 128) a (ground arith)
            ∙ store_u8_other m dest (c / 4096 + 224) a (ground arith),
      ))

-- A unit is written as its UTF-8 bytes when the room, counted in `ecx`, is enough, and nothing else
-- changes; otherwise the call fails, writes nothing and leaves -1 in `ecx`.
pub utf16_to_8_outcome :
    (m : Memory) (c dest n : ℕ)
    → c < 2 ^ 16
    → n < 2 ^ 31
    → UnitOutcome m c dest n (utf16_to_8 m c dest n)
unfolding HoldsUnit
utf16_to_8_outcome m c dest n hc hn = elim (dec_lt n (unit_length c)) [
  | yes short ↦ rw (too_little m c dest n short) (short_end m c dest n short)
  | no enough ↦ elim (dec_lt c 0x80) [
    | yes one ↦
        rw (enough_1byte m c dest n one (ground arith) hn) (one_end m c dest n one (ground arith))
    | no above ↦ elim (dec_lt c 0x800) [
      | yes two ↦
          rw (enough_2byte m c dest n (omega arith) two (ground arith) hn)
            (two_end m c dest n (omega arith) two (ground arith))
      | no three ↦
          rw (enough_3byte m c dest n (omega arith) (ground arith) hn)
            (three_end m c dest n (omega arith) hc (ground arith))
    ]
  ]
]
