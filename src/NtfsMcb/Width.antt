-- ===== src/NtfsMcb/Width.antt =====
-- The widths of a run's length and start, and what the bytes of that width say of the number.
use kolibri_os_reloaded.Base.{
  ℕ, ◌+◌, ◌-◌, ◌*◌, ◌^◌, ◌≤◌, ◌<◌, bit_and, bit_or, ◌≡◌, ◌⊎◌, inl, inr, refl, ◌∙◌, arith, some,
  true, false, ltb, ◌==◌, Bool-cases, if◌then◌else◌, u32, ◌<<<◌,
}
use native.Mathlib.Decide.{dec_lt}
use kolibri_os_reloaded.Base.Bits.{bit_not}
use kolibri_os_reloaded.Base.Memory.{Memory, IsBytes}
use kolibri_os_reloaded.Base.Fields.{bit_or_above, bit_and_bit}
use kolibri_os_reloaded.NtfsMcb.{count_bytes, mcb_start_width, mcb_size_width, high_bytes}
use kolibri_os_reloaded.NtfsMcb.Bytes.{le_value}

-- A width of one to four bytes.
pub data IsWidth : ℕ → Type 0 where
  one : IsWidth 1
  two : IsWidth 2
  three : IsWidth 3
  four : IsWidth 4

abbrev pub width : ℕ → ℕ
width x = if ltb x 256 then 1 else if ltb x 65536 then 2 else if ltb x 16777216 then 3 else 4

count_bytes_lem : (x : ℕ) → x < 2 ^ 32 → count_bytes 4 x 0 ≡ some (width x)
unfolding count_bytes
count_bytes_lem x h = ground arith

-- A number fits the bytes of its width with its sign bit clear.
pub record IsSizeWidth (size w : ℕ) : Type 0 where
  pub kind : IsWidth w
  pub fits : 2 * size < 2 ^ (8 * w)

width-IsWidth : (x : ℕ) → IsWidth (width x)
width-IsWidth x = elim (Bool-cases (ltb x 256)) [
  | inl a ↦ rw a one
  | inr a ↦ elim (Bool-cases (ltb x 65536)) [
    | inl b ↦ rw (a, b) two
    | inr b ↦ elim (Bool-cases (ltb x 16777216)) [
      | inl c ↦ rw (a, b, c) three
      | inr c ↦ rw (a, b, c) four
    ]
  ]
]

width-fits : (x : ℕ) → x < 2 ^ 32 → x < 2 ^ (8 * width x)
width-fits x h = ground arith

-- The width of a length below 2^31.
pub mcb_size_width_lem :
    (size : ℕ) → size < 2 ^ 31 → (w : ℕ) × (mcb_size_width size ≡ some w) × IsSizeWidth size w
unfolding mcb_size_width
mcb_size_width_lem size h = (
  width (2 * size),
  (let whole : u32 (size <<< 1) ≡ 2 * size = omega arith in
      rw whole (count_bytes_lem (2 * size) (omega arith))),
  record { kind = width-IsWidth (2 * size); fits = width-fits (2 * size) (omega arith) },
)

-- The bytes of a start: `low` is the number in them, and with the sign of its top bit it is `start`.
pub record IsStartWidth (start w : ℕ) : Type 0 where
  pub kind : IsWidth w
  pub low : ℕ
  pub high : ℕ
  pub whole : start ≡ low + high * 2 ^ (8 * w)
  pub low_fits : low < 2 ^ (8 * w)
  pub signed :
      ((start < 2 ^ 31) × (low ≡ start) × (2 * low < 2 ^ (8 * w)))
      ⊎ ((2 ^ 31 ≤ start) × (start + 2 ^ (8 * w) ≡ low + 2 ^ 32) × (2 ^ (8 * w) ≤ 2 * low))

-- The start's value with its sign and without, twice.
folded : ℕ → ℕ
folded start = if ltb start (2 ^ 31) then 2 * start else 2 ^ 33 - 1 - 2 * start

positive_start :
    (start w : ℕ) → IsWidth w → start < 2 ^ 31 → 2 * start < 2 ^ (8 * w) → IsStartWidth start w
positive_start start w kind h fits = record {
  kind = kind;
  low = start;
  high = 0;
  whole = omega arith;
  low_fits = omega arith;
  signed = inl (h, refl, fits);
}

negative_start :
    (start w : ℕ)
    → IsWidth w
    → 2 ^ 31 ≤ start
    → start < 2 ^ 32
    → 2 ^ 33 - 1 - 2 * start < 2 ^ (8 * w)
    → IsStartWidth start w
negative_start start _ one h k fits = record {
  kind = one;
  low = start + 256 - 2 ^ 32;
  high = 2 ^ 24 - 1;
  whole = omega arith;
  low_fits = omega arith;
  signed = inr (h, omega arith, omega arith);
}
negative_start start _ two h k fits = record {
  kind = two;
  low = start + 65536 - 2 ^ 32;
  high = 2 ^ 16 - 1;
  whole = omega arith;
  low_fits = omega arith;
  signed = inr (h, omega arith, omega arith);
}
negative_start start _ three h k fits = record {
  kind = three;
  low = start + 2 ^ 24 - 2 ^ 32;
  high = 255;
  whole = omega arith;
  low_fits = omega arith;
  signed = inr (h, omega arith, omega arith);
}
negative_start start _ four h k fits = record {
  kind = four;
  low = start;
  high = 0;
  whole = omega arith;
  low_fits = omega arith;
  signed = inr (h, omega arith, omega arith);
}

-- The width of any start.
pub mcb_start_width_lem :
    (start : ℕ) → start < 2 ^ 32 → (w : ℕ) × (mcb_start_width start ≡ some w) × IsStartWidth start w
unfolding mcb_start_width
mcb_start_width_lem start h = elim (dec_lt start (2 ^ 31)) [
  | yes small ↦
      (let top : (bit_and start 0x80000000 == 0) ≡ true = ground (arith, bit_and_bit 31 start) in
        let shifted : u32 (start <<< 1) ≡ 2 * start = omega arith in
        (
          width (2 * start),
          rw (top, shifted) (count_bytes_lem (2 * start) (omega arith)),
          positive_start start _ (width-IsWidth (2 * start)) small
              (width-fits (2 * start) (omega arith)),
        ))
  | no large ↦
      (let top : (bit_and start 0x80000000 == 0) ≡ false = ground (arith, bit_and_bit 31 start) in
        let shifted : bit_not 32 (u32 (start <<< 1)) ≡ 2 ^ 33 - 1 - 2 * start = omega arith in
        (
          width (2 ^ 33 - 1 - 2 * start),
          rw (top, shifted) (count_bytes_lem (2 ^ 33 - 1 - 2 * start) (omega arith)),
          negative_start start _ (width-IsWidth (2 ^ 33 - 1 - 2 * start)) (omega arith) h
              (width-fits (2 ^ 33 - 1 - 2 * start) (omega arith)),
        ))
]

-- The top bit of the last byte.
pub last_byte :
    (m : Memory) (p w : ℕ)
    → IsWidth w
    → IsBytes m
    → ((2 * le_value m p w < 2 ^ (8 * w)) × (m (p + w - 1) < 128))
      ⊎ ((2 ^ (8 * w) ≤ 2 * le_value m p w) × (128 ≤ m (p + w - 1)))
unfolding le_value
last_byte m p _ one bytes =
    let last : p + 1 - 1 ≡ p = omega arith in rw last (ground (arith, bytes p))
last_byte m p _ two bytes =
    let last : p + 2 - 1 ≡ p + 1 = omega arith in rw last (ground (arith, bytes p, bytes (p + 1)))
last_byte m p _ three bytes =
    let last : p + 3 - 1 ≡ p + 1 + 1 = omega arith in
    rw last (ground (arith, bytes p, bytes (p + 1), bytes (p + 1 + 1)))
last_byte m p _ four bytes =
    let last : p + 4 - 1 ≡ p + 1 + 1 + 1 = omega arith in
    rw last (ground (arith, bytes p, bytes (p + 1), bytes (p + 1 + 1), bytes (p + 1 + 1 + 1)))

-- A u32 pattern read as an i32, as a u64 pattern.
abbrev pub sign_extend : ℕ → ℕ
sign_extend start = if ltb start (2 ^ 31) then start else start + 2 ^ 64 - 2 ^ 32

pub or_high :
    (low w : ℕ)
    → IsWidth w
    → low < 2 ^ (8 * w)
    → bit_or low (high_bytes w) ≡ low + 2 ^ 64 - 2 ^ (8 * w)
or_high low _ one h = bit_or_above 8 (2 ^ 56 - 1) low h ∙ omega arith
or_high low _ two h = bit_or_above 16 (2 ^ 48 - 1) low h ∙ omega arith
or_high low _ three h = bit_or_above 24 (2 ^ 40 - 1) low h ∙ omega arith
or_high low _ four h = bit_or_above 32 (2 ^ 32 - 1) low h ∙ omega arith

pub width-lt : (w : ℕ) → IsWidth w → (0 < w) × (w < 5)
width-lt _ one = omega arith
width-lt _ two = omega arith
width-lt _ three = omega arith
width-lt _ four = omega arith
