-- ===== src/XfsExtent/Record.antt =====
-- `xfs_extent_unpack`: the fields of a record as parts of one number of 128 bits.
use kolibri_os_reloaded.Base.{
  ℕ, ◌+◌, ◌*◌, ◌/◌, ◌%◌, ◌^◌, ◌<◌, bit_and, bit_or, ◌≡◌, refl, ◌∙◌, arith, not, ◌==◌, if◌then◌else◌,
  u32, ◌<<<◌, ◌>>>◌,
}
use kolibri_os_reloaded.Base.Memory.{Memory, IsBytes}
use kolibri_os_reloaded.Base.Fields.{bit_and_mask, bit_or_above, bit_and_bit}
use kolibri_os_reloaded.XfsHash.{load_be_u32}
use kolibri_os_reloaded.XfsExtent.{xfs_extent_unpack}

-- The record read as one big-endian number.
unfoldable pub record_number : Memory → ℕ → ℕ
record_number m rec =
    2 ^ 96 * load_be_u32 m rec
    + (2 ^ 64 * load_be_u32 m (rec + 4)
        + (2 ^ 32 * load_be_u32 m (rec + 8) + load_be_u32 m (rec + 12)))

pub load_be_u32-lt : (m : Memory) (p : ℕ) → IsBytes m → load_be_u32 m p < 2 ^ 32
unfolding load_be_u32
load_be_u32-lt m p h = omega (arith, h p, h (p + 1), h (p + 2), h (p + 3))

-- The sign bit of a word, as the test and as a quotient.
top_bit_lem : (x : ℕ) → x < 2 ^ 32 → (if not (bit_and x 0x80000000 == 0) then 1 else 0) ≡ x / 2 ^ 31
top_bit_lem x h = ground (arith, bit_and_bit 31 x)

-- A field that begins 9 or 21 bits above the foot of a word and goes on in the word before.
pub straddle_9 :
    (high low : ℕ)
    → low < 2 ^ 32
    → bit_or (low >>> 9) (u32 (high <<< 23)) ≡ (2 ^ 32 * high + low) / 2 ^ 9 % 2 ^ 32
straddle_9 high low h =
    let cut : u32 (high <<< 23) ≡ high % 2 ^ 9 * 2 ^ 23 = omega arith in
    rw cut (bit_or_above 23 (high % 2 ^ 9) (low / 2 ^ 9) (omega arith) ∙ omega arith)

straddle_21 :
    (high low : ℕ)
    → low < 2 ^ 32
    → bit_or (low >>> 21) (u32 (high <<< 11)) ≡ (2 ^ 32 * high + low) / 2 ^ 21 % 2 ^ 32
straddle_21 high low h =
    let cut : u32 (high <<< 11) ≡ high % 2 ^ 21 * 2 ^ 11 = omega arith in
    rw cut (bit_or_above 11 (high % 2 ^ 21) (low / 2 ^ 21) (omega arith) ∙ omega arith)

-- The high part of the block number, whose words are cut to 9 and 21 bits.
high_startblock :
    (high low : ℕ)
    → low < 2 ^ 32
    → bit_or (low >>> 21) (u32 (bit_and high 0x1ff <<< 11))
      ≡ (2 ^ 32 * high + low) / 2 ^ 21 % 2 ^ 20
high_startblock high low h =
    let cut : u32 (bit_and high 0x1ff <<< 11) ≡ high % 2 ^ 9 * 2 ^ 11 =
      omega (arith, bit_and_mask 9 high) in
    rw cut (bit_or_above 11 (high % 2 ^ 9) (low / 2 ^ 21) (omega arith) ∙ omega arith)

-- Two words joined.
pub join_words : (low high : ℕ) → low < 2 ^ 32 → bit_or low (high <<< 32) ≡ low + high * 2 ^ 32
join_words low high h = bit_or_above 32 high low h

-- The four words of a record, as numbers.
abbrev whole : ℕ → ℕ → ℕ → ℕ → ℕ
whole w0 w1 w2 w3 = 2 ^ 96 * w0 + (2 ^ 64 * w1 + (2 ^ 32 * w2 + w3))

startoff_lem :
    (w0 w1 w2 w3 : ℕ)
    → w0 < 2 ^ 32
    → w1 < 2 ^ 32
    → w2 < 2 ^ 32
    → w3 < 2 ^ 32
    → bit_or
        (bit_or (w1 >>> 9) (u32 (bit_and w0 0x7fffffff <<< 23)))
        (bit_and w0 0x7fffffff >>> 9 <<< 32)
      ≡ whole w0 w1 w2 w3 / 2 ^ 73 % 2 ^ 54
startoff_lem w0 w1 w2 w3 h0 h1 h2 h3 =
    rw (bit_and_mask 31 w0, straddle_9 (w0 % 2 ^ 31) w1 h1)
      (join_words ((2 ^ 32 * (w0 % 2 ^ 31) + w1) / 2 ^ 9 % 2 ^ 32) (w0 % 2 ^ 31 / 2 ^ 9)
          (omega arith)
        ∙ omega arith)

startblock_lem :
    (w0 w1 w2 w3 : ℕ)
    → w2 < 2 ^ 32
    → w3 < 2 ^ 32
    → bit_or
        (bit_or (w3 >>> 21) (u32 (w2 <<< 11)))
        (bit_or (w2 >>> 21) (u32 (bit_and w1 0x1ff <<< 11)) <<< 32)
      ≡ whole w0 w1 w2 w3 / 2 ^ 21 % 2 ^ 52
startblock_lem w0 w1 w2 w3 h2 h3 =
    rw (straddle_21 w2 w3 h3, high_startblock w1 w2 h2)
      (join_words ((2 ^ 32 * w2 + w3) / 2 ^ 21 % 2 ^ 32) ((2 ^ 32 * w1 + w2) / 2 ^ 21 % 2 ^ 20)
          (omega arith)
        ∙ omega arith)

-- On a memory of bytes the fields of an extent record are these bits of its 128-bit big-endian
-- number: the state is the topmost, then 54 bits of file offset, 52 bits of block number and 21
-- bits of block count.
pub xfs_extent_unpack_lem :
    (m : Memory) (rec : ℕ)
    → IsBytes m
    → xfs_extent_unpack m rec ≡ record {
      br_startoff = record_number m rec / 2 ^ 73 % 2 ^ 54;
      br_startblock = record_number m rec / 2 ^ 21 % 2 ^ 52;
      br_blockcount = record_number m rec % 2 ^ 21;
      br_state = record_number m rec / 2 ^ 127;
    }
unfolding xfs_extent_unpack record_number
xfs_extent_unpack_lem m rec bytes =
    let w0 = load_be_u32 m rec in
    let w1 = load_be_u32 m (rec + 4) in
    let w2 = load_be_u32 m (rec + 8) in
    let w3 = load_be_u32 m (rec + 12) in
    let h0 = load_be_u32-lt m rec bytes in
    let h1 = load_be_u32-lt m (rec + 4) bytes in
    let h2 = load_be_u32-lt m (rec + 8) bytes in
    let h3 = load_be_u32-lt m (rec + 12) bytes in
    let count : bit_and w3 0x1fffff ≡ whole w0 w1 w2 w3 % 2 ^ 21 =
      omega (arith, bit_and_mask 21 w3) in
    let state : (if not (bit_and w0 0x80000000 == 0) then 1 else 0) ≡ whole w0 w1 w2 w3 / 2 ^ 127 =
      top_bit_lem w0 h0 ∙ omega arith in
    rw (startoff_lem w0 w1 w2 w3 h0 h1 h2 h3, startblock_lem w0 w1 w2 w3 h2 h3, count, state) refl
