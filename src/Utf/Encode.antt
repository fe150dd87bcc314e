-- ===== src/Utf/Encode.antt =====
-- What a unit is encoded as, and when there is room for it.
use kolibri_os_reloaded.Base.{
  ℕ, ◌+◌, ◌*◌, ◌/◌, ◌%◌, ◌^◌, ◌<◌, bit_and, bit_or, ◌≡◌, refl, ◌∙◌, arith,
}
use kolibri_os_reloaded.Base.Bits.{bit_not}
use kolibri_os_reloaded.Base.Fields.{bit_and_mask, bit_or_split, bit_or-zero, bit_or_above}
use kolibri_os_reloaded.Base.Fields.{low_byte_cleared, low_half_cleared, with_low}
use kolibri_os_reloaded.Utf.{encode_2byte, encode_3byte}

-- The marks of a lead byte and of continuation bytes fall on clear bits.
marks_2byte :
    (c : ℕ)
    → c < 0x800
    → bit_or (c / 64 * 256 + c % 64) 0xC080 ≡ (c / 64 + 192) * 256 + (c % 64 + 128)
marks_2byte c h =
    let split = bit_or_split 8 (c / 64) 192 (c % 64) 128 (omega arith) (omega arith) in
    let whole : 2 ^ 8 * (c / 64) + c % 64 ≡ c / 64 * 256 + c % 64 = omega arith in
    let lead = bit_or_above 6 3 (c / 64) (omega arith) in
    let follow = bit_or_above 6 2 (c % 64) (omega arith) in
    rw (whole, lead, follow) at split ∙ omega arith

swapped_low_bytes :
    (a : ℕ)
    → a < 65536
    → bit_or
        (bit_or (bit_and a (bit_not 32 0xffff)) (bit_and a 0xff * 256))
        (bit_and (a / 256) 0xff)
      ≡ a % 256 * 256 + a / 256
swapped_low_bytes a h =
    let nothing : a / 65536 * 65536 ≡ 0 = omega arith in
    let high : a / 256 % 256 ≡ a / 256 = omega arith in
    rw
      (
        low_half_cleared a (omega arith),
        nothing,
        (bit_or-zero (bit_and a 0xff * 256)).1,
        bit_and_mask 8 a,
        bit_and_mask 8 (a / 256),
        high,
      )
      (with_low 8 (a % 256) (a / 256) (omega arith))

pub encode_2byte_lem :
    (c : ℕ)
    → c < 0x800
    → encode_2byte c ≡ ((c % 64 + 128) * 256 + (c / 64 + 192), c / 64 + 192, c % 64 + 128)
unfolding encode_2byte
encode_2byte_lem c h =
    let start : c * 4 % 2 ^ 32 ≡ c * 4 = omega arith in
    let low : c * 4 % 256 / 4 ≡ c % 64 = omega arith in
    let top : c * 4 / 256 * 256 ≡ c / 64 * 2 ^ 8 = omega arith in
    let marked : ℕ = (c / 64 + 192) * 256 + (c % 64 + 128) in
    let inner : bit_or
          (bit_or (bit_and (c * 4 % 2 ^ 32) (bit_not 32 0xff)) (c * 4 % 2 ^ 32 % 256 / 4)) 0xC080
        ≡ marked =
      rw
        (
          start,
          low_byte_cleared (c * 4) (omega arith),
          low,
          top,
          with_low 8 (c / 64) (c % 64) (omega arith),
        )
        (marks_2byte c h) in
    let swapped = swapped_low_bytes marked (omega arith) in
    let last : ℕ = marked % 256 * 256 + marked / 256 in
    let whole : last ≡ (c % 64 + 128) * 256 + (c / 64 + 192) = omega arith in
    let first_byte : last % 256 % 256 ≡ c / 64 + 192 = omega arith in
    let second_byte : last / 256 % 256 % 256 ≡ c % 64 + 128 = omega arith in
    rw
      (
        inner,
        swapped,
        bit_and_mask 8 last,
        bit_and_mask 8 (last / 256),
        first_byte,
        second_byte,
        whole,
      )
      refl

marks_3byte :
    (c : ℕ)
    → c < 0x10000
    → bit_or (c / 4096 * 65536 + c / 64 % 64 * 256 + c % 64) 0xE08080
      ≡ (c / 4096 + 224) * 65536 + (c / 64 % 64 + 128) * 256 + (c % 64 + 128)
marks_3byte c h =
    let split =
      bit_or_split 16 (c / 4096) 224 (c / 64 % 64 * 256 + c % 64) 0x8080 (omega arith)
        (omega arith) in
    let low = bit_or_split 8 (c / 64 % 64) 128 (c % 64) 128 (omega arith) (omega arith) in
    let whole : 2 ^ 16 * (c / 4096) + (c / 64 % 64 * 256 + c % 64)
        ≡ c / 4096 * 65536 + c / 64 % 64 * 256 + c % 64 =
      omega arith in
    let part : 2 ^ 8 * (c / 64 % 64) + c % 64 ≡ c / 64 % 64 * 256 + c % 64 = omega arith in
    let lead = bit_or_above 5 7 (c / 4096) (omega arith) in
    let middle = bit_or_above 6 2 (c / 64 % 64) (omega arith) in
    let last = bit_or_above 6 2 (c % 64) (omega arith) in
    let low' = rw (part, middle, last) at low in rw (whole, lead, low') at split ∙ omega arith

pub encode_3byte_lem :
    (c : ℕ)
    → c < 0x10000
    → encode_3byte c ≡ (
      (c % 64 + 128) * 256 + (c / 64 % 64 + 128),
      c / 4096 + 224,
      c / 64 % 64 + 128,
      c % 64 + 128,
    )
unfolding encode_3byte
encode_3byte_lem c h =
    let start : c * 16 % 2 ^ 32 ≡ c * 16 = omega arith in
    let half : c * 16 % 65536 / 4 ≡ c % 4096 * 4 = omega arith in
    let top : c * 16 / 65536 * 65536 ≡ c / 4096 * 2 ^ 16 = omega arith in
    let moved : ℕ = c / 4096 * 2 ^ 16 + c % 4096 * 4 in
    let inner : bit_or (bit_and (c * 16 % 2 ^ 32) (bit_not 32 0xffff)) (c * 16 % 2 ^ 32 % 65536 / 4)
        ≡ moved =
      rw (start, low_half_cleared (c * 16) (omega arith), half, top)
        (with_low 16 (c / 4096) (c % 4096 * 4) (omega arith)) in
    let low : moved % 256 / 4 ≡ c % 64 = omega arith in
    let high : moved / 256 * 256 ≡ (c / 4096 * 256 + c / 64 % 64) * 2 ^ 8 = omega arith in
    let sum : (c / 4096 * 256 + c / 64 % 64) * 2 ^ 8 + c % 64
        ≡ c / 4096 * 65536 + c / 64 % 64 * 256 + c % 64 =
      omega arith in
    let marked : ℕ = (c / 4096 + 224) * 65536 + (c / 64 % 64 + 128) * 256 + (c % 64 + 128) in
    let outer : bit_or (bit_or (bit_and moved (bit_not 32 0xff)) (moved % 256 / 4)) 0x00E08080
        ≡ marked =
      rw
        (
          low_byte_cleared moved (omega arith),
          low,
          high,
          with_low 8 (c / 4096 * 256 + c / 64 % 64) (c % 64) (omega arith),
          sum,
        )
        (marks_3byte c h) in
    let turned : ℕ = (c % 64 + 128) * 65536 + (c / 64 % 64 + 128) * 256 + (c / 4096 + 224) in
    let reversed : (marked % 256 * 2 ^ 24
            + marked / 2 ^ 8 % 256 * 2 ^ 16
            + marked / 2 ^ 16 % 256 * 2 ^ 8
            + marked / 2 ^ 24)
          / 2 ^ 8
        ≡ turned =
      omega arith in
    let rest : turned / 2 ^ 8 ≡ (c % 64 + 128) * 256 + (c / 64 % 64 + 128) = omega arith in
    let first_byte : turned % 256 % 256 ≡ c / 4096 + 224 = omega arith in
    let second_byte : ((c % 64 + 128) * 256 + (c / 64 % 64 + 128)) % 256 % 256 ≡ c / 64 % 64 + 128 =
      omega arith in
    let third_byte : ((c % 64 + 128) * 256 + (c / 64 % 64 + 128)) / 256 % 256 % 256 ≡ c % 64 + 128 =
      omega arith in
    rw
      (
        inner,
        outer,
        reversed,
        rest,
        bit_and_mask 8 turned,
        bit_and_mask 8 ((c % 64 + 128) * 256 + (c / 64 % 64 + 128)),
        bit_and_mask 8 (((c % 64 + 128) * 256 + (c / 64 % 64 + 128)) / 256),
        first_byte,
        second_byte,
        third_byte,
      )
      refl
