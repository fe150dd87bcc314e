-- ===== src/FsTime/Packed.antt =====
-- The packed DOS dates and times of FAT against the date and time dwords of a BDFE block, time.rs.
use kolibri_os_reloaded.Base.{
  ℕ, ◌+◌, ◌-◌, ◌*◌, ◌/◌, ◌%◌, ◌^◌, ◌<◌, ◌≡◌, arith, u8, u16, u32, ◌<<<◌, ◌>>>◌, bit_and, bit_or,
  ◌∙◌,
}
use kolibri_os_reloaded.Base.Fields.{
  bit_and_mask, bit_or_fields, bit_or_split, bit_or-zero, bit_and_split, bit_and-zero,
}

fat_time_to_bdfe : ℕ → ℕ
fat_time_to_bdfe fat_time =
    let hours = fat_time >>> 11 in
    let seconds = u32 (bit_and fat_time 0x1f <<< 1) in
    let minutes = bit_and (fat_time >>> 5) 0x3f in
    bit_or (bit_or (u32 (hours <<< 16)) (u32 (minutes <<< 8))) seconds

-- The registers AL and AH are replaced in turn.
fat_date_to_bdfe : ℕ → ℕ
fat_date_to_bdfe fat_date =
    let year = u16 (u16 (fat_date >>> 9) + 1980) in
    let day = u8 (bit_and fat_date 0x1f) in
    let month = u8 (bit_and (fat_date >>> 5) 0xf) in
    let with_day = bit_or (bit_and (u32 (year <<< 16)) 0xffffff00) day in
    bit_or (bit_and with_day 0xffff00ff) (month <<< 8)

bdfe_to_fat_time : ℕ → ℕ
bdfe_to_fat_time bdfe_time =
    let dh = bit_and (u8 (bit_and (bdfe_time >>> 8) 0xff)) 0x3f in
    let dl = bit_and (u8 (bit_and bdfe_time 0xff) >>> 1) 0x1f in
    bit_or (u32 (bit_or (u32 ((bdfe_time >>> 16) <<< 6)) dh <<< 5)) dl

bdfe_to_fat_date : ℕ → ℕ
bdfe_to_fat_date bdfe_date =
    let ax = u16 (u16 (bdfe_date >>> 16) + 2 ^ 16 - 1980) in
    let dh = bit_and (u8 (bit_and (bdfe_date >>> 8) 0xff)) 0xf in
    let dl = bit_and (u8 (bit_and bdfe_date 0xff)) 0x1f in
    bit_or (u32 (bit_or (u32 (ax <<< 4)) dh <<< 5)) dl

-- `|` of two numbers, the first a multiple of `2 ^ k` and the second below it.
bit_or_sum : (k q r a b : ℕ) → a ≡ 2 ^ k * q → b ≡ r → r < 2 ^ k → bit_or a b ≡ 2 ^ k * q + r
bit_or_sum k q r a b ea eb h = rw (ea, eb) (bit_or_fields k q r h)

-- A packed time as BDFE: hours, minutes and twice the half seconds.
fat_time_to_bdfe_fields :
    (t : ℕ) → t < 2 ^ 16 → fat_time_to_bdfe t ≡ t / 2048 * 2 ^ 16 + t / 32 % 64 * 2 ^ 8 + t % 32 * 2
unfolding fat_time_to_bdfe
fat_time_to_bdfe_fields t h =
    let upper =
      bit_or_sum 16 (t / 2048) (t / 32 % 64 * 2 ^ 8) (u32 ((t >>> 11) <<< 16))
        (u32 (bit_and (t >>> 5) 0x3f <<< 8)) (omega arith) (omega (arith, bit_and_mask 6 (t / 32)))
        (omega arith) in
    bit_or_sum 8 (t / 2048 * 2 ^ 8 + t / 32 % 64) (t % 32 * 2) _ _ (omega (arith, upper))
      (omega (arith, bit_and_mask 5 t)) (omega arith)
    ∙ omega arith

-- A BDFE time dword packed: hours, minutes and half the seconds, each cut to its field.
bdfe_to_fat_time_fields :
    (b : ℕ)
    → b < 2 ^ 32
    → bdfe_to_fat_time b ≡ b / 2 ^ 16 * 2 ^ 11 % 2 ^ 32 + b / 256 % 64 * 2 ^ 5 + b % 256 / 2 % 32
unfolding bdfe_to_fat_time
bdfe_to_fat_time_fields b h =
    let upper =
      bit_or_sum 6 (b / 2 ^ 16) (b / 256 % 64) (u32 ((b >>> 16) <<< 6))
        (bit_and (u8 (bit_and (b >>> 8) 0xff)) 0x3f) (omega arith)
        (omega (arith, bit_and_mask 8 (b / 2 ^ 8), bit_and_mask 6 (u8 (bit_and (b >>> 8) 0xff))))
        (omega arith) in
    bit_or_sum 5 (b / 2 ^ 16 * 2 ^ 6 % 2 ^ 27 + b / 256 % 64) (b % 256 / 2 % 32) _ _
      (omega (arith, upper))
      (omega (arith, bit_and_mask 8 b, bit_and_mask 5 (u8 (bit_and b 0xff) >>> 1))) (omega arith)
    ∙ omega arith

keep_high : (y : ℕ) → y < 2 ^ 16 → bit_and (y * 2 ^ 16) 0xffffff00 ≡ y * 2 ^ 16
keep_high y h =
    let e : y * 2 ^ 16 ≡ 2 ^ 8 * (y * 2 ^ 8) + 0 = omega arith in
    rw e (
      bit_and_split 8 (y * 2 ^ 8) 0xffffff 0 0 (omega arith) (omega arith)
      ∙ omega (arith, bit_and_mask 24 (y * 2 ^ 8), bit_and-zero 0))

keep_outer :
    (y d : ℕ) → y < 2 ^ 16 → d < 256 → bit_and (2 ^ 8 * (y * 2 ^ 8) + d) 0xffff00ff ≡ 2 ^ 16 * y + d
keep_outer y d hy hd =
    let e : 2 ^ 8 * (y * 2 ^ 8) + d ≡ 2 ^ 16 * y + d = omega arith in
    rw e (
      bit_and_split 16 y 0xffff d 0xff (omega arith) (omega arith)
      ∙ omega (arith, bit_and_mask 16 y, bit_and_mask 8 d))

-- The day, then the month, are put below the year.
join_date :
    (y m d : ℕ)
    → y < 2 ^ 16
    → m < 256
    → d < 256
    → bit_or (bit_and (bit_or (y * 2 ^ 16) d) 0xffff00ff) (m <<< 8) ≡ y * 2 ^ 16 + m * 2 ^ 8 + d
join_date y m d hy hm hd =
    let with_day = bit_or_sum 8 (y * 2 ^ 8) d (y * 2 ^ 16) d (omega arith) (omega arith) hd in
    let split : 2 ^ 16 * y + d ≡ 2 ^ 8 * (2 ^ 8 * y) + d = omega arith in
    let month : m * 2 ^ 8 ≡ 2 ^ 8 * m + 0 = omega arith in
    rw (with_day, keep_outer y d hy hd)
      (rw (split, month)
        (bit_or_split 8 (2 ^ 8 * y) m d 0 hd (omega arith)
          ∙ omega (arith, bit_or_fields 8 y m hm, bit_or-zero d)))

-- A packed date as BDFE: year, month and day.
fat_date_to_bdfe_fields :
    (t : ℕ)
    → t < 2 ^ 16
    → fat_date_to_bdfe t ≡ (t / 512 + 1980) * 2 ^ 16 + t / 32 % 16 * 2 ^ 8 + t % 32
unfolding fat_date_to_bdfe
fat_date_to_bdfe_fields t h =
    let year : u32 (u16 (u16 (t >>> 9) + 1980) <<< 16) ≡ (t / 512 + 1980) * 2 ^ 16 = omega arith in
    let day : u8 (bit_and t 0x1f) ≡ t % 32 = omega (arith, bit_and_mask 5 t) in
    let month : u8 (bit_and (t >>> 5) 0xf) ≡ t / 32 % 16 =
      omega (arith, bit_and_mask 4 (t / 2 ^ 5)) in
    rw (year, day, month)
      (rw (keep_high (t / 512 + 1980) (omega arith)) (
        join_date (t / 512 + 1980) (t / 32 % 16) (t % 32) (omega arith) (omega arith)
          (omega arith)))

-- A BDFE date dword packed: years since 1980 modulo 2^16, month and day, each cut to its field.
bdfe_to_fat_date_fields :
    (b : ℕ)
    → b < 2 ^ 32
    → bdfe_to_fat_date b
      ≡ (b / 2 ^ 16 + 2 ^ 16 - 1980) % 2 ^ 16 * 2 ^ 9 + b / 256 % 16 * 2 ^ 5 + b % 32
unfolding bdfe_to_fat_date
bdfe_to_fat_date_fields b h =
    let year : ℕ = (b / 2 ^ 16 + 2 ^ 16 - 1980) % 2 ^ 16 in
    let upper =
      bit_or_sum 4 year (b / 256 % 16) (u32 (u16 (u16 (b >>> 16) + 2 ^ 16 - 1980) <<< 4))
        (bit_and (u8 (bit_and (b >>> 8) 0xff)) 0xf) (omega arith)
        (omega (arith, bit_and_mask 8 (b / 2 ^ 8), bit_and_mask 4 (u8 (bit_and (b >>> 8) 0xff))))
        (omega arith) in
    bit_or_sum 5 (year * 16 + b / 256 % 16) (b % 32) _ _ (omega (arith, upper))
      (omega (arith, bit_and_mask 8 b, bit_and_mask 5 (u8 (bit_and b 0xff)))) (omega arith)
    ∙ omega arith

-- Every packed FAT date comes back from its BDFE form.
bdfe_to_fat_date-fat_date_to_bdfe : (t : ℕ) → t < 2 ^ 16 → bdfe_to_fat_date (fat_date_to_bdfe t) ≡ t
bdfe_to_fat_date-fat_date_to_bdfe t h =
    let e = fat_date_to_bdfe_fields t h in
    omega (arith, bdfe_to_fat_date_fields (fat_date_to_bdfe t) (omega (arith, e)), e)

-- Every packed FAT time comes back from its BDFE form.
bdfe_to_fat_time-fat_time_to_bdfe : (t : ℕ) → t < 2 ^ 16 → bdfe_to_fat_time (fat_time_to_bdfe t) ≡ t
bdfe_to_fat_time-fat_time_to_bdfe t h =
    let e = fat_time_to_bdfe_fields t h in
    omega (arith, bdfe_to_fat_time_fields (fat_time_to_bdfe t) (omega (arith, e)), e)
