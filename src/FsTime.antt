-- ===== src/FsTime.antt =====
-- File times, rust_kernel/kolibri_utils/src/time.rs: seconds since 2001-01-01, a u32, against the
-- calendar block BDFE (`BdfeTime`), with a leap day in every fourth year.
pub mod Calendar
pub mod RoundTrip
pub mod FileSystems
pub mod Packed
mod Examples
use kolibri_os_reloaded.Base.{
  ℕ, zero, suc, ◌+◌, ◌-◌, ◌*◌, ◌/◌, ◌%◌, ◌^◌, List, [], ◌∷◌, Option, none, some, Bool, ltb, leb,
  ◌==◌, ◌&&◌, if◌then◌else◌, u8, u16, u32, sub_u32, ◌<<<◌, ◌>>>◌, bit_and, bit_or,
}
use kolibri_os_reloaded.Base.Lists.{get_or}

pub record BdfeTime : Type 0 where
  pub sec : ℕ
  pub min : ℕ
  pub hour : ℕ
  pub day : ℕ
  pub month : ℕ
  pub year : ℕ

-- The lengths of the months, first of a common year, then of a leap year.
abbrev month_tables : List ℕ
month_tables =
    31 ∷ 28 ∷ 31 ∷ 30 ∷ 31 ∷ 30 ∷ 31 ∷ 31 ∷ 30 ∷ 31 ∷ 30 ∷ 31 ∷ 31 ∷ 29 ∷ 31 ∷ 30 ∷ 31 ∷ 30 ∷ 31
    ∷ 31 ∷ 30 ∷ 31 ∷ 30 ∷ 31 ∷ []

-- Entry `idx` of the tables, 0 beyond them.
pub month_len : ℕ → ℕ
month_len idx = get_or month_tables idx 0

-- The days in the `months` months from the table's start on.
pub month_sum : ℕ → ℕ → ℕ
unfolding month_len
month_sum table_base zero = 0
month_sum table_base (suc months) = month_sum table_base months + month_len (table_base + months)

pub fs_calculate_time : BdfeTime → ℕ
unfolding month_sum
fs_calculate_time t =
    let years = if ltb t.year 2001 then 0 else t.year - 2001 in
    let table_base = if (years + 1) % 4 == 0 then 12 else 0 in
    let days = u32 (years * 365 + years / 4 + month_sum table_base (t.month - 1)) in
    let days' = u32 (sub_u32 days 1 + t.day) in
    u32 (u32 (u32 (days' * 24 + t.hour) * 60 + t.min) * 60 + t.sec)

-- Month by month subtraction from the day of the year in the byte registers DH and DL; the result
-- is the month and its day. `none` means that the fuel ran out.
pub peel_months : ℕ → ℕ → ℕ → ℕ → ℕ → Option (ℕ × ℕ)
unfolding month_len
peel_months zero table_base month dh dl = none
peel_months (suc fuel) table_base month dh dl =
    let month' = month + 1 in
    let mlen = month_len (table_base + month' - 1) in
    let new_dl = u8 (dl + 256 - u8 mlen) in
    let new_dh = u8 (dh + 256 - 1) in
    let kept = peel_months fuel table_base month' dh new_dl in
    let borrowed = peel_months fuel table_base month' new_dh new_dl in
    if leb (u8 mlen) dl
    then kept
    else if ltb new_dh 128
    then borrowed
    else some (u8 month', u8 (u8 (new_dl + mlen) + 1))

-- The year and the day of the year, both from the count of days.
pub year_and_day : ℕ → ℕ × ℕ
year_and_day days =
    let years = days / 365 in
    let year = u32 (years + 2001) in
    let subbed = sub_u32 (days % 365) (years / 4) in
    if leb (2 ^ 31) subbed
    then (sub_u32 year 1, u32 (subbed + 365 + (if sub_u32 year 1 % 4 == 0 then 1 else 0)))
    else (year, subbed)

-- The block: the time of day from the seconds, the date from the peeling.
bdfe_block : ℕ → ℕ → Option (ℕ × ℕ) → Option BdfeTime
bdfe_block secs year none = none
bdfe_block secs year (some (month, day)) = some (record {
  sec = secs % 60;
  min = secs / 60 % 60;
  hour = secs / 60 / 60 % 24;
  day = day;
  month = month;
  year = u16 year;
})

-- Twelve months are peeled at most.
pub fs_time2bdfe : ℕ → Option BdfeTime
unfolding bdfe_block
fs_time2bdfe secs =
    let (year, edx) = year_and_day (secs / 60 / 60 / 24) in
    let dx = u16 edx in
    bdfe_block secs year (peel_months 12 (if year % 4 == 0 then 12 else 0) 0 (dx / 256) (dx % 256))
