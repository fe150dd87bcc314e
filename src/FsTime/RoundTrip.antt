-- ===== src/FsTime/RoundTrip.antt =====
-- `fs_time2bdfe` and `fs_calculate_time` are inverse to one another.
use kolibri_os_reloaded.Base.{
  ℕ, ◌+◌, ◌-◌, ◌*◌, ◌/◌, ◌%◌, ◌^◌, ◌≤◌, ◌<◌, ◌≡◌, ◌⊎◌, refl, arith, some, ◌==◌, if◌then◌else◌, ltb,
  ◌∙◌, ap, ltb-false, false, u16,
}
use kolibri_os_reloaded.FsTime.{
  BdfeTime, month_len, month_sum, fs_calculate_time, year_and_day, fs_time2bdfe,
}
use kolibri_os_reloaded.FsTime.Calendar.{
  month_and_day, year_len, IsDate, month_and_day-IsDate, month_and_day_of_date,
}

-- Where the tables of a year start.
abbrev pub table_base : ℕ → ℕ
table_base year = if year % 4 == 0 then 12 else 0

-- A date and time of the calendar from 2001 on.
pub record IsCalendarTime (t : BdfeTime) : Type 0 where
  pub sec_lt : t.sec < 60
  pub min_lt : t.min < 60
  pub hour_lt : t.hour < 24
  pub year_ge : 2001 ≤ t.year
  pub month_pos : 1 ≤ t.month
  pub month_le : t.month ≤ 12
  pub day_pos : 1 ≤ t.day
  pub day_le : t.day ≤ month_len (table_base t.year + (t.month - 1))

-- The year holds the day: `day` is `edx` days after the start of the year.
year_and_day_lem :
    (days : ℕ)
    → days < 50000
    → let (year, edx) = year_and_day days in
      (2001 ≤ year)
      × (year < 2138)
      × (edx < year_len (table_base year))
      × ((year - 2001) * 365 + (year - 2001) / 4 + edx ≡ days)
unfolding year_and_day
year_and_day_lem days h = ground arith

year_and_day_of_date :
    (year edx : ℕ)
    → 2001 ≤ year
    → year < 2138
    → edx < year_len (table_base year)
    → year_and_day ((year - 2001) * 365 + (year - 2001) / 4 + edx) ≡ (year, edx)
unfolding year_and_day
year_and_day_of_date year edx h k l = ground arith

table_base-cases : (year : ℕ) → (table_base year ≡ 0) ⊎ (table_base year ≡ 12)
table_base-cases year = ground arith

-- The seconds of day `days` at a time of day.
abbrev seconds : ℕ → BdfeTime → ℕ
seconds days t = ((days * 24 + t.hour) * 60 + t.min) * 60 + t.sec

fs_calculate_time_lem :
    (t : BdfeTime) (edx : ℕ)
    → IsCalendarTime t
    → IsDate (table_base t.year) edx t.month t.day
    → edx < 366
    → t.year < 2138
    → fs_calculate_time t ≡ seconds ((t.year - 2001) * 365 + (t.year - 2001) / 4 + edx) t % 2 ^ 32
unfolding fs_calculate_time
fs_calculate_time_lem t edx c x small h =
    let since_2001 : ltb t.year 2001 ≡ false = ltb-false _ _ c.year_ge in
    let leap : (t.year - 2001 + 1) % 4 ≡ t.year % 4 = omega (arith, c.year_ge) in
    rw (since_2001, leap)
      (omega (arith, x.day_of_year, c.day_pos, c.sec_lt, c.min_lt, c.hour_lt, h, c.year_ge))

-- The block for a day whose year, month and day are known.
abbrev block : ℕ → ℕ → ℕ → ℕ → BdfeTime
block secs year m k = record {
  sec = secs % 60;
  min = secs / 60 % 60;
  hour = secs / 60 / 60 % 24;
  day = k;
  month = m;
  year = year;
}

fs_time2bdfe_at :
    (secs year edx m k : ℕ)
    → year_and_day (secs / 60 / 60 / 24) ≡ (year, edx)
    → edx < 366
    → year < 2138
    → month_and_day (table_base year) edx ≡ some (m, k)
    → fs_time2bdfe secs ≡ some (block secs year m k)
unfolding fs_time2bdfe
fs_time2bdfe_at secs year edx m k e small small_year found =
    let word : u16 edx ≡ edx = omega arith in
    let word_year : u16 year ≡ year = omega arith in rw (e, word, found, word_year)

block-IsCalendarTime :
    (secs year edx m k : ℕ)
    → 2001 ≤ year
    → IsDate (table_base year) edx m k
    → IsCalendarTime (block secs year m k)
block-IsCalendarTime secs year edx m k h x = record {
  sec_lt = omega arith;
  min_lt = omega arith;
  hour_lt = omega arith;
  year_ge = h;
  month_pos = x.month_pos;
  month_le = x.month_le;
  day_pos = x.day_pos;
  day_le = x.day_le;
}

-- Every number of seconds since 2001 that fits a u32 has a date and time, which `fs_time2bdfe`
-- returns, and `fs_calculate_time` takes it back to the same number of seconds.
pub fs_calculate_time-fs_time2bdfe :
    (secs : ℕ)
    → secs < 2 ^ 32
    → (t : BdfeTime) × (fs_time2bdfe secs ≡ some t)
      × IsCalendarTime t
      × (fs_calculate_time t ≡ secs)
fs_calculate_time-fs_time2bdfe secs h =
    let days : ℕ = secs / 60 / 60 / 24 in
    let year : ℕ = (year_and_day days).0 in
    let edx : ℕ = (year_and_day days).1 in
    let (year_ge, year_lt, edx_lt, sum) = year_and_day_lem days (omega arith) in
    let small : edx < 366 = ground arith in
    let (m, k, found, x) =
      month_and_day-IsDate (table_base year) edx (table_base-cases year) edx_lt in
    let c = block-IsCalendarTime secs year edx m k year_ge x in
    (
      block secs year m k,
      fs_time2bdfe_at secs year edx m k refl small year_lt found,
      c,
      fs_calculate_time_lem (block secs year m k) edx c x small year_lt ∙ omega (arith, sum),
    )

same_block :
    (t : BdfeTime) (days : ℕ)
    → IsCalendarTime t
    → some (block (seconds days t) t.year t.month t.day) ≡ some t
same_block t days c = ground (arith, c.sec_lt, c.min_lt, c.hour_lt)

-- A date and time of the calendar up to 2136 is the one that `fs_time2bdfe` returns for its
-- seconds.
pub fs_time2bdfe-fs_calculate_time :
    (t : BdfeTime) → IsCalendarTime t → t.year < 2137 → fs_time2bdfe (fs_calculate_time t) ≡ some t
fs_time2bdfe-fs_calculate_time t c h =
    let edx : ℕ = month_sum (table_base t.year) (t.month - 1) + t.day - 1 in
    let x : IsDate (table_base t.year) edx t.month t.day = record {
      month_pos = c.month_pos;
      month_le = c.month_le;
      day_pos = c.day_pos;
      day_le = c.day_le;
      day_of_year = omega (arith, c.day_pos);
    } in
    let (found, edx_lt) =
      month_and_day_of_date (table_base t.year) edx t.month t.day (table_base-cases t.year) x in
    let small : edx < 366 = ground arith in
    let total = fs_calculate_time_lem t edx c x small (omega arith) in
    let days : ℕ = (t.year - 2001) * 365 + (t.year - 2001) / 4 + edx in
    let fits : seconds days t < 2 ^ 32 = omega (arith, c.sec_lt, c.min_lt, c.hour_lt) in
    let exact : fs_calculate_time t ≡ seconds days t = omega (arith, total) in
    let at : seconds days t / 60 / 60 / 24 ≡ days = omega (arith, c.sec_lt, c.min_lt, c.hour_lt) in
    rw exact (
      fs_time2bdfe_at (seconds days t) t.year edx t.month t.day
        (ap year_and_day at ∙ year_and_day_of_date t.year edx c.year_ge (omega arith) edx_lt) small
        (omega arith) found
      ∙ same_block t days c)

-- The result is a u32.
pub fs_calculate_time-lt : (t : BdfeTime) → fs_calculate_time t < 2 ^ 32
unfolding fs_calculate_time
fs_calculate_time-lt t = omega arith
