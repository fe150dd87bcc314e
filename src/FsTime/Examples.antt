-- ===== src/FsTime/Examples.antt =====
-- Dates at concrete values.
use kolibri_os_reloaded.Base.{◌≡◌, refl, arith, some}
use kolibri_os_reloaded.FsTime.{
  BdfeTime, fs_calculate_time, fs_time2bdfe, peel_months, year_and_day, month_len,
}
use kolibri_os_reloaded.FsTime.RoundTrip.{IsCalendarTime, fs_calculate_time-fs_time2bdfe}

-- The last second of a leap year.
abbrev new_year_eve : BdfeTime
new_year_eve = record { sec = 59; min = 59; hour = 23; day = 31; month = 12; year = 2024 }

new_year_eve-IsCalendarTime : IsCalendarTime new_year_eve
unfolding month_len
new_year_eve-IsCalendarTime = record {
  sec_lt = omega arith;
  min_lt = omega arith;
  hour_lt = omega arith;
  year_ge = omega arith;
  month_pos = omega arith;
  month_le = omega arith;
  day_pos = omega arith;
  day_le = omega arith;
}

new_year_eve_secs : fs_calculate_time new_year_eve ≡ 757382399
unfolding fs_calculate_time
new_year_eve_secs = refl

new_year_eve_block : fs_time2bdfe 757382399 ≡ some new_year_eve
unfolding fs_time2bdfe year_and_day peel_months
new_year_eve_block = refl

fs_calculate_time-fs_time2bdfe_example :
    (t : BdfeTime) × (fs_time2bdfe 757382399 ≡ some t)
    × IsCalendarTime t
    × (fs_calculate_time t ≡ 757382399)
fs_calculate_time-fs_time2bdfe_example = fs_calculate_time-fs_time2bdfe 757382399 (omega arith)
