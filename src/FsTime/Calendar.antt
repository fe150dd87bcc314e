-- ===== src/FsTime/Calendar.antt =====
-- The calendar of the months: every day of a year has one month and day, by evaluation over the
-- days of a common and of a leap year.
use kolibri_os_reloaded.Base.{
  ℕ, ◌+◌, ◌-◌, ◌/◌, ◌%◌, ◌≤◌, ◌<◌, ◌≡◌, refl, arith, Option, none, some, Bool, true, false, ◌&&◌,
  ltb, leb, ◌⊎◌, inl, inr, ◌==◌, if◌then◌else◌,
}
use kolibri_os_reloaded.Base.Lists.{holds_below, holds_below_at}
use kolibri_os_reloaded.FsTime.{month_len, month_sum, peel_months}

-- The month and day that the peeling finds for day `d` of the year, counted from 0.
abbrev pub month_and_day : ℕ → ℕ → Option (ℕ × ℕ)
month_and_day table_base d = peel_months 12 table_base 0 (d / 256) (d % 256)

agrees : ℕ → ℕ → Option (ℕ × ℕ) → Bool
agrees base d none = false
agrees base d (some (month, day)) =
    leb 1 month
    && leb month 12
    && leb 1 day
    && leb day (month_len (base + (month - 1)))
    && month_sum base (month - 1) + day == d + 1

common_table : holds_below (λ d. agrees 0 d (month_and_day 0 d)) 365 ≡ true
unfolding holds_below agrees peel_months month_sum
common_table = refl

leap_table : holds_below (λ d. agrees 12 d (month_and_day 12 d)) 366 ≡ true
unfolding holds_below agrees peel_months month_sum
leap_table = refl

-- The days of the year whose months start at `table_base`.
abbrev pub year_len : ℕ → ℕ
year_len table_base = if table_base == 12 then 366 else 365

-- Month `m` and day `k` name day `d`, counted from 0, of the year.
pub record IsDate (table_base d m k : ℕ) : Type 0 where
  pub month_pos : 1 ≤ m
  pub month_le : m ≤ 12
  pub day_pos : 1 ≤ k
  pub day_le : k ≤ month_len (table_base + (m - 1))
  pub day_of_year : month_sum table_base (m - 1) + k ≡ d + 1

agrees-IsDate :
    (table_base d : ℕ) (o : Option (ℕ × ℕ))
    → agrees table_base d o ≡ true
    → (m : ℕ) × (k : ℕ) × (o ≡ some (m, k)) × IsDate table_base d m k
unfolding agrees
agrees-IsDate table_base d none e = cc
agrees-IsDate table_base d (some (m, k)) e = (
  m,
  k,
  refl,
  record {
    month_pos = ground arith;
    month_le = ground arith;
    day_pos = ground arith;
    day_le = ground arith;
    day_of_year = ground arith;
  },
)

-- Every day of the year has a month and a day.
pub month_and_day-IsDate :
    (table_base d : ℕ)
    → (table_base ≡ 0) ⊎ (table_base ≡ 12)
    → d < year_len table_base
    → (m : ℕ) × (k : ℕ) × (month_and_day table_base d ≡ some (m, k)) × IsDate table_base d m k
month_and_day-IsDate table_base d (inl e) h =
    rw e (agrees-IsDate 0 d _ (holds_below_at _ 365 common_table d (ground arith)))
month_and_day-IsDate table_base d (inr e) h =
    rw e (agrees-IsDate 12 d _ (holds_below_at _ 366 leap_table d (ground arith)))

finds : ℕ → ℕ → Option (ℕ × ℕ) → Bool
finds m k none = false
finds m k (some (month, day)) = month == m && day == k

found_back : ℕ → ℕ → ℕ → Bool
unfolding finds month_sum
found_back table_base m k =
    if ltb k (month_len (table_base + m))
    then ltb (month_sum table_base m + k) (year_len table_base)
      && finds (m + 1) (k + 1) (month_and_day table_base (month_sum table_base m + k))
    else true

common_dates : holds_below (λ m. holds_below (λ k. found_back 0 m k) 31) 12 ≡ true
unfolding holds_below found_back peel_months
common_dates = refl

leap_dates : holds_below (λ m. holds_below (λ k. found_back 12 m k) 31) 12 ≡ true
unfolding holds_below found_back peel_months
leap_dates = refl

finds_lem : (m k : ℕ) (o : Option (ℕ × ℕ)) → finds m k o ≡ true → o ≡ some (m, k)
unfolding finds
finds_lem m k none e = cc
finds_lem m k (some (month, day)) e = ground arith

month_len_table : holds_below (λ i. leb (month_len i) 31) 24 ≡ true
unfolding holds_below month_len
month_len_table = refl

month_len-le : (i : ℕ) → i < 24 → month_len i ≤ 31
month_len-le i h = let e = holds_below_at _ 24 month_len_table i h in ground arith

found_back_lem :
    (table_base m k : ℕ)
    → found_back table_base m k ≡ true
    → k < month_len (table_base + m)
    → (month_and_day table_base (month_sum table_base m + k) ≡ some (m + 1, k + 1))
      × (month_sum table_base m + k < year_len table_base)
unfolding found_back
found_back_lem table_base m k e h = (
  finds_lem (m + 1) (k + 1) (month_and_day table_base (month_sum table_base m + k)) (ground arith),
  ground arith,
)

found_back_all :
    (table_base m k : ℕ)
    → (table_base ≡ 0) ⊎ (table_base ≡ 12)
    → m < 12
    → k < 31
    → found_back table_base m k ≡ true
found_back_all table_base m k (inl e) hm hk =
    rw e (holds_below_at _ 31 (holds_below_at _ 12 common_dates m hm) k hk)
found_back_all table_base m k (inr e) hm hk =
    rw e (holds_below_at _ 31 (holds_below_at _ 12 leap_dates m hm) k hk)

-- The peeling finds every date of the year.
pub month_and_day_of_date :
    (table_base d m k : ℕ)
    → (table_base ≡ 0) ⊎ (table_base ≡ 12)
    → IsDate table_base d m k
    → (month_and_day table_base d ≡ some (m, k)) × (d < year_len table_base)
month_and_day_of_date table_base d m k base x =
    let short = month_len-le (table_base + (m - 1)) (omega (arith, base, x.month_le)) in
    let found =
      found_back_lem table_base (m - 1) (k - 1)
        (found_back_all table_base (m - 1) (k - 1) base (omega (arith, x.month_le))
          (omega (arith, x.day_le, x.day_pos)))
        (omega (arith, x.day_le, x.day_pos)) in
    let same_day : month_sum table_base (m - 1) + (k - 1) ≡ d =
      omega (arith, x.day_of_year, x.day_pos) in
    let same_month : m - 1 + 1 ≡ m = omega (arith, x.month_pos) in
    let same_k : k - 1 + 1 ≡ k = omega (arith, x.day_pos) in
    rw (same_day, same_month, same_k) at found
