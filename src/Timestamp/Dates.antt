-- ===== src/Timestamp/Dates.antt =====
-- The calendar's two directions agree: a day lies in the year and in the month that are found for it.
use jenn_shooting_operations.Prelude.{ℕ, ◌+◌, ◌-◌, ◌≤◌, ◌<◌, ◌≡◌, Bool, true, false, arith}
use jenn_shooting_operations.Timestamp.Calendar.{
  is_leap, days_in_month, days_before_year, days_before_month, year_from_day, month_from_day,
}

-- The year found begins on the day or before it, and the next one after it.
pub year_from_day_bounds :
    (day : ℕ)
    → (days_before_year (year_from_day day) ≤ day)
      × (day < days_before_year (year_from_day day + 1))
unfolding year_from_day
year_from_day_bounds day = ground arith

abbrev year_length : Bool → ℕ
year_length true = 366
year_length false = 365

pub days_before_year_next :
    (y : ℕ) → days_before_year (y + 1) ≡ days_before_year y + year_length (is_leap y)
unfolding days_before_year is_leap
days_before_year_next y = ground arith

pub month_from_day_bounds :
    (leap : Bool) (rest : ℕ)
    → rest < year_length leap
    → let month = month_from_day leap rest 12 in
      (1 ≤ month)
      × (month ≤ 12)
      × (days_before_month leap month ≤ rest)
      × (rest < days_before_month leap month + days_in_month leap month)
unfolding month_from_day days_in_month
month_from_day_bounds true rest h = ground arith
month_from_day_bounds false rest h = ground arith

-- 3652425 days lie before the year 10000.
days_before_year-lt : (y day : ℕ) → days_before_year y ≤ day → day < 3652425 → y < 10000
unfolding days_before_year
days_before_year-lt y day k h = omega arith

year_from_day-lt : (day : ℕ) → day < 3652425 → year_from_day day < 10000
year_from_day-lt day h = days_before_year-lt (year_from_day day) day (year_from_day_bounds day).0 h

month_short : (leap : Bool) (month : ℕ) → days_in_month leap month ≤ 31
unfolding days_in_month
month_short leap month = ground arith

module _ (day : ℕ) where
  abbrev pub year_of : ℕ
  year_of = year_from_day day

  abbrev pub leap_of : Bool
  leap_of = is_leap year_of

  abbrev pub rest_of : ℕ
  rest_of = day - days_before_year year_of

  abbrev pub month_of : ℕ
  month_of = month_from_day leap_of rest_of 12

  abbrev pub date_of : ℕ
  date_of = rest_of - days_before_month leap_of month_of + 1

-- The date that is found for a day exists, and is that day.
pub record IsFound (day : ℕ) : Type 0 where
  pub year_small : year_of day < 10000
  pub month_low : 1 ≤ month_of day
  pub month_high : month_of day ≤ 12
  pub date_fits : date_of day ≤ days_in_month (leap_of day) (month_of day)
  pub date_small : date_of day ≤ 31
  pub sum :
      days_before_year (year_of day) + days_before_month (leap_of day) (month_of day) + date_of day
      ≡ day + 1

rest_of-lt : (day : ℕ) → rest_of day < year_length (leap_of day)
rest_of-lt day = omega (arith, year_from_day_bounds day, days_before_year_next (year_of day))

pub day-IsFound : (day : ℕ) → day < 3652425 → IsFound day
day-IsFound day h = omega (
  arith,
  year_from_day-lt day h,
  year_from_day_bounds day,
  month_from_day_bounds (leap_of day) (rest_of day) (rest_of-lt day),
  month_short (leap_of day) (month_of day),
)

days_before_year-gt : (y day : ℕ) → day < days_before_year (y + 1) → 3652425 ≤ day → 10000 ≤ y
unfolding days_before_year
days_before_year-gt y day k h = omega arith

pub year_from_day-ge : (day : ℕ) → 3652425 ≤ day → 10000 ≤ year_from_day day
year_from_day-ge day h = days_before_year-gt (year_from_day day) day (year_from_day_bounds day).1 h
