-- ===== src/Timestamp/Calendar.antt =====
-- The Gregorian calendar of `Date`, from the year 0 on: days and dates. `days` of `timestampMillis`
-- in src/domain-rules-v2.mjs is `days_in_month`.
use jenn_shooting_operations.Prelude.{
  ℕ, zero, suc, ◌+◌, ◌-◌, ◌*◌, ◌/◌, ◌%◌, ◌≡◌, refl, Bool, ◌&&◌, ◌||◌, not, leb, ◌==◌, if◌then◌else◌,
}

unfoldable pub is_leap : ℕ → Bool
is_leap year = year % 4 == 0 && (not (year % 100 == 0) || year % 400 == 0)

unfoldable pub days_in_month : Bool → ℕ → ℕ
days_in_month leap month =
    if month == 2
    then (if leap then 29 else 28)
    else if month == 4 || month == 6 || month == 9 || month == 11
    then 30
    else 31

-- Days from 0000-01-01 to the first day of the year.
unfoldable pub days_before_year : ℕ → ℕ
days_before_year year = 365 * year + (year + 3) / 4 - (year + 99) / 100 + (year + 399) / 400

-- Days from the first day of the year to the first day of the month.
unfoldable pub days_before_month : Bool → ℕ → ℕ
unfolding days_in_month
days_before_month leap zero = 0
days_before_month leap (suc zero) = 0
days_before_month leap (suc (suc month)) =
    days_before_month leap (suc month) + days_in_month leap (suc month)

-- The year that contains a day: the last one that begins on the day or before it.
unfoldable pub year_from_day : ℕ → ℕ
unfolding days_before_year
year_from_day day =
    let guess = day * 400 / 146097 in
    if leb (days_before_year (guess + 1)) day
    then guess + 1
    else if leb (days_before_year guess) day
    then guess
    else guess - 1

-- The month that contains a day of the year: the last of the months up to `last` that begins on the
-- day or before it.
unfoldable pub month_from_day : Bool → ℕ → ℕ → ℕ
unfolding days_before_month
month_from_day leap day zero = 1
month_from_day leap day (suc last) =
    let earlier = month_from_day leap day last in
    if leb (days_before_month leap (suc last)) day then suc last else earlier

leap_year_days : days_before_year 1970 ≡ 719528
unfolding days_before_year
leap_year_days = refl
