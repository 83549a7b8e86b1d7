-- ===== src/Timestamp.antt =====
-- RFC 3339 timestamps: `timestampMillis` of src/domain-rules-v2.mjs and src/event-time-policy-v2.mjs
-- with the `Date.parse` and `toISOString` that they call. A text is the list of its code points. A
-- time value is counted in milliseconds from -000001-12-31T00:00:00Z, one day before the year 0000,
-- so that every timestamp the pattern accepts has a natural number; JavaScript's time value is that
-- number less `epoch_offset`. Orders and differences are the same.
mod Syntax
mod Calendar
pub mod Dates
pub mod RoundTrip
pub use Syntax.{Text, codes}
use jenn_shooting_operations.Prelude.{
  ℕ, ◌+◌, ◌-◌, ◌*◌, ◌/◌, ◌%◌, ◌≡◌, refl, Bool, ◌&&◌, Option, none, some, [], ◌∷◌, ◌++◌, ltb, leb,
  if◌then◌else◌,
}
use jenn_shooting_operations.Prelude.Options.{◌>>=◌, guard}
use Syntax.{Fields}
unfoldable pub use Syntax.{fields}
use Calendar.{
  is_leap, days_in_month, days_before_year, days_before_month, year_from_day, month_from_day,
}

abbrev pub day_ms : ℕ
day_ms = 86400000

-- The first instant of the year 10000.
abbrev pub year_10000 : ℕ
year_10000 = 3652426 * day_ms

-- 1970-01-01T00:00:00.000Z
abbrev pub epoch_offset : ℕ
epoch_offset = 719529 * day_ms

-- The day and month exist in the year.
unfoldable pub valid_date : Fields → Bool
unfolding is_leap days_in_month
valid_date f =
    leb 1 f.month
    && leb f.month 12
    && leb 1 f.day
    && leb f.day (days_in_month (is_leap f.year) f.month)

-- `Date.parse` of a text with these parts.
unfoldable pub date_parse : Fields → ℕ
unfolding is_leap days_before_year days_before_month
date_parse f =
    (days_before_year f.year + days_before_month (is_leap f.year) f.month + f.day) * day_ms
    + (f.hour * 3600000 + f.minute * 60000 + f.second * 1000 + f.milli)
    + f.behind * 60000
    - f.ahead * 60000

unfoldable pub timestamp_millis : Text → Option ℕ
timestamp_millis s = do f ← fields s; _ ← guard (valid_date f); some (date_parse f)

digit_at : ℕ → ℕ → ℕ
digit_at weight n = b'0' + n / weight % 10

abbrev two : ℕ → Text
two n = digit_at 10 n ∷ digit_at 1 n ∷ []

-- `YearFromTime`, printed with four digits, or with a sign and six digits from the year 10000 on.
abbrev year_text : ℕ → Text
year_text y =
    if ltb y 10000
    then digit_at 1000 y ∷ digit_at 100 y ∷ digit_at 10 y ∷ digit_at 1 y ∷ []
    else b'+'
      ∷ digit_at 100000 y
      ∷ digit_at 10000 y
      ∷ digit_at 1000 y
      ∷ digit_at 100 y
      ∷ digit_at 10 y
      ∷ digit_at 1 y
      ∷ []

date_text : ℕ → Text
date_text day =
    let year = year_from_day day in
    let leap = is_leap year in
    let rest = day - days_before_year year in
    let month = month_from_day leap rest 12 in
    year_text year ++ (b'-' ∷ two month ++ (b'-' ∷ two (rest - days_before_month leap month + 1)))

time_text : ℕ → Text
time_text ms =
    b'T' ∷ two (ms / 3600000)
    ++ (b':' ∷ two (ms / 60000 % 60)
        ++ (b':' ∷ two (ms / 1000 % 60)
            ++ (b'.'
                ∷ digit_at 100 (ms % 1000)
                ∷ digit_at 10 (ms % 1000)
                ∷ digit_at 1 (ms % 1000)
                ∷ b'Z'
                ∷ [])))

-- `new Date(t).toISOString()`. The first day counted is the last one before the year 0.
unfoldable pub to_iso : ℕ → Text
unfolding time_text date_text year_from_day month_from_day is_leap digit_at days_before_year
    days_before_month
to_iso t =
    if ltb t day_ms
    then codes "-000001-12-31" ++ time_text t
    else date_text (t / day_ms - 1) ++ time_text (t % day_ms)

epoch_parse : timestamp_millis (codes "1970-01-01T00:00:00.000Z") ≡ some epoch_offset
unfolding timestamp_millis fields valid_date date_parse
epoch_parse = refl

offset_parse :
    timestamp_millis (codes "2024-02-29T23:59:59.1239+08:00") ≡ some (epoch_offset + 1709222399123)
unfolding timestamp_millis fields valid_date date_parse
offset_parse = refl

february_30 : timestamp_millis (codes "2023-02-29T00:00:00Z") ≡ none
unfolding timestamp_millis fields valid_date date_parse
february_30 = refl

epoch_print : to_iso (epoch_offset + 1709222399123) ≡ codes "2024-02-29T15:59:59.123Z"
unfolding to_iso date_text time_text is_leap days_before_year days_before_month year_from_day
    month_from_day digit_at
epoch_print = refl
