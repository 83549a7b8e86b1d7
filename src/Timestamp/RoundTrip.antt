-- ===== src/Timestamp/RoundTrip.antt =====
-- A printed time reads back as itself.
use jenn_shooting_operations.Prelude.{
  ℕ, ◌-◌, ◌/◌, ◌%◌, ◌≤◌, ◌<◌, ◌≡◌, refl, true, arith, lt→ltb, le→ltb, ◌⊎◌, inl, inr, none, some, [],
  ◌∷◌, ◌++◌,
}
use jenn_shooting_operations.Timestamp.Syntax.{
  Text, Fields, digits, expect, fraction, offset, fields, at_end,
}
use jenn_shooting_operations.Timestamp.Dates.{
  year_from_day-ge, IsFound, day-IsFound, year_of, month_of, date_of,
}
use jenn_shooting_operations.Timestamp.{
  day_ms, year_10000, digit_at, two, date_text, time_text, to_iso, timestamp_millis, valid_date,
  date_parse,
}

digits-two : (n : ℕ) (s : Text) → n < 100 → digits 2 0 (two n ++ s) ≡ some (n, s)
unfolding digits digit_at
digits-two n s h = ground arith

digits-four :
    (n : ℕ) (s : Text)
    → n < 10000
    → digits 4 0 (digit_at 1000 n ∷ digit_at 100 n ∷ digit_at 10 n ∷ digit_at 1 n ∷ s) ≡ some (n, s)
unfolding digits digit_at
digits-four n s h = ground arith

fraction_lem :
    (n : ℕ) (s : Text)
    → n < 1000
    → fraction (b'.' ∷ digit_at 100 n ∷ digit_at 10 n ∷ digit_at 1 n ∷ b'Z' ∷ s)
      ≡ some (n, b'Z' ∷ s)
unfolding fraction digit_at
fraction_lem n s h = ground arith

module _ (y m d h mi s ms : ℕ) (hy : y < 10000) (hm : m < 100) (hd : d < 100) (hh : h < 24)
    (hmi : mi < 60) (hs : s < 60) (hms : ms < 1000) where
  fields-print :
      fields (
        digit_at 1000 y ∷ digit_at 100 y ∷ digit_at 10 y ∷ digit_at 1 y ∷ b'-' ∷ two m
        ++ (b'-' ∷ two d
            ++ (b'T' ∷ two h
                ++ (b':' ∷ two mi
                    ++ (b':' ∷ two s
                        ++ (b'.'
                            ∷ digit_at 100 ms
                            ∷ digit_at 10 ms
                            ∷ digit_at 1 ms
                            ∷ b'Z'
                            ∷ []))))))
      ≡ some (record {
        year = y;
        month = m;
        day = d;
        hour = h;
        minute = mi;
        second = s;
        milli = ms;
        ahead = 0;
        behind = 0;
      })
  unfolding fields expect offset at_end
  fields-print = rw (digits-four y _ hy) (
      rw (digits-two m _ hm) (
        rw (digits-two d _ hd) (
          rw (digits-two h _ (omega arith)) (
            rw (lt→ltb h 24 hh) (
              rw (digits-two mi _ (omega arith)) (
                rw (lt→ltb mi 60 hmi) (
                  rw (digits-two s _ (omega arith))
                    (rw (lt→ltb s 60 hs) (rw (fraction_lem ms _ hms))))))))))

module _ (t : ℕ) where
  -- The day of a time, counted from 0000-01-01.
  abbrev day_number : ℕ
  day_number = t / day_ms - 1

  abbrev parts : Fields
  parts = record {
    year = year_of day_number;
    month = month_of day_number;
    day = date_of day_number;
    hour = t % day_ms / 3600000;
    minute = t % day_ms / 60000 % 60;
    second = t % day_ms / 1000 % 60;
    milli = t % day_ms % 1000;
    ahead = 0;
    behind = 0;
  }

  fields-to_iso : day_ms ≤ t → IsFound day_number → fields (to_iso t) ≡ some parts
  unfolding to_iso date_text time_text
  fields-to_iso lo found = rw (le→ltb t day_ms lo) (
      rw (lt→ltb (year_of day_number) 10000 found.year_small) (
        fields-print _ _ _ _ _ _ _ found.year_small (omega (arith, found)) (omega (arith, found))
          (omega arith) (omega arith) (omega arith) (omega arith)))

  valid_date-parts : IsFound day_number → valid_date parts ≡ true
  unfolding valid_date
  valid_date-parts found = ground arith

  date_parse-parts : day_ms ≤ t → IsFound day_number → date_parse parts ≡ t
  unfolding date_parse
  date_parse-parts lo found = omega arith

-- A time of the years 0 to 9999, printed by `to_iso`, reads back as the same time.
pub timestamp_millis-to_iso :
    (t : ℕ) → day_ms ≤ t → t < year_10000 → timestamp_millis (to_iso t) ≡ some t
unfolding timestamp_millis
timestamp_millis-to_iso t lo hi =
    let found = day-IsFound (day_number t) (omega arith) in
    rw (fields-to_iso t lo found) (rw (valid_date-parts t found) (rw (date_parse-parts t lo found)))

-- A time outside the years 0 to 9999 is printed in a form that the pattern for times refuses.
pub timestamp_millis-to_iso_outside :
    (t : ℕ) → (t < day_ms) ⊎ (year_10000 ≤ t) → timestamp_millis (to_iso t) ≡ none
unfolding timestamp_millis fields to_iso date_text digits
timestamp_millis-to_iso_outside t (inl before) = rw (lt→ltb t day_ms before)
timestamp_millis-to_iso_outside t (inr after) = rw (le→ltb t day_ms (omega arith)) (
    rw (le→ltb (year_of (day_number t)) 10000 (year_from_day-ge (day_number t) (omega arith))) refl)
