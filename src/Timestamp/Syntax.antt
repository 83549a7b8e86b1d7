-- ===== src/Timestamp/Syntax.antt =====
-- The pattern `RFC3339` of src/domain-rules-v2.mjs and src/event-time-policy-v2.mjs, read from the
-- left. A text is the list of its code points.
use Prim.Native.Char.{code}
use jenn_shooting_operations.Prelude.{
  ℕ, zero, suc, ◌+◌, ◌-◌, ◌*◌, ◌/◌, String, Bool, true, false, ◌&&◌, Option, none, some, List, [],
  ◌∷◌, ltb, leb, ◌==◌, if◌then◌else◌,
}
use jenn_shooting_operations.Prelude.Options.{◌>>=◌, guard}

abbrev pub Text : Type 0
Text = List ℕ

abbrev pub codes : String → Text
codes String.[] = []
codes (String.◌∷◌ c s) = code c ∷ codes s

is_digit : ℕ → Bool
is_digit c = leb b'0' c && leb c b'9'

-- `\d` so many times, read as a decimal number.
unfoldable pub digits : ℕ → ℕ → Text → Option (ℕ × Text)
unfolding is_digit
digits zero n s = some (n, s)
digits (suc k) n [] = none
digits (suc k) n (c ∷ s) =
    let rest = digits k (n * 10 + (c - b'0')) s in if is_digit c then rest else none

unfoldable pub expect : ℕ → Text → Option Text
expect c [] = none
expect c (d ∷ s) = if c == d then some s else none

-- `\d*` after the first three decimals of the second.
unfoldable pub skip_digits : Text → Text
unfolding is_digit
skip_digits [] = []
skip_digits (c ∷ s) = let rest = skip_digits s in if is_digit c then rest else c ∷ s

-- `(?:\.\d+)?`, in milliseconds: `Date.parse` keeps three decimals.
unfoldable pub decimals : ℕ → ℕ → Text → ℕ × Text
unfolding is_digit skip_digits
decimals weight n [] = (n, [])
decimals weight n (c ∷ s) =
    let rest = decimals (weight / 10) (n + (c - b'0') * weight) s in
    if is_digit c then rest else (n, c ∷ s)

unfoldable pub fraction : Text → Option (ℕ × Text)
unfolding is_digit decimals
fraction [] = some (0, [])
fraction (c ∷ []) = if c == b'.' then none else some (0, c ∷ [])
fraction (c ∷ d ∷ s) =
    if c == b'.'
    then (if is_digit d then some (decimals 100 0 (d ∷ s)) else none)
    else some (0, c ∷ d ∷ s)

-- `$`
unfoldable pub at_end : Text → Bool
at_end [] = true
at_end (_ ∷ _) = false

-- The offset from UTC in minutes: ahead of UTC on the left, behind it on the right.
unfoldable pub offset : Text → Option (ℕ × ℕ)
unfolding digits expect at_end
offset [] = none
offset (c ∷ s) = if c == b'Z' then (if at_end s then some (0, 0) else none) else (do
  (h, s₁) ← digits 2 0 s
  _ ← guard (ltb h 24)
  s₂ ← expect b':' s₁
  (m, s₃) ← digits 2 0 s₂
  _ ← guard (ltb m 60 && at_end s₃)
  if c == b'+' then some (h * 60 + m, 0) else if c == b'-' then some (0, h * 60 + m) else none)

pub record Fields : Type 0 where
  pub year : ℕ
  pub month : ℕ
  pub day : ℕ
  pub hour : ℕ
  pub minute : ℕ
  pub second : ℕ
  pub milli : ℕ
  pub ahead : ℕ
  pub behind : ℕ

-- The pattern `RFC3339`, with the parts that it matches.
unfoldable pub fields : Text → Option Fields
unfolding digits expect fraction offset
fields s = do
  (year, s₁) ← digits 4 0 s
  s₂ ← expect b'-' s₁
  (month, s₃) ← digits 2 0 s₂
  s₄ ← expect b'-' s₃
  (day, s₅) ← digits 2 0 s₄
  s₆ ← expect b'T' s₅
  (hour, s₇) ← digits 2 0 s₆
  _ ← guard (ltb hour 24)
  s₈ ← expect b':' s₇
  (minute, s₉) ← digits 2 0 s₈
  _ ← guard (ltb minute 60)
  s₁₀ ← expect b':' s₉
  (second, s₁₁) ← digits 2 0 s₁₀
  _ ← guard (ltb second 60)
  (milli, s₁₂) ← fraction s₁₁
  (ahead, behind) ← offset s₁₂
  some (record {
    year = year;
    month = month;
    day = day;
    hour = hour;
    minute = minute;
    second = second;
    milli = milli;
    ahead = ahead;
    behind = behind;
  })
