-- ===== src/Queue/Values.antt =====
-- The tests on values of public/kiosk-offline-queue-v2.js and public/kiosk-queue-protocol-v3.js. A text
-- has no lone surrogates.
use jenn_shooting_operations.Prelude.{
  ℕ, Bool, true, false, ◌&&◌, ◌||◌, not, String, Option, none, some, [], ◌∷◌, length, leb, ◌==◌,
  if◌then◌else◌,
}
use jenn_shooting_operations.Json.{Json, text, valid_event_id, is_null, valid_revision}
use jenn_shooting_operations.Patterns.{is_white, starts_visible, ends_visible, all_characters}
use jenn_shooting_operations.Timestamp.{Text, codes, timestamp_millis}

-- `protocolVersion`
pub data Version : Type 0 where
  v2 v3 v4 : Version

-- `is_iso` is whether `new Date(value).toISOString() === value` in the runtime.
pub record Protocol : Type 0 where
  pub version : Version
  pub is_iso : String → Bool

-- `validIdentifier`; `length` counts code points.
unfoldable pub valid_identifier : Json → Bool
unfolding starts_visible ends_visible
valid_identifier (text s) =
    leb (length (codes s)) 160 && starts_visible (codes s) && ends_visible (codes s)
valid_identifier _ = false

-- The pattern reads `t` as `T` and `z` as `Z`, and so does `Date.parse`.
unfoldable pub upper_marks : Text → Text
upper_marks [] = []
upper_marks (c ∷ s) =
    let rest = upper_marks s in
    if c == b't' then b'T' ∷ rest else if c == b'z' then b'Z' ∷ rest else c ∷ rest

-- `Date.parse` of what `validTimestamp` admits.
unfoldable pub parsed_time : Json → Option ℕ
unfolding upper_marks timestamp_millis
parsed_time (text s) = timestamp_millis (upper_marks (codes s))
parsed_time _ = none

abbrev pub is_some : Option ℕ → Bool
is_some none = false
is_some (some n) = true

unfoldable pub valid_timestamp : Json → Bool
unfolding parsed_time
valid_timestamp value = is_some (parsed_time value)

unfoldable pub valid_nullable_revision : Json → Bool
unfolding valid_revision
valid_nullable_revision value = is_null value || valid_revision value

unfoldable pub valid_nullable_timestamp : Json → Bool
unfolding valid_timestamp
valid_nullable_timestamp value = is_null value || valid_timestamp value

-- `value.trim() === ''`
unfoldable pub is_blank : String → Bool
unfolding all_characters is_white
is_blank s = all_characters is_white (codes s)

unfoldable pub valid_bounded_text : Json → ℕ → Bool
unfolding is_blank
valid_bounded_text (text s) maximum =
    leb 1 (length (codes s)) && leb (length (codes s)) maximum && not (is_blank s)
valid_bounded_text _ maximum = false

unfoldable pub is_control : ℕ → Bool
is_control c = leb c 0x1f || leb 0x7f c && leb c 0x9f || c == 0x2028 || c == 0x2029

-- `validKioskResourceIdV3`
unfoldable pub valid_resource_id : Json → Bool
unfolding starts_visible ends_visible all_characters is_control
valid_resource_id (text s) =
    starts_visible (codes s)
    && ends_visible (codes s)
    && leb (length (codes s)) 160
    && all_characters (λ c. not (is_control c)) (codes s)
valid_resource_id _ = false

-- `time`
abbrev pub is_time : Protocol → Json → Bool
is_time p (text s) = p.is_iso s
is_time p _ = false

-- `subject`
abbrev pub is_subject : Version → Json → Bool
is_subject v4 value = valid_resource_id value
is_subject _ value = valid_event_id value

abbrev pub is_owner : Version → Bool
is_owner v4 = true
is_owner _ = false
