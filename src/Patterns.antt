-- ===== src/Patterns.antt =====
-- The patterns that the service and the kiosk's page share, of src/run-event-use-case-v2.mjs and
-- public/kiosk-offline-queue-v2.js. A text is a list of code points.
use jenn_shooting_operations.Prelude.{
  ℕ, ◌+◌, Bool, true, false, ◌&&◌, ◌||◌, not, [], ◌∷◌, ltb, leb, ◌==◌, length, if◌then◌else◌,
}
use jenn_shooting_operations.Timestamp.{Text}

unfoldable pub is_alphanumeric : ℕ → Bool
is_alphanumeric c = leb b'0' c && leb c b'9' || leb b'A' c && leb c b'Z' || leb b'a' c && leb c b'z'

unfoldable pub is_event_id_character : ℕ → Bool
is_event_id_character c = is_alphanumeric c || c == b'.' || c == b'_' || c == b':' || c == b'-'

unfoldable pub all_characters : (ℕ → Bool) → Text → Bool
all_characters p [] = true
all_characters p (c ∷ s) = p c && all_characters p s

-- `EVENT_ID`
unfoldable pub is_event_id : Text → Bool
unfolding is_alphanumeric is_event_id_character all_characters
is_event_id [] = false
is_event_id (c ∷ s) =
    is_alphanumeric c
    && leb 7 (length s)
    && leb (length s) 127
    && all_characters is_event_id_character s

unfoldable pub is_line_terminator : ℕ → Bool
is_line_terminator c = c == 10 || c == 13 || c == 0x2028 || c == 0x2029

-- `\s`
unfoldable pub is_white : ℕ → Bool
unfolding is_line_terminator
is_white c =
    leb 9 c && leb c 13
    || c == 32
    || c == 160
    || c == 0x1680
    || leb 0x2000 c && leb c 0x200a
    || is_line_terminator c
    || c == 0x202f
    || c == 0x205f
    || c == 0x3000
    || c == 0xfeff

unfoldable pub ends_visible : Text → Bool
unfolding is_white
ends_visible [] = false
ends_visible (c ∷ []) = not (is_white c)
ends_visible (_ ∷ s) = ends_visible s

unfoldable pub starts_visible : Text → Bool
unfolding is_white
starts_visible [] = false
starts_visible (c ∷ _) = not (is_white c)

-- `length` of a text in JavaScript.
unfoldable pub utf16_length : Text → ℕ
utf16_length [] = 0
utf16_length (c ∷ s) = (if ltb 0xffff c then 2 else 1) + utf16_length s
