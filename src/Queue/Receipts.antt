-- ===== src/Queue/Receipts.antt =====
-- The receipts of public/kiosk-queue-protocol-v3.js: `kioskCommandV3`, `matchesFieldReceipt`,
-- `validKioskResultV3` and `validFieldDay`.
use jenn_shooting_operations.Prelude.{
  ℕ, suc, ◌+◌, Bool, true, false, ◌&&◌, ◌||◌, not, String, [], ◌∷◌, leb, ◌==◌, if◌then◌else◌,
}
use jenn_shooting_operations.Json.{
  Json, text, object, array, get, is_text, is_number, is_undefined, is_boolean, is_true, is_false,
  valid_event_id, valid_revision, number_of, same_value, Members, done, member,
}
use jenn_shooting_operations.Timestamp.{Text, codes}
use jenn_shooting_operations.Queue.Values.{
  Protocol, valid_resource_id, is_time, is_subject, is_owner,
}

-- What the service is sent of an item.
unfoldable pub kiosk_command_v3 : Json → Members
unfolding get is_text
kiosk_command_v3 item = member "eventId" (get item "eventId") (
    member "runId" (get item "runId") (
      member "scheduleItemId" (get item "scheduleItemId") (
        member "eventType" (get item "eventType") (
          member "expectedRunRevision" (get item "expectedRunRevision") (
            member "expectedScheduleRevision" (get item "expectedScheduleRevision") (
              if is_text (get item "recordingMode") "device-declared"
              then member "recordingMode" (get item "recordingMode")
                  (member "occurredAt" (get item "occurredAt") done)
              else done))))))

unfoldable pub count : Members → ℕ
count done = 0
count (member k v ms) = suc (count ms)

unfoldable pub agree : Members → Json → Bool
unfolding same_value get
agree done other = true
agree (member k v ms) other = same_value (get other k) v && agree ms other

-- The keys of an object differ from each other.
unfoldable pub is_command : Json → Members → Bool
unfolding count agree
is_command (object ms) command = (count ms == count command) && agree command (object ms)
is_command _ command = false

unfoldable pub declared_receipt : Protocol → Json → Json → Bool
unfolding get is_text same_value is_command kiosk_command_v3
declared_receipt p receipt item =
    is_text (get receipt "source")
      (if is_owner p.version then "owner-device-declared-v1" else "kiosk-device-declared-v3")
    && is_text (get receipt "timeSource") "device-declared"
    && is_time p (get receipt "recordedAt")
    && is_command (get receipt "command") (kiosk_command_v3 item)
    && same_value
        (if is_text (get item "eventType") "start"
          then get receipt "startedAt"
          else get receipt "completedAt")
        (get item "occurredAt")

-- The receipt is about the item.
unfoldable pub matches_field_receipt : Protocol → Json → Json → Bool
unfolding get is_text is_number same_value declared_receipt
matches_field_receipt p receipt item =
    is_true (get receipt "ok")
    && (is_undefined (get receipt "replayed") || is_boolean (get receipt "replayed"))
    && is_text (get receipt "code") "RUN_EVENT_APPLIED"
    && same_value (get receipt "eventId") (get item "eventId")
    && same_value (get receipt "runId") (get item "runId")
    && same_value (get receipt "actor") (get item "subjectId")
    && same_value (get receipt "deviceId") (get item "deviceId")
    && same_value (get receipt "resourceId") (get item "resourceId")
    && same_value (get receipt "scheduleRevision") (get item "expectedScheduleRevision")
    && is_number (get receipt "runRevision") (number_of (get item "expectedRunRevision") + 1)
    && is_text (get receipt "resultingState")
        (if is_text (get item "eventType") "start" then "shooting" else "completed")
    && (if is_text (get item "recordingMode") "server-received"
        then is_text (get receipt "source") "kiosk-online-v3"
        else declared_receipt p receipt item)

abbrev pub is_upper : ℕ → Bool
is_upper c = leb b'A' c && leb c b'Z'

unfoldable pub code_characters : Text → Bool
code_characters [] = true
code_characters (c ∷ s) = (is_upper c || leb b'0' c && leb c b'9' || c == b'_') && code_characters s

-- `/^[A-Z][A-Z0-9_]+$/`
unfoldable pub is_code : Text → Bool
unfolding code_characters
is_code [] = false
is_code (c ∷ []) = false
is_code (c ∷ d ∷ s) = is_upper c && code_characters (d ∷ s)

abbrev pub code_text : Json → Bool
code_text (text s) = is_code (codes s)
code_text _ = false

unfoldable pub valid_kiosk_result_v3 : Json → Bool
unfolding get is_text is_code
valid_kiosk_result_v3 value =
    is_false (get value "ok") && code_text (get value "code")
    || is_true (get value "ok") && is_text (get value "code") "RUN_EVENT_APPLIED"

abbrev pub is_array : Json → Bool
is_array (array es) = true
is_array _ = false

-- `validFieldDay`
unfoldable pub valid_field_day : Protocol → Json → String → Bool
unfolding get is_text is_number valid_resource_id valid_event_id valid_revision
valid_field_day p value resource =
    is_true (get value "ok")
    && is_number (get value "protocolVersion") (if is_owner p.version then 4 else 3)
    && is_text (get value "resourceId") resource
    && valid_resource_id (get value "resourceId")
    && is_subject p.version (get value "subjectId")
    && valid_event_id (get value "deviceId")
    && (not (is_owner p.version) || is_text (get value "role") "administrator")
    && is_time p (get value "serverTime")
    && valid_revision (get (get value "revisions") "scheduleRevision")
    && valid_revision (get (get value "revisions") "projectionRevision")
    && is_array (get value "sessions")
