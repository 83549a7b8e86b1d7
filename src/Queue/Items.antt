-- ===== src/Queue/Items.antt =====
-- `validateKioskQueueItem` of public/kiosk-offline-queue-v2.js and `validateFieldItem` of
-- public/kiosk-queue-protocol-v3.js.
use jenn_shooting_operations.Prelude.{
  ℕ, Bool, true, false, ◌&&◌, ◌||◌, not, String, List, [], ◌∷◌, ◌++◌, length, leb, if◌then◌else◌,
}
use jenn_shooting_operations.Json.{
  Json, undefined, text, object, get, is_text, is_one_of, is_number, is_undefined, exact_keys,
  valid_event_id, valid_revision, number_of, text_of, same_value, sort_members,
}
use jenn_shooting_operations.Timestamp.{codes}
use jenn_shooting_operations.Queue.Values.{
  Version, v2, v4, Protocol, valid_identifier, valid_timestamp, is_blank, valid_resource_id,
  is_time, is_subject, is_owner,
}

abbrev pub item_required_keys : List String
item_required_keys =
    "schemaVersion" ∷ "eventId" ∷ "runId" ∷ "scheduleItemId" ∷ "eventType" ∷ "expectedRunRevision"
    ∷ "occurredAt" ∷ "deviceId" ∷ "localSequence" ∷ []

abbrev pub item_keys : List String
item_keys = item_required_keys ++ "reasonCode" ∷ "note" ∷ []

abbrev pub event_types : List String
event_types = "start" ∷ "block" ∷ "resume" ∷ "complete" ∷ []

abbrev pub reason_codes : List String
reason_codes =
    "sampleWaiting" ∷ "specConfirming" ∷ "deviceIssue" ∷ "talentWaiting" ∷ "siteIssue" ∷ "other"
    ∷ []

-- `undefined`, or a text that is not too long.
abbrev pub valid_note : Json → Bool
valid_note undefined = true
valid_note (text s) = leb (length (codes s)) 2000
valid_note _ = false

abbrev pub is_written : Json → Bool
is_written (text s) = not (is_blank s)
is_written _ = false

unfoldable pub valid_reason : Json → Json → Json → Bool
unfolding is_text is_one_of
valid_reason event_type reason note =
    if is_text event_type "block"
    then is_one_of reason reason_codes && (not (is_text reason "other") || is_written note)
    else is_undefined reason

unfoldable pub validate_kiosk_queue_item : Json → Bool
unfolding exact_keys get is_number valid_event_id valid_identifier is_one_of valid_revision
    valid_timestamp valid_reason
validate_kiosk_queue_item value =
    exact_keys value item_keys item_required_keys
    && is_number (get value "schemaVersion") 2
    && valid_event_id (get value "eventId")
    && valid_identifier (get value "runId")
    && valid_identifier (get value "scheduleItemId")
    && is_one_of (get value "eventType") event_types
    && valid_revision (get value "expectedRunRevision")
    && valid_timestamp (get value "occurredAt")
    && valid_identifier (get value "deviceId")
    && valid_revision (get value "localSequence")
    && valid_note (get value "note")
    && valid_reason (get value "eventType") (get value "reasonCode") (get value "note")

abbrev pub field_keys : List String
field_keys =
    "schemaVersion" ∷ "eventId" ∷ "runId" ∷ "scheduleItemId" ∷ "eventType" ∷ "expectedRunRevision"
    ∷ "expectedScheduleRevision" ∷ "occurredAt" ∷ "recordingMode" ∷ "subjectId" ∷ "deviceId"
    ∷ "resourceId" ∷ "localSequence" ∷ []

abbrev pub recording_modes : Version → List String
recording_modes v4 = "device-declared" ∷ []
recording_modes _ = "device-declared" ∷ "server-received" ∷ []

-- An owner's items have the schema 4, a device's the schema 3.
unfoldable pub validate_field_item : Protocol → Json → Bool
unfolding exact_keys get is_number valid_event_id valid_resource_id is_one_of valid_revision
validate_field_item p value =
    exact_keys value field_keys field_keys
    && is_number (get value "schemaVersion") (if is_owner p.version then 4 else 3)
    && valid_event_id (get value "eventId")
    && valid_event_id (get value "runId")
    && valid_event_id (get value "scheduleItemId")
    && valid_event_id (get value "deviceId")
    && is_subject p.version (get value "subjectId")
    && valid_resource_id (get value "resourceId")
    && valid_revision (get value "expectedRunRevision")
    && valid_revision (get value "expectedScheduleRevision")
    && valid_revision (get value "localSequence")
    && is_one_of (get value "eventType") ("start" ∷ "complete" ∷ [])
    && is_one_of (get value "recordingMode") (recording_modes p.version)
    && is_time p (get value "occurredAt")

abbrev pub valid_item_of : Version → Protocol → Json → Bool
valid_item_of v2 p value = validate_kiosk_queue_item value
valid_item_of _ p value = validate_field_item p value

-- The choice of the validator by the version of the protocol.
unfoldable pub valid_item : Protocol → Json → Bool
unfolding validate_kiosk_queue_item validate_field_item
valid_item p value = valid_item_of p.version p value

unfoldable pub event_id : Json → String
unfolding get
event_id item = text_of (get item "eventId")

unfoldable pub local_sequence : Json → ℕ
unfolding get
local_sequence item = number_of (get item "localSequence")

-- The members by their keys, as `itemFingerprint` prints them.
unfoldable pub item_fingerprint : Json → Json
unfolding sort_members
item_fingerprint (object ms) = object (sort_members ms)
item_fingerprint value = value

unfoldable pub same_item : Json → Json → Bool
unfolding item_fingerprint same_value
same_item left right = same_value (item_fingerprint left) (item_fingerprint right)
