-- ===== src/UseCase/Command.antt =====
-- `normalizeCommand` of src/run-event-use-case-v2.mjs. A text is a list of Unicode characters, so that
-- there are no lone surrogates; `length` counts UTF-16 code units.
use jenn_shooting_operations.Prelude.{
  ℕ, Bool, true, ◌&&◌, ◌||◌, not, String, Option, none, some, leb, str_eq, if◌then◌else◌,
}
use jenn_shooting_operations.Prelude.Results.{Result, ok, err, ensure, or_fail, ◌>>=◌}
use jenn_shooting_operations.Patterns.{
  is_event_id, is_white, is_line_terminator, starts_visible, ends_visible, all_characters,
  utf16_length,
}
use jenn_shooting_operations.Timestamp.{Text, codes, timestamp_millis, to_iso}
use jenn_shooting_operations.Run.{Tag, known, unknown, RunEvent, block, RunError}
use jenn_shooting_operations.Run.Fold.{Number, nat, other, max_safe_integer}
use jenn_shooting_operations.Lifecycle.{RequestError, ScopeError, RevisionError}

-- The codes of failures and of exceptions.
pub data Failure : Type 0 where
  invalid_run_event_command invalid_event_id invalid_run_event invalid_revision : Failure
  invalid_event_time invalid_blocking_reason blocking_reason_note_required : Failure
  blocking_reason_not_allowed invalid_server_time : Failure
  idempotency_key_reuse event_receipt_integrity_error event_time_review_required : Failure
  run_not_found run_schedule_item_mismatch run_schedule_item_not_executable : Failure
  invalid_run_scope_binding invalid_run_scope revision_counters_missing revision_overflow : Failure
  revision_failed : RevisionError → Failure
  fold_failed : RunError → Failure
  request_failed : RequestError → Failure
  scope_failed : ScopeError → Failure
  run_context_capture_failed run_concurrent_update request_concurrent_update : Failure
  revision_concurrent_update projection_failed outbox_enqueue_failed : Failure
  notification_failed sqlite_error : Failure

-- A field of an input object. `undefined` and `null` are `absent`.
pub data Field : Type 0 where
  absent : Field
  text_field : String → Field
  other_field : Field

pub record Input : Type 0 where
  pub event_id : Field
  pub run_id : Field
  pub schedule_item_id : Field
  pub device_id : Field
  pub actor_id : Field
  pub event_type : Tag RunEvent
  pub expected_run_revision : Number
  pub occurred_at : Field
  pub reason_code : Field
  pub note : Field

pub record Command : Type 0 where
  pub event_id : String
  pub run_id : String
  pub schedule_item_id : String
  pub event_type : RunEvent
  pub expected_run_revision : ℕ
  pub occurred_at : Text
  pub device_id : String
  pub actor_id : String
  pub reason_code : Option String
  pub note : Option String

-- `IDENTIFIER`: the ends are visible, and no line ends in between.
unfoldable pub is_identifier : Text → Bool
unfolding is_white starts_visible ends_visible all_characters
is_identifier s =
    starts_visible s && ends_visible s && all_characters (λ c. not (is_line_terminator c)) s

identifier_field : Field → Result Failure String
unfolding is_identifier utf16_length
identifier_field (text_field s) =
    if leb (utf16_length (codes s)) 160 && is_identifier (codes s)
    then ok s
    else err invalid_run_event_command
identifier_field _ = err invalid_run_event_command

event_id_field : Field → Result Failure String
unfolding is_event_id
event_id_field (text_field s) = if is_event_id (codes s) then ok s else err invalid_event_id
event_id_field _ = err invalid_event_id

-- `normalizedText` where `null` is allowed. An error is a value that is no text, or is too long.
unfoldable pub normalized_text : Field → ℕ → Result Failure (Option String)
unfolding utf16_length
normalized_text absent max_length = ok none
normalized_text (text_field s) max_length =
    if leb (utf16_length (codes s)) max_length then ok (some s) else err invalid_run_event_command
normalized_text other_field max_length = err invalid_run_event_command

-- `normalizedTimestamp`
unfoldable pub normalized_timestamp : Text → Option Text
normalized_timestamp s = elim (timestamp_millis s) [ none ↦ none | some t ↦ some (to_iso t) ]

abbrev timestamp_field : Field → Option Text
timestamp_field (text_field s) = normalized_timestamp (codes s)
timestamp_field _ = none

-- `BLOCKING_REASONS`
unfoldable pub is_blocking_reason : String → Bool
is_blocking_reason s =
    str_eq s "sampleWaiting"
    || str_eq s "specConfirming"
    || str_eq s "deviceIssue"
    || str_eq s "talentWaiting"
    || str_eq s "siteIssue"
    || str_eq s "other"

is_blank : Option String → Bool
unfolding all_characters is_white
is_blank none = true
is_blank (some s) = all_characters is_white (codes s)

-- The reason that a block must have, and any other event must not.
unfoldable pub check_reason : RunEvent → Option String → Option String → Result Failure (Unit {0})
unfolding is_blocking_reason is_blank
check_reason block none comment = err invalid_blocking_reason
check_reason block (some reason) comment = do
  _ ← ensure (is_blocking_reason reason) invalid_blocking_reason
  ensure (not (str_eq reason "other" && is_blank comment)) blocking_reason_note_required
check_reason _ none comment = ok tt
check_reason _ (some _) comment = err blocking_reason_not_allowed

abbrev event_field : Tag RunEvent → Result Failure RunEvent
event_field (known e) = ok e
event_field (unknown _) = err invalid_run_event

abbrev revision_field : Number → Result Failure ℕ
revision_field (nat n) = if leb n max_safe_integer then ok n else err invalid_revision
revision_field other = err invalid_revision

-- `none` is an input that is no object.
unfoldable pub normalize_command : Option Input → Result Failure Command
unfolding event_id_field identifier_field normalized_text check_reason normalized_timestamp
normalize_command none = err invalid_run_event_command
normalize_command (some input) = do
  event_id ← event_id_field input.event_id
  run_id ← identifier_field input.run_id
  schedule_item_id ← identifier_field input.schedule_item_id
  device_id ← identifier_field input.device_id
  actor_id ← identifier_field input.actor_id
  event_type ← event_field input.event_type
  revision ← revision_field input.expected_run_revision
  occurred_at ← or_fail (timestamp_field input.occurred_at) invalid_event_time
  reason_code ← normalized_text input.reason_code 120
  note ← normalized_text input.note 2000
  _ ← check_reason event_type reason_code note
  ok (record {
    event_id = event_id;
    run_id = run_id;
    schedule_item_id = schedule_item_id;
    event_type = event_type;
    expected_run_revision = revision;
    occurred_at = occurred_at;
    device_id = device_id;
    actor_id = actor_id;
    reason_code = reason_code;
    note = note;
  })
