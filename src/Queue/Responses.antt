-- ===== src/Queue/Responses.antt =====
-- What the service answers to an event: `validateKioskRunEventResponse`, `applied`, `reviewRequired`,
-- `protocolFailure` and `validResultHttpStatus` of public/kiosk-offline-queue-v2.js.
use jenn_shooting_operations.Prelude.{
  ℕ, Bool, true, false, ◌&&◌, ◌||◌, not, String, str_eq, Option, none, some, List, [], ◌∷◌, leb,
  ◌==◌, if◌then◌else◌,
}
use jenn_shooting_operations.Json.{
  Json, get, is_object, is_text, is_one_of, is_number, is_null, is_true, is_false, is_boolean,
  exact_keys, valid_event_id, valid_revision, text_of, same_value,
}
use jenn_shooting_operations.Queue.Values.{
  Version, v2, Protocol, valid_identifier, valid_timestamp, valid_nullable_revision,
  valid_nullable_timestamp, valid_bounded_text,
}
use jenn_shooting_operations.Queue.Receipts.{matches_field_receipt, valid_kiosk_result_v3}

-- `status` is the status where it is an integer and not negative.
pub record Response : Type 0 where
  pub status : Option ℕ
  pub body : Json

abbrev pub run_states : List String
run_states = "scheduled" ∷ "shooting" ∷ "blocked" ∷ "completed" ∷ "cancelled" ∷ []

abbrev pub applied_result_keys : List String
applied_result_keys =
    "schemaVersion" ∷ "ok" ∷ "code" ∷ "replayed" ∷ "eventId" ∷ "runId" ∷ "previousState"
    ∷ "resultingState" ∷ "runRevision" ∷ "projectionRevision" ∷ "scheduleRevision" ∷ "startedAt"
    ∷ "completedAt" ∷ "grossDurationMs" ∷ "blockedDurationMs" ∷ "netDurationMs"
    ∷ "metricsAlgorithmVersion" ∷ []

abbrev pub review_result_keys : List String
review_result_keys =
    "schemaVersion" ∷ "ok" ∷ "code" ∷ "replayed" ∷ "eventId" ∷ "runId" ∷ "scheduleItemId"
    ∷ "reviewStatus" ∷ "reviewReason" ∷ "policyVersion" ∷ "receivedAt" ∷ []

abbrev pub conflict_result_keys : List String
conflict_result_keys =
    "schemaVersion" ∷ "ok" ∷ "code" ∷ "replayed" ∷ "eventId" ∷ "runId" ∷ "scope"
    ∷ "currentRunRevision" ∷ []

abbrev pub failure_result_keys : List String
failure_result_keys = "schemaVersion" ∷ "ok" ∷ "code" ∷ "replayed" ∷ []

-- `RESULT_STATUS_BY_CODE`; its keys are `RESULT_FAILURE_CODES`.
abbrev pub result_status_by_code : List (String × ℕ)
result_status_by_code =
    ("INVALID_JSON", 400)
    ∷ ("INVALID_REQUEST", 400)
    ∷ ("UNAUTHENTICATED", 401)
    ∷ ("AUTH_NOT_CONFIGURED", 401)
    ∷ ("FORBIDDEN", 403)
    ∷ ("RESOURCE_NOT_FOUND", 404)
    ∷ ("SCHEDULE_ITEM_NOT_FOUND", 404)
    ∷ ("RUN_NOT_FOUND", 404)
    ∷ ("IDEMPOTENCY_KEY_REUSE", 409)
    ∷ ("RUN_ID_MISMATCH", 409)
    ∷ ("RUN_ID_REUSE", 409)
    ∷ ("SCHEDULE_ITEM_ID_MISMATCH", 409)
    ∷ ("RUN_PREPARATION_REQUIRED", 409)
    ∷ ("MULTIPLE_ACTIVE_RUNS", 409)
    ∷ ("MULTIPLE_CURRENT_CANDIDATES", 409)
    ∷ ("MULTIPLE_NEXT_CANDIDATES", 409)
    ∷ ("INVALID_RUN_TRANSITION", 409)
    ∷ ("EVENT_TIME_OUT_OF_ORDER", 409)
    ∷ ("INVALID_RUN_EVENT_COMMAND", 422)
    ∷ ("INVALID_EVENT_ID", 422)
    ∷ ("INVALID_EVENT_TIME", 422)
    ∷ ("INVALID_BLOCKING_REASON", 422)
    ∷ ("BLOCKING_REASON_NOTE_REQUIRED", 422)
    ∷ ("EVENT_RECEIPT_INTEGRITY_ERROR", 500)
    ∷ ("INTERNAL_ERROR", 500)
    ∷ ("STORE_BUSY", 503)
    ∷ ("SERVICE_UNAVAILABLE", 503)
    ∷ []

unfoldable pub status_of_code : List (String × ℕ) → String → Option ℕ
status_of_code [] code = none
status_of_code ((c, status) ∷ rows) code =
    let rest = status_of_code rows code in if str_eq c code then some status else rest

unfoldable pub has_status : Option ℕ → ℕ → Bool
has_status none n = false
has_status (some m) n = m == n

abbrev pub same_status : Option ℕ → Option ℕ → Bool
same_status none status = false
same_status (some n) status = has_status status n

abbrev pub is_known : Option ℕ → Bool
is_known none = false
is_known (some n) = true

unfoldable pub valid_applied_result : Json → Bool
unfolding exact_keys get valid_event_id valid_identifier is_one_of valid_revision
    valid_nullable_timestamp valid_nullable_revision valid_bounded_text
valid_applied_result value =
    exact_keys value applied_result_keys applied_result_keys
    && is_true (get value "ok")
    && is_boolean (get value "replayed")
    && valid_event_id (get value "eventId")
    && valid_identifier (get value "runId")
    && is_one_of (get value "previousState") run_states
    && is_one_of (get value "resultingState") run_states
    && valid_revision (get value "runRevision")
    && valid_revision (get value "projectionRevision")
    && valid_revision (get value "scheduleRevision")
    && valid_nullable_timestamp (get value "startedAt")
    && valid_nullable_timestamp (get value "completedAt")
    && valid_nullable_revision (get value "grossDurationMs")
    && valid_revision (get value "blockedDurationMs")
    && valid_nullable_revision (get value "netDurationMs")
    && (is_null (get value "metricsAlgorithmVersion")
        || valid_bounded_text (get value "metricsAlgorithmVersion") 160)

unfoldable pub valid_review_result : Json → Bool
unfolding exact_keys get valid_event_id valid_identifier is_one_of is_text valid_timestamp
valid_review_result value =
    exact_keys value review_result_keys review_result_keys
    && is_false (get value "ok")
    && is_boolean (get value "replayed")
    && valid_event_id (get value "eventId")
    && valid_identifier (get value "runId")
    && valid_identifier (get value "scheduleItemId")
    && is_text (get value "reviewStatus") "pending"
    && is_one_of (get value "reviewReason") ("tooFarFuture" ∷ "tooOld" ∷ [])
    && is_text (get value "policyVersion") "kiosk-event-time-local-v1"
    && valid_timestamp (get value "receivedAt")

unfoldable pub valid_conflict_result : Json → Bool
unfolding exact_keys get valid_event_id valid_identifier is_text valid_revision
valid_conflict_result value =
    exact_keys value conflict_result_keys conflict_result_keys
    && is_false (get value "ok")
    && is_false (get value "replayed")
    && valid_event_id (get value "eventId")
    && valid_identifier (get value "runId")
    && is_text (get value "scope") "run"
    && valid_revision (get value "currentRunRevision")

unfoldable pub valid_failure_result : Json → Bool
unfolding exact_keys get status_of_code
valid_failure_result value =
    exact_keys value failure_result_keys failure_result_keys
    && is_false (get value "ok")
    && is_false (get value "replayed")
    && is_known (status_of_code result_status_by_code (text_of (get value "code")))

unfoldable pub validate_kiosk_run_event_response : Json → Bool
unfolding get is_number is_text valid_applied_result valid_review_result valid_conflict_result
    valid_failure_result
validate_kiosk_run_event_response value =
    is_number (get value "schemaVersion") 2
    && (if is_text (get value "code") "RUN_EVENT_APPLIED"
        then valid_applied_result value
        else if is_text (get value "code") "EVENT_TIME_REVIEW_REQUIRED"
        then valid_review_result value
        else if is_text (get value "code") "REVISION_CONFLICT"
        then valid_conflict_result value
        else valid_failure_result value)

-- Created now, or found as it was created.
unfoldable pub exact_status : Response → Bool
unfolding has_status get
exact_status response =
    has_status response.status 201 && is_false (get response.body "replayed")
    || has_status response.status 200 && is_true (get response.body "replayed")

abbrev pub applied_of : Version → Protocol → Response → Json → Bool
applied_of v2 p response head =
    validate_kiosk_run_event_response response.body
    && is_true (get response.body "ok")
    && is_text (get response.body "code") "RUN_EVENT_APPLIED"
    && exact_status response
    && same_value (get response.body "eventId") (get head "eventId")
    && same_value (get response.body "runId") (get head "runId")
applied_of _ p response head =
    has_status response.status 200 && matches_field_receipt p response.body head

unfoldable pub applied : Protocol → Response → Json → Bool
unfolding validate_kiosk_run_event_response exact_status get is_text same_value has_status
    matches_field_receipt
applied p response head = applied_of p.version p response head

abbrev pub review_required_of : Version → Response → Json → Bool
review_required_of v2 response head =
    validate_kiosk_run_event_response response.body
    && is_false (get response.body "ok")
    && is_text (get response.body "code") "EVENT_TIME_REVIEW_REQUIRED"
    && same_value (get response.body "eventId") (get head "eventId")
    && same_value (get response.body "runId") (get head "runId")
    && same_value (get response.body "scheduleItemId") (get head "scheduleItemId")
    && has_status response.status 202
review_required_of _ response head =
    has_status response.status 422
    && is_text (get response.body "code") "EVENT_TIME_REVIEW_REQUIRED"

unfoldable pub review_required : Protocol → Response → Json → Bool
unfolding validate_kiosk_run_event_response get is_text same_value has_status
review_required p response head = review_required_of p.version response head

abbrev pub in_range : Option ℕ → ℕ → ℕ → Bool
in_range none low high = false
in_range (some n) low high = leb low n && leb n high

unfoldable pub protocol_failure : Response → Bool
protocol_failure response = not (in_range response.status 100 599) || not (is_object response.body)

unfoldable pub valid_result_http_status : Response → Bool
unfolding exact_status has_status status_of_code get is_text
valid_result_http_status response =
    if is_text (get response.body "code") "RUN_EVENT_APPLIED"
    then exact_status response
    else if is_text (get response.body "code") "EVENT_TIME_REVIEW_REQUIRED"
    then has_status response.status 202
    else if is_text (get response.body "code") "REVISION_CONFLICT"
    then has_status response.status 409
    else same_status (status_of_code result_status_by_code (text_of (get response.body "code")))
        response.status

abbrev pub conflict_codes : List String
conflict_codes =
    "REVISION_CONFLICT" ∷ "IDEMPOTENCY_KEY_REUSE" ∷ "RUN_ID_MISMATCH" ∷ "RUN_ID_REUSE"
    ∷ "SCHEDULE_ITEM_ID_MISMATCH" ∷ "RUN_PREPARATION_REQUIRED" ∷ "MULTIPLE_ACTIVE_RUNS"
    ∷ "MULTIPLE_CURRENT_CANDIDATES" ∷ "MULTIPLE_NEXT_CANDIDATES" ∷ "INVALID_RUN_TRANSITION"
    ∷ "EVENT_TIME_OUT_OF_ORDER" ∷ []

abbrev pub valid_result_of : Version → Response → Bool
valid_result_of v2 response =
    validate_kiosk_run_event_response response.body && valid_result_http_status response
valid_result_of _ response =
    valid_kiosk_result_v3 response.body
    && (if is_true (get response.body "ok")
        then has_status response.status 200
        else in_range response.status 400 599)

-- The tests of the body and the status in the replay, of a response of which `protocolFailure` is false.
unfoldable pub valid_result : Protocol → Response → Bool
unfolding validate_kiosk_run_event_response valid_result_http_status valid_kiosk_result_v3
    has_status get
valid_result p response = valid_result_of p.version response
