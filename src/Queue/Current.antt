-- ===== src/Queue/Current.antt =====
-- `validateKioskCurrentResponse` of public/kiosk-offline-queue-v2.js: what a kiosk is to show now.
use jenn_shooting_operations.Prelude.{
  ℕ, Bool, true, false, ◌&&◌, ◌||◌, not, String, Option, some, List, [], ◌∷◌, leb, ltb, ◌==◌,
  if◌then◌else◌,
}
use jenn_shooting_operations.Json.{
  Json, array, get, has, is_text, is_one_of, is_number, is_null, is_undefined, is_true, is_false,
  exact_keys, valid_revision, text_of, Elements, end, element,
}
use jenn_shooting_operations.Queue.Values.{
  valid_identifier, valid_timestamp, parsed_time, valid_bounded_text,
}

abbrev pub current_task_required_keys : List String
current_task_required_keys = "id" ∷ "sku" ∷ "name" ∷ "summary" ∷ []

abbrev pub current_task_keys : List String
current_task_keys = "id" ∷ "sku" ∷ "name" ∷ "summary" ∷ "heroAssetId" ∷ []

unfoldable pub validate_current_task : Json → Bool
unfolding exact_keys get valid_identifier valid_bounded_text
validate_current_task task =
    exact_keys task current_task_keys current_task_required_keys
    && valid_identifier (get task "id")
    && valid_bounded_text (get task "sku") 120
    && valid_bounded_text (get task "name") 240
    && valid_bounded_text (get task "summary") 100
    && (is_undefined (get task "heroAssetId") || valid_identifier (get task "heroAssetId"))

-- Every task is valid, and no two have the same identifier.
unfoldable pub valid_tasks : List String → Elements → Bool
unfolding validate_current_task has get
valid_tasks seen end = true
valid_tasks seen (element task tasks) =
    validate_current_task task
    && not (has seen (text_of (get task "id")))
    && valid_tasks (text_of (get task "id") ∷ seen) tasks

unfoldable pub count_tasks : Json → ℕ
count_tasks (array end) = 0
count_tasks (array (element t end)) = 1
count_tasks (array (element t (element u ts))) = 2
count_tasks _ = 0

abbrev pub all_valid_tasks : Json → Bool
all_valid_tasks (array ts) = valid_tasks [] ts
all_valid_tasks _ = false

abbrev pub before : Option ℕ → Option ℕ → Bool
before (some s) (some t) = ltb s t
before _ _ = false

-- `count_tasks` stops at two.
unfoldable pub valid_mode : Json → Bool
unfolding get is_text count_tasks
valid_mode item =
    if is_text (get item "allocationMode") "grouped_unallocated"
    then leb 2 (count_tasks (get item "tasks"))
      && is_true (get item "isGrouped")
      && is_text (get item "groupedNotice") "组合场次，未拆分单任务工时"
    else is_text (get item "allocationMode") "single"
      && (count_tasks (get item "tasks") == 1)
      && is_false (get item "isGrouped")
      && is_null (get item "groupedNotice")

abbrev pub is_positive : Json → Bool
is_positive value = valid_revision value && not (is_number value 0)

unfoldable pub is_candidate : Json → Bool
unfolding get is_number is_text
is_candidate item =
    is_null (get item "runId")
    && is_number (get item "runRevision") 0
    && is_text (get item "runState") "scheduled"

unfoldable pub is_active : Json → Bool
unfolding get is_one_of valid_identifier valid_revision is_number
is_active item =
    valid_identifier (get item "runId")
    && is_positive (get item "runRevision")
    && is_one_of (get item "runState") ("shooting" ∷ "blocked" ∷ [])

abbrev pub current_item_keys : List String
current_item_keys =
    "scheduleItemId" ∷ "allocationMode" ∷ "plannedStart" ∷ "plannedEnd" ∷ "runId" ∷ "runRevision"
    ∷ "runState" ∷ "tasks" ∷ "isGrouped" ∷ "groupedNotice" ∷ []

unfoldable pub validate_current_item : Bool → Json → Bool
unfolding exact_keys get valid_identifier parsed_time valid_tasks count_tasks valid_mode
    is_candidate is_active
validate_current_item allow_active item =
    exact_keys item current_item_keys current_item_keys
    && valid_identifier (get item "scheduleItemId")
    && before (parsed_time (get item "plannedStart")) (parsed_time (get item "plannedEnd"))
    && leb 1 (count_tasks (get item "tasks"))
    && all_valid_tasks (get item "tasks")
    && valid_mode item
    && (is_candidate item || allow_active && is_active item)

abbrev pub current_keys : List String
current_keys =
    "schemaVersion" ∷ "serverTime" ∷ "projectionRevision" ∷ "resourceId" ∷ "current" ∷ "next" ∷ []

-- A candidate's session is now.
unfoldable pub is_now : Json → Option ℕ → Bool
unfolding get parsed_time
is_now current now =
    not (is_null (get current "runId"))
    || not (before now (parsed_time (get current "plannedStart")))
      && before now (parsed_time (get current "plannedEnd"))

-- The next session is another one, and does not start before the current one ends.
unfoldable pub follows : Json → Json → Bool
unfolding get parsed_time is_text
follows current next =
    is_null current
    || not (is_text (get next "scheduleItemId") (text_of (get current "scheduleItemId")))
      && not
          (before (parsed_time (get next "plannedStart")) (parsed_time (get current "plannedEnd")))

unfoldable pub validate_kiosk_current_response : Json → Bool
unfolding exact_keys get is_number valid_timestamp valid_revision valid_identifier
    validate_current_item is_now follows parsed_time
validate_kiosk_current_response value =
    exact_keys value current_keys current_keys
    && is_number (get value "schemaVersion") 2
    && valid_timestamp (get value "serverTime")
    && valid_revision (get value "projectionRevision")
    && valid_identifier (get value "resourceId")
    && (is_null (get value "current") || validate_current_item true (get value "current"))
    && (is_null (get value "next") || validate_current_item false (get value "next"))
    && (is_null (get value "current")
        || is_now (get value "current") (parsed_time (get value "serverTime")))
    && (is_null (get value "next")
        || before (parsed_time (get value "serverTime"))
            (parsed_time (get (get value "next") "plannedStart"))
          && follows (get value "current") (get value "next"))
