-- ===== src/UseCase/Tables.antt =====
-- The tables that src/sqlite-run-event-store-v2.mjs reads and writes, with its statements. What the other
-- parts of the program compute from them is a port: the digests, the snapshot of the context of a run
-- that starts (src/run-context-capture-v1.mjs), the read projections (src/projections-v2.mjs), and the
-- notification of a run that is completed (src/production-run-completed-notification-v1.mjs).
use jenn_shooting_operations.Prelude.{
  ℕ, ◌+◌, Bool, true, false, ◌&&◌, String, Option, none, some, List, [], ◌∷◌, leb, str_eq,
  if◌then◌else◌,
}
use jenn_shooting_operations.Prelude.Results.{Result}
use jenn_shooting_operations.Timestamp.{Text}
use jenn_shooting_operations.Run.{Tag, known, RunState}
use jenn_shooting_operations.Run.Fold.{Number, Run}
use jenn_shooting_operations.Run.History.{HistoricalEvent}
use jenn_shooting_operations.Lifecycle.{RunScope, RequestState, open_request}
use jenn_shooting_operations.Outbox.{Intent}
use jenn_shooting_operations.Outbox.Repository.{Store}
use jenn_shooting_operations.UseCase.Command.{Command, Failure}

-- production_runs. The columns that events change are `facts`.
pub record RunRow : Type 0 where
  pub id : String
  pub schedule_item_id : String
  pub scope : Tag RunScope
  pub task_id : Option String
  pub run_revision : ℕ
  pub facts : Run
  pub updated_at : Text

pub record ScheduleItem : Type 0 where
  pub id : String
  pub schedule_status : String
  pub resource_resolution_status : String
  pub allocation_mode : String
  pub resource_id : Option String

-- schedule_item_tasks, in the order of `display_order`.
pub record Binding : Type 0 where
  pub schedule_item_id : String
  pub task_id : String

pub record RequestRow : Type 0 where
  pub id : String
  pub request_lifecycle : Tag RequestState
  pub business_updated_at : Text

pub record Counters : Type 0 where
  pub projection_revision : ℕ
  pub schedule_revision : ℕ
  pub updated_at : Text

-- The response to an event that was applied: `ok` and `code` are as the flag says.
pub record Response : Type 0 where
  pub is_applied : Bool
  pub notifications_disabled : Bool
  pub event_id : String
  pub run_id : String
  pub previous_state : RunState
  pub resulting_state : RunState
  pub run_revision : ℕ
  pub projection_revision : ℕ
  pub schedule_revision : ℕ
  pub started_at : Option Text
  pub completed_at : Option Text
  pub gross_duration_ms : Option Number
  pub blocked_duration_ms : Option Number
  pub net_duration_ms : Option Number
  pub metrics_algorithm_version : Option String

-- operations. The response is kept as it is parsed; `none` is a text that is no such response.
pub record Operation : Type 0 where
  pub operation_id : String
  pub kind : String
  pub response : Option Response
  pub created_at : Text
  pub request_digest : String

-- production_events. The columns that the history reads are `historical`.
pub record EventRow : Type 0 where
  pub event_id : String
  pub historical : HistoricalEvent
  pub open historical use {
    run_id, event_type, occurred_at, previous_state, resulting_state, resulting_run_revision,
  }
  pub command_digest : String
  pub response_digest : String
  pub received_at : Text
  pub device_id : String
  pub actor_id : String
  pub reason_code : Option String
  pub note : Option String
  pub resulting_projection_revision : ℕ
  pub resulting_schedule_revision : ℕ

pub record Audit : Type 0 where
  pub action : String
  pub role : String
  pub entity_id : String
  pub revision : ℕ
  pub created_at : Text

pub record Snapshot : Type 0 where
  pub run_id : String
  pub snapshot_json : String

pub record Database : Type 0 where
  pub runs : List RunRow
  pub items : List ScheduleItem
  pub bindings : List Binding
  pub requests : List RequestRow
  pub counters : Option Counters
  pub operations : List Operation
  pub events : List EventRow
  pub snapshots : List Snapshot
  pub audits : List Audit
  pub outbox : Store

-- `SELECT ... WHERE key = ?` on a primary key, `UPDATE ... WHERE p`, and the `changes` of the update.
module _ {A : Type 0} where
  unfoldable pub find : (A → Bool) → List A → Option A
  find p [] = none
  find p (x ∷ xs) = if p x then some x else find p xs

  unfoldable pub update : (A → Bool) → (A → A) → List A → List A
  update p f [] = []
  update p f (x ∷ xs) = (if p x then f x else x) ∷ update p f xs

  unfoldable pub changes : (A → Bool) → List A → ℕ
  changes p [] = 0
  changes p (x ∷ xs) = (if p x then 1 else 0) + changes p xs

-- The events of a run up to a revision.
unfoldable pub of_run : String → ℕ → List EventRow → List HistoricalEvent
of_run run_id revision [] = []
of_run run_id revision (e ∷ es) =
    let rest = of_run run_id revision es in
    if str_eq e.run_id run_id && leb e.resulting_run_revision revision
    then e.historical ∷ rest
    else rest

-- All events of a run.
unfoldable pub all_of_run : String → List EventRow → List HistoricalEvent
all_of_run run_id [] = []
all_of_run run_id (e ∷ es) =
    let rest = all_of_run run_id es in if str_eq e.run_id run_id then e.historical ∷ rest else rest

insert_by_revision : HistoricalEvent → List HistoricalEvent → List HistoricalEvent
insert_by_revision h [] = h ∷ []
insert_by_revision h (k ∷ ks) =
    let rest = insert_by_revision h ks in
    if leb h.resulting_run_revision k.resulting_run_revision then h ∷ k ∷ ks else k ∷ rest

-- `ORDER BY resulting_run_revision`
unfoldable pub order_by_revision : List HistoricalEvent → List HistoricalEvent
unfolding insert_by_revision
order_by_revision [] = []
order_by_revision (h ∷ hs) = insert_by_revision h (order_by_revision hs)

-- The history that `getEventReceipt` selects.
unfoldable pub history : String → ℕ → List EventRow → List HistoricalEvent
unfolding of_run order_by_revision
history run_id revision events = order_by_revision (of_run run_id revision events)

unfoldable pub last_time : Option Text → List HistoricalEvent → Option Text
last_time t [] = t
last_time t (h ∷ hs) = last_time (some h.occurred_at) hs

-- `lastOccurredAt` of `getRunContext`.
unfoldable pub last_occurred_at : String → List EventRow → Option Text
unfolding all_of_run order_by_revision last_time
last_occurred_at run_id events = last_time none (order_by_revision (all_of_run run_id events))

abbrev pub run_id_eq : String → RunRow → Bool
run_id_eq id row = str_eq row.id id

abbrev pub is_open : Tag RequestState → Bool
is_open (known open_request) = true
is_open _ = false

-- What other parts of the program compute. An error of `capture`, `refresh` or `notification` is an
-- exception.
pub record Ports : Type 0 where
  pub command_digest : Command → String
  pub response_digest : Response → String
  pub policy : Command → Text → Result Failure (Unit {0})
  pub capture : Database → RunRow → Text → Result Failure String
  pub refresh : Database → Result Failure (Unit {0})
  pub notification : Command → RunRow → Text → Result Failure Intent
  pub valid_intent : Intent → Bool
  pub is_notifying : Bool
  pub audit_role : String
