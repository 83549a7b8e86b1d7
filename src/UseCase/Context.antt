-- ===== src/UseCase/Context.antt =====
-- `getRunContext` of src/sqlite-run-event-store-v2.mjs and `validateRunContext` of
-- src/run-event-use-case-v2.mjs.
use jenn_shooting_operations.Prelude.{
  Bool, true, false, ◌&&◌, String, Option, none, some, List, [], ◌∷◌, leb, ◌==◌, str_eq, length,
  if◌then◌else◌,
}
use jenn_shooting_operations.Prelude.Results.{Result, ok, err, ensure, or_fail, ◌>>=◌}
use jenn_shooting_operations.Timestamp.{Text}
use jenn_shooting_operations.Run.{known, unknown}
use jenn_shooting_operations.Lifecycle.{task, block}
use jenn_shooting_operations.UseCase.Command.{
  Command, Failure, run_not_found, run_schedule_item_mismatch, run_schedule_item_not_executable,
  invalid_run_scope_binding, invalid_run_scope,
}
use jenn_shooting_operations.UseCase.Tables.{
  RunRow, ScheduleItem, Binding, RequestRow, Counters, Database, find, run_id_eq, last_occurred_at,
}

pub record Context : Type 0 where
  pub run : RunRow
  pub schedule_item : Option ScheduleItem
  pub request_ids : List String
  pub requests : List RequestRow
  pub counters : Option Counters
  pub last_occurred_at : Option Text

unfoldable pub bound_ids : String → List Binding → List String
bound_ids item_id [] = []
bound_ids item_id (b ∷ bs) =
    let rest = bound_ids item_id bs in
    if str_eq b.schedule_item_id item_id then b.task_id ∷ rest else rest

abbrev pub request_id_eq : String → RequestRow → Bool
request_id_eq id r = str_eq r.id id

abbrev with_request : Option RequestRow → List RequestRow → List RequestRow
with_request none rest = rest
with_request (some r) rest = r ∷ rest

-- The rows of the bound requests, less those that are missing.
unfoldable pub bound_requests : List String → List RequestRow → List RequestRow
unfolding find
bound_requests [] rows = []
bound_requests (id ∷ ids) rows =
    with_request (find (request_id_eq id) rows) (bound_requests ids rows)

unfoldable pub get_run_context : String → Database → Option Context
unfolding find bound_ids bound_requests last_occurred_at
get_run_context run_id db = elim (find (run_id_eq run_id) db.runs) [
  | none ↦ none
  | some run ↦ some (record {
    run = run;
    schedule_item = find (λ (i : ScheduleItem). str_eq i.id run.schedule_item_id) db.items;
    request_ids = bound_ids run.schedule_item_id db.bindings;
    requests = bound_requests (bound_ids run.schedule_item_id db.bindings) db.requests;
    counters = db.counters;
    last_occurred_at = last_occurred_at run_id db.events;
  })
]

abbrev is_first : Option String → List String → Bool
is_first (some id) (i ∷ _) = str_eq id i
is_first _ _ = false

abbrev is_none : Option String → Bool
is_none none = true
is_none (some _) = false

unfoldable pub check_scope : RunRow → ScheduleItem → List String → Result Failure (Unit {0})
check_scope run item ids = elim run.scope [
  | known task ↦
      ensure (str_eq item.allocation_mode "single" && length ids == 1 && is_first run.task_id ids)
        invalid_run_scope_binding
  | known block ↦
      ensure
        (str_eq item.allocation_mode "grouped_unallocated"
          && leb 2 (length ids)
          && is_none run.task_id)
        invalid_run_scope_binding
  | unknown _ ↦ err invalid_run_scope
]

-- The context of the run and its item, if the run may take the event.
unfoldable pub validate_run_context :
    Option Context → Command → Result Failure (Context × ScheduleItem)
unfolding check_scope
validate_run_context context command = do
  c ← or_fail context run_not_found
  item ← or_fail c.schedule_item run_schedule_item_mismatch
  _ ←
      ensure
        (str_eq c.run.schedule_item_id command.schedule_item_id
          && str_eq item.id command.schedule_item_id)
        run_schedule_item_mismatch
  _ ←
      ensure
        (str_eq item.schedule_status "confirmed"
          && str_eq item.resource_resolution_status "resolved")
        run_schedule_item_not_executable
  _ ← check_scope c.run item c.request_ids
  ok (c, item)
