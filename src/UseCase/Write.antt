-- ===== src/UseCase/Write.antt =====
-- The writes of `applyRunEvent` of src/run-event-use-case-v2.mjs, in their order, with the statements of
-- src/sqlite-run-event-store-v2.mjs.
use jenn_shooting_operations.Prelude.{
  ℕ, Option, ◌+◌, Bool, true, false, ◌&&◌, ◌||◌, String, none, some, List, [], ◌∷◌, ◌++◌, ◌==◌,
  str_eq, if◌then◌else◌,
}
use jenn_shooting_operations.Prelude.Results.{Result, ok, err, ensure, or_fail, ◌>>=◌}
use jenn_shooting_operations.Timestamp.{Text}
use jenn_shooting_operations.Run.{known, scheduled, shooting, RunEvent, complete}
use jenn_shooting_operations.Run.Fold.{Folded}
use jenn_shooting_operations.Lifecycle.{RequestCommand, fulfilled}
use jenn_shooting_operations.Outbox.Repository.{Store}
use jenn_shooting_operations.Outbox.Enqueue.{EnqueueResult, enqueued, exact_noop, enqueue}
use jenn_shooting_operations.UseCase.Command.{
  Failure, Command, run_concurrent_update, request_concurrent_update, revision_concurrent_update,
  outbox_enqueue_failed, sqlite_error,
}
use jenn_shooting_operations.UseCase.Tables.{
  RunRow, RequestRow, Operation, EventRow, Snapshot, Database, Ports, find, update, changes,
  is_open,
}
use jenn_shooting_operations.UseCase.Receipt.{receipt_kind}
use jenn_shooting_operations.UseCase.Plan.{Plan, response_of}

abbrev is_first_start : Folded → Bool
is_first_start f = elim f.previous_state [
  | scheduled ↦ elim f.resulting_state [ shooting ↦ true | _ ↦ false ]
  | _ ↦ false
]

abbrev pub has_snapshot : String → Snapshot → Bool
has_snapshot run_id s = str_eq s.run_id run_id

insert_snapshot : Snapshot → Database → Result Failure Database
unfolding find
insert_snapshot s db = elim (find (has_snapshot s.run_id) db.snapshots) [
  | some _ ↦ err sqlite_error
  | none ↦ ok (record db { snapshots = db.snapshots ++ s ∷ [] })
]

capture_snapshot : Ports → Plan → Text → Database → Result Failure Database
unfolding insert_snapshot
capture_snapshot ports p received_at db = do
  json ← ports.capture db p.run received_at
  insert_snapshot (record { run_id = p.run.id; snapshot_json = json }) db

-- The snapshot of the context, when the run starts. Its table has one row for a run.
unfoldable pub write_snapshot : Ports → Plan → Text → Database → Result Failure Database
unfolding capture_snapshot
write_snapshot ports p received_at db =
    if is_first_start p.folded then capture_snapshot ports p received_at db else ok db

-- `WHERE id = ? AND run_revision = ?`
abbrev pub is_current : RunRow → RunRow → Bool
is_current run row = str_eq row.id run.id && row.run_revision == run.run_revision

abbrev pub advance_run : Plan → Text → RunRow → RunRow
advance_run p received_at row = record row {
  facts = p.folded.run;
  run_revision = p.run.run_revision + 1;
  updated_at = received_at;
}

unfoldable pub update_run : Plan → Text → Database → Result Failure Database
unfolding update changes
update_run p received_at db = do
  _ ← ensure (changes (is_current p.run) db.runs == 1) run_concurrent_update
  ok (record db { runs = update (is_current p.run) (advance_run p received_at) db.runs })

abbrev pub is_open_request : String → RequestRow → Bool
is_open_request id r = str_eq r.id id && is_open r.request_lifecycle

abbrev pub fulfil : Text → RequestRow → RequestRow
fulfil received_at r = record r {
  request_lifecycle = known fulfilled;
  business_updated_at = received_at;
}

unfoldable pub fulfil_request : String → Text → Database → Result Failure Database
unfolding update changes
fulfil_request id received_at db = do
  _ ← ensure (changes (is_open_request id) db.requests == 1) request_concurrent_update
  ok (record db { requests = update (is_open_request id) (fulfil received_at) db.requests })

unfoldable pub fulfil_requests :
    List (String × RequestCommand) → Text → Database → Result Failure Database
unfolding fulfil_request
fulfil_requests [] received_at db = ok db
fulfil_requests ((id, _) ∷ effects) received_at db = do
  db' ← fulfil_request id received_at db
  fulfil_requests effects received_at db'

unfoldable pub event_row : Ports → Command → Text → Plan → EventRow
unfolding response_of
event_row ports command received_at p = record {
  event_id = command.event_id;
  historical = record {
    run_id = command.run_id;
    event_type = known command.event_type;
    occurred_at = command.occurred_at;
    previous_state = p.folded.previous_state;
    resulting_state = p.folded.resulting_state;
    resulting_run_revision = p.run.run_revision + 1;
  };
  command_digest = ports.command_digest command;
  response_digest = ports.response_digest (response_of ports command p);
  received_at = received_at;
  device_id = command.device_id;
  actor_id = command.actor_id;
  reason_code = command.reason_code;
  note = command.note;
  resulting_projection_revision = p.counters.projection_revision + 1;
  resulting_schedule_revision = p.counters.schedule_revision;
}

-- The events are unique, and so are the revisions of a run.
abbrev clashes : EventRow → EventRow → Bool
clashes e row =
    str_eq row.event_id e.event_id
    || str_eq row.run_id e.run_id && row.resulting_run_revision == e.resulting_run_revision

unfoldable pub insert_event : EventRow → Database → Result Failure Database
unfolding find
insert_event e db = elim (find (clashes e) db.events) [
  | some _ ↦ err sqlite_error
  | none ↦ ok (record db { events = db.events ++ e ∷ [] })
]

unfoldable pub advance_projection_revision : Plan → Text → Database → Result Failure Database
advance_projection_revision p received_at db = do
  counters ← or_fail db.counters revision_concurrent_update
  _ ←
      ensure
        (counters.projection_revision == p.counters.projection_revision
          && counters.schedule_revision == p.counters.schedule_revision)
        revision_concurrent_update
  ok (record db {
    counters = some (record counters {
      projection_revision = p.counters.projection_revision + 1;
      updated_at = received_at;
    });
  })

abbrev is_complete : RunEvent → Bool
is_complete complete = true
is_complete _ = false

abbrev was_enqueued : Store × EnqueueResult → Result Failure Store
was_enqueued (s, enqueued _) = ok s
was_enqueued (s, exact_noop _ _) = ok s
was_enqueued (s, _) = err outbox_enqueue_failed

enqueue_notification : Ports → Command → Plan → Text → Database → Result Failure Database
enqueue_notification ports command p received_at db = do
  intent ← ports.notification command (advance_run p received_at p.run) received_at
  outbox ← was_enqueued (enqueue (ports.valid_intent intent) intent none db.outbox)
  ok (record db { outbox = outbox })

-- The notification of a completed run, in the same transaction.
unfoldable pub notify : Ports → Command → Plan → Text → Database → Result Failure Database
unfolding enqueue_notification
notify ports command p received_at db =
    if is_complete command.event_type && ports.is_notifying
    then enqueue_notification ports command p received_at db
    else ok db

abbrev pub has_operation_id : String → Operation → Bool
has_operation_id id o = str_eq o.operation_id id

unfoldable pub save_event_receipt :
    Ports → Command → Plan → Text → Database → Result Failure Database
unfolding response_of find
save_event_receipt ports command p received_at db =
    elim (find (has_operation_id command.event_id) db.operations) [
      | some _ ↦ err sqlite_error
      | none ↦ ok (record db {
        operations =
            db.operations
            ++ record {
              operation_id = command.event_id;
              kind = receipt_kind;
              response = some (response_of ports command p);
              created_at = received_at;
              request_digest = ports.command_digest command;
            }
              ∷ [];
      })
    ]

unfoldable pub record_audit : Ports → Plan → Text → Database → Database
record_audit ports p received_at db = record db {
  audits =
      db.audits
      ++ record {
        action = "production.run-event";
        role = ports.audit_role;
        entity_id = p.run.id;
        revision = p.counters.projection_revision + 1;
        created_at = received_at;
      }
        ∷ [];
}

-- The first database call of a transaction that throws: `BEGIN`, a call that reads, the write of that
-- number, or `COMMIT`.
pub data Fault : Type 0 where
  begin_throws read_throws commit_throws : Failure → Fault
  write_throws : ℕ → Failure → Fault

abbrev pub fault_at : Option Fault → ℕ → Option Failure
fault_at (some (write_throws n f)) k = if n == k then some f else none
fault_at _ k = none

-- A step that throws leaves the database as the steps before it have left it.
abbrev pub attempt :
    {A : Type 0} → Option Failure → Database → Result Failure A → Result (Database × Failure) A
attempt (some f) db r = err (db, f)
attempt none db (ok a) = ok a
attempt none db (err f) = err (db, f)

-- The writes up to that of the event. An error is an exception, with the database at that time.
unfoldable pub write_event :
    Option Fault → Ports → Command → Text → Plan → Database → Result (Database × Failure) Database
unfolding write_snapshot update_run fulfil_requests event_row insert_event
write_event fault ports command received_at p db = do
  db1 ← attempt (fault_at fault 0) db (write_snapshot ports p received_at db)
  db2 ← attempt (fault_at fault 1) db1 (update_run p received_at db1)
  db3 ← attempt (fault_at fault 2) db2 (fulfil_requests p.effects received_at db2)
  attempt (fault_at fault 3) db3 (insert_event (event_row ports command received_at p) db3)

-- The writes behind it.
unfoldable pub write_receipt :
    Option Fault → Ports → Command → Text → Plan → Database → Result (Database × Failure) Database
unfolding advance_projection_revision notify save_event_receipt record_audit
write_receipt fault ports command received_at p db = do
  db1 ← attempt (fault_at fault 4) db (advance_projection_revision p received_at db)
  _ ← attempt (fault_at fault 5) db1 (ports.refresh db1)
  db2 ← attempt (fault_at fault 6) db1 (notify ports command p received_at db1)
  db3 ← attempt (fault_at fault 7) db2 (save_event_receipt ports command p received_at db2)
  attempt (fault_at fault 8) db3 (ok (record_audit ports p received_at db3))

-- The writes in their order.
unfoldable pub write :
    Option Fault → Ports → Command → Text → Plan → Database → Result (Database × Failure) Database
unfolding write_event write_receipt
write fault ports command received_at p db = do
  db1 ← write_event fault ports command received_at p db
  write_receipt fault ports command received_at p db1
