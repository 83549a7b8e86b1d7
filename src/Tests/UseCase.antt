-- ===== src/Tests/UseCase.antt =====
-- An event of a run on a small database: a task of one request, whose run has not started.
use jenn_shooting_operations.Prelude.{
  ◌≡◌, ◌≢◌, refl, true, false, Option, none, some, [], ◌∷◌, arith,
}
use jenn_shooting_operations.Prelude.Results.{ok, err}
use jenn_shooting_operations.Timestamp.{
  Text, codes, timestamp_millis, fields, valid_date, date_parse, to_iso,
}
use jenn_shooting_operations.Run.{known, start, scheduled, shooting}
use jenn_shooting_operations.Run.Fold.{nat, fold_production_run_event}
use jenn_shooting_operations.Run.History.{new_run, replay_events}
use jenn_shooting_operations.Lifecycle.{
  task, open_request, check_expected_revision, request_effects_for_run_event,
}
use jenn_shooting_operations.UseCase.Command.{
  Input, absent, text_field, notification_failed, sqlite_error,
}
use jenn_shooting_operations.UseCase.Tables.{Database, Ports, Response, all_of_run}
use jenn_shooting_operations.UseCase.Apply.{applied, replayed, apply_run_event, server_time}
use jenn_shooting_operations.UseCase.Rebuilding.{IsConsistent}
use jenn_shooting_operations.UseCase.Write.{Fault, write_throws}
use jenn_shooting_operations.UseCase.Applied.{
  apply_run_event-IsConsistent, apply_run_event_unchanged, apply_run_event_twice,
}

abbrev ports : Ports
ports = record {
  command_digest = λ c. c.event_id;
  response_digest = λ r. r.event_id;
  policy = λ c t. ok tt;
  capture = λ db run t. ok "{}";
  refresh = λ db. ok tt;
  notification = λ c run t. err notification_failed;
  valid_intent = λ i. true;
  is_notifying = true;
  audit_role = "system";
}

abbrev day : Text
day = codes "2026-10-18T00:00:00.000Z"

abbrev database : Database
database = record {
  runs =
      record {
        id = "run-1";
        schedule_item_id = "item-1";
        scope = known task;
        task_id = some "request-1";
        run_revision = 0;
        facts = new_run;
        updated_at = day;
      }
      ∷ [];
  items =
      record {
        id = "item-1";
        schedule_status = "confirmed";
        resource_resolution_status = "resolved";
        allocation_mode = "single";
        resource_id = some "room-1";
      }
      ∷ [];
  bindings = record { schedule_item_id = "item-1"; task_id = "request-1" } ∷ [];
  requests =
      record { id = "request-1"; request_lifecycle = known open_request; business_updated_at = day }
      ∷ [];
  counters = some (record { projection_revision = 4; schedule_revision = 2; updated_at = day });
  operations = [];
  events = [];
  snapshots = [];
  audits = [];
  outbox = record { rows = []; isolations = []; is_transaction = false };
}

database-IsConsistent : IsConsistent database
unfolding new_run replay_events all_of_run
database-IsConsistent = record { runs = (record { rebuilt = refl; counted = refl }, tt) }

abbrev input : Option Input
input = some (record {
  event_id = text_field "event-0001";
  run_id = text_field "run-1";
  schedule_item_id = text_field "item-1";
  device_id = text_field "kiosk-1";
  actor_id = text_field "actor-1";
  event_type = known start;
  expected_run_revision = nat 0;
  occurred_at = text_field "2026-10-18T09:00:00+08:00";
  reason_code = absent;
  note = absent;
})

abbrev clock : Option Text
clock = some (codes "2026-10-18T01:00:02.500Z")

abbrev response : Response
response = record {
  is_applied = true;
  notifications_disabled = false;
  event_id = "event-0001";
  run_id = "run-1";
  previous_state = scheduled;
  resulting_state = shooting;
  run_revision = 1;
  projection_revision = 5;
  schedule_revision = 2;
  started_at = some (codes "2026-10-18T01:00:00.000Z");
  completed_at = none;
  gross_duration_ms = none;
  blocked_duration_ms = some (nat 0);
  net_duration_ms = none;
  metrics_algorithm_version = none;
}

first_run : (apply_run_event ports clock none input database).1 ≡ applied response
unfolding apply_run_event new_run fold_production_run_event check_expected_revision
    request_effects_for_run_event timestamp_millis fields valid_date date_parse to_iso
first_run = refl

apply_run_event-IsConsistent_example :
    IsConsistent (apply_run_event ports clock none input database).0
apply_run_event-IsConsistent_example =
    apply_run_event-IsConsistent ports clock none input database database-IsConsistent

clock_lem : server_time clock ≡ some (codes "2026-10-18T01:00:02.500Z")
unfolding server_time timestamp_millis fields valid_date date_parse to_iso
clock_lem = refl

apply_run_event_twice_example :
    apply_run_event ports clock none input (apply_run_event ports clock none input database).0
    ≡ ((apply_run_event ports clock none input database).0, replayed response)
apply_run_event_twice_example =
    apply_run_event_twice ports clock clock input database (codes "2026-10-18T01:00:02.500Z")
      response database-IsConsistent first_run clock_lem

-- The update of the counters throws, behind the writes of the run and of the event.
abbrev broken_counters : Option Fault
broken_counters = some (write_throws 4 sqlite_error)

faulty_run :
    (x : Response) → (apply_run_event ports clock broken_counters input database).1 ≢ applied x
unfolding apply_run_event
faulty_run x e = ground arith

apply_run_event_unchanged_example :
    (apply_run_event ports clock broken_counters input database).0 ≡ database
apply_run_event_unchanged_example =
    apply_run_event_unchanged ports clock broken_counters input database faulty_run
