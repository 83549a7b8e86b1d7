-- ===== src/UseCase/Planning.antt =====
-- What a plan has found before the first write.
use jenn_shooting_operations.Prelude.{◌<◌, ◌≤◌, ◌≡◌, true, String, Option, some, arith}
use jenn_shooting_operations.Prelude.Results.{ok, parts_of_ok}
use jenn_shooting_operations.Timestamp.{Text}
use jenn_shooting_operations.Run.{known, RunEvent}
use jenn_shooting_operations.Run.Fold.{
  max_safe_integer, Run, Folded, fold_production_run_event, fold_facts,
}
use jenn_shooting_operations.Run.History.{has_state, run_metrics_algorithm_version}
use jenn_shooting_operations.UseCase.Command.{Command}
use jenn_shooting_operations.UseCase.Tables.{
  ScheduleItem, Database, Ports, find, last_occurred_at, run_id_eq,
}
use jenn_shooting_operations.UseCase.Context.{Context, get_run_context, validate_run_context}
use jenn_shooting_operations.UseCase.Plan.{Plan, plan_in, plan}

pub fold-has_state :
    (run : Run) (e : RunEvent) (at : Text) (last : Option Text) (version : String) (f : Folded)
    → fold_production_run_event (some run) (known e) at last version ≡ ok f
    → has_state run.status f.previous_state ≡ true
unfolding fold_production_run_event fold_facts
fold-has_state run e at last version f h = ground arith

-- What a plan has found.
pub record Planned (command : Command) (db : Database) (p : Plan) : Type 0 where
  pub found : find (run_id_eq command.run_id) db.runs ≡ some p.run
  pub folds :
      fold_production_run_event
        (some p.run.facts)
        (known command.event_type)
        command.occurred_at
        (last_occurred_at command.run_id db.events)
        run_metrics_algorithm_version
      ≡ ok p.folded
  pub room :
      (p.counters.projection_revision < max_safe_integer)
      × (p.counters.schedule_revision ≤ max_safe_integer)

-- The context is that of the run of the command.
abbrev InContext : Command → Database → Context → Type 0
InContext command db c =
    (find (run_id_eq command.run_id) db.runs ≡ some c.run)
    × (c.last_occurred_at ≡ last_occurred_at command.run_id db.events)

validate-InContext :
    (command : Command) (db : Database) (r : Context × ScheduleItem)
    → validate_run_context (get_run_context command.run_id db) command ≡ ok r
    → InContext command db r.0
unfolding get_run_context validate_run_context
validate-InContext command db r h = ground arith

plan_in_lem :
    (command : Command) (c : Context) (item : ScheduleItem) (p : Plan)
    → plan_in command (c, item) ≡ ok p
    → (p.run ≡ c.run)
      × (fold_production_run_event
            (some c.run.facts)
            (known command.event_type)
            command.occurred_at
            c.last_occurred_at
            run_metrics_algorithm_version
          ≡ ok p.folded)
      × (p.counters.projection_revision < max_safe_integer)
      × (p.counters.schedule_revision ≤ max_safe_integer)
unfolding plan_in
plan_in_lem command c item p h = ground arith

pub plan-Planned :
    (ports : Ports) (command : Command) (received_at : Text) (db : Database) (p : Plan)
    → plan ports command received_at db ≡ ok p
    → Planned command db p
unfolding plan
plan-Planned ports command received_at db p h =
    let (_, _, h1) = parts_of_ok (ports.policy command received_at) _ h in
    let ((c, item), v, h2) =
      parts_of_ok (validate_run_context (get_run_context command.run_id db) command) _ h1 in
    let (found, last) = validate-InContext command db (c, item) v in
    let (run, folds, below, up_to) = plan_in_lem command c item p h2 in
    record { found = rw run found; folds = rw run (rw (← last) folds); room = (below, up_to) }
