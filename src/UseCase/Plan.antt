-- ===== src/UseCase/Plan.antt =====
-- What `applyRunEvent` of src/run-event-use-case-v2.mjs checks and computes before its first write.
use jenn_shooting_operations.Prelude.{
  ◌+◌, Bool, true, ◌&&◌, not, String, Option, none, some, List, [], ◌∷◌, leb, ltb,
}
use jenn_shooting_operations.Prelude.Results.{Result, ok, err, ensure, or_fail, ◌>>=◌}
use jenn_shooting_operations.Timestamp.{Text}
use jenn_shooting_operations.Run.{Tag, known, unknown}
use jenn_shooting_operations.Run.Fold.{nat, Folded, max_safe_integer, fold_production_run_event}
use jenn_shooting_operations.Run.History.{run_metrics_algorithm_version}
use jenn_shooting_operations.Lifecycle.{
  RequestState, RequestCommand, check_expected_revision, request_effects_for_run_event,
  transition_request,
}
use jenn_shooting_operations.UseCase.Command.{
  Failure, Command, revision_counters_missing, revision_overflow, revision_failed, fold_failed,
  request_failed, scope_failed,
}
use jenn_shooting_operations.UseCase.Tables.{
  RunRow, ScheduleItem, RequestRow, Counters, Response, Database, Ports, find,
}
use jenn_shooting_operations.UseCase.Context.{
  Context, get_run_context, validate_run_context, request_id_eq,
}

-- A failure of another rule, under the codes of this one.
abbrev pub lift : {E A : Type 0} → (E → Failure) → Result E A → Result Failure A
lift f (ok a) = ok a
lift f (err e) = err (f e)

abbrev lifecycle_of : Option RequestRow → Tag RequestState
lifecycle_of none = unknown "undefined"
lifecycle_of (some r) = r.request_lifecycle

-- The transitions of the requests that the event changes.
unfoldable pub check_effects :
    List RequestRow → List (String × RequestCommand) → Result Failure (Unit {0})
unfolding find
check_effects requests [] = ok tt
check_effects requests ((id, command) ∷ effects) = do
  _ ←
      lift request_failed
        (transition_request (lifecycle_of (find (request_id_eq id) requests)) (known command))
  check_effects requests effects

pub record Plan : Type 0 where
  pub run : RunRow
  pub item : ScheduleItem
  pub counters : Counters
  pub folded : Folded
  pub effects : List (String × RequestCommand)

-- The revisions leave room for the next ones.
abbrev has_room : RunRow → Counters → Bool
has_room run counters =
    ltb run.run_revision max_safe_integer
    && ltb counters.projection_revision max_safe_integer
    && leb counters.schedule_revision max_safe_integer

-- From the check of the revision counters on.
unfoldable pub plan_in : Command → Context × ScheduleItem → Result Failure Plan
unfolding check_effects
plan_in command (c, item) = do
  counters ← or_fail c.counters revision_counters_missing
  _ ←
      lift revision_failed
        (check_expected_revision (nat command.expected_run_revision) (nat c.run.run_revision))
  _ ← ensure (has_room c.run counters) revision_overflow
  folded ← lift fold_failed (
      fold_production_run_event (some c.run.facts) (known command.event_type) command.occurred_at
        c.last_occurred_at run_metrics_algorithm_version)
  effects ←
      lift scope_failed
        (request_effects_for_run_event c.run.scope (known command.event_type) (some c.request_ids))
  _ ← check_effects c.requests effects
  ok (record { run = c.run; item = item; counters = counters; folded = folded; effects = effects })

unfoldable pub plan : Ports → Command → Text → Database → Result Failure Plan
unfolding get_run_context validate_run_context plan_in
plan ports command received_at db = do
  _ ← ports.policy command received_at
  (c, item) ← validate_run_context (get_run_context command.run_id db) command
  plan_in command (c, item)

unfoldable pub response_of : Ports → Command → Plan → Response
response_of ports command p = record {
  is_applied = true;
  notifications_disabled = not ports.is_notifying;
  event_id = command.event_id;
  run_id = p.run.id;
  previous_state = p.folded.previous_state;
  resulting_state = p.folded.resulting_state;
  run_revision = p.run.run_revision + 1;
  projection_revision = p.counters.projection_revision + 1;
  schedule_revision = p.counters.schedule_revision;
  started_at = p.folded.run.started_at;
  completed_at = p.folded.run.completed_at;
  gross_duration_ms = p.folded.run.gross_duration_ms;
  blocked_duration_ms = p.folded.run.blocked_duration_ms;
  net_duration_ms = p.folded.run.net_duration_ms;
  metrics_algorithm_version = p.folded.run.metrics_algorithm_version;
}
