-- ===== src/Tests/Run.antt =====
-- A run that is started, blocked, resumed and completed; times, revisions and request effects.
use jenn_shooting_operations.Prelude.{
  ◌<◌, ℕ, ◌+◌, ◌*◌, ◌≤◌, ◌≡◌, ◌≢◌, ◌↔◌, ◌⊎◌, inr, refl, String, none, some, List, [], ◌∷◌, arith,
}
use jenn_shooting_operations.Prelude.Results.{ok, err}
use jenn_shooting_operations.Timestamp.{
  Text, codes, timestamp_millis, to_iso, year_10000, epoch_offset, fields, valid_date, date_parse,
}
use jenn_shooting_operations.Timestamp.RoundTrip.{
  timestamp_millis-to_iso, timestamp_millis-to_iso_outside,
}
use jenn_shooting_operations.Run.{
  known, RunState, scheduled, shooting, blocked, completed, cancelled, RunEvent, start, block,
  resume, complete, invalid_run_transition, run_transitions,
}
use jenn_shooting_operations.Run.Fold.{nat, max_safe_integer, Run, fold_production_run_event}
use jenn_shooting_operations.Run.Clock.{Clock, advance, Represents}
use jenn_shooting_operations.Run.Metrics.{terminal_rejects}
use jenn_shooting_operations.Run.Refinement.{Refines, fold-Refines}
use jenn_shooting_operations.Run.History.{HistoricalEvent, new_run, rebuild_run_at_receipt}
use jenn_shooting_operations.Run.History.Log.{Log, done, then, Rebuilt, rebuild-Log}
use jenn_shooting_operations.EventTime.{
  evaluate_kiosk_event_time, evaluate_kiosk_event_time_allow, allow,
}
use jenn_shooting_operations.Lifecycle.{
  check_expected_revision, check_expected_revision_ok, request_effects_for_run_event,
  request_effects_ok, task, fulfill, Serves, Fulfils, revision_conflict, invalid_revision,
  RequestCommand,
}

abbrev at_9 : Text
at_9 = codes "2026-10-30T09:00:00.000Z"

abbrev at_10 : Text
at_10 = codes "2026-10-30T18:00:00+08:00"

abbrev at_11 : Text
at_11 = codes "2026-10-30T11:00:00.000Z"

abbrev at_13 : Text
at_13 = codes "2026-10-30T13:00:00.000Z"

abbrev nine : ℕ
nine = epoch_offset + 1793350800000

abbrev hour : ℕ
hour = 3600000

time_9 : timestamp_millis at_9 ≡ some nine
unfolding timestamp_millis fields valid_date date_parse
time_9 = refl

time_10 : timestamp_millis at_10 ≡ some (nine + hour)
unfolding timestamp_millis fields valid_date date_parse
time_10 = refl

time_11 : timestamp_millis at_11 ≡ some (nine + 2 * hour)
unfolding timestamp_millis fields valid_date date_parse
time_11 = refl

time_13 : timestamp_millis at_13 ≡ some (nine + 4 * hour)
unfolding timestamp_millis fields valid_date date_parse
time_13 = refl

abbrev event : RunEvent → Text → RunState → RunState → ℕ → HistoricalEvent
event e at s r n = record {
  run_id = "run-1";
  event_type = known e;
  occurred_at = at;
  previous_state = s;
  resulting_state = r;
  resulting_run_revision = n;
}

abbrev history : List HistoricalEvent
history =
    event start at_9 scheduled shooting 1
    ∷ event block at_10 shooting blocked 2
    ∷ event resume at_11 blocked shooting 3
    ∷ event complete at_13 shooting completed 4
    ∷ []

abbrev unstarted : Clock
unstarted = record { started = 0; since = 0; active = 0; idle = 0; resumed = 0; left = scheduled }

-- Four hours, of which three were spent shooting.
abbrev finished : Clock
finished = record {
  started = nine;
  since = nine + 4 * hour;
  active = 3 * hour;
  idle = hour;
  resumed = hour;
  left = shooting;
}

history-Log : Log "run-1" scheduled unstarted 0 history completed finished
unfolding run_transitions
history-Log =
    then start shooting at_9 nine refl time_9 (omega arith) (omega arith) (λ h. absurd (h refl))
      (then block blocked at_10 (nine + hour) refl time_10 (omega arith) (omega arith)
        (λ _. omega arith)
        (then resume shooting at_11 (nine + 2 * hour) refl time_11 (omega arith) (omega arith)
          (λ _. omega arith)
          (then complete completed at_13 (nine + 4 * hour) refl time_13 (omega arith) (omega arith)
            (λ _. omega arith) done)))

rebuild-Log_example : Rebuilt completed finished (rebuild_run_at_receipt history "run-1" 4)
rebuild-Log_example = rebuild-Log "run-1" unstarted history completed finished history-Log

new_run-Represents : Represents scheduled new_run unstarted
unfolding new_run
new_run-Represents = ground arith

fold-Refines_example :
    Refines shooting
      (advance scheduled nine unstarted)
      (fold_production_run_event (some new_run) (known start) at_9 none "production-run-net-v1")
unfolding run_transitions
fold-Refines_example =
    fold-Refines new_run unstarted at_9 none "production-run-net-v1" nine time_9 (omega arith)
      (omega arith) tt scheduled start refl new_run-Represents (λ h. absurd (h refl))

abbrev cancelled_run : Run
cancelled_run = record {
  status = known cancelled;
  started_at = none;
  completed_at = none;
  active_block_started_at = none;
  gross_duration_ms = none;
  blocked_duration_ms = none;
  net_duration_ms = none;
  metrics_algorithm_version = none;
}

terminal_rejects_example :
    fold_production_run_event (some cancelled_run) (known start) at_9 none "v1"
    ≡ err invalid_run_transition
terminal_rejects_example =
    terminal_rejects cancelled_run cancelled start at_9 none "v1" refl (inr refl)

timestamp_millis-to_iso_example : timestamp_millis (to_iso nine) ≡ some nine
timestamp_millis-to_iso_example = timestamp_millis-to_iso nine (omega arith) (omega arith)

timestamp_millis-to_iso_outside_example : timestamp_millis (to_iso year_10000) ≡ none
timestamp_millis-to_iso_outside_example =
    timestamp_millis-to_iso_outside year_10000 (inr (omega arith))

evaluate_kiosk_event_time_allow_example : (evaluate_kiosk_event_time at_9 at_10 ≡ allow) ↔ (
    (occurred : ℕ) × (received : ℕ) × (timestamp_millis at_9 ≡ some occurred)
    × (timestamp_millis at_10 ≡ some received)
    × (occurred ≤ received + 300000)
    × (received ≤ occurred + 86400000))
evaluate_kiosk_event_time_allow_example = evaluate_kiosk_event_time_allow at_9 at_10

abbrev three : ℕ
three = 3

abbrev four : ℕ
four = 4

check_expected_revision_ok_example :
    ((check_expected_revision (nat 3) (nat 4) ≡ ok 4)
      ↔ ((three ≡ four) × (four ≡ four) × (4 ≤ max_safe_integer)))
    × ((check_expected_revision (nat 3) (nat 4) ≡ err (revision_conflict 4))
        ↔ ((three ≢ four) × (four ≡ four) × (3 ≤ max_safe_integer) × (4 ≤ max_safe_integer)))
    × ((check_expected_revision (nat 3) (nat 4) ≡ err invalid_revision)
        ↔ ((max_safe_integer < 3) ⊎ (max_safe_integer < 4)))
check_expected_revision_ok_example = check_expected_revision_ok 3 4 4

abbrev fulfil_one : List (String × RequestCommand)
fulfil_one = ("request-1", fulfill) ∷ []

effects_run :
    request_effects_for_run_event (known task) (known complete) (some ("request-1" ∷ []))
    ≡ ok fulfil_one
unfolding request_effects_for_run_event
effects_run = refl

request_effects_ok_example :
    (request_effects_for_run_event (known task) (known complete) (some ("request-1" ∷ []))
      ≡ ok fulfil_one)
    ↔ (Serves task ("request-1" ∷ []) × Fulfils task complete ("request-1" ∷ []) fulfil_one)
request_effects_ok_example = request_effects_ok task complete ("request-1" ∷ []) fulfil_one
