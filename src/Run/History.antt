-- ===== src/Run/History.antt =====
-- `rebuildRunAtReceipt` of src/run-event-use-case-v2.mjs: the row of a run, rebuilt from the events
-- that the store holds for it.
pub mod Log
use jenn_shooting_operations.Prelude.{
  ℕ, suc, Bool, true, false, ◌&&◌, String, Option, none, some, List, [], ◌∷◌, ◌==◌, str_eq, length,
  if◌then◌else◌,
}
use jenn_shooting_operations.Prelude.Results.{Result, ok, err}
use jenn_shooting_operations.Timestamp.{Text}
use jenn_shooting_operations.Run.{
  Tag, known, unknown, RunState, scheduled, shooting, blocked, completed, cancelled, RunEvent,
  RunError,
}
use jenn_shooting_operations.Run.Fold.{nat, Run, Folded, fold_production_run_event}

-- `RUN_METRICS_ALGORITHM_VERSION`
abbrev pub run_metrics_algorithm_version : String
run_metrics_algorithm_version = "production-run-net-v1"

-- The columns of a stored event that are read. The table admits no other states.
pub record HistoricalEvent : Type 0 where
  pub run_id : String
  pub event_type : Tag RunEvent
  pub occurred_at : Text
  pub previous_state : RunState
  pub resulting_state : RunState
  pub resulting_run_revision : ℕ

abbrev ordinal : RunState → ℕ
ordinal scheduled = 0
ordinal shooting = 1
ordinal blocked = 2
ordinal completed = 3
ordinal cancelled = 4

abbrev pub same_state : RunState → RunState → Bool
same_state s r = ordinal s == ordinal r

abbrev pub has_state : Tag RunState → RunState → Bool
has_state (known s) r = same_state s r
has_state (unknown _) r = false

unfoldable pub new_run : Run
new_run = record {
  status = known scheduled;
  started_at = none;
  completed_at = none;
  active_block_started_at = none;
  gross_duration_ms = none;
  blocked_duration_ms = some (nat 0);
  net_duration_ms = none;
  metrics_algorithm_version = none;
}

abbrev folded_run : RunState → Result RunError Folded → Option Run
folded_run s (ok f) = if same_state f.resulting_state s then some f.run else none
folded_run s (err _) = none

-- One round of the loop; `index` is the number of events before this one.
unfoldable pub replay_event : String → ℕ → Run → Option Text → HistoricalEvent → Option Run
replay_event run_id index run last h =
    if str_eq h.run_id run_id
      && h.resulting_run_revision == suc index
      && has_state run.status h.previous_state
    then folded_run h.resulting_state (
        fold_production_run_event (some run) h.event_type h.occurred_at last
          run_metrics_algorithm_version)
    else none

unfoldable pub replay_events :
    String → ℕ → Option Run → Option Text → List HistoricalEvent → Option Run
replay_events run_id index none last hs = none
replay_events run_id index (some run) last [] = some run
replay_events run_id index (some run) last (h ∷ hs) =
    replay_events run_id (suc index) (replay_event run_id index run last h) (some h.occurred_at) hs

-- `event` is the receipt's event: its run and its revision.
unfoldable pub rebuild_run_at_receipt : List HistoricalEvent → String → ℕ → Option Run
unfolding replay_events
rebuild_run_at_receipt history run_id resulting_run_revision =
    if length history == resulting_run_revision
    then replay_events run_id 0 (some new_run) none history
    else none
