-- ===== src/Run.antt =====
-- src/domain-rules-v2.mjs: the states of a production run, of a schedule item and of a request, and
-- the tables of their transitions. A value that JavaScript tests with `Set.has` is `known`, or else
-- `unknown` with whatever it is.
pub mod Fold
pub mod Metrics
pub mod Clock
pub mod Refinement
pub mod History
use jenn_shooting_operations.Prelude.{ℕ, ◌≤◌, Bool, true, false, String, Option, none, some, leb}
use jenn_shooting_operations.Prelude.Results.{Result, ok, err, or_fail, ◌>>=◌}

pub data Tag (A : Type 0) : Type 0 where
  known : A → Tag A
  unknown : String → Tag A

pub data RunState : Type 0 where
  scheduled shooting blocked completed cancelled : RunState

pub data RunEvent : Type 0 where
  start block resume complete cancel : RunEvent

pub data RunError : Type 0 where
  invalid_run_state invalid_run_event invalid_run_transition : RunError
  invalid_run_fact invalid_event_time event_time_out_of_order : RunError
  invalid_run_metrics run_metrics_overflow unclosed_block_interval : RunError

-- `RUN_TRANSITIONS`
unfoldable pub run_transitions : RunState → RunEvent → Option RunState
run_transitions scheduled start = some shooting
run_transitions shooting block = some blocked
run_transitions blocked resume = some shooting
run_transitions shooting complete = some completed
run_transitions scheduled cancel = some cancelled
run_transitions blocked cancel = some cancelled
run_transitions _ _ = none

pub record Transition (S : Type 0) : Type 0 where
  pub previous_state : S
  pub resulting_state : S

abbrev has : {A : Type 0} → Tag A → RunError → Result RunError A
has (known a) e = ok a
has (unknown _) e = err e

unfoldable pub transition_production_run :
    Tag RunState → Tag RunEvent → Result RunError (Transition RunState)
unfolding run_transitions
transition_production_run state event_type = do
  s ← has state invalid_run_state
  e ← has event_type invalid_run_event
  resulting_state ← or_fail (run_transitions s e) invalid_run_transition
  ok (record { previous_state = s; resulting_state = resulting_state })
