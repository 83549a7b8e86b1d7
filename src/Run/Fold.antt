-- ===== src/Run/Fold.antt =====
-- `foldProductionRunEvent` of src/domain-rules-v2.mjs: the facts of a production run, its metrics,
-- and how an event changes them.
use jenn_shooting_operations.Prelude.{
  ℕ, ◌+◌, ◌-◌, ◌^◌, Bool, true, false, ◌&&◌, ◌||◌, not, String, Option, none, some, leb, ◌==◌,
  if◌then◌else◌,
}
use jenn_shooting_operations.Prelude.Results.{Result, ok, err, ensure, or_fail, ◌>>=◌}
use jenn_shooting_operations.Timestamp.{Text, timestamp_millis, to_iso}
use jenn_shooting_operations.Run.{
  Tag, known, RunState, scheduled, shooting, blocked, completed, cancelled, RunEvent, start, block,
  resume, complete, cancel, RunError, invalid_run_fact, invalid_event_time, event_time_out_of_order,
  invalid_run_metrics, run_metrics_overflow, unclosed_block_interval, Transition,
  transition_production_run,
}

-- A number that a row holds: a natural number, or one that is negative or has a fraction.
pub data Number : Type 0 where
  nat : ℕ → Number
  other : Number

abbrev pub max_safe_integer : ℕ
max_safe_integer = 2 ^ 53 - 1

-- `safeDuration`, with the number that it admits.
unfoldable pub safe_duration : Number → Option ℕ
safe_duration (nat n) = if leb n max_safe_integer then some n else none
safe_duration other = none

-- The row of the run. A missing field and `null` are both `none`.
pub record Run : Type 0 where
  pub status : Tag RunState
  pub started_at : Option Text
  pub completed_at : Option Text
  pub active_block_started_at : Option Text
  pub gross_duration_ms : Option Number
  pub blocked_duration_ms : Option Number
  pub net_duration_ms : Option Number
  pub metrics_algorithm_version : Option String

pub record Folded : Type 0 where
  pub previous_state : RunState
  pub resulting_state : RunState
  pub occurred_at : Text
  pub run : Run

abbrev is_none {ℓ} : {A : Type ℓ} → Option A → Bool
is_none none = true
is_none (some _) = false

-- `timestampMillis` of a field that may be `null`.
unfoldable pub field_millis : Option Text → Option ℕ
field_millis none = none
field_millis (some t) = timestamp_millis t

-- The event is not older than the last one.
unfoldable pub check_last : ℕ → Option Text → Result RunError (Unit {0})
check_last occurred none = ok tt
check_last occurred (some last) = do
  last_millis ← or_fail (timestamp_millis last) invalid_run_fact
  ensure (leb last_millis occurred) event_time_out_of_order

abbrev pub or_zero : Option Number → Number
or_zero none = nat 0
or_zero (some n) = n

unfoldable pub has_final_metrics : Run → Bool
has_final_metrics run =
    not (is_none run.completed_at)
    || not (is_none run.gross_duration_ms)
    || not (is_none run.net_duration_ms)
    || not (is_none run.metrics_algorithm_version)

-- The facts that fit a state that an event can leave.
unfoldable pub facts_fit : RunState → Run → ℕ → Bool
unfolding field_millis
facts_fit scheduled run blocked_ms =
    is_none run.started_at && is_none run.active_block_started_at && blocked_ms == 0
facts_fit shooting run blocked_ms =
    not (is_none (field_millis run.started_at)) && is_none run.active_block_started_at
facts_fit blocked run blocked_ms =
    not (is_none (field_millis run.started_at))
    && not (is_none (field_millis run.active_block_started_at))
facts_fit completed run blocked_ms = true
facts_fit cancelled run blocked_ms = true

-- The branches on the event's type. `occurred` is the time of the event, `blocked_ms` the blocked
-- duration so far, `patch` the row with the new status.
unfoldable pub apply_event : RunEvent → ℕ → ℕ → String → Run → Result RunError Run
unfolding field_millis safe_duration
apply_event start occurred blocked_ms version patch = do
  _ ← ensure (is_none patch.started_at && is_none patch.active_block_started_at) invalid_run_metrics
  ok (record patch { started_at = some (to_iso occurred) })
apply_event block occurred blocked_ms version patch = do
  started ← or_fail (field_millis patch.started_at) invalid_run_metrics
  _ ← ensure (is_none patch.active_block_started_at) invalid_run_metrics
  _ ← ensure (leb started occurred) event_time_out_of_order
  ok (record patch { active_block_started_at = some (to_iso occurred) })
apply_event resume occurred blocked_ms version patch = do
  _ ← or_fail (field_millis patch.started_at) invalid_run_metrics
  block_started ← or_fail (field_millis patch.active_block_started_at) invalid_run_metrics
  _ ← ensure (leb block_started occurred) event_time_out_of_order
  _ ← or_fail (safe_duration (nat (occurred - block_started))) run_metrics_overflow
  total ←
      or_fail (safe_duration (nat (blocked_ms + (occurred - block_started)))) run_metrics_overflow
  ok (record patch { blocked_duration_ms = some (nat total); active_block_started_at = none })
apply_event complete occurred blocked_ms version patch = do
  started ← or_fail (field_millis patch.started_at) unclosed_block_interval
  _ ← ensure (is_none patch.active_block_started_at) unclosed_block_interval
  _ ← ensure (leb started occurred) event_time_out_of_order
  gross ← or_fail (safe_duration (nat (occurred - started))) invalid_run_metrics
  _ ← ensure (leb blocked_ms gross) invalid_run_metrics
  net ← or_fail (safe_duration (nat (gross - blocked_ms))) invalid_run_metrics
  ok (record patch {
    completed_at = some (to_iso occurred);
    gross_duration_ms = some (nat gross);
    net_duration_ms = some (nat net);
    metrics_algorithm_version = some version;
  })
apply_event cancel occurred blocked_ms version patch = ok (record patch {
  active_block_started_at = none;
  gross_duration_ms = none;
  net_duration_ms = none;
  metrics_algorithm_version = none;
})

-- What follows the check of the transition. `s` is the state of the run and `e` the event.
unfoldable pub fold_facts :
    RunEvent → Transition RunState → Run → Text → Option Text → String → Result RunError Folded
fold_facts e t run occurred_at last_occurred_at version = do
  occurred ← or_fail (timestamp_millis occurred_at) invalid_event_time
  _ ← check_last occurred last_occurred_at
  blocked_ms ← or_fail (safe_duration (or_zero run.blocked_duration_ms)) invalid_run_metrics
  _ ← ensure (not (has_final_metrics run)) invalid_run_metrics
  _ ← ensure (facts_fit t.previous_state run blocked_ms) invalid_run_metrics
  patch ←
      apply_event e occurred blocked_ms version (record run {
        status = known t.resulting_state;
        blocked_duration_ms = some (nat blocked_ms);
      })
  ok (record {
    previous_state = t.previous_state;
    resulting_state = t.resulting_state;
    occurred_at = to_iso occurred;
    run = patch;
  })

abbrev event_of : Tag RunEvent → (RunEvent → Result RunError Folded) → Result RunError Folded
event_of (known e) k = k e
event_of (Tag.unknown _) k = err invalid_run_fact

-- `none` is a run that is no object. The event is known once the transition is accepted.
unfoldable pub fold_production_run_event :
    Option Run → Tag RunEvent → Text → Option Text → String → Result RunError Folded
unfolding transition_production_run fold_facts check_last has_final_metrics facts_fit apply_event
fold_production_run_event none event_type occurred_at last_occurred_at version =
    err invalid_run_fact
fold_production_run_event (some run) event_type occurred_at last_occurred_at version = do
  t ← transition_production_run run.status event_type
  event_of event_type λ e. fold_facts e t run occurred_at last_occurred_at version
