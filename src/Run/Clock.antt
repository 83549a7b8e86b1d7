-- ===== src/Run/Clock.antt =====
-- What the metrics of a production run stand for: a run that accumulates the time that it spends
-- shooting and the time that it spends blocked. This is the specification of
-- `foldProductionRunEvent` of src/domain-rules-v2.mjs.
use jenn_shooting_operations.Prelude.{ℕ, ◌+◌, ◌-◌, ◌<◌, ◌≡◌, none, some}
use jenn_shooting_operations.Timestamp.{year_10000}
use jenn_shooting_operations.Run.{
  known, RunState, scheduled, shooting, blocked, completed, cancelled,
}
use jenn_shooting_operations.Run.Fold.{nat, Run, field_millis, or_zero}

-- `left` is the state that the last event left, `since` the time of that event. `resumed` is the time spent
-- in the blocks that have ended when the run last went on shooting.
pub record Clock : Type 0 where
  pub started : ℕ
  pub since : ℕ
  pub active : ℕ
  pub idle : ℕ
  pub resumed : ℕ
  pub left : RunState

-- An event at the time `t` ends an interval that was spent in the state before it.
abbrev pub advance : RunState → ℕ → Clock → Clock
advance scheduled t c = record {
  started = t;
  since = t;
  active = 0;
  idle = 0;
  resumed = 0;
  left = scheduled;
}
advance shooting t c = record c {
  active = c.active + (t - c.since);
  since = t;
  resumed = c.idle;
  left = shooting;
}
advance blocked t c = record c { idle = c.idle + (t - c.since); since = t; left = blocked }
advance completed t c = c
advance cancelled t c = c

abbrev NoFinalMetrics : Run → Type 0
NoFinalMetrics run =
    (run.completed_at ≡ none)
    × (run.gross_duration_ms ≡ none)
    × (run.net_duration_ms ≡ none)
    × (run.metrics_algorithm_version ≡ none)

-- Every moment since the start was spent shooting or blocked.
pub record IsAccounted (c : Clock) : Type 0 where
  pub sum : c.started + c.active + c.idle ≡ c.since
  pub in_range : c.since < year_10000

-- A run that was cancelled before its start has no times. One that was cancelled while it was blocked keeps
-- its start and the time of the blocks that were resumed, without the block that it was cancelled in.
abbrev CancelledFacts : RunState → Run → Clock → Type 0
CancelledFacts scheduled run c = (run.started_at ≡ none) × (run.blocked_duration_ms ≡ some (nat 0))
CancelledFacts blocked run c =
    (field_millis run.started_at ≡ some c.started)
    × (run.blocked_duration_ms ≡ some (nat c.resumed))
    × IsAccounted c
CancelledFacts _ run c = ⊥

abbrev Facts : RunState → Run → Clock → Type 0
Facts scheduled run c =
    (run.started_at ≡ none)
    × (run.active_block_started_at ≡ none)
    × (or_zero run.blocked_duration_ms ≡ nat 0)
    × NoFinalMetrics run
Facts shooting run c =
    (field_millis run.started_at ≡ some c.started)
    × (run.active_block_started_at ≡ none)
    × (or_zero run.blocked_duration_ms ≡ nat c.idle)
    × NoFinalMetrics run
    × IsAccounted c
Facts blocked run c =
    (c.resumed ≡ c.idle)
    × (field_millis run.started_at ≡ some c.started)
    × (field_millis run.active_block_started_at ≡ some c.since)
    × (or_zero run.blocked_duration_ms ≡ nat c.idle)
    × NoFinalMetrics run
    × IsAccounted c
Facts completed run c =
    (field_millis run.started_at ≡ some c.started)
    × (field_millis run.completed_at ≡ some c.since)
    × (run.gross_duration_ms ≡ some (nat (c.since - c.started)))
    × (run.blocked_duration_ms ≡ some (nat c.idle))
    × (run.net_duration_ms ≡ some (nat c.active))
    × IsAccounted c
Facts cancelled run c =
    (run.active_block_started_at ≡ none) × NoFinalMetrics run × CancelledFacts c.left run c

-- The row of a run in the state `s` holds the times and the durations of the clock.
pub record Represents (s : RunState) (run : Run) (c : Clock) : Type 0 where
  pub status : run.status ≡ known s
  pub facts : Facts s run c
