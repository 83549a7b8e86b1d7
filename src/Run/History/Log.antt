-- ===== src/Run/History/Log.antt =====
-- The events of a run, each allowed by the table and none before the one before it, rebuild a row
-- that holds the times spent shooting and blocked.
use text.Mathlib.TextPositions.{eq_refl}
use jenn_shooting_operations.Prelude.{
  ℕ, suc, ◌≤◌, ◌<◌, ◌≡◌, ◌≢◌, refl, Option, none, some, String, arith, List, [], ◌∷◌, length,
  ==_iff,
}
use jenn_shooting_operations.Timestamp.{Text, timestamp_millis, day_ms, year_10000}
use jenn_shooting_operations.Run.{known, RunState, scheduled, RunEvent, run_transitions}
use jenn_shooting_operations.Run.Fold.{Run, fold_production_run_event}
use jenn_shooting_operations.Run.Clock.{Clock, advance, Represents}
use jenn_shooting_operations.Run.Refinement.{Refines, NotLater, fold-Refines}
use jenn_shooting_operations.Run.History.{
  HistoricalEvent, new_run, replay_event, replay_events, rebuild_run_at_receipt,
  run_metrics_algorithm_version,
}

-- The rows of a log that leads from a state and its clock to another.
pub data Log (run_id : String)
    : RunState → Clock → ℕ → List HistoricalEvent → RunState → Clock → Type 0 where
  done : {s : RunState} {c : Clock} {i : ℕ} → Log run_id s c i [] s c
  then :
      {s s' : RunState} {c c' : Clock} {i : ℕ} {hs : List HistoricalEvent} (e : RunEvent)
      (r : RunState) (at : Text) (t : ℕ)
      → run_transitions s e ≡ some r
      → timestamp_millis at ≡ some t
      → day_ms ≤ t
      → t < year_10000
      → (s ≢ scheduled → c.since ≤ t)
      → Log run_id r (advance s t c) (suc i) hs s' c'
      → Log run_id s c i
          (record {
            run_id = run_id;
            event_type = known e;
            occurred_at = at;
            previous_state = s;
            resulting_state = r;
            resulting_run_revision = suc i;
          }
            ∷ hs)
          s'
          c'

-- The last event is the one that the clock stands at.
abbrev IsLast : RunState → Clock → Option Text → Type 0
IsLast scheduled c last = last ≡ none
IsLast _ c none = ⊥
IsLast _ c (some at) = timestamp_millis at ≡ some c.since

abbrev pub Rebuilt : RunState → Clock → Option Run → Type 0
Rebuilt s c none = ⊥
Rebuilt s c (some run) = Represents s run c

NotLater-IsLast :
    (s : RunState) (c : Clock) (last : Option Text) (t : ℕ)
    → IsLast s c last
    → (s ≢ scheduled → c.since ≤ t)
    → NotLater last t
NotLater-IsLast scheduled c none t h after = tt
NotLater-IsLast scheduled c (some at) t h after = cc
NotLater-IsLast s c none t h after = tt
NotLater-IsLast s c (some at) t h after = (c.since, h, after (λ p. cc))

IsLast-advance :
    (s r : RunState) (e : RunEvent) (c : Clock) (at : Text) (t : ℕ)
    → run_transitions s e ≡ some r
    → timestamp_millis at ≡ some t
    → IsLast r (advance s t c) (some at)
unfolding run_transitions
IsLast-advance s r e c at t p h = ground arith

new_run-Represents : (c : Clock) → Represents scheduled new_run c
unfolding new_run
new_run-Represents c = ground arith

module _ (run_id : String) where
  replay_event-Rebuilt :
      (s r : RunState) (c : Clock) (i : ℕ) (e : RunEvent) (at : Text) (t : ℕ) (run : Run)
      (last : Option Text)
      → run_transitions s e ≡ some r
      → Represents s run c
      → Refines r
          (advance s t c)
          (fold_production_run_event (some run) (known e) at last run_metrics_algorithm_version)
      → Rebuilt r (advance s t c) (
          replay_event run_id i run last (record {
            run_id = run_id;
            event_type = known e;
            occurred_at = at;
            previous_state = s;
            resulting_state = r;
            resulting_run_revision = suc i;
          }))
  unfolding replay_event
  replay_event-Rebuilt s r c i e at t run last p h k = ground (arith, eq_refl run_id)

  replay_events-Rebuilt :
      {s s' : RunState} {c c' : Clock} {i : ℕ} {hs : List HistoricalEvent} (run : Option Run)
      (last : Option Text)
      → Log run_id s c i hs s' c'
      → Rebuilt s c run
      → IsLast s c last
      → Rebuilt s' c' (replay_events run_id i run last hs)
  unfolding replay_events
  replay_events-Rebuilt none last log h l = absurd h
  replay_events-Rebuilt (some run) last done h l = h
  replay_events-Rebuilt (some run) last
        (then {s = s} {c = c} {i = i} e r at t p time lo hi after log) h l =
      replay_events-Rebuilt _ (some at) log
        (replay_event-Rebuilt s r c i e at t run last p h (
          fold-Refines run c at last run_metrics_algorithm_version t time lo hi
            (NotLater-IsLast s c last t l after) s e p h after))
        (IsLast-advance s r e c at t p time)

-- A stored history whose events the table allows, each at a time of the years 0 to 9999 that is not
-- before the one before it, with the revisions 1, 2, 3 and so on, is rebuilt: the row has the state that
-- the history leads to, the start, and the blocked time that its times add up to, and of a completed run
-- the end and all durations. The blocked time of a cancelled run leaves out the block that it was cancelled
-- in, and a run cancelled before its start has no start and no blocked time.
pub rebuild-Log :
    (run_id : String) (c : Clock) (hs : List HistoricalEvent) (s' : RunState) (c' : Clock)
    → Log run_id scheduled c 0 hs s' c'
    → Rebuilt s' c' (rebuild_run_at_receipt hs run_id (length hs))
unfolding rebuild_run_at_receipt
rebuild-Log run_id c hs s' c' log =
    rw ((==_iff (length hs) (length hs)).1 refl)
      (replay_events-Rebuilt run_id (some new_run) none log (new_run-Represents c) refl)
