-- ===== src/Run/Metrics.antt =====
-- What `fold_production_run_event` keeps true of a run, and the times that its metrics stand for.
use jenn_shooting_operations.Prelude.{ℕ, ◌≡◌, true, false, Option, some, String, arith, ◌⊎◌}
use jenn_shooting_operations.Prelude.Results.{ok, err}
use jenn_shooting_operations.Timestamp.{Text, timestamp_millis, to_iso}
use jenn_shooting_operations.Run.{
  known, RunState, completed, cancelled, RunEvent, invalid_run_transition, Transition,
}
use jenn_shooting_operations.Run.Fold.{
  nat, Run, Folded, safe_duration, apply_event, fold_facts, fold_production_run_event, or_zero,
  check_last, has_final_metrics, facts_fit,
}

abbrev pub IsTerminal : RunState → Type 0
IsTerminal s = (s ≡ completed) ⊎ (s ≡ cancelled)

-- A completed or cancelled run accepts no event, whatever the event and its time.
pub terminal_rejects :
    (run : Run) (s : RunState) (e : RunEvent) (at : Text) (last : Option Text) (version : String)
    → run.status ≡ known s
    → IsTerminal s
    → fold_production_run_event (some run) (known e) at last version ≡ err invalid_run_transition
unfolding fold_production_run_event
terminal_rejects run s e at last version h t = ground arith

-- What an accepted event has passed: the time, the checks, and the branch of its type.
pub record Accepted (e : RunEvent) (t : Transition RunState) (run : Run) (at : Text)
    (last : Option Text) (version : String) (f : Folded) : Type 0 where
  pub occurred : ℕ
  pub blocked_ms : ℕ
  pub time : timestamp_millis at ≡ some occurred
  pub in_order : check_last occurred last ≡ ok tt
  pub blocked_so_far : safe_duration (or_zero run.blocked_duration_ms) ≡ some blocked_ms
  pub not_final : has_final_metrics run ≡ false
  pub fits : facts_fit t.previous_state run blocked_ms ≡ true
  pub applied :
      apply_event e occurred blocked_ms version (record run {
        status = known t.resulting_state;
        blocked_duration_ms = some (nat blocked_ms);
      })
      ≡ ok f.run
  pub previous : f.previous_state ≡ t.previous_state
  pub resulting : f.resulting_state ≡ t.resulting_state
  pub at_time : f.occurred_at ≡ to_iso occurred

pub fold_facts-Accepted :
    (e : RunEvent) (t : Transition RunState) (run : Run) (at : Text) (last : Option Text)
    (version : String) (f : Folded)
    → fold_facts e t run at last version ≡ ok f
    → Accepted e t run at last version f
unfolding fold_facts
fold_facts-Accepted e t run at last version f h = ground arith
