-- ===== src/Run/Refinement.antt =====
-- `fold_production_run_event` implements the clock of a run.
use jenn_shooting_operations.Prelude.{
  ℕ, ◌≤◌, ◌<◌, ◌≡◌, refl, ◌≢◌, Option, none, some, String, arith,
}
use jenn_shooting_operations.Prelude.Results.{Result, ok, err}
use jenn_shooting_operations.Timestamp.{Text, timestamp_millis, day_ms, year_10000}
use jenn_shooting_operations.Timestamp.RoundTrip.{timestamp_millis-to_iso}
use jenn_shooting_operations.Run.{
  known, RunState, scheduled, shooting, blocked, completed, cancelled, RunEvent, start, block,
  resume, complete, cancel, RunError, run_transitions,
}
use jenn_shooting_operations.Run.Fold.{
  Run, Folded, field_millis, safe_duration, check_last, fold_production_run_event,
}
use jenn_shooting_operations.Run.Clock.{Clock, advance, Represents}

some_inj : {a b : RunState} → some a ≡ some b → a ≡ b
some_inj p = cc

abbrev pub Refines : RunState → Clock → Result RunError Folded → Type 0
Refines r c (ok f) = Represents r f.run c × (f.resulting_state ≡ r)
Refines r c (err _) = ⊥

-- The last event is not later.
abbrev pub NotLater : Option Text → ℕ → Type 0
NotLater none t = Unit
NotLater (some last) t = (u : ℕ) × (timestamp_millis last ≡ some u) × (u ≤ t)

check_last-ok : (last : Option Text) (t : ℕ) → NotLater last t → check_last t last ≡ ok tt
unfolding check_last
check_last-ok none t h = refl
check_last-ok (some last) t h = ground arith

module _ (run : Run) (c : Clock) (at : Text) (last : Option Text) (version : String) (t : ℕ)
    (time : timestamp_millis at ≡ some t) (lo : day_ms ≤ t) (hi : t < year_10000)
    (later : NotLater last t) where
  start-Refines :
      Represents scheduled run c
      → Refines shooting
          (advance scheduled t c)
          (fold_production_run_event (some run) (known start) at last version)
  unfolding fold_production_run_event field_millis safe_duration
  start-Refines h = ground (arith, check_last-ok last t later, timestamp_millis-to_iso t lo hi)

  block-Refines :
      Represents shooting run c
      → c.since ≤ t
      → Refines blocked
          (advance shooting t c)
          (fold_production_run_event (some run) (known block) at last version)
  unfolding fold_production_run_event field_millis safe_duration
  block-Refines h after =
      ground (arith, check_last-ok last t later, timestamp_millis-to_iso t lo hi)

  resume-Refines :
      Represents blocked run c
      → c.since ≤ t
      → Refines shooting
          (advance blocked t c)
          (fold_production_run_event (some run) (known resume) at last version)
  unfolding fold_production_run_event field_millis safe_duration
  resume-Refines h after =
      ground (arith, check_last-ok last t later, timestamp_millis-to_iso t lo hi)

  complete-Refines :
      Represents shooting run c
      → c.since ≤ t
      → Refines completed
          (advance shooting t c)
          (fold_production_run_event (some run) (known complete) at last version)
  unfolding fold_production_run_event field_millis safe_duration
  complete-Refines h after =
      ground (arith, check_last-ok last t later, timestamp_millis-to_iso t lo hi)

  cancel_scheduled-Refines :
      Represents scheduled run c
      → Refines cancelled
          (advance scheduled t c)
          (fold_production_run_event (some run) (known cancel) at last version)
  unfolding fold_production_run_event field_millis safe_duration
  cancel_scheduled-Refines h =
      ground (arith, check_last-ok last t later, timestamp_millis-to_iso t lo hi)

  cancel_blocked-Refines :
      Represents blocked run c
      → c.since ≤ t
      → Refines cancelled
          (advance blocked t c)
          (fold_production_run_event (some run) (known cancel) at last version)
  unfolding fold_production_run_event field_millis safe_duration
  cancel_blocked-Refines h after =
      ground (arith, check_last-ok last t later, timestamp_millis-to_iso t lo hi)

  -- An event that the table allows, at a time of the years 0 to 9999 that is not before the last
  -- event's, is accepted, and the new row holds the clock that has moved on to that time: its state, the
  -- start, the blocked time, and of a completed run the end and the durations. The row of a cancelled run
  -- has its start, if it had one, and the blocked time without the block that it was cancelled in.
  pub fold-Refines :
      (s : RunState) (e : RunEvent) {r : RunState}
      → run_transitions s e ≡ some r
      → Represents s run c
      → (s ≢ scheduled → c.since ≤ t)
      → Refines r (advance s t c) (fold_production_run_event (some run) (known e) at last version)
  unfolding run_transitions
  fold-Refines scheduled start p h after = rw (← some_inj p) (start-Refines h)
  fold-Refines scheduled cancel p h after = rw (← some_inj p) (cancel_scheduled-Refines h)
  fold-Refines shooting block p h after = rw (← some_inj p) (block-Refines h (after (λ q. cc)))
  fold-Refines shooting complete p h after =
      rw (← some_inj p) (complete-Refines h (after (λ q. cc)))
  fold-Refines blocked resume p h after = rw (← some_inj p) (resume-Refines h (after (λ q. cc)))
  fold-Refines blocked cancel p h after =
      rw (← some_inj p) (cancel_blocked-Refines h (after (λ q. cc)))
  fold-Refines _ _ p h after = cc
