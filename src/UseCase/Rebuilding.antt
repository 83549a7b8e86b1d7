-- ===== src/UseCase/Rebuilding.antt =====
-- That the rows of the runs are what their histories rebuild, and stay so.
use jenn_shooting_operations.Prelude.{
  ℕ, suc, ◌+◌, ◌≡◌, refl, ap, ◌∙◌, inl, inr, Bool, true, false, String, Option, none, some, List,
  [], ◌∷◌, ◌++◌, All, length, length-append, str_eq, eq_iff, arith, Bool-cases, if◌then◌else◌,
}
use jenn_shooting_operations.Prelude.Results.{ok}
use jenn_shooting_operations.Timestamp.{Text}
use jenn_shooting_operations.Run.{known, RunEvent, RunState}
use jenn_shooting_operations.Run.Fold.{Run, Folded, fold_production_run_event}
use jenn_shooting_operations.Run.History.{
  HistoricalEvent, same_state, new_run, replay_event, replay_events, run_metrics_algorithm_version,
}
use jenn_shooting_operations.UseCase.Command.{Command}
use jenn_shooting_operations.UseCase.Tables.{
  RunRow, EventRow, Database, Ports, find, update, all_of_run, run_id_eq,
}
use jenn_shooting_operations.UseCase.Plan.{Plan}
use jenn_shooting_operations.UseCase.Write.{event_row, is_current, advance_run}
use jenn_shooting_operations.UseCase.Planning.{fold-has_state, Planned}
use jenn_shooting_operations.UseCase.Writes.{Written}
use text.Mathlib.TextPositions.{eq_refl}
use jenn_shooting_operations.UseCase.Histories.{
  replay_events-Consecutive, last_occurred_at-all_of_run, all_of_run-append, replay_events-append,
}

-- The history of the run rebuilds the row, and its revision counts the events.
pub record IsRebuilt (events : List EventRow) (row : RunRow) : Type 0 where
  pub rebuilt :
      replay_events row.id 0 (some new_run) none (all_of_run row.id events) ≡ some row.facts
  pub counted : length (all_of_run row.id events) ≡ row.run_revision

pub record IsConsistent (db : Database) : Type 0 where
  pub runs : All (IsRebuilt db.events) db.runs

find-id :
    (id : String) (rows : List RunRow) (r : RunRow)
    → find (run_id_eq id) rows ≡ some r
    → str_eq r.id id ≡ true
unfolding find
find-id id [] r h = cc
find-id id (x ∷ xs) r h = ground (arith, find-id id xs r)

find-All :
    (P : RunRow → Type 0) (q : RunRow → Bool) (rows : List RunRow) (r : RunRow)
    → All P rows
    → find q rows ≡ some r
    → P r
unfolding find
find-All P q [] r a h = cc
find-All P q (x ∷ xs) r a h = elim (Bool-cases (q x)) [
  | inl e ↦ let same : some x ≡ some r = rw e at h in let s : x ≡ r = cc same in rw (← s) a.0
  | inr e ↦ find-All P q xs r a.1 (rw e at h)
]

All-update :
    (P Q : RunRow → Type 0) (c : RunRow → Bool) (f : RunRow → RunRow) (rows : List RunRow)
    → ((r : RunRow) → P r → Q (if c r then f r else r))
    → All P rows
    → All Q (update c f rows)
unfolding update
All-update P Q c f [] k a = tt
All-update P Q c f (x ∷ xs) k a = (k x a.0, All-update P Q c f xs k a.1)

pub same_state_refl : (s : RunState) → same_state s s ≡ true
same_state_refl s = ground arith

-- The event of a fold is a round of the loop that rebuilds the run.
replay_event-fold :
    (id : String) (i : ℕ) (run : Run) (last : Option Text) (e : RunEvent) (at : Text) (f : Folded)
    (h : HistoricalEvent)
    → fold_production_run_event (some run) (known e) at last run_metrics_algorithm_version ≡ ok f
    → h ≡ record {
      run_id = id;
      event_type = known e;
      occurred_at = at;
      previous_state = f.previous_state;
      resulting_state = f.resulting_state;
      resulting_run_revision = suc i;
    }
    → replay_event id i run last h ≡ some f.run
unfolding replay_event
replay_event-fold id i run last e at f h k q = rw q (
    ground (
      arith,
      k,
      eq_refl id,
      same_state_refl f.resulting_state,
      fold-has_state run e at last run_metrics_algorithm_version f k,
    ))

all_of_run_same :
    (id : String) (es : List EventRow) (e : EventRow) (h : HistoricalEvent)
    → e.historical ≡ h
    → str_eq h.run_id id ≡ true
    → all_of_run id (es ++ e ∷ []) ≡ all_of_run id es ++ h ∷ []
all_of_run_same id es e h k s = ground (arith, all_of_run-append id es e)

all_of_run_other :
    (id : String) (es : List EventRow) (e : EventRow) (h : HistoricalEvent)
    → e.historical ≡ h
    → str_eq h.run_id id ≡ false
    → all_of_run id (es ++ e ∷ []) ≡ all_of_run id es
all_of_run_other id es e h k s = ground (arith, all_of_run-append id es e)

module _ (ports : Ports) (command : Command) (received_at : Text) (db db' : Database) (p : Plan)
    (found : Planned command db p) (written : Written ports command received_at p db db')
    (consistent : IsConsistent db) where
  pub run_id_lem : p.run.id ≡ command.run_id
  run_id_lem = (eq_iff _ _).0 (find-id command.run_id db.runs p.run found.found)

  before : IsRebuilt db.events p.run
  before =
      find-All (IsRebuilt db.events) (run_id_eq command.run_id) db.runs p.run consistent.runs
        found.found

  -- The history of the run of the command, with its event.
  abbrev event : HistoricalEvent
  event = record {
    run_id = command.run_id;
    event_type = known command.event_type;
    occurred_at = command.occurred_at;
    previous_state = p.folded.previous_state;
    resulting_state = p.folded.resulting_state;
    resulting_run_revision = p.run.run_revision + 1;
  }

  event_row_lem : ((event_row ports command received_at p).historical ≡ event)
  unfolding event_row
  event_row_lem = refl

  longer : all_of_run command.run_id db'.events ≡ all_of_run command.run_id db.events ++ event ∷ []
  longer =
      ap (λ es. all_of_run command.run_id es) written.events_lem
      ∙ all_of_run_same command.run_id db.events (event_row ports command received_at p) event
          event_row_lem (eq_refl command.run_id)

  others :
      (id : String)
      → str_eq command.run_id id ≡ false
      → all_of_run id db'.events ≡ all_of_run id db.events
  others id e =
      ap (λ es. all_of_run id es) written.events_lem
      ∙ all_of_run_other id db.events (event_row ports command received_at p) event event_row_lem e

  rebuilt_before :
      replay_events command.run_id 0 (some new_run) none (all_of_run command.run_id db.events)
      ≡ some p.run.facts
  rebuilt_before = rw run_id_lem at before.rebuilt

  counted_before : length (all_of_run command.run_id db.events) ≡ p.run.run_revision
  counted_before = rw run_id_lem at before.counted

  pub rebuilt_after :
      replay_events command.run_id 0 (some new_run) none (all_of_run command.run_id db'.events)
      ≡ some p.folded.run
  rebuilt_after =
      let c =
        replay_events-Consecutive command.run_id 0 (some new_run) none
          (all_of_run command.run_id db.events) rebuilt_before in
      rw longer (
        replay_events-append command.run_id 0 (some new_run) none
          (all_of_run command.run_id db.events) event p.run.facts rebuilt_before
        ∙ replay_event-fold command.run_id _ p.run.facts _ command.event_type command.occurred_at
            p.folded event
            (rw (last_occurred_at-all_of_run command.run_id db.events c) at found.folds)
            (ap (λ (n : ℕ). record event { resulting_run_revision = n })
              (omega (arith, counted_before))))

  pub counted_after : length (all_of_run command.run_id db'.events) ≡ p.run.run_revision + 1
  counted_after = rw longer (
      omega
        (arith, length-append (all_of_run command.run_id db.events) (event ∷ []), counted_before))

  row-IsRebuilt :
      (row : RunRow)
      → IsRebuilt db.events row
      → IsRebuilt db'.events (if is_current p.run row then advance_run p received_at row else row)
  row-IsRebuilt row h = elim (Bool-cases (str_eq command.run_id row.id)) [
    | inl e ↦
        let same : command.run_id ≡ row.id = (eq_iff _ _).0 e in
        let counted : length (all_of_run command.run_id db.events) ≡ row.run_revision =
          rw (← same) at h.counted in
        let current : is_current p.run row ≡ true =
          ground (arith, counted, counted_before, run_id_lem, same, eq_refl command.run_id) in
        rw current
          (record { rebuilt = rw (← same) rebuilt_after; counted = rw (← same) counted_after })
    | inr e ↦
        let current : is_current p.run row ≡ false =
          ground (arith, run_id_lem, eq_iff row.id p.run.id, eq_iff command.run_id row.id) in
        rw current (record {
          rebuilt = rw (others row.id e) h.rebuilt;
          counted = rw (others row.id e) h.counted;
        })
  ]

  pub written-IsConsistent : IsConsistent db'
  written-IsConsistent = record {
    runs = rw written.runs_lem (
        All-update (IsRebuilt db.events) (IsRebuilt db'.events) (is_current p.run)
          (advance_run p received_at) db.runs row-IsRebuilt consistent.runs);
  }
