-- ===== src/UseCase/Histories.antt =====
-- The history of a run as a list: its order, its prefix up to a revision, and one event more.
use jenn_shooting_operations.Prelude.{
  ℕ, suc, ◌+◌, ◌≤◌, ◌≡◌, refl, ap, ◌∙◌, inl, inr, String, Option, none, some, List, [], ◌∷◌, ◌++◌,
  All, All-map, length, str_eq, arith, Bool-cases, if◌then◌else◌,
}
use jenn_shooting_operations.Timestamp.{Text}
use jenn_shooting_operations.Run.Fold.{Run}
use jenn_shooting_operations.Run.History.{HistoricalEvent, replay_event, replay_events}
use jenn_shooting_operations.UseCase.Tables.{
  EventRow, of_run, all_of_run, order_by_revision, history, last_time, last_occurred_at,
}

-- The revisions are those after `i`, with no gap.
abbrev pub Consecutive : ℕ → List HistoricalEvent → Type 0
Consecutive i [] = Unit
Consecutive i (h ∷ hs) = (h.resulting_run_revision ≡ suc i) × Consecutive (suc i) hs

replay_events-some :
    (id : String) (i : ℕ) (o : Option Run) (last : Option Text) (hs : List HistoricalEvent)
    {r : Run}
    → replay_events id i o last hs ≡ some r
    → (run : Run) × (o ≡ some run)
unfolding replay_events
replay_events-some id i none last [] e = cc
replay_events-some id i none last (h ∷ hs) e = cc
replay_events-some id i (some run) last hs e = (run, refl)

replay_event-revision :
    (id : String) (i : ℕ) (run : Run) (last : Option Text) (h : HistoricalEvent) {r : Run}
    → replay_event id i run last h ≡ some r
    → h.resulting_run_revision ≡ suc i
unfolding replay_event
replay_event-revision id i run last h e = ground arith

pub replay_events-Consecutive :
    (id : String) (i : ℕ) (o : Option Run) (last : Option Text) (hs : List HistoricalEvent)
    {r : Run}
    → replay_events id i o last hs ≡ some r
    → Consecutive i hs
unfolding replay_events
replay_events-Consecutive id i none last hs e = cc
replay_events-Consecutive id i (some run) last [] e = tt
replay_events-Consecutive id i (some run) last (h ∷ hs) e =
    let (_, s) =
      replay_events-some id (suc i) (replay_event id i run last h) (some h.occurred_at) hs e in
    (
      replay_event-revision id i run last h s,
      replay_events-Consecutive id (suc i) (replay_event id i run last h) (some h.occurred_at) hs e,
    )

Consecutive-order :
    (i : ℕ) (hs : List HistoricalEvent) → Consecutive i hs → order_by_revision hs ≡ hs
unfolding order_by_revision
Consecutive-order i [] c = refl
Consecutive-order i (h ∷ []) c = refl
Consecutive-order i (h ∷ k ∷ hs) c = rw (Consecutive-order (suc i) (k ∷ hs) c.1) (ground arith)

pub Consecutive-le :
    (i : ℕ) (hs : List HistoricalEvent)
    → Consecutive i hs
    → All (λ h. h.resulting_run_revision ≤ i + length hs) hs
Consecutive-le i [] c = tt
Consecutive-le i (h ∷ hs) c =
    (omega arith, All-map _ _ hs (λ k p. omega (arith, p)) (Consecutive-le (suc i) hs c.1))

of_run-all_of_run :
    (id : String) (n : ℕ) (es : List EventRow)
    → All (λ h. h.resulting_run_revision ≤ n) (all_of_run id es)
    → of_run id n es ≡ all_of_run id es
unfolding of_run all_of_run
of_run-all_of_run id n [] h = refl
of_run-all_of_run id n (e ∷ es) h = elim (Bool-cases (str_eq e.run_id id)) [
  | inl s ↦
      let h' : All (λ k. k.resulting_run_revision ≤ n) (e.historical ∷ all_of_run id es) =
        rw s at h in
      rw s (ground (arith, h'.0, of_run-all_of_run id n es h'.1))
  | inr s ↦
      let h' : All (λ k. k.resulting_run_revision ≤ n) (all_of_run id es) = rw s at h in
      rw s (of_run-all_of_run id n es h')
]

-- The history up to the number of events of the run is the whole.
pub history-all_of_run :
    (id : String) (n : ℕ) (es : List EventRow)
    → Consecutive 0 (all_of_run id es)
    → length (all_of_run id es) ≡ n
    → history id n es ≡ all_of_run id es
unfolding history
history-all_of_run id n es c l =
    ap order_by_revision (
      of_run-all_of_run id n es
        (All-map _ _ _ (λ k p. omega (arith, p, l)) (Consecutive-le 0 (all_of_run id es) c)))
    ∙ Consecutive-order 0 (all_of_run id es) c

pub last_occurred_at-all_of_run :
    (id : String) (es : List EventRow)
    → Consecutive 0 (all_of_run id es)
    → last_occurred_at id es ≡ last_time none (all_of_run id es)
unfolding last_occurred_at
last_occurred_at-all_of_run id es c = rw (Consecutive-order 0 (all_of_run id es) c)

pub all_of_run-append :
    (id : String) (es : List EventRow) (e : EventRow)
    → all_of_run id (es ++ e ∷ [])
      ≡ (if str_eq e.run_id id then all_of_run id es ++ e.historical ∷ [] else all_of_run id es)
unfolding all_of_run
all_of_run-append id [] e = refl
all_of_run-append id (x ∷ es) e = ground (arith, all_of_run-append id es e)

replay_events_nil :
    (id : String) (i : ℕ) (o : Option Run) (last : Option Text) → replay_events id i o last [] ≡ o
unfolding replay_events
replay_events_nil id i none last = refl
replay_events_nil id i (some run) last = refl

same_round :
    (id : String) (i j : ℕ) (run r : Run) (last : Option Text) (h : HistoricalEvent)
    → i ≡ j
    → run ≡ r
    → replay_event id i run last h ≡ replay_event id j r last h
same_round id i j run r last h e f = rw (e, f)

pub replay_events-append :
    (id : String) (i : ℕ) (o : Option Run) (last : Option Text) (hs : List HistoricalEvent)
    (h : HistoricalEvent) (r : Run)
    → replay_events id i o last hs ≡ some r
    → replay_events id i o last (hs ++ h ∷ [])
      ≡ replay_event id (i + length hs) r (last_time last hs) h
unfolding replay_events last_time
replay_events-append id i none last hs h r e = cc
replay_events-append id i (some run) last [] h r e =
    replay_events_nil id (suc i) (replay_event id i run last h) (some h.occurred_at)
    ∙ same_round id i (i + 0) run r last h (omega arith) (cc e)
replay_events-append id i (some run) last (k ∷ hs) h r e =
    replay_events-append id (suc i) (replay_event id i run last k) (some k.occurred_at) hs h r e
    ∙ ap (λ n. replay_event id n r (last_time (some k.occurred_at) hs) h) (omega arith)
