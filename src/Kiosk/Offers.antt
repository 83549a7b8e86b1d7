-- ===== src/Kiosk/Offers.antt =====
-- The actions that a kiosk offers, against the transitions that the service accepts.
use jenn_shooting_operations.Prelude.{
  ℕ, ◌+◌, ◌≡◌, ◌≢◌, ◌↔◌, ◌⊎◌, refl, Bool, false, ◌&&◌, not, String, Option, none, some, List, [],
  ◌∷◌, if◌then◌else◌, arith, eq_iff,
}
use jenn_shooting_operations.Run.{known, RunState, RunEvent, start, cancel, run_transitions}
use jenn_shooting_operations.Kiosk.Actions.{
  ServerItem, PendingItem, Cursor, next_by_event, walk, actions_by_state, derive_kiosk_action_state,
  misplaced, has_items,
}

-- The event is one of the run, or starts a run where there is none.
abbrev pub OfRun : Option String → RunEvent → String → Type 0
OfRun none e id = e ≡ start
OfRun (some run_id) e id = id ≡ run_id

abbrev pub at_state : RunState → Option String → ℕ → Cursor
at_state s run_id n = record { state = some (known s); run_id = run_id; revision = n }

-- The events lead, by transitions of the service and with the revisions that it gives, from one state
-- to another.
pub data Leads (item : String)
    : RunState → Option String → ℕ → List PendingItem → RunState → Option String → ℕ → Type 0 where
  confirmed : {s : RunState} {run : Option String} {n : ℕ} → Leads item s run n [] s run n
  first :
      {s s' : RunState} {run run' : Option String} {n n' : ℕ} {ps : List PendingItem}
      (p : PendingItem) (e : RunEvent) (r : RunState)
      → p.schedule_item_id ≡ item
      → p.event_type ≡ known e
      → p.expected_run_revision ≡ n
      → OfRun run e p.run_id
      → run_transitions s e ≡ some r
      → e ≢ cancel
      → Leads item r (some p.run_id) (n + 1) ps s' run' n'
      → Leads item s run n (p ∷ ps) s' run' n'

next_by_event-transitions :
    (s r : RunState) (e : RunEvent)
    → run_transitions s e ≡ some r
    → e ≢ cancel
    → next_by_event (some (known s)) (known e) ≡ some (some (known r))
unfolding next_by_event run_transitions
next_by_event-transitions s r e h k = ground arith

OfRun-misplaced :
    (item : String) (s : RunState) (run : Option String) (n : ℕ) (p : PendingItem) (e : RunEvent)
    → p.schedule_item_id ≡ item
    → p.event_type ≡ known e
    → p.expected_run_revision ≡ n
    → OfRun run e p.run_id
    → misplaced item (at_state s run n) p ≡ false
OfRun-misplaced item s none n p e h k m o = ground (arith, eq_iff p.schedule_item_id item)
OfRun-misplaced item s (some id) n p e h k m o =
    ground (arith, eq_iff p.schedule_item_id item, eq_iff p.run_id id)

walk-Leads :
    {item : String} {s s' : RunState} {run run' : Option String} {n n' : ℕ} {ps : List PendingItem}
    → Leads item s run n ps s' run' n'
    → walk item (at_state s run n) ps ≡ (at_state s' run' n', false)
unfolding walk
walk-Leads confirmed = refl
walk-Leads {item} {s} {run = run} {n = n} (first p e r a b c d t k l) =
    rw (OfRun-misplaced item s run n p e a b c d)
      (rw b (rw (next_by_event-transitions s r e t k) (walk-Leads l)))

abbrev pub Offered : RunEvent → List RunEvent → Type 0
Offered e [] = ⊥
Offered e (a ∷ rest) = (e ≡ a) ⊎ Offered e rest

-- The actions for a state are the events that the service accepts in it, other than a cancellation.
pub actions_by_state-transitions :
    (s : RunState) (e : RunEvent)
    → Offered e (actions_by_state (some (known s))) ↔ ((e ≢ cancel) × (run_transitions s e ≢ none))
unfolding run_transitions
actions_by_state-transitions s e = ground arith

-- If the events that wait lead by transitions of the service, with its revisions, from the state of the
-- item to another, then the kiosk derives that state, run and revision, and offers the actions of the
-- state, unless the kiosk is busy or not in control.
pub derive-Leads :
    (item : ServerItem) (s s' : RunState) (run' : Option String) (n' : ℕ)
    (pending : List PendingItem) (controlling busy : Bool)
    → item.run_state ≡ known s
    → Leads item.schedule_item_id s item.run_id item.run_revision pending s' run' n'
    → derive_kiosk_action_state (some item) pending controlling busy
      ≡ some (record {
        cursor = record { state = some (known s'); run_id = run'; revision = n' };
        unconfirmed = has_items pending;
        invalid_pending_context = false;
        actions = if controlling && not busy then actions_by_state (some (known s')) else [];
      })
unfolding derive_kiosk_action_state
derive-Leads item s s' run' n' pending controlling busy h l = rw h (rw (walk-Leads l) refl)
