-- ===== src/Kiosk/Offered.antt =====
-- That a kiosk offers only what the service accepts.
use jenn_shooting_operations.Prelude.{
  ℕ, ◌+◌, ◌≡◌, ◌≢◌, ◌⊎◌, refl, Bool, true, false, ◌&&◌, not, String, Option, none, some, List, [],
  ◌∷◌, if◌then◌else◌, arith, eq_iff, Bool-cases, inl, inr, All, ap, ◌∙◌,
}
use jenn_shooting_operations.Run.{Tag, known, RunState, RunEvent, cancel, run_transitions}
use jenn_shooting_operations.Kiosk.Actions.{
  ServerItem, PendingItem, Cursor, ActionState, next_by_event, walk, actions_by_state,
  derive_kiosk_action_state, misplaced,
}
use jenn_shooting_operations.Kiosk.Offers.{
  OfRun, at_state, Leads, confirmed, first, Offered, actions_by_state-transitions,
}

-- A kiosk reports known events, and no cancellation.
abbrev pub Reported : PendingItem → Type 0
Reported p = (e : RunEvent) × (p.event_type ≡ known e) × (e ≢ cancel)

misplaced-OfRun :
    (item : String) (s : RunState) (run : Option String) (n : ℕ) (p : PendingItem) (e : RunEvent)
    → p.event_type ≡ known e
    → misplaced item (at_state s run n) p ≡ false
    → (p.schedule_item_id ≡ item) × (p.expected_run_revision ≡ n) × OfRun run e p.run_id
misplaced-OfRun item s none n p e h k = ground (arith, eq_iff p.schedule_item_id item)
misplaced-OfRun item s (some id) n p e h k =
    ground (arith, eq_iff p.schedule_item_id item, eq_iff p.run_id id)

next_by_event-cases :
    (s : RunState) (e : RunEvent)
    → e ≢ cancel
    → (next_by_event (some (known s)) (known e) ≡ none)
      ⊎ ((r : RunState) × (run_transitions s e ≡ some r)
          × (next_by_event (some (known s)) (known e) ≡ some (some (known r))))
unfolding next_by_event run_transitions
next_by_event-cases s e k = ground arith

-- Where a loop that found every event in its place has ended.
abbrev pub Reaches :
    String → RunState → Option String → ℕ → List PendingItem → Cursor × Bool → Type 0
Reaches item s run n ps (c, true) = Unit
Reaches item s run n ps (c, false) =
    (s' : RunState) × (run' : Option String) × (n' : ℕ) × (c
      ≡ record { state = some (known s'); run_id = run'; revision = n' })
    × Leads item s run n ps s' run' n'

Reaches-first :
    (item : String) (s r : RunState) (run : Option String) (n : ℕ) (ps : List PendingItem)
    (p : PendingItem) (e : RunEvent) (w : Cursor × Bool)
    → (p.schedule_item_id ≡ item) × (p.expected_run_revision ≡ n) × OfRun run e p.run_id
    → p.event_type ≡ known e
    → run_transitions s e ≡ some r
    → e ≢ cancel
    → Reaches item r (some p.run_id) (n + 1) ps w
    → Reaches item s run n (p ∷ ps) w
Reaches-first item s r run n ps p e (c, true) h k t d w = tt
Reaches-first item s r run n ps p e (c, false) (a, b, o) k t d (s', run', n', q, l) =
    (s', run', n', q, first p e _ a k b o t d l)

walk_on :
    (item : String) (c : Cursor) (p : PendingItem) (ps : List PendingItem)
    (s : Option (Tag RunState))
    → misplaced item c p ≡ false
    → next_by_event c.state p.event_type ≡ some s
    → walk item c (p ∷ ps)
      ≡ walk item (record { state = s; run_id = some p.run_id; revision = c.revision + 1 }) ps
unfolding walk
walk_on item c p ps s m x = rw m (rw x refl)

walk_back :
    (item : String) (c : Cursor) (p : PendingItem) (ps : List PendingItem)
    → (misplaced item c p ≡ true)
      ⊎ (misplaced item c p ≡ false) × (next_by_event c.state p.event_type ≡ none)
    → (walk item c (p ∷ ps)).1 ≡ true
unfolding walk
walk_back item c p ps (inl m) = rw m refl
walk_back item c p ps (inr (m, x)) = rw m (rw x refl)

Reaches-invalid :
    (item : String) (s : RunState) (run : Option String) (n : ℕ) (ps : List PendingItem)
    (w : Cursor × Bool)
    → w.1 ≡ true
    → Reaches item s run n ps w
Reaches-invalid item s run n ps (c, true) h = tt
Reaches-invalid item s run n ps (c, false) h = cc

event_type_next :
    (s : RunState) (p : PendingItem) (e : RunEvent)
    → p.event_type ≡ known e
    → next_by_event (some (known s)) p.event_type ≡ next_by_event (some (known s)) (known e)
event_type_next s p e k = ap (λ x. next_by_event (some (known s)) x) k

walk-Reaches :
    (item : String) (s : RunState) (run : Option String) (n : ℕ) (ps : List PendingItem)
    → All Reported ps
    → Reaches item s run n ps (walk item (at_state s run n) ps)
unfolding walk
walk-Reaches item s run n [] h = (s, run, n, refl, confirmed)
walk-Reaches item s run n (p ∷ ps) ((e, k, d), h) =
    elim (Bool-cases (misplaced item (at_state s run n) p)) [
      | inl m ↦ Reaches-invalid item s run n (p ∷ ps) _ (walk_back item _ p ps (inl m))
      | inr m ↦ elim (next_by_event-cases s e d) [
        | inl x ↦
            Reaches-invalid item s run n (p ∷ ps) _
              (walk_back item _ p ps (inr (m, event_type_next s p e k ∙ x)))
        | inr (r, t, x) ↦
            rw
              (walk_on item (at_state s run n) p ps (some (known r)) m
                (event_type_next s p e k ∙ x))
              (Reaches-first item s r run n ps p e _ (misplaced-OfRun item s run n p e k m) k t d
                (walk-Reaches item r (some p.run_id) (n + 1) ps h))
      ]
    ]

Offers-Reaches :
    (item : String) (s : RunState) (run : Option String) (n : ℕ) (ps : List PendingItem)
    (controlling busy : Bool) (e : RunEvent) (w : Cursor × Bool)
    → Reaches item s run n ps w
    → Offered e (if not w.1 && controlling && not busy then actions_by_state w.0.state else [])
    → (s' : RunState) × (run' : Option String) × (n' : ℕ) × (w.0
        ≡ record { state = some (known s'); run_id = run'; revision = n' })
      × Leads item s run n ps s' run' n'
      × (e ≢ cancel)
      × (run_transitions s' e ≢ none)
      × (controlling ≡ true)
      × (busy ≡ false)
Offers-Reaches item s run n ps controlling busy e (c, true) h o = absurd o
Offers-Reaches item s run n ps true false e (c, false) (s', run', n', q, l) o =
    let (d, t) = (actions_by_state-transitions s' e).0 (rw (ap (λ c. c.state) q) at o) in
    (s', run', n', q, l, d, t, refl, refl)
Offers-Reaches item s run n ps false busy e (c, false) h o = absurd o
Offers-Reaches item s run n ps true true e (c, false) h o = absurd o

-- An action is offered only if the events that wait, each of which a kiosk may report, lead by
-- transitions of the service from the state of the item to the state that is derived, the service
-- accepts the action in that state, the action is no cancellation, and the kiosk is in control and not
-- busy.
pub derive-Offered :
    (item : ServerItem) (s : RunState) (pending : List PendingItem) (controlling busy : Bool)
    (v : ActionState) (e : RunEvent)
    → item.run_state ≡ known s
    → All Reported pending
    → derive_kiosk_action_state (some item) pending controlling busy ≡ some v
    → Offered e v.actions
    → (s' : RunState) × (run' : Option String) × (n' : ℕ) × (v.cursor
        ≡ record { state = some (known s'); run_id = run'; revision = n' })
      × Leads item.schedule_item_id s item.run_id item.run_revision pending s' run' n'
      × (e ≢ cancel)
      × (run_transitions s' e ≢ none)
      × (controlling ≡ true)
      × (busy ≡ false)
unfolding derive_kiosk_action_state
derive-Offered item s pending controlling busy v e h r q o =
    let w : Cursor × Bool =
      walk item.schedule_item_id
        (record { state = some item.run_state; run_id = item.run_id; revision = item.run_revision })
        pending in
    let is_cursor : v.cursor ≡ w.0 = ground arith in
    let is_actions : v.actions
        ≡ (if not w.1 && controlling && not busy then actions_by_state w.0.state else []) =
      ground arith in
    rw is_cursor (
      Offers-Reaches item.schedule_item_id s item.run_id item.run_revision pending controlling busy
        e w (rw h (walk-Reaches item.schedule_item_id s item.run_id item.run_revision pending r))
        (rw is_actions at o))
