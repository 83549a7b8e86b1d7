-- ===== src/Kiosk/Actions.antt =====
-- `deriveKioskActionState` of public/kiosk-control-lock.js: the state that a run has once the events
-- that wait in the kiosk are confirmed, and the actions to offer.
use jenn_shooting_operations.Prelude.{
  ℕ, ◌+◌, Bool, true, false, ◌&&◌, ◌||◌, not, String, Option, none, some, List, [], ◌∷◌, ◌==◌,
  str_eq, if◌then◌else◌,
}
use jenn_shooting_operations.Run.{
  Tag, known, unknown, RunState, scheduled, shooting, blocked, completed, cancelled, RunEvent,
  start, block, resume, complete, cancel,
}

-- The item that the service reports. `run_id` is `null` before the run is started.
pub record ServerItem : Type 0 where
  pub schedule_item_id : String
  pub run_id : Option String
  pub run_state : Tag RunState
  pub run_revision : ℕ

-- An event that waits to be sent.
pub record PendingItem : Type 0 where
  pub schedule_item_id : String
  pub run_id : String
  pub event_type : Tag RunEvent
  pub expected_run_revision : ℕ

-- The variables `state`, `runId` and `revision`. The state `none` is `undefined`.
pub record Cursor : Type 0 where
  pub state : Option (Tag RunState)
  pub run_id : Option String
  pub revision : ℕ

pub record ActionState : Type 0 where
  pub cursor : Cursor
  pub unconfirmed : Bool
  pub invalid_pending_context : Bool
  pub actions : List RunEvent

abbrev in_state : RunState → Option (Tag RunState) → Bool
in_state scheduled (some (known scheduled)) = true
in_state shooting (some (known shooting)) = true
in_state blocked (some (known blocked)) = true
in_state completed (some (known completed)) = true
in_state cancelled (some (known cancelled)) = true
in_state _ _ = false

-- `nextByEvent[item.eventType]`: the result `none` is `null`, and for an event that has no entry the
-- next state is `undefined`.
unfoldable pub next_by_event : Option (Tag RunState) → Tag RunEvent → Option (Option (Tag RunState))
next_by_event state (known start) =
    if in_state scheduled state then some (some (known shooting)) else none
next_by_event state (known block) =
    if in_state shooting state then some (some (known blocked)) else none
next_by_event state (known resume) =
    if in_state blocked state then some (some (known shooting)) else none
next_by_event state (known complete) =
    if in_state shooting state then some (some (known completed)) else none
next_by_event state (known cancel) = some none
next_by_event state (unknown _) = some none

abbrev is_start : Tag RunEvent → Bool
is_start (known start) = true
is_start _ = false

-- `runId !== null && item.runId !== runId || runId === null && item.eventType !== 'start'`
abbrev pub other_run : Option String → PendingItem → Bool
other_run (some id) p = not (str_eq p.run_id id)
other_run none p = not (is_start p.event_type)

abbrev pub misplaced : String → Cursor → PendingItem → Bool
misplaced schedule_item_id c p =
    not (str_eq p.schedule_item_id schedule_item_id)
    || other_run c.run_id p
    || not (p.expected_run_revision == c.revision)

-- Where the loop ends, or returns: the flag is `invalidPendingContext`.
unfoldable pub walk : String → Cursor → List PendingItem → Cursor × Bool
unfolding next_by_event
walk id c [] = (c, false)
walk id c (p ∷ ps) =
    if misplaced id c p then (c, true) else elim (next_by_event c.state p.event_type) [
      | none ↦ (record c { run_id = some p.run_id }, true)
      | some state ↦
          walk id (record { state = state; run_id = some p.run_id; revision = c.revision + 1 }) ps
    ]

-- `actionsByState[state] ?? []`
abbrev pub actions_by_state : Option (Tag RunState) → List RunEvent
actions_by_state (some (known scheduled)) = start ∷ []
actions_by_state (some (known shooting)) = block ∷ complete ∷ []
actions_by_state (some (known blocked)) = resume ∷ []
actions_by_state _ = []

abbrev pub has_items : List PendingItem → Bool
has_items [] = false
has_items (_ ∷ _) = true

-- `none` is a missing item, for which the state is 'none' and nothing is offered.
unfoldable pub derive_kiosk_action_state :
    Option ServerItem → List PendingItem → Bool → Bool → Option ActionState
unfolding walk
derive_kiosk_action_state none pending controlling busy = none
derive_kiosk_action_state (some item) pending controlling busy =
    let (c, invalid) =
      walk item.schedule_item_id
        (record { state = some item.run_state; run_id = item.run_id; revision = item.run_revision })
        pending in
    some (record {
      cursor = c;
      unconfirmed = has_items pending;
      invalid_pending_context = invalid;
      actions = if not invalid && controlling && not busy then actions_by_state c.state else [];
    })
