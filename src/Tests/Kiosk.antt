-- ===== src/Tests/Kiosk.antt =====
-- The page of a kiosk at concrete inputs.
use jenn_shooting_operations.Prelude.{
  ℕ, ◌≤◌, ◌≡◌, ◌≢◌, refl, inl, true, false, Option, none, some, List, [], ◌∷◌, arith,
}
use jenn_shooting_operations.Run.{
  known, RunState, shooting, blocked, start, block, resume, cancel, run_transitions, scheduled,
}
use jenn_shooting_operations.Run.Fold.{nat}
use jenn_shooting_operations.Kiosk.Actions.{
  ServerItem, PendingItem, ActionState, derive_kiosk_action_state,
}
use jenn_shooting_operations.Kiosk.Offers.{Leads, confirmed, first, derive-Leads}
use jenn_shooting_operations.Kiosk.Offered.{derive-Offered}
use jenn_shooting_operations.Kiosk.Poller.{
  next_kiosk_poll_delay, next_kiosk_poll_delay_bounds, started, task_done, timer_fired,
  visibility_set, steps, new_poller,
}
use jenn_shooting_operations.Kiosk.Polling.{IsPolling, steps-IsPolling}

abbrev planned : ServerItem
planned = record {
  schedule_item_id = "item-1";
  run_id = none;
  run_state = known scheduled;
  run_revision = 0;
}

abbrev waiting : List PendingItem
waiting =
    record {
      schedule_item_id = "item-1";
      run_id = "run-1";
      event_type = known start;
      expected_run_revision = 0;
    }
    ∷ record {
      schedule_item_id = "item-1";
      run_id = "run-1";
      event_type = known block;
      expected_run_revision = 1;
    }
    ∷ []

abbrev shown : ActionState
shown = record {
  cursor = record { state = some (known blocked); run_id = some "run-1"; revision = 2 };
  unconfirmed = true;
  invalid_pending_context = false;
  actions = resume ∷ [];
}

waiting-Leads : Leads "item-1" scheduled none 0 waiting blocked (some "run-1") 2
unfolding run_transitions
waiting-Leads =
    first _ start shooting refl refl refl refl refl (λ e. ground arith)
      (first _ block blocked refl refl refl refl refl (λ e. ground arith) confirmed)

derive-Leads_example : derive_kiosk_action_state (some planned) waiting true false ≡ some shown
derive-Leads_example =
    derive-Leads planned scheduled blocked (some "run-1") 2 waiting true false refl waiting-Leads

shown_lem : derive_kiosk_action_state (some planned) waiting true false ≡ some shown
unfolding derive_kiosk_action_state
shown_lem = refl

derive-Offered_example :
    (s' : RunState) × (run' : Option _) × (n' : ℕ) × (shown.cursor
      ≡ record { state = some (known s'); run_id = run'; revision = n' })
    × Leads "item-1" scheduled none 0 waiting s' run' n'
    × (resume ≢ cancel)
    × (run_transitions s' resume ≢ none)
    × (true ≡ true)
    × (false ≡ false)
derive-Offered_example =
    derive-Offered planned scheduled waiting true false shown resume refl
      ((start, refl, λ e. ground arith), ((block, refl, λ e. ground arith), tt)) shown_lem
      (inl refl)

next_kiosk_poll_delay_bounds_example :
    (3000 ≤ next_kiosk_poll_delay (nat 4)) × (next_kiosk_poll_delay (nat 4) ≤ 30000)
next_kiosk_poll_delay_bounds_example = next_kiosk_poll_delay_bounds (nat 4)

steps-IsPolling_example : IsPolling (
    steps (new_poller true) (started ∷ task_done false ∷ timer_fired 0 ∷ visibility_set false ∷ []))
steps-IsPolling_example =
    steps-IsPolling (started ∷ task_done false ∷ timer_fired 0 ∷ visibility_set false ∷ []) true
