-- ===== src/Tests/Dispatcher.antt =====
-- The dispatcher at concrete inputs.
use jenn_shooting_operations.Prelude.{
  ◌⊎◌, ℕ, zero, suc, ◌+◌, ◌^◌, ◌≤◌, ◌≡◌, refl, false, true, none, some, List, [], ◌∷◌, Option,
}
use jenn_shooting_operations.Outbox.{timeout}
use jenn_shooting_operations.Outbox.Policy.{Delivery, delivered, failed}
use jenn_shooting_operations.Outbox.Repository.{busy}
use jenn_shooting_operations.Outbox.Settlement.{
  SettleResult, settled_sent, retry_scheduled, store_busy,
}
use jenn_shooting_operations.Outbox.Worker.{
  WorkerInput, WorkerPolicy, start_called, timer_fired, wake_called, stop_called, dispatch_done,
  dispatch_busy, steps, new_worker, busy_delay, idle_delay,
}
use jenn_shooting_operations.Outbox.Timing.{HasOnlyTimer, all_clear}
use jenn_shooting_operations.Outbox.Working.{IsWorking, steps-IsWorking}
use jenn_shooting_operations.Outbox.Dispatcher.{
  Attempt, returned, threw, is_busy, settle_with_busy_retry, AnsweredAfter,
  settle_with_busy_retry-AnsweredAfter, summarise, outcome_of, outcomes_of, summarise-count, count,
}

-- The store is busy twice.
abbrev answers : ℕ → Attempt
answers zero = threw busy
answers (suc zero) = returned store_busy
answers (suc (suc _)) = returned (settled_sent "ref" "digest")

answered :
    settle_with_busy_retry answers (λ _. true) 0 (100 ∷ 400 ∷ [])
    ≡ some (settled_sent "ref" "digest")
unfolding settle_with_busy_retry
answered = refl

settle_with_busy_retry-AnsweredAfter_example :
    (k : ℕ) × (k ≤ 2)
    × AnsweredAfter answers 0 k (settled_sent "ref" "digest")
    × (is_busy (returned (settled_sent "ref" "digest")) ≡ false)
settle_with_busy_retry-AnsweredAfter_example =
    settle_with_busy_retry-AnsweredAfter answers (λ _. true) 0 (100 ∷ 400 ∷ [])
      (settled_sent "ref" "digest") answered

abbrev dispatched : List (Delivery × Option SettleResult)
dispatched =
    (delivered "ref", some (settled_sent "ref" "digest"))
    ∷ (failed timeout none, some (retry_scheduled timeout 9000))
    ∷ []

summarise-count_example :
    (summarise (outcomes_of dispatched)).claimed_count
    ≡ (summarise (outcomes_of dispatched)).sent_count
      + (summarise (outcomes_of dispatched)).retryable_failure_count
      + (summarise (outcomes_of dispatched)).non_retryable_failure_count
unfolding summarise count outcome_of
summarise-count_example = summarise-count dispatched (refl, (refl, tt)) refl

-- A worker that is started, dispatches, and is stopped while the dispatch is in flight.
abbrev worker_inputs : List WorkerInput
worker_inputs =
    start_called true
    ∷ timer_fired 0
    ∷ wake_called true true
    ∷ stop_called true
    ∷ dispatch_done dispatch_busy none true
    ∷ []

abbrev policy : WorkerPolicy
policy = record {
  idle_poll_ms = 2000;
  jitter_parts = 2 ^ 51;
  busy_base_delay_ms = 250;
  busy_max_delay_ms = 2000;
}

steps-IsWorking_example :
    IsWorking (steps policy new_worker worker_inputs)
    × ((all_clear worker_inputs ≡ false) ⊎ HasOnlyTimer (steps policy new_worker worker_inputs))
steps-IsWorking_example = steps-IsWorking policy worker_inputs

busy_delay_runs : (busy_delay policy 2 ≡ 1000) × (busy_delay policy 9 ≡ 2000)
unfolding busy_delay
busy_delay_runs = (refl, refl)

idle_delay_runs :
    (idle_delay policy none ≡ 2000)
    × (idle_delay policy (some 0) ≡ 1500)
    × (idle_delay policy (some (2 ^ 53)) ≡ 2500)
unfolding idle_delay
idle_delay_runs = (refl, refl, refl)
