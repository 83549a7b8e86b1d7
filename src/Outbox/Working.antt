-- ===== src/Outbox/Working.antt =====
-- That the worker of the outbox goes on, one dispatch at a time, until it is stopped.
use jenn_shooting_operations.Prelude.{
  ℕ, ◌≡◌, ◌⊎◌, inl, inr, Bool-cases, refl, Bool, true, false, ◌&&◌, not, ◌||◌, Option, none, some,
  List, [], ◌∷◌, arith, if_elim,
}
use jenn_shooting_operations.Timers.{Timer, clear_timer, has_timer}
use jenn_shooting_operations.Outbox.Worker.{
  WorkerPolicy, WorkerResult, Worker, Dispatched, WorkerInput, start_called, wake_called,
  stop_called, timer_fired, dispatch_done, clear_scheduled_timer, schedule, run_cycle, cycle_done,
  start, wake, stop, step, steps, new_worker,
}
use jenn_shooting_operations.Outbox.Timing.{HasOnlyTimer, all_clear, steps_from-HasOnlyTimer}

-- The timer of the variable is set.
abbrev pub armed : Option ℕ → List Timer → Bool
armed none ts = false
armed (some token) ts = has_timer token ts

-- While the worker runs, a dispatch is in flight or a timer will start one. The variable has a timer
-- only while it runs and nothing is in flight. A stop waits only for a dispatch in flight, and a wake
-- too, while the worker runs.
pub record IsWorking (w : Worker) : Type 0 where
  pub going : (w.running ≡ false) ⊎ (w.in_flight ≡ true) ⊎ (armed w.timer_token w.timers ≡ true)
  pub idle_timer : (w.timer_token ≡ none) ⊎ (w.running ≡ true) × (w.in_flight ≡ false)
  pub stop_waits : w.stop_pending ≡ (not w.running && w.in_flight)
  pub wake_waits : (w.wake_pending ≡ false) ⊎ (w.running ≡ true) × (w.in_flight ≡ true)

schedule-IsWorking :
    (sets : Bool) (delay : ℕ) (w : Worker)
    → w.running ≡ true
    → w.in_flight ≡ false
    → w.timer_token ≡ none
    → w.stop_pending ≡ false
    → w.wake_pending ≡ false
    → IsWorking (schedule sets delay w).0
unfolding schedule
schedule-IsWorking true delay w a b c d e = ground arith
schedule-IsWorking false delay w a b c d e = ground arith

clear_scheduled_timer-kept :
    (clears : Bool) (w : Worker)
    → ((clear_scheduled_timer clears w).running ≡ w.running)
      × ((clear_scheduled_timer clears w).in_flight ≡ w.in_flight)
      × ((clear_scheduled_timer clears w).timer_token ≡ none)
      × ((clear_scheduled_timer clears w).stop_pending ≡ w.stop_pending)
      × ((clear_scheduled_timer clears w).wake_pending ≡ w.wake_pending)
unfolding clear_scheduled_timer
clear_scheduled_timer-kept clears w = ground arith

start-IsWorking : (sets : Bool) (w : Worker) → IsWorking w → IsWorking (start sets w).0
unfolding start
start-IsWorking sets w h =
    if_elim (λ (t : Worker × WorkerResult). IsWorking t.0) w.running _ _ (λ _. h)
      (λ r.
        if_elim (λ (t : Worker × WorkerResult). IsWorking t.0) (w.in_flight || w.stop_pending) _ _
          (λ _. h)
          (λ f.
            schedule-IsWorking sets 0
              (record w { running = true; wake_pending = false; busy_streak = 0 }) refl
              (ground arith) (ground (arith, h.idle_timer)) (ground arith) refl))

wake-IsWorking : (clears sets : Bool) (w : Worker) → IsWorking w → IsWorking (wake clears sets w).0
unfolding wake
wake-IsWorking clears sets w h =
    if_elim (λ (t : Worker × WorkerResult). IsWorking t.0) (not w.running) _ _ (λ _. h)
      (λ r.
        if_elim (λ (t : Worker × WorkerResult). IsWorking t.0) w.in_flight _ _
          (λ f. ground (arith, h.going, h.idle_timer, h.stop_waits, h.wake_waits))
          (λ f.
            schedule-IsWorking sets 0 (clear_scheduled_timer clears w)
              (ground (arith, clear_scheduled_timer-kept clears w))
              (ground (arith, clear_scheduled_timer-kept clears w))
              (ground (arith, clear_scheduled_timer-kept clears w))
              (ground (arith, clear_scheduled_timer-kept clears w, h.stop_waits))
              (ground (arith, clear_scheduled_timer-kept clears w, h.wake_waits))))

stop-IsWorking : (clears : Bool) (w : Worker) → IsWorking w → IsWorking (stop clears w).0
unfolding stop
stop-IsWorking clears w h = ground (
  arith,
  clear_scheduled_timer-kept clears (record w { running = false; wake_pending = false }),
  h.going,
  h.idle_timer,
  h.stop_waits,
  h.wake_waits,
)

run_cycle-IsWorking :
    (token : ℕ) (w : Worker)
    → IsWorking w
    → IsWorking (run_cycle (record w { timers = clear_timer token w.timers }))
unfolding run_cycle
run_cycle-IsWorking token w h = ground (arith, h.going, h.idle_timer, h.stop_waits, h.wake_waits)

cycle_done-IsWorking :
    (policy : WorkerPolicy) (result : Dispatched) (random : Option ℕ) (sets : Bool) (w : Worker)
    → w.in_flight ≡ true
    → IsWorking w
    → IsWorking (cycle_done policy result random sets w)
unfolding cycle_done
cycle_done-IsWorking policy result random sets w e h =
    if_elim IsWorking w.running _ _
      (λ r.
        schedule-IsWorking sets _ _ r refl (ground (arith, h.idle_timer))
          (ground (arith, h.stop_waits)) refl)
      (λ r. ground (arith, r, h.going, h.idle_timer, h.stop_waits, h.wake_waits))

step-IsWorking :
    (policy : WorkerPolicy) (w : Worker) (i : WorkerInput)
    → IsWorking w
    → IsWorking (step policy w i)
unfolding step
step-IsWorking policy w (start_called sets) h = start-IsWorking sets w h
step-IsWorking policy w (wake_called clears sets) h = wake-IsWorking clears sets w h
step-IsWorking policy w (stop_called clears) h = stop-IsWorking clears w h
step-IsWorking policy w (timer_fired token) h =
    if_elim IsWorking _ _ _ (λ _. run_cycle-IsWorking token w h) (λ _. h)
step-IsWorking policy w (dispatch_done result random sets) h =
    if_elim IsWorking _ _ _ (λ e. cycle_done-IsWorking policy result random sets w e h) (λ _. h)

steps_from-IsWorking :
    (policy : WorkerPolicy) (w : Worker) (inputs : List WorkerInput)
    → IsWorking w
    → IsWorking (steps policy w inputs)
unfolding steps
steps_from-IsWorking policy w [] h = h
steps_from-IsWorking policy w (i ∷ rest) h =
    steps_from-IsWorking policy (step policy w i) rest (step-IsWorking policy w i h)

-- Whatever is called and whatever the runtime, the dispatcher and the timers do, in whatever order: while
-- a worker runs, a dispatch is in flight or a timer is set that will start one. Its variable holds no
-- timer while a dispatch is in flight or the worker is stopped, and a stop or a wake waits only for a
-- dispatch in flight. Unless a call of `clearTimer` threw, the timer of the variable is the only one that
-- the runtime has, so that it has none while a dispatch is in flight or the worker is stopped.
pub steps-IsWorking :
    (policy : WorkerPolicy) (inputs : List WorkerInput)
    → IsWorking (steps policy new_worker inputs)
      × ((all_clear inputs ≡ false) ⊎ HasOnlyTimer (steps policy new_worker inputs))
unfolding new_worker
steps-IsWorking policy inputs = (
  steps_from-IsWorking policy new_worker inputs (record {
    going = inl refl;
    idle_timer = inl refl;
    stop_waits = refl;
    wake_waits = inl refl;
  }),
  elim (Bool-cases (all_clear inputs)) [
    | inl c ↦ inr (steps_from-HasOnlyTimer policy new_worker inputs c tt)
    | inr c ↦ inl c
  ],
)
