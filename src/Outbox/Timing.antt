-- ===== src/Outbox/Timing.antt =====
-- The timers of the runtime that a worker of the outbox has set and not cleared.
use jenn_shooting_operations.Prelude.{
  ℕ, ◌≡◌, both_true, refl, Bool, true, false, ◌&&◌, not, ◌||◌, Option, none, some, List, [], ◌∷◌,
  arith, if_elim,
}
use jenn_shooting_operations.Timers.{Timer, clear_timer, has_timer}
use jenn_shooting_operations.Outbox.Worker.{
  WorkerPolicy, WorkerResult, Dispatched, Worker, WorkerInput, start_called, wake_called,
  stop_called, timer_fired, dispatch_done, clear_scheduled_timer, schedule, run_cycle, cycle_done,
  start, wake, stop, step, steps, next_delay, next_streak,
}

-- The runtime has the timer of the variable and no other.
abbrev OnlyTimer : Option ℕ → List Timer → Type 0
OnlyTimer none [] = Unit
OnlyTimer none (_ ∷ _) = ⊥
OnlyTimer (some token) [] = ⊥
OnlyTimer (some token) (t ∷ []) = t.token ≡ token
OnlyTimer (some token) (_ ∷ _ ∷ _) = ⊥

abbrev pub HasOnlyTimer : Worker → Type 0
HasOnlyTimer w = OnlyTimer w.timer_token w.timers

-- No call of `clearTimer` throws.
abbrev clears : WorkerInput → Bool
clears (wake_called c sets) = c
clears (stop_called c) = c
clears _ = true

abbrev pub all_clear : List WorkerInput → Bool
all_clear [] = true
all_clear (i ∷ rest) = clears i && all_clear rest

clear_timer-OnlyTimer :
    (timer : Option ℕ) (ts : List Timer)
    → OnlyTimer timer ts
    → (elim timer [ none ↦ ts | some token ↦ clear_timer token ts ]) ≡ []
unfolding clear_timer
clear_timer-OnlyTimer none [] h = refl
clear_timer-OnlyTimer none (t ∷ ts) h = absurd h
clear_timer-OnlyTimer (some token) [] h = absurd h
clear_timer-OnlyTimer (some token) (t ∷ []) h = ground arith
clear_timer-OnlyTimer (some token) (t ∷ u ∷ ts) h = absurd h

cleared-HasOnlyTimer :
    (w : Worker)
    → HasOnlyTimer w
    → clear_scheduled_timer true w ≡ record w { timer_token = none; timers = [] }
unfolding clear_scheduled_timer
cleared-HasOnlyTimer w h = ground (arith, clear_timer-OnlyTimer w.timer_token w.timers h)

fired-OnlyTimer :
    (token : ℕ) (timer : Option ℕ) (ts : List Timer)
    → OnlyTimer timer ts
    → has_timer token ts ≡ true
    → clear_timer token ts ≡ []
unfolding clear_timer
fired-OnlyTimer token none [] h k = cc
fired-OnlyTimer token none (t ∷ ts) h k = absurd h
fired-OnlyTimer token (some n) [] h k = absurd h
fired-OnlyTimer token (some n) (t ∷ []) h k = ground arith
fired-OnlyTimer token (some n) (t ∷ u ∷ ts) h k = absurd h

schedule-HasOnlyTimer :
    (sets : Bool) (delay : ℕ) (w : Worker) → HasOnlyTimer w → HasOnlyTimer (schedule sets delay w).0
unfolding schedule
schedule-HasOnlyTimer sets delay w h = ground arith

start-HasOnlyTimer : (sets : Bool) (w : Worker) → HasOnlyTimer w → HasOnlyTimer (start sets w).0
unfolding start
start-HasOnlyTimer sets w h =
    if_elim (λ (t : Worker × WorkerResult). HasOnlyTimer t.0) w.running _ _ (λ _. h)
      (λ r.
        if_elim (λ (t : Worker × WorkerResult). HasOnlyTimer t.0) (w.in_flight || w.stop_pending) _
          _ (λ _. h)
          (λ f.
            schedule-HasOnlyTimer sets 0
              (record w { running = true; wake_pending = false; busy_streak = 0 }) h))

wake-HasOnlyTimer : (sets : Bool) (w : Worker) → HasOnlyTimer w → HasOnlyTimer (wake true sets w).0
unfolding wake
wake-HasOnlyTimer sets w h =
    if_elim (λ (t : Worker × WorkerResult). HasOnlyTimer t.0) (not w.running) _ _ (λ _. h)
      (λ r.
        if_elim (λ (t : Worker × WorkerResult). HasOnlyTimer t.0) w.in_flight _ _ (λ _. h)
          (λ f.
            rw (cleared-HasOnlyTimer w h)
              (schedule-HasOnlyTimer sets 0 (record w { timer_token = none; timers = [] }) tt)))

stop-HasOnlyTimer : (w : Worker) → HasOnlyTimer w → HasOnlyTimer (stop true w).0
unfolding stop
stop-HasOnlyTimer w h =
    if_elim (λ (t : Worker × WorkerResult). HasOnlyTimer t.0) (not w.running) _ _ (λ _. h)
      (λ r. rw (cleared-HasOnlyTimer (record w { running = false; wake_pending = false }) h) (
        if_elim (λ (t : Worker × WorkerResult). HasOnlyTimer t.0) w.in_flight _ _ (λ _. tt)
          (λ _. tt)))

fired-HasOnlyTimer :
    (token : ℕ) (w : Worker)
    → HasOnlyTimer w
    → has_timer token w.timers ≡ true
    → HasOnlyTimer (run_cycle (record w { timers = clear_timer token w.timers }))
unfolding run_cycle
fired-HasOnlyTimer token w h e =
    rw (fired-OnlyTimer token w.timer_token w.timers h e)
      (if_elim HasOnlyTimer (not w.running || w.in_flight) _ _ (λ _. tt) (λ _. tt))

cycle_done-HasOnlyTimer :
    (policy : WorkerPolicy) (result : Dispatched) (random : Option ℕ) (sets : Bool) (w : Worker)
    → HasOnlyTimer w
    → HasOnlyTimer (cycle_done policy result random sets w)
unfolding cycle_done
cycle_done-HasOnlyTimer policy result random sets w h =
    if_elim HasOnlyTimer w.running _ _
      (λ _.
        schedule-HasOnlyTimer sets (next_delay policy result random w)
          (record w {
            in_flight = false;
            busy_streak = next_streak result w.busy_streak;
            wake_pending = false;
          })
          h)
      (λ _. h)

step-HasOnlyTimer :
    (policy : WorkerPolicy) (w : Worker) (i : WorkerInput)
    → clears i ≡ true
    → HasOnlyTimer w
    → HasOnlyTimer (step policy w i)
unfolding step
step-HasOnlyTimer policy w (start_called sets) c h = start-HasOnlyTimer sets w h
step-HasOnlyTimer policy w (wake_called true sets) c h = wake-HasOnlyTimer sets w h
step-HasOnlyTimer policy w (wake_called false sets) c h = cc
step-HasOnlyTimer policy w (stop_called true) c h = stop-HasOnlyTimer w h
step-HasOnlyTimer policy w (stop_called false) c h = cc
step-HasOnlyTimer policy w (timer_fired token) c h =
    if_elim HasOnlyTimer (has_timer token w.timers) _ _ (λ e. fired-HasOnlyTimer token w h e)
      (λ _. h)
step-HasOnlyTimer policy w (dispatch_done result random sets) c h =
    if_elim HasOnlyTimer w.in_flight _ _
      (λ e. cycle_done-HasOnlyTimer policy result random sets w h) (λ _. h)

pub steps_from-HasOnlyTimer :
    (policy : WorkerPolicy) (w : Worker) (inputs : List WorkerInput)
    → all_clear inputs ≡ true
    → HasOnlyTimer w
    → HasOnlyTimer (steps policy w inputs)
unfolding steps
steps_from-HasOnlyTimer policy w [] c h = h
steps_from-HasOnlyTimer policy w (i ∷ rest) c h =
    let (a, b) = both_true (clears i) (all_clear rest) c in
    steps_from-HasOnlyTimer policy (step policy w i) rest b (step-HasOnlyTimer policy w i a h)
