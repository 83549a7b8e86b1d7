-- ===== src/Kiosk/Polling.antt =====
-- That the poller of a kiosk keeps polling, one task and one timer at a time.
use jenn_shooting_operations.Prelude.{
  ℕ, ◌+◌, min, ◌≤◌, ◌≡◌, ◌⊎◌, ◌≢◌, inl, inr, refl, ap, Bool, true, false, Option, none, some, List,
  [], ◌∷◌, arith, if◌then◌else◌, if_elim,
}
use jenn_shooting_operations.Run.Fold.{nat}
use jenn_shooting_operations.Timers.{Timer, clear_timer, has_timer}
use jenn_shooting_operations.Kiosk.Poller.{
  Poller, clear_scheduled, schedule, run, run_done, visibility_changed, start, stop, refresh, Input,
  started, stop_requested, refresh_requested, timer_fired, task_done, visibility_set, step, steps,
  new_poller, next_kiosk_poll_delay_bounds,
}

-- At most one timer is to come: the one of the variable, after 3 to 30 seconds.
abbrev pub OneTimer : Option ℕ → List Timer → Type 0
OneTimer timer [] = Unit
OneTimer none (_ ∷ _) = ⊥
OneTimer (some token) (t ∷ []) = (t.token ≡ token) × (3000 ≤ t.delay) × (t.delay ≤ 30000)
OneTimer (some token) (_ ∷ _ ∷ _) = ⊥

-- While it is started and the page is visible, a task runs or a timer will start one. Else there is no
-- timer.
abbrev pub Polls : Poller → Type 0
Polls p =
    ((p.stopped ≡ false) × (p.visible ≡ true) × ((p.running ≡ true) ⊎ (p.timers ≢ [])))
    ⊎ (((p.stopped ≡ true) ⊎ (p.visible ≡ false)) × (p.timers ≡ []))

pub record IsPolling (p : Poller) : Type 0 where
  pub failures_bounded : p.failures ≤ 10
  pub one_timer : OneTimer p.timer p.timers
  pub polls : Polls p

clear_timer-OneTimer :
    (timer : Option ℕ) (ts : List Timer)
    → OneTimer timer ts
    → (elim timer [ none ↦ ts | some token ↦ clear_timer token ts ]) ≡ []
unfolding clear_timer
clear_timer-OneTimer none [] h = refl
clear_timer-OneTimer none (t ∷ ts) h = absurd h
clear_timer-OneTimer (some token) [] h = refl
clear_timer-OneTimer (some token) (t ∷ []) h = ground arith
clear_timer-OneTimer (some token) (t ∷ u ∷ ts) h = absurd h

abbrev unscheduled : Poller → Poller
unscheduled p = record p { timer = none; timers = [] }

clear_scheduled-OneTimer :
    (p : Poller) → OneTimer p.timer p.timers → clear_scheduled p ≡ unscheduled p
unfolding clear_scheduled
clear_scheduled-OneTimer p h =
    ap (λ (ts : List Timer). record p { timer = none; timers = ts })
      (clear_timer-OneTimer p.timer p.timers h)

start-IsPolling : (p : Poller) → IsPolling p → IsPolling (start p)
unfolding start run
start-IsPolling p h = ground (arith, h.one_timer, h.polls, h.failures_bounded)

stop-IsPolling : (p : Poller) → IsPolling p → IsPolling (stop p)
unfolding stop
stop-IsPolling p h =
    rw (clear_scheduled-OneTimer (record p { stopped = true }) h.one_timer)
      (ground (arith, h.one_timer, h.polls, h.failures_bounded))

refresh-IsPolling : (p : Poller) → IsPolling p → IsPolling (refresh p)
unfolding refresh run
refresh-IsPolling p h =
    rw (clear_scheduled-OneTimer p h.one_timer) (ground (arith, h.polls, h.failures_bounded))

schedule-IsPolling :
    (p : Poller) → p.failures ≤ 10 → OneTimer p.timer p.timers → IsPolling (schedule p)
unfolding schedule
schedule-IsPolling p h k =
    rw (clear_scheduled-OneTimer p k)
      (ground (arith, next_kiosk_poll_delay_bounds (nat p.failures)))

run_done-IsPolling :
    (succeeded : Bool) (p : Poller) → IsPolling p → IsPolling (run_done succeeded p)
unfolding run_done
run_done-IsPolling succeeded p h =
    schedule-IsPolling
      (record p { failures = if succeeded then 0 else min (p.failures + 1) 10; running = false })
      (ground (arith, h.failures_bounded)) h.one_timer

visibility-IsPolling :
    (visible : Bool) (p : Poller)
    → p.stopped ≡ false
    → IsPolling p
    → IsPolling (visibility_changed (record p { visible = visible }))
unfolding visibility_changed run
visibility-IsPolling visible p e h =
    rw (clear_scheduled-OneTimer (record p { visible = visible }) h.one_timer)
      (ground (arith, e, h.failures_bounded))

clear_timer-has_timer :
    (token : ℕ) (timer : Option ℕ) (ts : List Timer)
    → OneTimer timer ts
    → has_timer token ts ≡ true
    → (clear_timer token ts ≡ []) × (ts ≢ [])
unfolding clear_timer
clear_timer-has_timer token timer [] h k = cc
clear_timer-has_timer token none (t ∷ ts) h k = absurd h
clear_timer-has_timer token (some n) (t ∷ []) h k = ground arith
clear_timer-has_timer token (some n) (t ∷ u ∷ ts) h k = absurd h

fire-IsPolling :
    (token : ℕ) (p : Poller)
    → IsPolling p
    → has_timer token p.timers ≡ true
    → IsPolling (run (record p { timers = clear_timer token p.timers }))
unfolding run clear_timer
fire-IsPolling token p h k =
    let (cleared, some_timer) = clear_timer-has_timer token p.timer p.timers h.one_timer k in
    rw cleared (ground (arith, some_timer, h.polls, h.failures_bounded))

step-IsPolling : (p : Poller) (i : Input) → IsPolling p → IsPolling (step p i)
unfolding step
step-IsPolling p started h = start-IsPolling p h
step-IsPolling p stop_requested h = stop-IsPolling p h
step-IsPolling p refresh_requested h = refresh-IsPolling p h
step-IsPolling p (timer_fired token) h = if_elim IsPolling _ _ _ (fire-IsPolling token p h) (λ _. h)
step-IsPolling p (task_done succeeded) h =
    if_elim IsPolling _ _ _ (λ _. run_done-IsPolling succeeded p h) (λ _. h)
step-IsPolling p (visibility_set visible) h =
    if_elim IsPolling _ _ _
      (λ e. record {
        failures_bounded = h.failures_bounded;
        one_timer = h.one_timer;
        polls = ground (arith, e, h.polls);
      })
      (λ e. visibility-IsPolling visible p e h)

steps_from-IsPolling : (is : List Input) (p : Poller) → IsPolling p → IsPolling (steps p is)
unfolding steps
steps_from-IsPolling [] p h = h
steps_from-IsPolling (i ∷ is) p h = steps_from-IsPolling is (step p i) (step-IsPolling p i h)

-- Whatever the browser and the tasks do, in whatever order, a new poller counts at most 10 failures and
-- has at most one timer, of 3 to 30 seconds. While it is started and the page is visible, a task runs
-- or a timer is set, and at any other time there is no timer.
pub steps-IsPolling :
    (inputs : List Input) (visible : Bool) → IsPolling (steps (new_poller visible) inputs)
unfolding new_poller
steps-IsPolling inputs visible =
    steps_from-IsPolling inputs (new_poller visible)
      (record { failures_bounded = omega arith; one_timer = tt; polls = inr (inl refl, refl) })
