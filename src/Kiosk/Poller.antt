-- ===== src/Kiosk/Poller.antt =====
-- `nextKioskPollDelay` and `createVisibilityPoller` of public/kiosk-control-lock.js. The timers of the
-- browser and the visibility of the page are part of the state, and what the browser and the task do
-- are inputs. The task returns, or throws, by `task_done`.
use jenn_shooting_operations.Prelude.{
  ℕ, zero, suc, ◌+◌, ◌*◌, ◌^◌, ◌≤◌, min, Bool, true, false, ◌&&◌, ◌||◌, not, Option, none, some,
  List, [], ◌∷◌, leb, ltb, if◌then◌else◌, arith,
}
use jenn_shooting_operations.Timers.{Timer, clear_timer, has_timer}
use jenn_shooting_operations.Run.Fold.{Number, nat, other, max_safe_integer}

abbrev pub kiosk_poll_interval_ms : ℕ
kiosk_poll_interval_ms = 3000

abbrev pub kiosk_max_backoff_ms : ℕ
kiosk_max_backoff_ms = 30000

unfoldable pub next_kiosk_poll_delay : Number → ℕ
next_kiosk_poll_delay (nat n) =
    let count = if leb n max_safe_integer && ltb 0 n then n else 0 in
    min (kiosk_poll_interval_ms * 2 ^ min count 10) kiosk_max_backoff_ms
next_kiosk_poll_delay other = min (kiosk_poll_interval_ms * 2 ^ min 0 10) kiosk_max_backoff_ms

pub record Poller : Type 0 where
  pub stopped : Bool
  pub running : Bool
  pub timer : Option ℕ
  pub failures : ℕ
  -- The browser: the timers to come, the next token, and `visibilityState === 'visible'`.
  pub timers : List Timer
  pub next_token : ℕ
  pub visible : Bool

unfoldable pub clear_scheduled : Poller → Poller
unfolding clear_timer
clear_scheduled p = record p {
  timer = none;
  timers = elim p.timer [ none ↦ p.timers | some token ↦ clear_timer token p.timers ];
}

abbrev set_timer : ℕ → Poller → Poller
set_timer delay p = record p {
  timer = some p.next_token;
  timers = record { token = p.next_token; delay = delay } ∷ p.timers;
  next_token = p.next_token + 1;
}

unfoldable pub schedule : Poller → Poller
unfolding clear_scheduled
schedule p =
    let q = clear_scheduled p in
    if q.stopped || not q.visible then q else set_timer (next_kiosk_poll_delay (nat q.failures)) q

-- `run` up to the call of the task.
unfoldable pub run : Poller → Poller
run p = if p.stopped || p.running || not p.visible then p else record p { running = true }

-- The rest of `run`, once the task has ended.
unfoldable pub run_done : Bool → Poller → Poller
unfolding schedule
run_done succeeded p =
    schedule
      (record p { failures = if succeeded then 0 else min (p.failures + 1) 10; running = false })

unfoldable pub visibility_changed : Poller → Poller
unfolding clear_scheduled run
visibility_changed p = let q = clear_scheduled p in if not q.stopped && q.visible then run q else q

unfoldable pub start : Poller → Poller
unfolding run
start p =
    if p.stopped
    then (if p.visible then run (record p { stopped = false }) else record p { stopped = false })
    else p

unfoldable pub stop : Poller → Poller
unfolding clear_scheduled
stop p = if p.stopped then p else clear_scheduled (record p { stopped = true })

unfoldable pub refresh : Poller → Poller
unfolding clear_scheduled run
refresh p = run (clear_scheduled p)

pub data Input : Type 0 where
  started stop_requested refresh_requested : Input
  timer_fired : ℕ → Input
  task_done : Bool → Input
  visibility_set : Bool → Input

-- A timer that has fired is none to come. The page listens to its visibility from `start` to `stop`.
unfoldable pub step : Poller → Input → Poller
unfolding start stop refresh run run_done visibility_changed clear_timer
step p started = start p
step p stop_requested = stop p
step p refresh_requested = refresh p
step p (timer_fired token) =
    if has_timer token p.timers then run (record p { timers = clear_timer token p.timers }) else p
step p (task_done succeeded) = if p.running then run_done succeeded p else p
step p (visibility_set visible) =
    let q = record p { visible = visible } in if p.stopped then q else visibility_changed q

unfoldable pub new_poller : Bool → Poller
new_poller visible = record {
  stopped = true;
  running = false;
  timer = none;
  failures = 0;
  timers = [];
  next_token = 0;
  visible = visible;
}

unfoldable pub steps : Poller → List Input → Poller
unfolding step
steps p [] = p
steps p (i ∷ is) = steps (step p i) is

power_positive : (n : ℕ) → 1 ≤ 2 ^ n
power_positive zero = omega arith
power_positive (suc n) = grind (arith, power_positive n)

-- Whatever the count of failures is, the next poll is 3 to 30 seconds away.
pub next_kiosk_poll_delay_bounds :
    (n : Number) → (3000 ≤ next_kiosk_poll_delay n) × (next_kiosk_poll_delay n ≤ 30000)
unfolding next_kiosk_poll_delay
next_kiosk_poll_delay_bounds (nat n) =
    let count = if leb n max_safe_integer && ltb 0 n then n else 0 in
    ground (arith, power_positive (min count 10))
next_kiosk_poll_delay_bounds other = ground arith
