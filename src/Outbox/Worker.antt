-- ===== src/Outbox/Worker.antt =====
-- `createOutboxWorkerV1` of src/outbox-worker-v1.mjs: the loop that calls the dispatcher. The timers of
-- the runtime are part of the state. What `setTimer`, `clearTimer`, the dispatcher and the random source
-- do is an input. The promise of `inFlight` is a flag, and so are `stopPromise` and `resolveStop`, which
-- are set and cleared together.
use jenn_shooting_operations.Prelude.{
  ℕ, ◌+◌, ◌*◌, ◌/◌, ◌-◌, ◌^◌, min, Bool, true, false, ◌||◌, not, Option, none, some, List, [], ◌∷◌,
  ltb, if◌then◌else◌,
}
use jenn_shooting_operations.Timers.{Timer, clear_timer, has_timer}

-- The policy. The ratio of the jitter is `jitter_parts / 2 ^ 53`, which is at most 1.
pub record WorkerPolicy : Type 0 where
  pub idle_poll_ms : ℕ
  pub jitter_parts : ℕ
  pub busy_base_delay_ms : ℕ
  pub busy_max_delay_ms : ℕ

-- `busyDelay`
unfoldable pub busy_delay : WorkerPolicy → ℕ → ℕ
busy_delay policy busy_streak =
    min (policy.busy_base_delay_ms * 2 ^ busy_streak) policy.busy_max_delay_ms

-- `safeRandom`, times 2 ^ 53: `none` is a source that throws, or yields no number from 0 to 1.
unfoldable pub safe_random : Option ℕ → ℕ
safe_random none = 2 ^ 52
safe_random (some value) = if ltb (2 ^ 53) value then 2 ^ 52 else value

-- `idleDelay`: the value `1 + offset * ratio` is `parts / 2 ^ 106`, and `Math.round` is the floor of a half
-- more.
unfoldable pub idle_delay : WorkerPolicy → Option ℕ → ℕ
unfolding safe_random
idle_delay policy random =
    let parts =
      2 ^ 106 + 2 * safe_random random * policy.jitter_parts - 2 ^ 53 * policy.jitter_parts in
    (2 * policy.idle_poll_ms * parts + 2 ^ 106) / 2 ^ 107

-- What `dispatchOnce` returns. An exception and a result that is not valid are `dispatch_other`.
pub data Dispatched : Type 0 where
  dispatch_busy : Dispatched
  dispatch_completed : ℕ → Dispatched
  dispatch_other : Dispatched

pub record Worker : Type 0 where
  pub running : Bool
  pub in_flight : Bool
  pub timer_token : Option ℕ
  pub wake_pending : Bool
  pub busy_streak : ℕ
  pub stop_pending : Bool
  -- The runtime: the timers to come, and the next token.
  pub timers : List Timer
  pub next_token : ℕ

pub data WorkerResult : Type 0 where
  already_started stopping timer_error started : WorkerResult
  not_running wake_pending_set woken : WorkerResult
  already_stopped stopped stop_promised : WorkerResult

-- `clearScheduledTimer`. A timer that could not be cleared stays set.
unfoldable pub clear_scheduled_timer : Bool → Worker → Worker
clear_scheduled_timer clears w = elim w.timer_token [
  | none ↦ w
  | some token ↦ record w {
    timer_token = none;
    timers = if clears then clear_timer token w.timers else w.timers;
  }
]

-- `schedule`. `sets` is whether `setTimer` returns.
unfoldable pub schedule : Bool → ℕ → Worker → Worker × Bool
schedule sets delay w = elim w.timer_token [
  | some _ ↦ (w, true)
  | none ↦
      if not w.running || w.in_flight
      then (w, true)
      else if sets
      then (
        record w {
          timer_token = some w.next_token;
          timers = record { token = w.next_token; delay = delay } ∷ w.timers;
          next_token = w.next_token + 1;
        },
        true,
      )
      else (record w { running = false; wake_pending = false; stop_pending = false }, false)
]

-- `runCycle` up to the call of the dispatcher, when a timer fires.
unfoldable pub run_cycle : Worker → Worker
run_cycle w =
    let v = record w { timer_token = none } in
    if not w.running || w.in_flight then v else record v { in_flight = true }

-- The delay of the next cycle.
unfoldable pub next_delay : WorkerPolicy → Dispatched → Option ℕ → Worker → ℕ
next_delay policy dispatch_busy random w =
    if w.wake_pending then 0 else busy_delay policy w.busy_streak
next_delay policy (dispatch_completed claimed) random w =
    if w.wake_pending || ltb 0 claimed then 0 else idle_delay policy random
next_delay policy dispatch_other random w = if w.wake_pending then 0 else idle_delay policy random

abbrev pub next_streak : Dispatched → ℕ → ℕ
next_streak dispatch_busy n = n + 1
next_streak _ n = 0

-- The rest of `runCycle`, once the dispatcher has ended.
unfoldable pub cycle_done : WorkerPolicy → Dispatched → Option ℕ → Bool → Worker → Worker
unfolding schedule
cycle_done policy result random sets w =
    if w.running
    then (schedule sets (next_delay policy result random w) (record w {
      in_flight = false;
      busy_streak = next_streak result w.busy_streak;
      wake_pending = false;
    })).0
    else record w { in_flight = false; stop_pending = false }

unfoldable pub start : Bool → Worker → Worker × WorkerResult
unfolding schedule
start sets w =
    if w.running
    then (w, already_started)
    else if w.in_flight || w.stop_pending
    then (w, stopping)
    else (let (v, scheduled) =
          schedule sets 0 (record w { running = true; wake_pending = false; busy_streak = 0 }) in
        (v, if scheduled then started else timer_error))

unfoldable pub wake : Bool → Bool → Worker → Worker × WorkerResult
unfolding clear_scheduled_timer schedule
wake clears sets w =
    if not w.running
    then (w, not_running)
    else if w.in_flight
    then (record w { wake_pending = true }, wake_pending_set)
    else (let (v, scheduled) = schedule sets 0 (clear_scheduled_timer clears w) in
        (v, if scheduled then woken else timer_error))

-- A stop while a dispatch is in flight is answered by a promise, which the end of the dispatch resolves.
unfoldable pub stop : Bool → Worker → Worker × WorkerResult
unfolding clear_scheduled_timer
stop clears w =
    if not w.running
    then (w, if w.stop_pending then stop_promised else already_stopped)
    else (let v =
          clear_scheduled_timer clears (record w { running = false; wake_pending = false }) in
        if w.in_flight then (record v { stop_pending = true }, stop_promised) else (v, stopped))

pub data WorkerInput : Type 0 where
  start_called : Bool → WorkerInput
  wake_called : Bool → Bool → WorkerInput
  stop_called : Bool → WorkerInput
  timer_fired : ℕ → WorkerInput
  dispatch_done : Dispatched → Option ℕ → Bool → WorkerInput

unfoldable pub step : WorkerPolicy → Worker → WorkerInput → Worker
unfolding start wake stop run_cycle cycle_done
step policy w (start_called sets) = (start sets w).0
step policy w (wake_called clears sets) = (wake clears sets w).0
step policy w (stop_called clears) = (stop clears w).0
step policy w (timer_fired token) =
    if has_timer token w.timers
    then run_cycle (record w { timers = clear_timer token w.timers })
    else w
step policy w (dispatch_done result random sets) =
    if w.in_flight then cycle_done policy result random sets w else w

unfoldable pub new_worker : Worker
new_worker = record {
  running = false;
  in_flight = false;
  timer_token = none;
  wake_pending = false;
  busy_streak = 0;
  stop_pending = false;
  timers = [];
  next_token = 0;
}

unfoldable pub steps : WorkerPolicy → Worker → List WorkerInput → Worker
unfolding step
steps policy w [] = w
steps policy w (i ∷ rest) = steps policy (step policy w i) rest
