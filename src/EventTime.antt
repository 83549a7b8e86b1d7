-- ===== src/EventTime.antt =====
-- src/event-time-policy-v2.mjs: whether the time that a kiosk reports for an event may be taken.
use jenn_shooting_operations.Prelude.{
  ℕ, ◌+◌, ◌*◌, ◌≤◌, ◌≡◌, ◌↔◌, none, some, ltb, if◌then◌else◌, arith,
}
use jenn_shooting_operations.Timestamp.{Text, timestamp_millis}

abbrev pub kiosk_event_maximum_future_skew_ms : ℕ
kiosk_event_maximum_future_skew_ms = 5 * 60 * 1000

abbrev pub kiosk_event_maximum_offline_age_ms : ℕ
kiosk_event_maximum_offline_age_ms = 24 * 60 * 60 * 1000

pub data Decision : Type 0 where
  allow invalid_event_time invalid_received_time too_far_future too_old : Decision

-- `occurred < received - age` is written without the subtraction.
unfoldable pub decide_times : ℕ → ℕ → Decision
decide_times occurred received =
    if ltb (received + kiosk_event_maximum_future_skew_ms) occurred
    then too_far_future
    else if ltb (occurred + kiosk_event_maximum_offline_age_ms) received
    then too_old
    else allow

unfoldable pub evaluate_kiosk_event_time : Text → Text → Decision
unfolding decide_times
evaluate_kiosk_event_time occurred_at received_at = elim (timestamp_millis occurred_at) [
  | none ↦ invalid_event_time
  | some occurred ↦ elim (timestamp_millis received_at) [
    | none ↦ invalid_received_time
    | some received ↦ decide_times occurred received
  ]
]

-- An event is taken exactly if both times can be read, and the event is at most 5 minutes ahead of
-- the receipt and at most 24 hours behind it.
pub evaluate_kiosk_event_time_allow :
    (occurred_at received_at : Text)
    → (evaluate_kiosk_event_time occurred_at received_at ≡ allow) ↔ (
        (occurred : ℕ) × (received : ℕ) × (timestamp_millis occurred_at ≡ some occurred)
        × (timestamp_millis received_at ≡ some received)
        × (occurred ≤ received + 300000)
        × (received ≤ occurred + 86400000))
unfolding evaluate_kiosk_event_time
evaluate_kiosk_event_time_allow occurred_at received_at = ground arith
