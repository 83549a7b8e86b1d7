-- ===== src/Tests/Browser.antt =====
-- The storage of the browser at concrete records.
use jenn_shooting_operations.Prelude.{ℕ, suc, ◌≡◌, refl, Bool, true, String, none, [], ◌∷◌, ltb}
use jenn_shooting_operations.Prelude.Sorting.{insert_by}
use jenn_shooting_operations.Prelude.Results.{ok, err}
use jenn_shooting_operations.Json.{Json, text, number, object, member, done}
use jenn_shooting_operations.Timestamp.{fields, valid_date}
use jenn_shooting_operations.Queue.Values.{Protocol, v2}
use jenn_shooting_operations.Queue.State.{
  State, pending, conflict, queue_state_invalid, queue_storage_write_failed,
}
use jenn_shooting_operations.Queue.Storage.{load_state, commit_state}
use jenn_shooting_operations.Queue.Enqueue.{enqueue}
use jenn_shooting_operations.Queue.Replay.{dropped}
use jenn_shooting_operations.Queue.Delivery.{IsLawful}
use jenn_shooting_operations.Queue.Browser.Keys.{LocalStorage}
use jenn_shooting_operations.Queue.Browser.Records.{load_from_records}
use jenn_shooting_operations.Queue.Browser.{browser_storage, browser_commit}
use jenn_shooting_operations.Queue.Kept.{enqueue-load_state}
use jenn_shooting_operations.Queue.Lawful.{browser_storage-IsLawful}

abbrev protocol : Protocol
protocol = record { version = v2; is_iso = λ s. true }

abbrev event : String → String → ℕ → Json
event id kind sequence = object (
    member "schemaVersion" (number 2) (
      member "eventId" (text id) (
        member "runId" (text "run-1") (
          member "scheduleItemId" (text "item-1") (
            member "eventType" (text kind) (
              member "expectedRunRevision" (number sequence) (
                member "occurredAt" (text "2026-01-05T09:00:00Z") (
                  member "deviceId" (text "kiosk-1")
                    (member "localSequence" (number sequence) done)))))))))

abbrev first : Json
first = event "event-0001" "start" 0

abbrev second : Json
second = event "event-0002" "complete" 1

abbrev roomy : LocalStorage → Bool
roomy store = true

abbrev one_item : State
one_item = record {
  next_local_sequence = 1;
  sync_status = pending;
  items = first ∷ [];
  cache = none;
}

abbrev two_items : State
two_items = record {
  next_local_sequence = 2;
  sync_status = pending;
  items = first ∷ second ∷ [];
  cache = none;
}

abbrev one_stored : LocalStorage
one_stored = (enqueue (browser_storage roomy protocol) protocol [] first).0

abbrev two_stored : LocalStorage
two_stored = (enqueue (browser_storage roomy protocol) protocol one_stored second).0

first_enqueued : load_state (browser_storage roomy protocol) protocol one_stored ≡ ok one_item
unfolding load_state enqueue fields valid_date load_from_records browser_commit insert_by
first_enqueued = refl

second_enqueued : load_state (browser_storage roomy protocol) protocol two_stored ≡ ok two_items
unfolding load_state enqueue fields valid_date load_from_records browser_commit insert_by
second_enqueued = refl

first_dropped :
    (commit_state
      (browser_storage roomy protocol)
      protocol
      two_stored
      two_items
      (dropped two_items)).1
    ≡ ok (dropped two_items)
unfolding commit_state enqueue fields valid_date load_from_records browser_commit insert_by
first_dropped = refl

-- A conflict is marked for the head and read again.
blocked :
    (commit_state
      (browser_storage roomy protocol)
      protocol
      two_stored
      two_items
      (record two_items { sync_status = conflict })).1
    ≡ ok (record two_items { sync_status = conflict })
unfolding commit_state enqueue fields valid_date load_from_records browser_commit insert_by
blocked = refl

abbrev count : LocalStorage → ℕ
count [] = 0
count (r ∷ store) = suc (count store)

abbrev small : LocalStorage → Bool
small store = ltb (count store) 5

-- The write of the second item throws after that of its number.
full :
    (enqueue (browser_storage small protocol) protocol one_stored second).1
    ≡ err queue_storage_write_failed
unfolding enqueue fields valid_date load_from_records browser_commit insert_by
full = refl

full_state :
    load_state
      (browser_storage small protocol)
      protocol
      (enqueue (browser_storage small protocol) protocol one_stored second).0
    ≡ err queue_state_invalid
unfolding load_state enqueue fields valid_date load_from_records browser_commit insert_by
full_state = refl

browser_storage-IsLawful_example : IsLawful (browser_storage roomy protocol) protocol
browser_storage-IsLawful_example = browser_storage-IsLawful roomy protocol

second_answered :
    enqueue (browser_storage roomy protocol) protocol one_stored second ≡ (two_stored, ok two_items)
unfolding enqueue fields valid_date load_from_records browser_commit insert_by
second_answered = refl

enqueue-load_state_example :
    (load_state (browser_storage roomy protocol) protocol two_stored ≡ ok two_items)
    × (two_items.items ≡ first ∷ second ∷ [])
enqueue-load_state_example =
    enqueue-load_state roomy protocol one_stored two_stored one_item two_items second first_enqueued
      second_answered
