-- ===== src/Tests/Queue.antt =====
-- The offline queue of a kiosk at concrete inputs, over a storage in memory.
use mathlib.Core.Path.{subst}
use jenn_shooting_operations.Prelude.{
  ap, sym, if_elim, ℕ, ◌≡◌, refl, true, false, String, none, some, List, [], ◌∷◌, arith,
}
use jenn_shooting_operations.Prelude.Results.{Result, ok, err}
use jenn_shooting_operations.Json.{Json, null, boolean, text, number, object, member, done}
use jenn_shooting_operations.Timestamp.{fields, valid_date}
use jenn_shooting_operations.Queue.Values.{Protocol, v2}
use jenn_shooting_operations.Queue.State.{
  State, stored, pending, validate_queue_state, Outcome, Failure, queue_state_invalid,
}
use jenn_shooting_operations.Queue.Storage.{Storage, load_state, commit_state, admit}
use jenn_shooting_operations.Queue.Enqueue.{enqueue, admissible, appended}
use jenn_shooting_operations.Queue.Responses.{Response, applied}
use jenn_shooting_operations.Queue.Replay.{Answer, returned, Refresh, replay, dropped}
use jenn_shooting_operations.Queue.Delivery.{IsLawful}
use jenn_shooting_operations.Queue.Valid.{appended-IsValid, dropped-IsValid}
use jenn_shooting_operations.Queue.Replayed.{IsReplayed, replay-IsReplayed, replay_returns}

abbrev memory : Storage
memory = record {
  Store = State;
  load = λ s. some (stored s);
  commit = λ s base next. (next, some (stored next));
}

abbrev protocol : Protocol
protocol = record { version = v2; is_iso = λ s. true }

admitted_items :
    (next s : State)
    → validate_queue_state protocol next ≡ true
    → admit protocol (stored next) ≡ ok s
    → s.items ≡ next.items
unfolding admit
admitted_items next s v k =
    let j : ok next ≡ ok s = rw v at k in
    let same : next ≡ s = cc in ap (λ (t : State). t.items) (sym same)

commit_memory :
    (store store' base next s : State)
    → commit_state memory protocol store base next ≡ (store', ok s)
    → (load_state memory protocol store' ≡ ok s) × (s.items ≡ next.items)
unfolding commit_state load_state admit
commit_memory store store' base next s e =
    if_elim
      (λ (r : State × Result Failure State).
        r ≡ (store', ok s) → (load_state memory protocol store' ≡ ok s) × (s.items ≡ next.items))
      (validate_queue_state protocol next) (next, admit protocol (stored next))
      (store, err queue_state_invalid)
      (λ v e'.
        let n : next ≡ store' = ap (λ r. r.0) e' in
        let k : admit protocol (stored next) ≡ ok s = ap (λ r. r.1) e' in
        (subst (λ t. load_state memory protocol t ≡ ok s) n k, admitted_items next s v k))
      (λ v e'. let k : err queue_state_invalid ≡ ok s = ap (λ r. r.1) e' in cc) e

memory-IsLawful : IsLawful memory protocol
memory-IsLawful = record {
  commit_law = λ store store' base next s l same e. commit_memory store store' base next s e;
}

abbrev event : String → String → ℕ → Json
event id kind sequence = object (
    member "schemaVersion" (number 2) (
      member "eventId" (text id) (
        member "runId" (text "run-1") (
          member "scheduleItemId" (text "item-1") (
            member "eventType" (text kind) (
              member "expectedRunRevision" (number sequence) (
                member "occurredAt" (text "2026-01-05T09:00:00Z") (
                  member "deviceId" (text "kiosk-1")
                    (member "localSequence" (number sequence) done)))))))))

abbrev first : Json
first = event "event-0001" "start" 0

abbrev second : Json
second = event "event-0002" "complete" 1

abbrev one_item : State
one_item = record {
  next_local_sequence = 1;
  sync_status = pending;
  items = first ∷ [];
  cache = none;
}

abbrev two_items : State
two_items = record {
  next_local_sequence = 2;
  sync_status = pending;
  items = first ∷ second ∷ [];
  cache = none;
}

second_admissible : admissible protocol one_item second ≡ ok one_item
unfolding admissible fields valid_date
second_admissible = refl

one_item_valid : validate_queue_state protocol one_item ≡ true
unfolding validate_queue_state fields valid_date
one_item_valid = refl

two_items_load : load_state memory protocol two_items ≡ ok two_items
unfolding load_state fields valid_date
two_items_load = refl

enqueued : enqueue memory protocol one_item second ≡ (two_items, ok two_items)
unfolding enqueue fields valid_date
enqueued = refl

appended-IsValid_example : validate_queue_state protocol (appended one_item second) ≡ true
appended-IsValid_example =
    appended-IsValid protocol one_item second one_item_valid second_admissible

dropped-IsValid_example : validate_queue_state protocol (dropped one_item) ≡ true
dropped-IsValid_example = dropped-IsValid protocol one_item first [] refl one_item_valid

abbrev receipt : Response
receipt = record {
  status = some 201;
  body = object (
      member "schemaVersion" (number 2) (
        member "ok" (boolean true) (
          member "code" (text "RUN_EVENT_APPLIED") (
            member "replayed" (boolean false) (
              member "eventId" (text "event-0001") (
                member "runId" (text "run-1") (
                  member "previousState" (text "scheduled") (
                    member "resultingState" (text "shooting") (
                      member "runRevision" (number 1) (
                        member "projectionRevision" (number 8) (
                          member "scheduleRevision" (number 3) (
                            member "startedAt" (text "2026-01-05T09:00:00Z") (
                              member "completedAt" null (
                                member "grossDurationMs" null (
                                  member "blockedDurationMs" (number 0) (
                                    member "netDurationMs" null
                                      (member "metricsAlgorithmVersion" null done)))))))))))))))));
}

receipt_applied : applied protocol receipt first ≡ true
unfolding applied fields valid_date
receipt_applied = refl

abbrev answers : List (Answer memory protocol)
answers =
    record { response = some receipt; others = λ s. s }
    ∷ record { response = none; others = λ s. s }
    ∷ []

abbrev day : Refresh memory protocol
day = record {
  status = some 200;
  body = object (
      member "schemaVersion" (number 2) (
        member "serverTime" (text "2026-01-05T09:00:00Z") (
          member "projectionRevision" (number 7) (
            member "resourceId" (text "room-1")
              (member "current" null (member "next" null done))))));
  others = λ s. s;
}

abbrev clock : Json
clock = text "2026-01-05T09:00:01.000Z"

-- One event is delivered, then the network fails: the other one is kept.
replayed :
    (o : Outcome) × ((replay memory protocol two_items (text "room-1") clock day answers).1
      ≡ returned (ok o))
unfolding replay fields valid_date
replayed = (_, refl)

replayed_items : replayed.0.state.items ≡ second ∷ []
unfolding replayed
replayed_items = refl

replay-IsReplayed_example :
    IsReplayed memory protocol
      (first ∷ second ∷ [])
      answers
      (replay memory protocol two_items (text "room-1") clock day answers).1
replay-IsReplayed_example =
    replay-IsReplayed memory protocol two_items two_items (text "room-1") clock day answers
      memory-IsLawful two_items_load (λ s. refl) ((λ s. refl), ((λ s. refl), tt))

replay_returns_example :
    (r : Result Failure Outcome) × ((replay memory protocol two_items
        (text "room-1")
        clock
        day
        answers).1
      ≡ returned r)
replay_returns_example =
    replay_returns memory protocol two_items two_items (text "room-1") clock day answers
      memory-IsLawful two_items_load (λ s. refl) ((λ s. refl), ((λ s. refl), tt)) (omega arith)
