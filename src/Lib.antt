-- ===== src/Lib.antt =====
-- JENN shooting operations: verification of the core of the collaboration service.
--
-- The service schedules photo shoots, records the events of production runs that kiosks report, and
-- notifies DingTalk through a transactional outbox. Paths below are from the repository's root.
--
-- - Prelude: the names that the modules share; Prelude/Tests has Boolean tests on numbers,
--   Prelude/Lists predicates on lists, Prelude/Options and Prelude/Results the sequencing of
--   optional values and of results with an error code, Prelude/Sorting the stable sort of arrays.
-- - Timestamp: `timestampMillis` of src/domain-rules-v2.mjs (src/event-time-policy-v2.mjs has the same
--   text), with the `Date.parse` and `toISOString` behind it. Timestamp/Syntax reads the pattern,
--   Timestamp/Calendar is the calendar, Timestamp/Dates and Timestamp/RoundTrip are about the two.
--   A time value is a natural number of milliseconds, counted from one day before the year 0.
-- - Timers: the timers of the JavaScript runtime.
-- - Run: src/domain-rules-v2.mjs, the states of a production run and their transitions. Run/Fold is
--   `foldProductionRunEvent`; Run/Clock is its specification, a clock that adds up the time spent
--   shooting and blocked; Run/Refinement and Run/Metrics are about the two. Run/History is
--   `rebuildRunAtReceipt` of src/run-event-use-case-v2.mjs, with Run/History/Log.
-- - Lifecycle: the rest of src/domain-rules-v2.mjs, for schedule items, requests and revisions.
-- - EventTime: src/event-time-policy-v2.mjs.
-- - Outbox: src/sqlite-outbox-repository-v1.mjs with what it uses of src/outbox-contract-v1.mjs and
--   src/dingtalk-port-v1.mjs. Outbox/Policy has the constants, the classification of failures and the
--   delay of retries, Outbox/Table the statements on the table, Outbox/Opaque the check of
--   identifiers, Outbox/Repository `claimBatch`, Outbox/Settlement `settleDelivery`, Outbox/Enqueue
--   `enqueue`. Outbox/Rows and Outbox/Selections are lemmas on tables; Outbox/Claims, Outbox/Claimed, Outbox/Items,
--   Outbox/Soundness, Outbox/Settled, Outbox/Outcomes and Outbox/Dedupe are about the operations.
--   Outbox/Dispatcher is `settleWithBusyRetry` and the counts of `dispatchOnce` of
--   src/outbox-dispatcher-v1.mjs; readiness and the delivery with its timeout are not modelled.
--   Outbox/Worker is src/outbox-worker-v1.mjs, Outbox/Working its invariant, and Outbox/Timing is about
--   its timers.
-- - UseCase: src/run-event-use-case-v2.mjs over the tables of src/sqlite-run-event-store-v2.mjs.
--   UseCase/Command is `normalizeCommand`, UseCase/Tables the tables and ports, UseCase/Receipt
--   `parseReceipt`, UseCase/Context `validateRunContext`, UseCase/Plan and UseCase/Write the two halves of
--   the transaction, UseCase/Apply `applyRunEvent`. UseCase/Histories, UseCase/Planning, UseCase/Writes,
--   UseCase/Rebuilding, UseCase/Outcomes and UseCase/Replaying have the lemmas of UseCase/Applied.
-- - Kiosk: public/kiosk-control-lock.js. Kiosk/Actions is `deriveKioskActionState`, which Kiosk/Offers
--   and Kiosk/Offered hold against the transitions of Run; Kiosk/Poller is `nextKioskPollDelay` and
--   `createVisibilityPoller` with the timers of the browser, Kiosk/Polling its invariant.
-- - Queue: public/kiosk-offline-queue-v2.js with public/kiosk-queue-protocol-v3.js. Json has the documents,
--   Patterns the patterns that the page and the service share. Queue/Values, Queue/Items, Queue/Receipts,
--   Queue/Current and Queue/Responses are the validators, Queue/State `validateQueueState`, Queue/Storage
--   the interface of a storage with `loadState`, `commitState` and `reloadHead`, Queue/Enqueue `enqueue`,
--   Queue/Replay `replay`. The answers of the service, and what others change in the storage before each
--   comes, are a list that the loop goes over; where it ends, the replay waits. Queue/Valid is about the
--   states that the queue proposes; Queue/Delivery says what a replay promises over a storage that keeps
--   what is committed, and Queue/Sameness, Queue/Delivered and Queue/Replayed prove it.
--   Queue/Browser is `createBrowserQueueStorage`, with the storage of the browser in
--   Queue/Browser/Keys, and the records and how they are read in Queue/Browser/Records. The storage is
--   a list of keys, taken apart into the number and the identifier that they are made of, and values,
--   each the document of its text; a parameter says whether the storage still fits, and `setItem`
--   throws where it does not. Queue/Browser/Frames, Queue/Loaded and Queue/Present are about the records
--   that a write leaves as they are, Queue/Browser/Order, Queue/Browser/Removal and Queue/Removed about
--   those that are removed, Queue/Behind and Queue/Added about those that are added; Queue/Lawful holds
--   the storage against its interface, Queue/Kept is about `enqueue` over it.
-- - Scheduler: src/deterministic-scheduler-v1.mjs. Scheduler/Slots is `firstSlot` with the list of busy
--   intervals; Scheduler/Durations `resolveDuration`, `expectedOverrun` and `sortCandidates`, and
--   Scheduler/Resolving and Scheduler/Ranking are about these; Scheduler/Penalties is `softPenalty`, Scheduler/Weighing is about
--   it. Scheduler/Options is the loop over the resources and windows, Scheduler/Occupied what is busy
--   at first, Scheduler/Placing the loop over the candidates in `generateDeterministicScheduleV1`;
--   Scheduler/Offers, Scheduler/Separation and Scheduler/Placed are about these. The admission of the
--   input, and the canonical form of the result, are not modelled.
-- - Tests: the theorems at concrete inputs, and runs of the definitions.
--
-- An event of a run is folded into the row of the run with the time of the last event; a completed
-- run enqueues a notification in the same transaction; the dispatcher claims rows in batches, sends
-- the cards, and settles each row with the outcome. A database call that throws is an argument of the
-- operation that makes it, and rolls its transaction back; the transaction of an event, with what its
-- writes had done when one of them threw, is `transaction_end` of UseCase/Apply. The values of random and token sources are
-- arguments too, and so is the SHA-256 digest of a delivery's receipt.
--
-- There is no fuel: every loop goes over a list. Numbers are natural numbers, and where the source
-- tests for a safe integer the bound 2 ^ 53 - 1 is written out. The jitter of a retry is taken of a
-- random value k / 2 ^ 53 without the rounding of floating point.
--
-- Not modelled: the check of an intent by `validateNotificationIntentV1`, whose answer is an argument of
-- `enqueue`; the HTTP layer, the other
-- browser pages and the control lock of the kiosk, the migrations and the release tooling.
mod Prelude
pub mod Timers
pub mod Patterns
pub mod Json
pub mod Queue
pub mod Timestamp
pub mod Run
pub mod Lifecycle
pub mod EventTime
pub mod Outbox
pub mod Kiosk
pub mod UseCase
pub mod Scheduler
mod Tests
