-- ===== src/UseCase/Apply.antt =====
-- `createApplyRunEvent` of src/run-event-use-case-v2.mjs: what is checked and computed before the first
-- write (`plan`), the writes in their order (`write`), and the transaction round both.
use jenn_shooting_operations.Prelude.{
  Bool, true, false, String, Option, none, some, List, [], str_eq,
}
use jenn_shooting_operations.Prelude.Results.{Result, ok, err}
use jenn_shooting_operations.Timestamp.{Text}
use jenn_shooting_operations.Run.History.{HistoricalEvent}
use jenn_shooting_operations.UseCase.Command.{
  Failure, Input, Command, normalize_command, normalized_timestamp, invalid_server_time,
}
use jenn_shooting_operations.UseCase.Tables.{Response, EventRow, Database, Ports, find, history}
use jenn_shooting_operations.UseCase.Receipt.{parse_receipt}
use jenn_shooting_operations.UseCase.Plan.{Plan, response_of, plan}
use jenn_shooting_operations.UseCase.Write.{
  Fault, begin_throws, read_throws, commit_throws, has_operation_id, write,
}

pub data Answer : Type 0 where
  applied : Response → Answer
  replayed : Response → Answer
  rejected : Failure → Answer

abbrev pub replay_answer : Result Failure Response → Answer
replay_answer (ok r) = replayed r
replay_answer (err f) = rejected f

-- The outbox sees the open transaction.
abbrev pub in_transaction : Bool → Database → Database
in_transaction b db = record db { outbox = record db.outbox { is_transaction = b } }

-- How the callback of a transaction ends.
pub data Ended : Type 0 where
  returned : Answer → Ended
  thrown : Failure → Ended

-- The end of `withImmediateTransaction`, on a database with the outcome of the callback. Where the store
-- owns the transaction, an exception rolls it back to the database that `BEGIN` saw; an answer that is
-- returned, a rejection too, commits what was written. Where the caller owns it, nothing is undone here.
abbrev pub transaction_end : Bool → Option Fault → Database → Database × Ended → Database × Answer
transaction_end true (some (begin_throws f)) db (db', ended) = (db, rejected f)
transaction_end true (some (commit_throws f)) db (db', returned a) = (db, rejected f)
transaction_end true fault db (db', returned a) = (db', a)
transaction_end true fault db (db', thrown f) = (db, rejected f)
transaction_end false fault db (db', returned a) = (db', a)
transaction_end false fault db (db', thrown f) = (db', rejected f)

abbrev pub written :
    Ports → Command → Plan → Result (Database × Failure) Database → Database × Ended
written ports command p (ok db') =
    (in_transaction false db', returned (applied (response_of ports command p)))
written ports command p (err (db', f)) = (in_transaction false db', thrown f)

abbrev pub planned :
    Option Fault → Ports → Command → Text → Database → Result Failure Plan → Database × Ended
planned fault ports command received_at db (err f) = (db, returned (rejected f))
planned fault ports command received_at db (ok p) =
    written ports command p (write fault ports command received_at p (in_transaction true db))

abbrev pub history_of : Option EventRow → List EventRow → List HistoricalEvent
history_of none events = []
history_of (some e) events = history e.run_id e.resulting_run_revision events

abbrev pub has_event_id : String → EventRow → Bool
has_event_id id e = str_eq e.event_id id

-- `getEventReceipt` and `parseReceipt`.
unfoldable pub read_receipt : Ports → Command → Database → Option (Result Failure Response)
unfolding find history parse_receipt
read_receipt ports command db =
    let event = find (has_event_id command.event_id) db.events in
    parse_receipt ports (find (has_operation_id command.event_id) db.operations) event
      (history_of event db.events) command (ports.command_digest command)

abbrev pub answered :
    Option Fault
    → Ports
    → Command
    → Text
    → Database
    → Option (Result Failure Response)
    → Database × Ended
answered fault ports command received_at db (some r) = (db, returned (replay_answer r))
answered fault ports command received_at db none =
    planned fault ports command received_at db (plan ports command received_at db)

-- The callback. A call that reads comes before all writes.
unfoldable pub callback : Option Fault → Ports → Command → Text → Database → Database × Ended
unfolding read_receipt plan write response_of
callback (some (read_throws f)) ports command received_at db = (db, thrown f)
callback fault ports command received_at db =
    answered fault ports command received_at db (read_receipt ports command db)

-- The transaction of the use case, on a database in no transaction.
unfoldable pub apply_command : Option Fault → Ports → Command → Text → Database → Database × Answer
unfolding callback
apply_command fault ports command received_at db =
    transaction_end true fault db (callback fault ports command received_at db)

unfoldable pub server_time : Option Text → Option Text
unfolding normalized_timestamp
server_time none = none
server_time (some t) = normalized_timestamp t

unfoldable pub receive :
    Ports → Option Text → Option Fault → Result Failure Command → Database → Database × Answer
unfolding apply_command
receive ports time fault (err f) db = (db, rejected f)
receive ports none fault (ok command) db = (db, rejected invalid_server_time)
receive ports (some received_at) fault (ok command) db =
    apply_command fault ports command received_at db

-- `clock` is the server's time as it is printed, `none` if it cannot be. A `fault` is the first database
-- call that throws.
unfoldable pub apply_run_event :
    Ports → Option Text → Option Fault → Option Input → Database → Database × Answer
unfolding normalize_command server_time receive
apply_run_event ports clock fault input db =
    receive ports (server_time clock) fault (normalize_command input) db
