-- ===== src/UseCase/Applied.antt =====
-- What `apply_run_event` promises its callers.
use jenn_shooting_operations.Prelude.{true, ◌≡◌, ◌≢◌, refl, ap, ◌∙◌, false, Option, none, some}
use jenn_shooting_operations.Prelude.Results.{Result, ok, err}
use jenn_shooting_operations.Timestamp.{Text}
use jenn_shooting_operations.UseCase.Command.{Command, Failure, Input, normalize_command}
use jenn_shooting_operations.UseCase.Tables.{Database, Ports, Response}
use jenn_shooting_operations.UseCase.Apply.{
  Answer, applied, replayed, in_transaction, apply_command, server_time, receive, apply_run_event,
  answered, callback, transaction_end,
}
use jenn_shooting_operations.UseCase.Write.{Fault}
use jenn_shooting_operations.UseCase.Plan.{response_of}
use jenn_shooting_operations.UseCase.Plan.{response_of}
use jenn_shooting_operations.UseCase.Rebuilding.{IsConsistent}
use jenn_shooting_operations.UseCase.Outcomes.{
  Outcome, unchanged, wrote, apply_command-Outcome, apply_command-IsConsistent,
}
use jenn_shooting_operations.UseCase.Replaying.{reads_receipt}

receive-IsConsistent :
    (ports : Ports) (time : Option Text) (fault : Option Fault) (command : Result Failure Command)
    (db : Database)
    → IsConsistent db
    → IsConsistent (receive ports time fault command db).0
unfolding receive
receive-IsConsistent ports time fault (err f) db c = c
receive-IsConsistent ports none fault (ok command) db c = c
receive-IsConsistent ports (some t) fault (ok command) db c =
    apply_command-IsConsistent ports command t db _ (apply_command-Outcome fault ports command t db)
      c

-- The row of each run stays what the history of the run rebuilds, whatever the answer is: its facts are
-- those that the events of the run fold to, and its revision is their number.
pub apply_run_event-IsConsistent :
    (ports : Ports) (clock : Option Text) (fault : Option Fault) (input : Option Input)
    (db : Database)
    → IsConsistent db
    → IsConsistent (apply_run_event ports clock fault input db).0
unfolding apply_run_event
apply_run_event-IsConsistent ports clock fault input db =
    receive-IsConsistent ports (server_time clock) fault (normalize_command input) db

kept_or_applied :
    (ports : Ports) (command : Command) (t : Text) (db : Database) (r : Database × Answer)
    → Outcome ports command t db r
    → ((x : Response) → r.1 ≢ applied x)
    → r.0 ≡ db
kept_or_applied ports command t db r (unchanged e _) h = e
kept_or_applied ports command t db r (wrote p db' _ _ _ e) h =
    absurd (h (response_of ports command p) (rw e))

receive_unchanged :
    (ports : Ports) (time : Option Text) (fault : Option Fault) (command : Result Failure Command)
    (db : Database)
    → ((x : Response) → (receive ports time fault command db).1 ≢ applied x)
    → (receive ports time fault command db).0 ≡ db
unfolding receive
receive_unchanged ports time fault (err f) db h = refl
receive_unchanged ports none fault (ok command) db h = refl
receive_unchanged ports (some t) fault (ok command) db h =
    kept_or_applied ports command t db _ (apply_command-Outcome fault ports command t db) h

-- Where the store owns the transaction, an event that is not applied leaves the database as it was,
-- whichever of the calls throws or fails, and whatever was written before: an exception is rolled back,
-- and what is returned as a rejection, which commits, has written nothing.
pub apply_run_event_unchanged :
    (ports : Ports) (clock : Option Text) (fault : Option Fault) (input : Option Input)
    (db : Database)
    → ((x : Response) → (apply_run_event ports clock fault input db).1 ≢ applied x)
    → (apply_run_event ports clock fault input db).0 ≡ db
unfolding apply_run_event
apply_run_event_unchanged ports clock fault input db =
    receive_unchanged ports (server_time clock) fault (normalize_command input) db

replay_command :
    (ports : Ports) (command : Command) (t t' : Text) (db : Database) (r : Database × Answer)
    (x : Response)
    → Outcome ports command t db r
    → IsConsistent db
    → r.1 ≡ applied x
    → apply_command none ports command t' r.0 ≡ (r.0, replayed x)
unfolding apply_command callback
replay_command ports command t t' db r x (unchanged _ never) c h = absurd (never x h)
replay_command ports command t t' db r x (wrote p db' fresh found w e) c h =
    let same : response_of ports command p ≡ x = cc (e, h) in
    rw e (
      ap
        (λ o.
          transaction_end true none (in_transaction false db')
            (answered none ports command t' (in_transaction false db') o))
        (reads_receipt ports command t db db' p fresh found w c)
      ∙ ap (λ y. (in_transaction false db', replayed y)) same)

receive_twice :
    (ports : Ports) (time time' : Option Text) (command : Result Failure Command) (db : Database)
    (t' : Text) (x : Response)
    → IsConsistent db
    → (receive ports time none command db).1 ≡ applied x
    → time' ≡ some t'
    → receive ports time' none command (receive ports time none command db).0
      ≡ ((receive ports time none command db).0, replayed x)
unfolding receive
receive_twice ports time none command db t' x c h k = cc
receive_twice ports time (some s) (err f) db t' x c h k = cc
receive_twice ports none (some s) (ok command) db t' x c h k = cc
receive_twice ports (some t) (some s) (ok command) db t' x c h k =
    replay_command ports command t s db _ x (apply_command-Outcome none ports command t db) c h

-- An event that was applied is not applied again. The same input, sent later, is answered with the same
-- response, marked as replayed, and the database stays as it is.
pub apply_run_event_twice :
    (ports : Ports) (clock clock' : Option Text) (input : Option Input) (db : Database) (t' : Text)
    (x : Response)
    → IsConsistent db
    → (apply_run_event ports clock none input db).1 ≡ applied x
    → server_time clock' ≡ some t'
    → apply_run_event ports clock' none input (apply_run_event ports clock none input db).0
      ≡ ((apply_run_event ports clock none input db).0, replayed x)
unfolding apply_run_event
apply_run_event_twice ports clock clock' input db t' x c h k =
    receive_twice ports (server_time clock) (server_time clock') (normalize_command input) db t' x c
      h k
