-- ===== src/UseCase/Outcomes.antt =====
-- What a transaction does to the database.
use jenn_shooting_operations.Prelude.{ap, ◌∙◌, ◌≡◌, ◌≢◌, refl, true, false, Option, none, some}
use jenn_shooting_operations.Prelude.Results.{Result, ok, err}
use jenn_shooting_operations.Timestamp.{Text}
use jenn_shooting_operations.UseCase.Command.{Command, Failure}
use jenn_shooting_operations.UseCase.Tables.{Database, Ports, Response}
use jenn_shooting_operations.UseCase.Apply.{
  Answer, applied, replayed, rejected, Ended, returned, thrown, in_transaction, transaction_end,
  callback, written, planned, answered, read_receipt, apply_command,
}
use jenn_shooting_operations.UseCase.Plan.{Plan, response_of, plan}
use jenn_shooting_operations.UseCase.Write.{
  Fault, begin_throws, read_throws, commit_throws, write_throws, write,
}
use jenn_shooting_operations.UseCase.Planning.{Planned, plan-Planned}
use jenn_shooting_operations.UseCase.Writes.{Written, write-Written}
use jenn_shooting_operations.UseCase.Rebuilding.{IsConsistent, written-IsConsistent}

-- The database is as it was, or it has the writes of a plan.
pub data Outcome (ports : Ports) (command : Command) (received_at : Text) (db : Database)
    (r : Database × Answer) : Type 0 where
  unchanged : r.0 ≡ db → ((x : Response) → r.1 ≢ applied x) → Outcome ports command received_at db r
  wrote :
      (p : Plan) (db' : Database)
      → read_receipt ports command db ≡ none
      → Planned command db p
      → Written ports command received_at p db db'
      → r ≡ (in_transaction false db', applied (response_of ports command p))
      → Outcome ports command received_at db r

-- The callback throws, or it has written nothing and applies nothing, or it has the writes of a plan.
data Called (ports : Ports) (command : Command) (received_at : Text) (db : Database)
    (r : Database × Ended) : Type 0 where
  threw :
      (db' : Database) (f : Failure) → r ≡ (db', thrown f) → Called ports command received_at db r
  kept :
      (a : Answer)
      → r ≡ (db, returned a)
      → ((x : Response) → a ≢ applied x)
      → Called ports command received_at db r
  called :
      (p : Plan) (db' : Database)
      → read_receipt ports command db ≡ none
      → Planned command db p
      → Written ports command received_at p db db'
      → r ≡ (in_transaction false db', returned (applied (response_of ports command p)))
      → Called ports command received_at db r

written-Called :
    (fault : Option Fault) (ports : Ports) (command : Command) (received_at : Text) (db : Database)
    (p : Plan) (w : Result (Database × Failure) Database)
    → read_receipt ports command db ≡ none
    → Planned command db p
    → write fault ports command received_at p (in_transaction true db) ≡ w
    → Called ports command received_at db (written ports command p w)
written-Called fault ports command received_at db p (ok db') fresh found h =
    let w = write-Written fault ports command received_at p (in_transaction true db) db' h in
    called p db' fresh found
      (record {
        runs_lem = w.runs_lem;
        events_lem = w.events_lem;
        operations_lem = w.operations_lem;
      })
      refl
written-Called fault ports command received_at db p (err (db', f)) fresh found h =
    threw (in_transaction false db') f refl

planned-Called :
    (fault : Option Fault) (ports : Ports) (command : Command) (received_at : Text) (db : Database)
    (r : Result Failure Plan)
    → read_receipt ports command db ≡ none
    → plan ports command received_at db ≡ r
    → Called ports command received_at db (planned fault ports command received_at db r)
planned-Called fault ports command received_at db (ok p) fresh h =
    written-Called fault ports command received_at db p _ fresh
      (plan-Planned ports command received_at db p h) refl
planned-Called fault ports command received_at db (err f) fresh h =
    kept (rejected f) refl (λ x e. cc)

answered-Called :
    (fault : Option Fault) (ports : Ports) (command : Command) (received_at : Text) (db : Database)
    (o : Option (Result Failure Response))
    → read_receipt ports command db ≡ o
    → Called ports command received_at db (answered fault ports command received_at db o)
answered-Called fault ports command received_at db none h =
    planned-Called fault ports command received_at db _ h refl
answered-Called fault ports command received_at db (some (ok r)) h =
    kept (replayed r) refl (λ x e. cc)
answered-Called fault ports command received_at db (some (err f)) h =
    kept (rejected f) refl (λ x e. cc)

callback-Called :
    (fault : Option Fault) (ports : Ports) (command : Command) (received_at : Text) (db : Database)
    → Called ports command received_at db (callback fault ports command received_at db)
unfolding callback
callback-Called none ports command received_at db =
    answered-Called none ports command received_at db _ refl
callback-Called (some (read_throws f)) ports command received_at db = threw db f refl
callback-Called (some (begin_throws f)) ports command received_at db =
    answered-Called (some (begin_throws f)) ports command received_at db _ refl
callback-Called (some (commit_throws f)) ports command received_at db =
    answered-Called (some (commit_throws f)) ports command received_at db _ refl
callback-Called (some (write_throws n f)) ports command received_at db =
    answered-Called (some (write_throws n f)) ports command received_at db _ refl

-- The transaction undoes what a callback that throws has written.
module _ (ports : Ports) (command : Command) (received_at : Text) (db : Database) where
  end_rejected : (f : Failure) → Outcome ports command received_at db (db, rejected f)
  end_rejected f = unchanged refl (λ x e. cc)

  returned-Outcome :
      (db' : Database) (a : Answer)
      → Called ports command received_at db (db', returned a)
      → Outcome ports command received_at db (db', a)
  returned-Outcome db' a (threw d f e) = let k : returned a ≡ thrown f = ap (λ r. r.1) e in cc
  returned-Outcome db' a (kept b e n) =
      let k : returned a ≡ returned b = ap (λ r. r.1) e in
      unchanged (ap (λ r. r.0) e) (λ x q. n x (let j : b ≡ a = cc in j ∙ q))
  returned-Outcome db' a (called p d fresh found w e) =
      let k : returned a ≡ returned (applied (response_of ports command p)) = ap (λ r. r.1) e in
      let j : a ≡ applied (response_of ports command p) = cc in
      wrote p d fresh found w (λ i. ((e i).0, j i))

  transaction_end-Outcome :
      (fault : Option Fault) (r : Database × Ended)
      → Called ports command received_at db r
      → Outcome ports command received_at db (transaction_end true fault db r)
  transaction_end-Outcome (some (begin_throws f)) r h = end_rejected f
  transaction_end-Outcome (some (commit_throws f)) (db', returned a) h = end_rejected f
  transaction_end-Outcome (some (commit_throws f)) (db', thrown g) h = end_rejected g
  transaction_end-Outcome none (db', thrown g) h = end_rejected g
  transaction_end-Outcome (some (read_throws f)) (db', thrown g) h = end_rejected g
  transaction_end-Outcome (some (write_throws n f)) (db', thrown g) h = end_rejected g
  transaction_end-Outcome none (db', returned a) h = returned-Outcome db' a h
  transaction_end-Outcome (some (read_throws f)) (db', returned a) h = returned-Outcome db' a h
  transaction_end-Outcome (some (write_throws n f)) (db', returned a) h = returned-Outcome db' a h

pub apply_command-Outcome :
    (fault : Option Fault) (ports : Ports) (command : Command) (received_at : Text) (db : Database)
    → Outcome ports command received_at db (apply_command fault ports command received_at db)
unfolding apply_command
apply_command-Outcome fault ports command received_at db =
    transaction_end-Outcome ports command received_at db fault _
      (callback-Called fault ports command received_at db)

pub apply_command-IsConsistent :
    (ports : Ports) (command : Command) (received_at : Text) (db : Database) (r : Database × Answer)
    → Outcome ports command received_at db r
    → IsConsistent db
    → IsConsistent r.0
apply_command-IsConsistent ports command received_at db r (unchanged e _) c = rw e c
apply_command-IsConsistent ports command received_at db r (wrote p db' _ found w e) c =
    rw e
      (record { runs = (written-IsConsistent ports command received_at db db' p found w c).runs })
