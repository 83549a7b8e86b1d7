-- ===== src/UseCase/Writes.antt =====
-- What the writes of an event leave in the runs and the events.
use jenn_shooting_operations.Prelude.{
  Option, none, ap, some, ◌≡◌, ◌∙◌, String, List, [], ◌∷◌, ◌++◌, arith,
}
use jenn_shooting_operations.Prelude.Results.{Result, ok, err, parts_of_ok, ◌>>=◌}
use jenn_shooting_operations.Timestamp.{Text}
use jenn_shooting_operations.Lifecycle.{RequestCommand}
use jenn_shooting_operations.UseCase.Command.{Command, Failure}
use jenn_shooting_operations.UseCase.Tables.{RunRow, Operation, EventRow, Database, Ports, update}
use jenn_shooting_operations.UseCase.Receipt.{receipt_kind}
use jenn_shooting_operations.UseCase.Plan.{response_of, Plan}
use jenn_shooting_operations.UseCase.Write.{
  write, update_run, fulfil_request, insert_event, advance_projection_revision, save_event_receipt,
  is_current, advance_run, write_snapshot, fulfil_requests, event_row, notify, record_audit, Fault,
  fault_at, attempt, write_event, write_receipt,
}

-- The receipt of the event.
abbrev pub operation : Ports → Command → Text → Plan → Operation
operation ports command received_at p = record {
  operation_id = command.event_id;
  kind = receipt_kind;
  response = some (response_of ports command p);
  created_at = received_at;
  request_digest = ports.command_digest command;
}

-- What the writes leave in the runs and the events.
pub record Written (ports : Ports) (command : Command) (received_at : Text) (p : Plan)
    (db db' : Database) : Type 0 where
  pub runs_lem : db'.runs ≡ update (is_current p.run) (advance_run p received_at) db.runs
  pub events_lem : db'.events ≡ db.events ++ event_row ports command received_at p ∷ []
  pub operations_lem : db'.operations ≡ db.operations ++ operation ports command received_at p ∷ []

abbrev Kept : Database → Database → Type 0
Kept db db' = (db'.runs ≡ db.runs) × (db'.events ≡ db.events) × (db'.operations ≡ db.operations)

write_snapshot-Kept :
    (ports : Ports) (p : Plan) (received_at : Text) (db db' : Database)
    → write_snapshot ports p received_at db ≡ ok db'
    → Kept db db'
unfolding write_snapshot
write_snapshot-Kept ports p received_at db db' h = ground arith

fulfil_request-Kept :
    (id : String) (received_at : Text) (db db' : Database)
    → fulfil_request id received_at db ≡ ok db'
    → Kept db db'
unfolding fulfil_request
fulfil_request-Kept id received_at db db' h = ground arith

Kept-trans : (x y z : Database) → Kept x y → Kept y z → Kept x z
Kept-trans x y z (a, b, c) (d, e, f) = (d ∙ a, e ∙ b, f ∙ c)

fulfil_requests-Kept :
    (effects : List (String × RequestCommand)) (received_at : Text) (db db' : Database)
    → fulfil_requests effects received_at db ≡ ok db'
    → Kept db db'
unfolding fulfil_requests
fulfil_requests-Kept [] received_at db db' h = ground arith
fulfil_requests-Kept ((id, x) ∷ effects) received_at db db' h =
    let (mid, e, h1) = parts_of_ok (fulfil_request id received_at db) _ h in
    Kept-trans db mid db' (fulfil_request-Kept id received_at db mid e)
      (fulfil_requests-Kept effects received_at mid db' h1)

update_run_lem :
    (p : Plan) (received_at : Text) (db db' : Database)
    → update_run p received_at db ≡ ok db'
    → (db'.runs ≡ update (is_current p.run) (advance_run p received_at) db.runs)
      × (db'.events ≡ db.events)
      × (db'.operations ≡ db.operations)
unfolding update_run
update_run_lem p received_at db db' h = ground arith

insert_event_lem :
    (e : EventRow) (db db' : Database)
    → insert_event e db ≡ ok db'
    → (db'.runs ≡ db.runs) × (db'.events ≡ db.events ++ e ∷ []) × (db'.operations ≡ db.operations)
unfolding insert_event
insert_event_lem e db db' h = ground arith

advance-Kept :
    (p : Plan) (received_at : Text) (db db' : Database)
    → advance_projection_revision p received_at db ≡ ok db'
    → Kept db db'
unfolding advance_projection_revision
advance-Kept p received_at db db' h = ground arith

save_lem :
    (ports : Ports) (command : Command) (p : Plan) (received_at : Text) (db db' : Database)
    → save_event_receipt ports command p received_at db ≡ ok db'
    → (db'.runs ≡ db.runs)
      × (db'.events ≡ db.events)
      × (db'.operations ≡ db.operations ++ operation ports command received_at p ∷ [])
unfolding save_event_receipt
save_lem ports command p received_at db db' h = ground arith

notify-Kept :
    (ports : Ports) (command : Command) (p : Plan) (received_at : Text) (db db' : Database)
    → notify ports command p received_at db ≡ ok db'
    → Kept db db'
unfolding notify
notify-Kept ports command p received_at db db' h = ground arith

record_audit-Kept :
    (ports : Ports) (p : Plan) (received_at : Text) (db db' : Database)
    → ◌≡◌ {A = Result Failure Database} (ok (record_audit ports p received_at db)) (ok db')
    → Kept db db'
unfolding record_audit
record_audit-Kept ports p received_at db db' h = ground arith

attempt_ok :
    {A : Type 0} (fault : Option Failure) (db : Database) (r : Result Failure A) (a : A)
    → attempt fault db r ≡ ok a
    → r ≡ ok a
attempt_ok (some f) db r a h = cc
attempt_ok none db (ok b) a h = let k : b ≡ a = cc in ap ok k
attempt_ok none db (err f) a h = cc

-- A step of the writes that did not throw.
step_parts :
    {A B : Type 0} (fault : Option Failure) (db : Database) (r : Result Failure A)
    (next : A → Result (Database × Failure) B) {b : B}
    → (attempt fault db r >>= next) ≡ ok b
    → (a : A) × (r ≡ ok a) × (next a ≡ ok b)
step_parts fault db r next h =
    let (a, e, k) = parts_of_ok (attempt fault db r) next h in (a, attempt_ok fault db r a e, k)

-- The runs, the events and the operations of a database.
abbrev Has : Database → List RunRow → List EventRow → List Operation → Type 0
Has db runs events operations =
    (db.runs ≡ runs) × (db.events ≡ events) × (db.operations ≡ operations)

Kept-Has :
    (db db' : Database) (runs : List RunRow) (events : List EventRow) (operations : List Operation)
    → Kept db db'
    → Has db runs events operations
    → Has db' runs events operations
Kept-Has db db' runs events operations (a, b, c) (d, e, f) = (a ∙ d, b ∙ e, c ∙ f)

updated-Has :
    (p : Plan) (received_at : Text) (db d1 d2 : Database)
    → Kept db d1
    → (d2.runs ≡ update (is_current p.run) (advance_run p received_at) d1.runs)
      × (d2.events ≡ d1.events)
      × (d2.operations ≡ d1.operations)
    → Has d2 (update (is_current p.run) (advance_run p received_at) db.runs) db.events db.operations
updated-Has p received_at db d1 d2 (a, b, c) (d, e, f) =
    (d ∙ ap (update (is_current p.run) (advance_run p received_at)) a, e ∙ b, f ∙ c)

inserted-Has :
    (e : EventRow) (db db' : Database) (runs : List RunRow) (events : List EventRow)
    (operations : List Operation)
    → (db'.runs ≡ db.runs) × (db'.events ≡ db.events ++ e ∷ []) × (db'.operations ≡ db.operations)
    → Has db runs events operations
    → Has db' runs (events ++ e ∷ []) operations
inserted-Has e db db' runs events operations (a, b, c) (d, f, g) =
    (a ∙ d, b ∙ ap (λ es. es ++ e ∷ []) f, c ∙ g)

saved-Has :
    (o : Operation) (db db' : Database) (runs : List RunRow) (events : List EventRow)
    (operations : List Operation)
    → (db'.runs ≡ db.runs) × (db'.events ≡ db.events) × (db'.operations ≡ db.operations ++ o ∷ [])
    → Has db runs events operations
    → Has db' runs events (operations ++ o ∷ [])
saved-Has o db db' runs events operations (a, b, c) (d, e, f) =
    (a ∙ d, b ∙ e, c ∙ ap (λ os. os ++ o ∷ []) f)

module _ (fault : Option Fault) (ports : Ports) (command : Command) (received_at : Text)
    (p : Plan) where
  write_event-Has :
      (db db' : Database)
      → write_event fault ports command received_at p db ≡ ok db'
      → Has db'
          (update (is_current p.run) (advance_run p received_at) db.runs)
          (db.events ++ event_row ports command received_at p ∷ [])
          db.operations
  unfolding write_event
  write_event-Has db db' h =
      let (d1, e1, h1) =
        step_parts (fault_at fault 0) db (write_snapshot ports p received_at db) _ h in
      let (d2, e2, h2) = step_parts (fault_at fault 1) d1 (update_run p received_at d1) _ h1 in
      let (d3, e3, h3) =
        step_parts (fault_at fault 2) d2 (fulfil_requests p.effects received_at d2) _ h2 in
      inserted-Has (event_row ports command received_at p) d3 db' _ _ _
        (insert_event_lem (event_row ports command received_at p) d3 db'
          (attempt_ok (fault_at fault 3) d3 _ db' h3))
        (Kept-Has d2 d3 _ _ _ (fulfil_requests-Kept p.effects received_at d2 d3 e3) (
          updated-Has p received_at db d1 d2 (write_snapshot-Kept ports p received_at db d1 e1)
            (update_run_lem p received_at d1 d2 e2)))

  write_receipt-Has :
      (db db' : Database) (runs : List RunRow) (events : List EventRow)
      (operations : List Operation)
      → write_receipt fault ports command received_at p db ≡ ok db'
      → Has db runs events operations
      → Has db' runs events (operations ++ operation ports command received_at p ∷ [])
  unfolding write_receipt
  write_receipt-Has db db' runs events operations h k =
      let (d1, e1, h1) =
        step_parts (fault_at fault 4) db (advance_projection_revision p received_at db) _ h in
      let (_, _, h2) = step_parts (fault_at fault 5) d1 (ports.refresh d1) _ h1 in
      let (d2, e2, h3) =
        step_parts (fault_at fault 6) d1 (notify ports command p received_at d1) _ h2 in
      let (d3, e3, h4) =
        step_parts (fault_at fault 7) d2 (save_event_receipt ports command p received_at d2) _ h3 in
      Kept-Has d3 db' _ _ _
        (record_audit-Kept ports p received_at d3 db'
          (attempt_ok (fault_at fault 8) d3 (ok (record_audit ports p received_at d3)) db' h4))
        (saved-Has (operation ports command received_at p) d2 d3 _ _ _
          (save_lem ports command p received_at d2 d3 e3)
          (Kept-Has d1 d2 _ _ _ (notify-Kept ports command p received_at d1 d2 e2)
            (Kept-Has db d1 _ _ _ (advance-Kept p received_at db d1 e1) k)))

  pub write-Written :
      (db db' : Database)
      → write fault ports command received_at p db ≡ ok db'
      → Written ports command received_at p db db'
  unfolding write
  write-Written db db' h =
      let (d, e, k) = parts_of_ok (write_event fault ports command received_at p db) _ h in
      let (runs, events, operations) = write_receipt-Has d db' _ _ _ k (write_event-Has db d e) in
      record { runs_lem = runs; events_lem = events; operations_lem = operations }
