-- ===== src/UseCase/Replaying.antt =====
-- That the receipt of an event that was applied answers it again.
use jenn_shooting_operations.Prelude.{
  ℕ, ◌+◌, ◌≡◌, refl, ap, ◌∙◌, Bool, true, false, String, Option, none, some, List, [], ◌∷◌, ◌++◌,
  eq_iff, leb, ◌==◌, arith,
}
use jenn_shooting_operations.Prelude.Results.{ok, parts_of_ok}
use jenn_shooting_operations.Timestamp.{Text}
use jenn_shooting_operations.Run.Metrics.{fold_facts-Accepted}
use jenn_shooting_operations.Run.{
  known, transition_production_run, RunEvent, start, block, resume, complete, cancel,
}
use jenn_shooting_operations.Run.Fold.{
  Run, Number, nat, Folded, max_safe_integer, apply_event, fold_production_run_event,
  has_final_metrics,
}
use jenn_shooting_operations.Run.History.{
  HistoricalEvent, has_state, new_run, rebuild_run_at_receipt, run_metrics_algorithm_version,
}
use jenn_shooting_operations.UseCase.Command.{Command}
use jenn_shooting_operations.UseCase.Tables.{Operation, EventRow, Database, Ports, find, history}
use jenn_shooting_operations.UseCase.Receipt.{
  event_eq, text_eq, number_eq, option_text_eq, option_str_eq, check_receipt, receipt_fits,
  response_fits, parse_receipt,
}
use text.Mathlib.TextPositions.{eq_refl}
use jenn_shooting_operations.UseCase.Apply.{in_transaction, read_receipt, has_event_id}
use jenn_shooting_operations.UseCase.Plan.{Plan, response_of}
use jenn_shooting_operations.UseCase.Write.{event_row, has_operation_id}
use jenn_shooting_operations.UseCase.Planning.{Planned}
use jenn_shooting_operations.UseCase.Writes.{Written, operation}
use jenn_shooting_operations.UseCase.Histories.{replay_events-Consecutive, history-all_of_run}
use jenn_shooting_operations.UseCase.Rebuilding.{
  IsConsistent, run_id_lem, same_state_refl, rebuilt_after, counted_after,
}

text_eq_refl : (s : Text) → text_eq s s ≡ true
unfolding text_eq
text_eq_refl [] = refl
text_eq_refl (c ∷ s) = ground (arith, text_eq_refl s)

abbrev IsNatural : Option Number → Type 0
IsNatural o = number_eq o o ≡ true

-- The durations that an event leaves are natural numbers.
apply_event-IsNatural :
    (e : RunEvent) (occurred blocked_ms : ℕ) (version : String) (patch run : Run)
    → apply_event e occurred blocked_ms version patch ≡ ok run
    → patch.gross_duration_ms ≡ none
    → patch.net_duration_ms ≡ none
    → patch.blocked_duration_ms ≡ some (nat blocked_ms)
    → IsNatural run.gross_duration_ms
      × IsNatural run.blocked_duration_ms
      × IsNatural run.net_duration_ms
      × (run.status ≡ patch.status)
unfolding apply_event
apply_event-IsNatural start occurred blocked_ms version patch run h a b c = ground arith
apply_event-IsNatural block occurred blocked_ms version patch run h a b c = ground arith
apply_event-IsNatural resume occurred blocked_ms version patch run h a b c = ground arith
apply_event-IsNatural complete occurred blocked_ms version patch run h a b c = ground arith
apply_event-IsNatural cancel occurred blocked_ms version patch run h a b c = ground arith

find-append :
    {A : Type 0} (q : A → Bool) (xs : List A) (x : A)
    → find q xs ≡ none
    → q x ≡ true
    → find q (xs ++ x ∷ []) ≡ some x
unfolding find
find-append q [] x h k = rw k
find-append q (y ∷ xs) x h k = ground (arith, find-append q xs x)

parse_receipt-none :
    (ports : Ports) (o : Option Operation) (e : Option EventRow) (hs : List HistoricalEvent)
    (c : Command) (digest : String)
    → parse_receipt ports o e hs c digest ≡ none
    → (o ≡ none) × (e ≡ none)
unfolding parse_receipt
parse_receipt-none ports none none hs c digest h = (refl, refl)
parse_receipt-none ports none (some e) hs c digest h = cc
parse_receipt-none ports (some o) none hs c digest h = cc
parse_receipt-none ports (some o) (some e) hs c digest h = cc

fold-IsNatural :
    (run : Run) (e : RunEvent) (at : Text) (last : Option Text) (version : String) (f : Folded)
    → fold_production_run_event (some run) (known e) at last version ≡ ok f
    → IsNatural f.run.gross_duration_ms
      × IsNatural f.run.blocked_duration_ms
      × IsNatural f.run.net_duration_ms
      × (has_state f.run.status f.resulting_state ≡ true)
unfolding fold_production_run_event has_final_metrics
fold-IsNatural run e at last version f h =
    let (t, _, h1) = parts_of_ok (transition_production_run run.status (known e)) _ h in
    let a = fold_facts-Accepted e t run at last version f h1 in
    let (gross, blocked, net, status) =
      apply_event-IsNatural e a.occurred a.blocked_ms version _ f.run a.applied
        (ground (arith, a.not_final)) (ground (arith, a.not_final)) refl in
    (gross, blocked, net, ground (arith, status, a.resulting, same_state_refl f.resulting_state))

option_text_eq_refl : (o : Option Text) → option_text_eq o o ≡ true
option_text_eq_refl none = refl
option_text_eq_refl (some s) = text_eq_refl s

option_str_eq_refl : (o : Option String) → option_str_eq o o ≡ true
option_str_eq_refl none = refl
option_str_eq_refl (some s) = eq_refl s

==_refl : (n : ℕ) → (n == n) ≡ true
==_refl n = ground arith

event_eq_refl : (e : RunEvent) → event_eq (known e) e ≡ true
event_eq_refl e = ground arith

module _ (ports : Ports) (command : Command) (received_at : Text) (db db' : Database) (p : Plan)
    (fresh : read_receipt ports command db ≡ none) (found : Planned command db p)
    (written : Written ports command received_at p db db') (consistent : IsConsistent db) where
  nothing_received :
      (find (has_operation_id command.event_id) db.operations ≡ none)
      × (find (has_event_id command.event_id) db.events ≡ none)
  unfolding read_receipt
  nothing_received = parse_receipt-none ports _ _ _ command _ fresh

  abbrev event : EventRow
  event = event_row ports command received_at p

  found_event : find (has_event_id command.event_id) db'.events ≡ some event
  unfolding event_row
  found_event =
      ap (find (has_event_id command.event_id)) written.events_lem
      ∙ find-append _ db.events event nothing_received.1 (eq_refl command.event_id)

  found_operation :
      find (has_operation_id command.event_id) db'.operations
      ≡ some (operation ports command received_at p)
  found_operation =
      ap (find (has_operation_id command.event_id)) written.operations_lem
      ∙ find-append _ db.operations (operation ports command received_at p) nothing_received.0
          (eq_refl command.event_id)

  fits : receipt_fits (operation ports command received_at p) event command ≡ true
  unfolding event_row receipt_fits
  fits = ground (
    arith,
    eq_refl command.event_id,
    eq_refl command.run_id,
    eq_refl command.device_id,
    eq_refl command.actor_id,
    text_eq_refl received_at,
    text_eq_refl command.occurred_at,
    event_eq_refl command.event_type,
    option_str_eq_refl command.reason_code,
    option_str_eq_refl command.note,
  )

  response_lem : response_fits (response_of ports command p) event command p.folded.run ≡ true
  unfolding event_row response_of response_fits
  response_lem =
      let (gross, blocked, net, status) =
        fold-IsNatural p.run.facts command.event_type command.occurred_at _
          run_metrics_algorithm_version p.folded found.folds in
      let room1 : leb (p.counters.projection_revision + 1) max_safe_integer ≡ true =
        ground (arith, found.room) in
      let room2 : leb p.counters.schedule_revision max_safe_integer ≡ true =
        ground (arith, found.room) in
      let same =
        (eq_iff _ _).1 (run_id_lem ports command received_at db db' p found written consistent) in
      simp (
        gross, blocked, net, status, room1, room2, same, eq_refl, ==_refl, option_text_eq_refl,
        option_str_eq_refl,
      )

  rebuilds :
      rebuild_run_at_receipt
        (history command.run_id (p.run.run_revision + 1) db'.events)
        command.run_id
        (p.run.run_revision + 1)
      ≡ some p.folded.run
  unfolding rebuild_run_at_receipt
  rebuilds =
      let r = rebuilt_after ports command received_at db db' p found written consistent in
      let n = counted_after ports command received_at db db' p found written consistent in
      let c = replay_events-Consecutive command.run_id 0 (some new_run) none _ r in
      rw (history-all_of_run command.run_id _ db'.events c n) (ground (arith, r, n))

  checks :
      check_receipt ports
        (operation ports command received_at p)
        event
        (history command.run_id (p.run.run_revision + 1) db'.events)
        command
        (ports.command_digest command)
      ≡ ok (response_of ports command p)
  unfolding event_row check_receipt
  checks =
      let e1 = fits in
      let e2 = response_lem in
      let e3 = rebuilds in
      ground (
        arith,
        e1,
        e2,
        e3,
        eq_refl (ports.command_digest command),
        eq_refl (ports.response_digest (response_of ports command p)),
      )

  pub reads_receipt :
      read_receipt ports command (in_transaction false db')
      ≡ some (ok (response_of ports command p))
  unfolding read_receipt parse_receipt event_row
  reads_receipt =
      let e1 = found_event in
      let e2 = found_operation in let e3 = checks in rw (e1, e2) (ap some e3)
