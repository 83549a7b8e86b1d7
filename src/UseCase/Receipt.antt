-- ===== src/UseCase/Receipt.antt =====
-- `parseReceipt` of src/run-event-use-case-v2.mjs: an event that was received before is answered from its
-- receipt, if the receipt fits the event, the history of its run and the command.
use jenn_shooting_operations.Prelude.{
  ℕ, Bool, true, false, ◌&&◌, String, Option, none, some, List, [], ◌∷◌, leb, ◌==◌, str_eq,
  if◌then◌else◌,
}
use jenn_shooting_operations.Prelude.Results.{Result, ok, err, ensure, or_fail, ◌>>=◌}
use jenn_shooting_operations.Timestamp.{Text}
use jenn_shooting_operations.Run.{
  Tag, known, unknown, RunEvent, start, block, resume, complete, cancel,
}
use jenn_shooting_operations.Run.Fold.{Number, nat, Run, max_safe_integer}
use jenn_shooting_operations.Run.History.{
  HistoricalEvent, same_state, has_state, rebuild_run_at_receipt,
}
use jenn_shooting_operations.UseCase.Command.{
  Command, Failure, idempotency_key_reuse, event_receipt_integrity_error,
}
use jenn_shooting_operations.UseCase.Tables.{Operation, EventRow, Response, Ports}

abbrev pub receipt_kind : String
receipt_kind = "production.run-event"

unfoldable pub text_eq : Text → Text → Bool
text_eq [] [] = true
text_eq [] (_ ∷ _) = false
text_eq (_ ∷ _) [] = false
text_eq (c ∷ s) (d ∷ t) = c == d && text_eq s t

abbrev pub option_text_eq : Option Text → Option Text → Bool
option_text_eq none none = true
option_text_eq (some s) (some t) = text_eq s t
option_text_eq _ _ = false

abbrev pub option_str_eq : Option String → Option String → Bool
option_str_eq none none = true
option_str_eq (some s) (some t) = str_eq s t
option_str_eq _ _ = false

-- Numbers that are not natural are not told apart by the model: two of them differ.
abbrev pub number_eq : Option Number → Option Number → Bool
number_eq none none = true
number_eq (some (nat m)) (some (nat n)) = m == n
number_eq _ _ = false

abbrev ordinal : RunEvent → ℕ
ordinal start = 0
ordinal block = 1
ordinal resume = 2
ordinal complete = 3
ordinal cancel = 4

abbrev pub event_eq : Tag RunEvent → RunEvent → Bool
event_eq (known a) b = ordinal a == ordinal b
event_eq (unknown _) b = false

-- The operation and the event belong to each other and to the command.
unfoldable pub receipt_fits : Operation → EventRow → Command → Bool
unfolding text_eq
receipt_fits o e c =
    str_eq o.operation_id c.event_id
    && str_eq e.event_id c.event_id
    && text_eq o.created_at e.received_at
    && str_eq e.run_id c.run_id
    && event_eq e.event_type c.event_type
    && text_eq e.occurred_at c.occurred_at
    && str_eq e.device_id c.device_id
    && str_eq e.actor_id c.actor_id
    && option_str_eq e.reason_code c.reason_code
    && option_str_eq e.note c.note

-- The response is that of the event, and of the run as its history was then.
unfoldable pub response_fits : Response → EventRow → Command → Run → Bool
unfolding text_eq
response_fits r e c run =
    r.is_applied
    && str_eq r.event_id c.event_id
    && str_eq r.run_id e.run_id
    && r.run_revision == e.resulting_run_revision
    && same_state r.previous_state e.previous_state
    && same_state r.resulting_state e.resulting_state
    && has_state run.status r.resulting_state
    && leb r.projection_revision max_safe_integer
    && r.projection_revision == e.resulting_projection_revision
    && leb r.schedule_revision max_safe_integer
    && r.schedule_revision == e.resulting_schedule_revision
    && option_text_eq r.started_at run.started_at
    && option_text_eq r.completed_at run.completed_at
    && number_eq r.gross_duration_ms run.gross_duration_ms
    && number_eq r.blocked_duration_ms run.blocked_duration_ms
    && number_eq r.net_duration_ms run.net_duration_ms
    && option_str_eq r.metrics_algorithm_version run.metrics_algorithm_version

abbrev check_response : Ports → EventRow → Command → Response → Run → Result Failure Response
check_response ports e c r run =
    if str_eq e.response_digest (ports.response_digest r) && response_fits r e c run
    then ok r
    else err event_receipt_integrity_error

unfoldable pub check_receipt :
    Ports → Operation → EventRow → List HistoricalEvent → Command → String → Result Failure Response
unfolding receipt_fits response_fits
check_receipt ports o e hs c digest = do
  _ ← ensure (str_eq o.request_digest e.command_digest) event_receipt_integrity_error
  _ ← ensure (str_eq o.request_digest digest) idempotency_key_reuse
  _ ← ensure (receipt_fits o e c) event_receipt_integrity_error
  r ← or_fail o.response event_receipt_integrity_error
  run ←
      or_fail (rebuild_run_at_receipt hs e.run_id e.resulting_run_revision)
        event_receipt_integrity_error
  check_response ports e c r run

-- `none` is an event that was not received before.
unfoldable pub parse_receipt :
    Ports
    → Option Operation
    → Option EventRow
    → List HistoricalEvent
    → Command
    → String
    → Option (Result Failure Response)
unfolding check_receipt
parse_receipt ports none none hs c digest = none
parse_receipt ports none (some e) hs c digest = some (err event_receipt_integrity_error)
parse_receipt ports (some o) none hs c digest = some (
    if str_eq o.kind receipt_kind
    then err event_receipt_integrity_error
    else err idempotency_key_reuse)
parse_receipt ports (some o) (some e) hs c digest = some (
    if str_eq o.kind receipt_kind
    then check_receipt ports o e hs c digest
    else err idempotency_key_reuse)
