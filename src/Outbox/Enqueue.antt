-- ===== src/Outbox/Enqueue.antt =====
-- `enqueue` and `getById` of src/sqlite-outbox-repository-v1.mjs, with `compareNotificationIntentV1` of
-- src/outbox-contract-v1.mjs. `valid_intent` is the answer of `validateNotificationIntentV1`.
use jenn_shooting_operations.Prelude.{
  Bool, false, ◌&&◌, ◌||◌, not, String, Option, none, some, List, [], ◌∷◌, ◌++◌, ◌==◌, str_eq,
  if◌then◌else◌,
}
use jenn_shooting_operations.Outbox.{Row, Intent, Status, pending}
use jenn_shooting_operations.Outbox.Table.{by_id, by_dedupe}
use jenn_shooting_operations.Outbox.Repository.{Store, Isolation, Fault, busy, other_error}

pub data EnqueueResult : Type 0 where
  enqueued : String → EnqueueResult
  exact_noop : String → Status → EnqueueResult
  transaction_required intent_invalid isolation_mismatch dedupe_mismatch id_reuse : EnqueueResult
  store_busy store_error : EnqueueResult

-- The fields of `DEDUPE_EQUIVALENCE_FIELDS`.
unfoldable pub equivalent : Intent → Intent → Bool
equivalent a b =
    str_eq a.dedupe_key b.dedupe_key
    && str_eq a.intent_type b.intent_type
    && str_eq a.aggregate_type b.aggregate_type
    && str_eq a.aggregate_id b.aggregate_id
    && str_eq a.route_key b.route_key
    && str_eq a.aggregate_revision_scope b.aggregate_revision_scope
    && a.aggregate_revision == b.aggregate_revision
    && str_eq a.card_schema_version b.card_schema_version
    && str_eq a.delivery_policy_version b.delivery_policy_version
    && str_eq a.payload_json b.payload_json
    && str_eq a.payload_digest b.payload_digest

-- An isolation of this notification was made for another intent or payload.
unfoldable pub isolation_differs : List Isolation → Intent → Bool
isolation_differs [] intent = false
isolation_differs (i ∷ is) intent =
    str_eq i.outbox_id intent.outbox_id
      && (not (str_eq i.intent_type intent.intent_type)
          || not (str_eq i.payload_digest intent.payload_digest))
    || isolation_differs is intent

-- The row that `INSERT` writes.
abbrev pub new_row : Intent → Row
new_row intent = record {
  intent = intent;
  status = pending;
  attempt_count = 0;
  available_at = some intent.created_at;
  lease_token = none;
  lease_owner = none;
  lease_expires_at = none;
  provider_ref = none;
  delivery_receipt_digest = none;
  last_error_code = none;
  sent_at = none;
  updated_at = intent.created_at;
}

-- The branches behind the check of isolations, on the rows with the same dedupe key and identifier.
unfoldable pub enqueue_row : Intent → Option Row → Option Row → Store → Store × EnqueueResult
unfolding equivalent
enqueue_row intent (some row) same_id s =
    if equivalent row.intent intent
    then (s, exact_noop row.outbox_id row.status)
    else (s, dedupe_mismatch)
enqueue_row intent none (some _) s = (s, id_reuse)
enqueue_row intent none none s =
    (record s { rows = s.rows ++ new_row intent ∷ [] }, enqueued intent.outbox_id)

-- A database call that throws leaves the caller's transaction as it was before the call.
unfoldable pub enqueue : Bool → Intent → Option Fault → Store → Store × EnqueueResult
unfolding isolation_differs enqueue_row by_dedupe by_id
enqueue valid_intent intent fault s =
    if not s.is_transaction
    then (s, transaction_required)
    else if not valid_intent
    then (s, intent_invalid)
    else elim fault [
      | some busy ↦ (s, store_busy)
      | some other_error ↦ (s, store_error)
      | none ↦
          if isolation_differs s.isolations intent
          then (s, isolation_mismatch)
          else enqueue_row intent (by_dedupe intent.dedupe_key s.rows)
              (by_id intent.outbox_id s.rows) s
    ]
