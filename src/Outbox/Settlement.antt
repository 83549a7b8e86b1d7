-- ===== src/Outbox/Settlement.antt =====
-- `settleDelivery` and `performSettlement` of src/sqlite-outbox-repository-v1.mjs. `random` is the value
-- of the random source times 2 ^ 53. The digest of a receipt is taken by the argument
-- `receipt_digest` of the row, the provider's reference and the time.
use jenn_shooting_operations.Prelude.{
  ℕ, ◌^◌, Bool, false, ◌&&◌, not, String, Option, none, some, List, ltb, leb, ◌==◌, str_eq,
  if◌then◌else◌,
}
use jenn_shooting_operations.Outbox.{
  Row, leased, retryable_failed, sent, dead_letter, DeliveryError,
}
use jenn_shooting_operations.Outbox.Opaque.{valid_opaque}
use jenn_shooting_operations.Outbox.Policy.{
  max_attempts, AdapterResult, Delivery, delivered, failed, normalize_result, retryable,
  retry_delay,
}
use jenn_shooting_operations.Outbox.Table.{update_where, count_where, by_id, status_eq, until}
use jenn_shooting_operations.Outbox.Repository.{
  Store, Fault, busy, other_error, max_time, add_milliseconds,
}

pub data SettleResult : Type 0 where
  settled_sent : String → String → SettleResult
  retry_scheduled : DeliveryError → ℕ → SettleResult
  dead_lettered : DeliveryError → SettleResult
  settle_invalid not_found lease_mismatch lease_expired store_busy store_error : SettleResult

abbrev pub token_eq : Option String → String → Bool
token_eq none token = false
token_eq (some t) token = str_eq t token

-- `lease_expires_at <= now` as JavaScript compares: `null <= now` does not arise in a leased row.
abbrev pub holds_lease : String → String → Row → Bool
holds_lease outbox_id token r =
    str_eq r.outbox_id outbox_id && status_eq r.status leased && token_eq r.lease_token token

abbrev pub mark_sent : String → String → ℕ → Row → Row
mark_sent provider_ref digest now r = record r {
  status = sent;
  available_at = none;
  lease_token = none;
  lease_owner = none;
  lease_expires_at = none;
  provider_ref = some provider_ref;
  delivery_receipt_digest = some digest;
  last_error_code = none;
  sent_at = some now;
  updated_at = now;
}

abbrev pub mark_retry : DeliveryError → ℕ → ℕ → Row → Row
mark_retry code available_at now r = record r {
  status = retryable_failed;
  available_at = some available_at;
  lease_token = none;
  lease_owner = none;
  lease_expires_at = none;
  provider_ref = none;
  delivery_receipt_digest = none;
  last_error_code = some code;
  sent_at = none;
  updated_at = now;
}

abbrev pub mark_dead : DeliveryError → ℕ → Row → Row
mark_dead code now r = record r {
  status = dead_letter;
  available_at = none;
  lease_token = none;
  lease_owner = none;
  lease_expires_at = none;
  provider_ref = none;
  delivery_receipt_digest = none;
  last_error_code = some code;
  sent_at = none;
  updated_at = now;
}

-- The change of the row and the result. `none` is an exception: a random value out of range, or a
-- retry past the last instant of a `Date`.
unfoldable pub settle_failed :
    Row → DeliveryError → Option ℕ → ℕ → ℕ → Option ((Row → Row) × SettleResult)
unfolding add_milliseconds
settle_failed row code retry_after_ms random now =
    if retryable code && ltb row.attempt_count max_attempts
    then (if ltb random (2 ^ 53)
        then elim (add_milliseconds now
            (retry_delay code retry_after_ms row.attempt_count random)) [
              | none ↦ none
              | some available_at ↦
                  some (mark_retry code available_at now, retry_scheduled code available_at)
            ]
        else none)
    else some (mark_dead code now, dead_lettered code)

pub record Call : Type 0 where
  pub outbox_id : String
  pub lease_token : String
  pub result : AdapterResult
  pub now : ℕ

-- The calls that set `PRAGMA busy_timeout` before the transaction and restore it behind.
pub record Faults : Type 0 where
  pub pragma : Option Fault
  pub transaction : Option Fault
  pub restore_failed : Bool

abbrev settle_fault : Fault → SettleResult
settle_fault busy = store_busy
settle_fault other_error = store_error

module _ (receipt_digest : Row → String → ℕ → String) where
  unfoldable pub settle_row : Row → Delivery → ℕ → ℕ → Option ((Row → Row) × SettleResult)
  unfolding settle_failed
  settle_row row (delivered provider_ref) random now =
      let digest = receipt_digest row provider_ref now in
      some (mark_sent provider_ref digest now, settled_sent provider_ref digest)
  settle_row row (failed code retry_after_ms) random now =
      settle_failed row code retry_after_ms random now

  -- The update, whose compare-and-swap has to change one row.
  unfoldable pub settle_update :
      String → String → List Row → Option ((Row → Row) × SettleResult) → List Row × SettleResult
  unfolding update_where count_where
  settle_update outbox_id token rows none = (rows, store_error)
  settle_update outbox_id token rows (some (change, result)) =
      if count_where (holds_lease outbox_id token) rows == 1
      then (update_where (holds_lease outbox_id token) change rows, result)
      else (rows, store_error)

  unfoldable pub settle_found :
      String → String → AdapterResult → ℕ → ℕ → List Row → Option Row → List Row × SettleResult
  unfolding settle_row settle_update
  settle_found outbox_id token result random now rows none = (rows, not_found)
  settle_found outbox_id token result random now rows (some row) =
      if status_eq row.status leased && token_eq row.lease_token token
      then (if until row.lease_expires_at now
          then (rows, lease_expired)
          else settle_update outbox_id token rows
              (settle_row row (normalize_result result) random now))
      else (rows, lease_mismatch)

  unfoldable pub perform_settlement : Call → ℕ → Option Fault → Store → Store × SettleResult
  unfolding settle_found by_id
  perform_settlement c random (some f) s = (s, settle_fault f)
  perform_settlement c random none s =
      let (rows, result) =
        settle_found c.outbox_id c.lease_token c.result random c.now s.rows
          (by_id c.outbox_id s.rows) in
      (record s { rows = rows }, result)

  -- A failure to restore the timeout hides the result, and what was settled stays settled.
  unfoldable pub settle_pragma : Call → ℕ → Faults → Store → Store × SettleResult
  unfolding perform_settlement
  settle_pragma c random faults s = elim faults.pragma [
    | some f ↦ (s, settle_fault f)
    | none ↦
        let (s', result) = perform_settlement c random faults.transaction s in
        (s', if faults.restore_failed then store_error else result)
  ]

  unfoldable pub settle_delivery : Call → ℕ → Faults → Store → Store × SettleResult
  unfolding settle_pragma
  settle_delivery c random faults s =
      if not s.is_transaction
        && valid_opaque c.outbox_id 160
        && valid_opaque c.lease_token 128
        && leb c.now max_time
      then settle_pragma c random faults s
      else (s, settle_invalid)
