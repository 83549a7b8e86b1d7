-- ===== src/Outbox/Repository.antt =====
-- `createSqliteOutboxRepositoryV1` of src/sqlite-outbox-repository-v1.mjs. A database call that throws
-- rolls the transaction back; the first such call is the argument `fault`, for whichever statement it
-- is. `tokens` are the values of `tokenFactory`, in their order.
use jenn_shooting_operations.Prelude.{
  ℕ, ◌+◌, ◌-◌, Bool, false, ◌&&◌, ◌||◌, not, String, Option, none, some, List, [], ◌∷◌, leb, ◌==◌,
  str_eq, if◌then◌else◌,
}
use jenn_shooting_operations.Timestamp.{epoch_offset}
use jenn_shooting_operations.Outbox.{
  Row, pending, leased, retryable_failed, dead_letter, delivery_outcome_unknown,
}
use jenn_shooting_operations.Outbox.Policy.{batch_size, lease_duration_ms, max_attempts}
use jenn_shooting_operations.Outbox.Opaque.{valid_opaque}
use jenn_shooting_operations.Outbox.Table.{
  update_where, count_where, select, order_by, take, has_id, status_eq, until, due_at, due_key,
}

-- A row of gf15_outbox_isolation or of kiosk_smoke_outbox_isolation.
pub record Isolation : Type 0 where
  pub outbox_id : String
  pub intent_type : String
  pub payload_digest : String

pub record Store : Type 0 where
  pub rows : List Row
  pub isolations : List Isolation
  pub is_transaction : Bool

pub data Fault : Type 0 where
  busy other_error : Fault

pub record Item : Type 0 where
  pub outbox_id : String
  pub lease_token : String
  pub attempt_count : ℕ

pub data ClaimResult : Type 0 where
  claimed : List Item → ℕ → ClaimResult
  claim_invalid store_busy store_error : ClaimResult

unfoldable pub isolated : List Isolation → String → Bool
isolated [] id = false
isolated (i ∷ is) id = str_eq i.outbox_id id || isolated is id

-- The rows whose last attempt was leased and whose lease has ended.
abbrev pub expired_final : ℕ → Row → Bool
expired_final now r =
    status_eq r.status leased && r.attempt_count == max_attempts && until r.lease_expires_at now

abbrev pub bury : ℕ → Row → Row
bury now r = record r {
  status = dead_letter;
  available_at = none;
  lease_token = none;
  lease_owner = none;
  lease_expires_at = none;
  last_error_code = some delivery_outcome_unknown;
  updated_at = now;
}

-- The statuses and attempts of the query for eligible rows.
abbrev pub ready : ℕ → Row → Bool
ready now r =
    status_eq r.status pending && r.attempt_count == 0 && until r.available_at now
    || status_eq r.status retryable_failed
      && leb 1 r.attempt_count
      && leb r.attempt_count (max_attempts - 1)
      && until r.available_at now
    || status_eq r.status leased
      && leb 1 r.attempt_count
      && leb r.attempt_count (max_attempts - 1)
      && until r.lease_expires_at now

unfoldable pub eligible : List Isolation → ℕ → Row → Bool
unfolding isolated
eligible isolations now r = not (isolated isolations r.outbox_id) && ready now r

-- The condition of the compare-and-swap that claims the selected row `q`.
abbrev pub claims : Row → ℕ → Row → Bool
claims q now r =
    str_eq r.outbox_id q.outbox_id
    && status_eq r.status q.status
    && r.attempt_count == q.attempt_count
    && until (due_at r) now

abbrev pub lease : String → String → ℕ → Row → Row
lease token worker now r = record r {
  status = leased;
  attempt_count = r.attempt_count + 1;
  available_at = none;
  lease_token = some token;
  lease_owner = some worker;
  lease_expires_at = some (now + lease_duration_ms);
  provider_ref = none;
  delivery_receipt_digest = none;
  last_error_code = none;
  sent_at = none;
  updated_at = now;
}

-- The loop over the eligible rows; `none` is the exception that ends it.
unfoldable pub claim_rows :
    String → ℕ → List Row → List String → List Row → Option (List Row × List Item)
unfolding update_where count_where
claim_rows worker now [] tokens rows = some (rows, [])
claim_rows worker now (q ∷ qs) [] rows = none
claim_rows worker now (q ∷ qs) (token ∷ tokens) rows =
    let rest =
      claim_rows worker now qs tokens (update_where (claims q now) (lease token worker now) rows) in
    if valid_opaque token 128 && count_where (claims q now) rows == 1
    then elim rest [
      | none ↦ none
      | some (rows', items) ↦ some (
        rows',
        record { outbox_id = q.outbox_id; lease_token = token; attempt_count = q.attempt_count + 1 }
            ∷ items,
      )
    ]
    else none

-- `BEGIN IMMEDIATE` to `COMMIT` of `claimBatch`, on the rows.
unfoldable pub claim_transaction :
    String → ℕ → ℕ → List String → List Isolation → List Row → Option (List Row × List Item × ℕ)
unfolding eligible select order_by take has_id claim_rows
claim_transaction worker now limit tokens isolations rows =
    let final = take limit (order_by due_key (select (expired_final now) rows)) in
    let is_final = λ (r : Row). has_id r.outbox_id final in
    let buried = update_where is_final (bury now) rows in
    let chosen = take limit (order_by due_key (select (eligible isolations now) buried)) in
    elim (claim_rows worker now chosen tokens buried) [
      | none ↦ none
      | some (rows', items) ↦ some (rows', items, count_where is_final rows)
    ]

-- The last instant of a `Date`.
abbrev pub max_time : ℕ
max_time = epoch_offset + 8640000000000000

unfoldable pub add_milliseconds : ℕ → ℕ → Option ℕ
add_milliseconds t ms = if leb (t + ms) max_time then some (t + ms) else none

abbrev claim_fault : Fault → ClaimResult
claim_fault busy = store_busy
claim_fault other_error = store_error

unfoldable pub claim_committed :
    Store → Option Fault → Option (List Row × List Item × ℕ) → Store × ClaimResult
claim_committed s (some f) changes = (s, claim_fault f)
claim_committed s none none = (s, store_error)
claim_committed s none (some (rows, items, buried)) =
    (record s { rows = rows }, claimed items buried)

-- `claimBatch({ workerId, now, limit })`
unfoldable pub claim_batch :
    String → ℕ → ℕ → List String → Option Fault → Store → Store × ClaimResult
unfolding claim_committed claim_transaction
claim_batch worker now limit tokens fault s =
    if not s.is_transaction
      && valid_opaque worker 128
      && leb now max_time
      && leb 1 limit
      && leb limit batch_size
      && leb (now + lease_duration_ms) max_time
    then claim_committed s fault (claim_transaction worker now limit tokens s.isolations s.rows)
    else (s, claim_invalid)
