-- ===== src/Tests/Outbox.antt =====
-- The outbox: a pending row, a row whose last lease has ended, and a row under a live lease.
use jenn_shooting_operations.Prelude.{
  ◌⊎◌, min, ℕ, ◌*◌, ◌≤◌, ◌≡◌, refl, true, false, String, none, some, List, [], ◌∷◌, All, length,
  arith,
}
use jenn_shooting_operations.Outbox.{
  Row, Intent, Status, pending, leased, retryable_failed, dead_letter, timeout, rate_limited,
}
use jenn_shooting_operations.Outbox.Policy.{
  max_attempts, retryable, retry_delay, asked, backoff, retry_delay_bounds, failure, card_sent,
}
use jenn_shooting_operations.Outbox.Opaque.{valid_opaque}
use jenn_shooting_operations.Outbox.Table.{has_id}
use jenn_shooting_operations.Outbox.Rows.{Pointwise, Unique}
use jenn_shooting_operations.Outbox.Repository.{Store, Item, claimed, claim_batch}
use jenn_shooting_operations.Outbox.Claimed.{ClaimChange, claim_batch-ClaimChange}
use jenn_shooting_operations.Outbox.Items.{Some, Holds, claim_batch-Holds}
use jenn_shooting_operations.Outbox.Soundness.{IsValid, claim_batch-IsValid}
use jenn_shooting_operations.Outbox.Settlement.{
  Call, Faults, mark_retry, settle_failed, settle_delivery, retry_scheduled,
}
use jenn_shooting_operations.Outbox.Settled.{SettleChange, settle_delivery-SettleChange}
use jenn_shooting_operations.Outbox.Outcomes.{
  settle_failed_retries, IsRetried, IsBuried, settle_delivery-IsValid,
}
use jenn_shooting_operations.Outbox.Enqueue.{new_row, enqueue, enqueued, exact_noop}
use jenn_shooting_operations.Outbox.Dedupe.{enqueue-IsValid, enqueue_twice}

abbrev intent_of : String → ℕ → Intent
intent_of id at = record {
  outbox_id = id;
  dedupe_key = id;
  intent_type = "schedule.confirmed.v1";
  aggregate_type = "schedule_item";
  aggregate_id = "item-1";
  route_key = "studio";
  aggregate_revision_scope = "schedule";
  aggregate_revision = 3;
  card_schema_version = "card-v1";
  delivery_policy_version = "outbox-dispatch-v1";
  payload_json = "{}";
  payload_digest = "sha256:00";
  created_at = at;
}

abbrev leased_row : String → ℕ → ℕ → Row
leased_row id attempts expires = record {
  intent = intent_of id 10;
  status = leased;
  attempt_count = attempts;
  available_at = none;
  lease_token = some "token-0";
  lease_owner = some "worker-0";
  lease_expires_at = some expires;
  provider_ref = none;
  delivery_receipt_digest = none;
  last_error_code = none;
  sent_at = none;
  updated_at = 10;
}

abbrev table : List Row
table = new_row (intent_of "a" 10) ∷ leased_row "b" 5 20 ∷ leased_row "c" 1 90000 ∷ []

abbrev store : Store
store = record { rows = table; isolations = []; is_transaction = false }

table-Unique : Unique table
unfolding has_id
table-Unique = (refl, (refl, (refl, tt)))

table-IsValid : IsValid table
table-IsValid = record { unique = table-Unique; sound = ground arith }

abbrev tokens : List String
tokens = "token-1" ∷ "token-2" ∷ []

abbrev after_claim : List Row
after_claim =
    record (leased_row "a" 1 30050) {
      lease_token = some "token-1";
      lease_owner = some "worker-1";
      updated_at = 50;
    }
    ∷ record (leased_row "b" 5 20) {
      status = dead_letter;
      lease_token = none;
      lease_owner = none;
      lease_expires_at = none;
      last_error_code = some jenn_shooting_operations.Outbox.delivery_outcome_unknown;
      updated_at = 50;
    }
    ∷ leased_row "c" 1 90000
    ∷ []

abbrev claimed_items : List Item
claimed_items = record { outbox_id = "a"; lease_token = "token-1"; attempt_count = 1 } ∷ []

claim_run :
    claim_batch "worker-1" 50 8 tokens none store
    ≡ (record store { rows = after_claim }, claimed claimed_items 1)
unfolding claim_batch valid_opaque
claim_run = refl

claim_batch-ClaimChange_example :
    Pointwise
      (ClaimChange [] "worker-1" 50)
      table
      (claim_batch "worker-1" 50 8 tokens none store).0.rows
claim_batch-ClaimChange_example =
    claim_batch-ClaimChange "worker-1" 50 8 tokens none store table-Unique

claim_batch-Holds_example :
    (length claimed_items ≤ 8)
    × All (λ item. Some (Holds "worker-1" 50 item) after_claim) claimed_items
claim_batch-Holds_example =
    claim_batch-Holds "worker-1" 50 8 tokens none store (record store { rows = after_claim })
      claimed_items 1 claim_run

claim_batch-IsValid_example : IsValid (claim_batch "worker-1" 50 8 tokens none store).0.rows
claim_batch-IsValid_example = claim_batch-IsValid "worker-1" 50 8 tokens none store table-IsValid

abbrev digest : Row → String → ℕ → String
digest r ref now = ref

abbrev call : Call
call = record { outbox_id = "c"; lease_token = "token-0"; result = failure timeout; now = 100 }

abbrev no_faults : Faults
no_faults = record { pragma = none; transaction = none; restore_failed = false }

settle_run : (settle_delivery digest call 0 no_faults store).1 ≡ retry_scheduled timeout 2100
unfolding settle_delivery valid_opaque retryable retry_delay
    jenn_shooting_operations.Outbox.Policy.normalize_result
settle_run = refl

settle_delivery-SettleChange_example :
    Pointwise
      (SettleChange digest call 0)
      table
      (settle_delivery digest call 0 no_faults store).0.rows
settle_delivery-SettleChange_example =
    settle_delivery-SettleChange digest call 0 no_faults store table-Unique

settle_delivery-IsValid_example : IsValid (settle_delivery digest call 0 no_faults store).0.rows
settle_delivery-IsValid_example =
    settle_delivery-IsValid digest call 0 no_faults store table-IsValid

settle_failed_run :
    settle_failed (leased_row "c" 1 90000) timeout none 0 100
    ≡ some (mark_retry timeout 2100 100, retry_scheduled timeout 2100)
unfolding settle_failed retryable retry_delay
settle_failed_run = refl

settle_failed_retries_example :
    IsRetried
      (leased_row "c" 1 90000)
      timeout
      none
      100
      (mark_retry timeout 2100 100 (leased_row "c" 1 90000))
      (retry_scheduled timeout 2100)
    ⊎ IsBuried
        (leased_row "c" 1 90000)
        timeout
        (mark_retry timeout 2100 100 (leased_row "c" 1 90000))
        (retry_scheduled timeout 2100)
settle_failed_retries_example =
    settle_failed_retries (leased_row "c" 1 90000) timeout none 0 100 (mark_retry timeout 2100 100)
      (retry_scheduled timeout 2100) (omega arith) settle_failed_run

retry_delay_bounds_example :
    (min (backoff 2) 300000 ≤ retry_delay rate_limited (some 9000) 2 77)
    × (asked rate_limited (some 9000) ≤ retry_delay rate_limited (some 9000) 2 77)
    × (retry_delay rate_limited (some 9000) 2 77 ≤ 300000)
    × ((4 * retry_delay rate_limited (some 9000) 2 77 ≤ 5 * backoff 2)
        ⊎ (4 * retry_delay rate_limited (some 9000) 2 77 ≤ 5 * asked rate_limited (some 9000)))
retry_delay_bounds_example =
    retry_delay_bounds rate_limited (some 9000) 2 77 (omega arith) (omega arith)

abbrev open_store : Store
open_store = record store { is_transaction = true }

enqueue_run : (enqueue true (intent_of "d" 60) none open_store).1 ≡ enqueued "d"
unfolding enqueue
enqueue_run = refl

enqueue_twice_example :
    enqueue true (intent_of "d" 60) none (enqueue true (intent_of "d" 60) none open_store).0
    ≡ ((enqueue true (intent_of "d" 60) none open_store).0, exact_noop "d" pending)
enqueue_twice_example = enqueue_twice (intent_of "d" 60) open_store "d" enqueue_run

enqueue-IsValid_example : IsValid (enqueue true (intent_of "d" 60) none open_store).0.rows
enqueue-IsValid_example = enqueue-IsValid true (intent_of "d" 60) none open_store table-IsValid
