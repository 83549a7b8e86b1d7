-- ===== src/Outbox.antt =====
-- The transactional outbox of notifications: its rows, the results of the DingTalk port, and the
-- policy of retries. src/outbox-contract-v1.mjs, src/dingtalk-port-v1.mjs and the table
-- notification_outbox that src/sqlite-outbox-repository-v1.mjs works on. A timestamp is its time value
-- in milliseconds: the columns hold canonical UTC timestamps, whose text order is the order of time.
pub mod Policy
pub mod Table
pub mod Opaque
pub mod Rows
pub mod Selections
pub mod Repository
pub mod Claims
pub mod Claimed
pub mod Soundness
pub mod Settlement
pub mod Enqueue
pub mod Settled
pub mod Outcomes
pub mod Dedupe
pub mod Items
pub mod Dispatcher
pub mod Worker
pub mod Timing
pub mod Working
use jenn_shooting_operations.Prelude.{ℕ, String, Option, Bool, true, false}

pub data Status : Type 0 where
  pending leased retryable_failed sent dead_letter : Status

-- The failures that an adapter may report, and the two that the outbox adds.
pub data DeliveryError : Type 0 where
  timeout rate_limited unavailable transport_error : DeliveryError
  not_configured auth_rejected request_rejected response_invalid adapter_protocol_error :
      DeliveryError
  delivery_outcome_unknown : DeliveryError

-- A notification intent.
pub record Intent : Type 0 where
  pub outbox_id : String
  pub dedupe_key : String
  pub intent_type : String
  pub aggregate_type : String
  pub aggregate_id : String
  pub route_key : String
  pub aggregate_revision_scope : String
  pub aggregate_revision : ℕ
  pub card_schema_version : String
  pub delivery_policy_version : String
  pub payload_json : String
  pub payload_digest : String
  pub created_at : ℕ

-- A row of notification_outbox. The columns of the intent are one field.
pub record Row : Type 0 where
  pub intent : Intent
  pub open intent use {outbox_id, dedupe_key, created_at}
  pub status : Status
  pub attempt_count : ℕ
  pub available_at : Option ℕ
  pub lease_token : Option String
  pub lease_owner : Option String
  pub lease_expires_at : Option ℕ
  pub provider_ref : Option String
  pub delivery_receipt_digest : Option String
  pub last_error_code : Option DeliveryError
  pub sent_at : Option ℕ
  pub updated_at : ℕ
