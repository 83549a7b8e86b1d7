-- ===== src/Queue/State.antt =====
-- The state of the queue: `validateQueueState`, `initialState` and `outcome` of
-- public/kiosk-offline-queue-v2.js.
use jenn_shooting_operations.Prelude.{
  ℕ, ◌+◌, Bool, true, false, ◌&&◌, not, String, Option, none, some, List, [], ◌∷◌, leb, ◌==◌,
}
use jenn_shooting_operations.Json.{Json, has, valid_revision}
use jenn_shooting_operations.Run.Fold.{max_safe_integer}
use jenn_shooting_operations.Queue.Values.{Protocol, valid_timestamp}
use jenn_shooting_operations.Queue.Items.{valid_item, event_id, local_sequence}

pub data SyncStatus : Type 0 where
  synced pending conflict needs_review : SyncStatus

pub record Cache : Type 0 where
  pub projection_revision : Json
  pub last_synced_at : Json

pub record State : Type 0 where
  pub next_local_sequence : ℕ
  pub sync_status : SyncStatus
  pub items : List Json
  pub cache : Option Cache

-- What a storage holds. `malformed` is a value with other keys, or a field of another type.
pub data Stored : Type 0 where
  missing malformed : Stored
  stored : State → Stored

unfoldable pub valid_cache : Option Cache → Bool
unfolding valid_timestamp valid_revision
valid_cache none = true
valid_cache (some c) = valid_revision c.projection_revision && valid_timestamp c.last_synced_at

-- Where there are no items, and only there, all is synced.
unfoldable pub status_fits : SyncStatus → List Json → Bool
status_fits synced [] = true
status_fits synced (i ∷ is) = false
status_fits _ [] = false
status_fits _ (i ∷ is) = true

abbrev pub comes_after : Option ℕ → ℕ → Bool
comes_after none n = true
comes_after (some prior) n = n == prior + 1

-- The loop over the items, which begins with the events that were seen and the sequence number before;
-- at the end the next number of the state follows the last one.
unfoldable pub valid_items : Protocol → List String → Option ℕ → ℕ → List Json → Bool
unfolding valid_item event_id local_sequence has
valid_items p seen prior next [] = comes_after prior next
valid_items p seen prior next (item ∷ items) =
    valid_item p item
    && not (has seen (event_id item))
    && comes_after prior (local_sequence item)
    && valid_items p (event_id item ∷ seen) (some (local_sequence item)) next items

unfoldable pub validate_queue_state : Protocol → State → Bool
unfolding valid_cache status_fits valid_items
validate_queue_state p s =
    leb s.next_local_sequence max_safe_integer
    && valid_cache s.cache
    && status_fits s.sync_status s.items
    && valid_items p [] none s.next_local_sequence s.items

abbrev pub initial_state : State
initial_state = record { next_local_sequence = 0; sync_status = synced; items = []; cache = none }

abbrev pub is_blocked : SyncStatus → Bool
is_blocked synced = false
is_blocked pending = false
is_blocked conflict = true
is_blocked needs_review = true

-- The codes of failures, with their details.
pub data Failure : Type 0 where
  queue_state_invalid queue_storage_write_failed invalid_queue_item duplicate_event_id : Failure
  local_sequence_exhausted invalid_resource_id invalid_client_time : Failure
  queue_replay_blocked : SyncStatus → Failure
  local_sequence_mismatch : ℕ → Failure

pub data ServerStatus : Type 0 where
  not_refreshed unchanged : ServerStatus
  unavailable : Option ℕ → ServerStatus
  fresh : Json → ServerStatus
  refused : ServerStatus → ℕ → ServerStatus

-- `{ ok: true, ... }`; `pendingCount` is the length of the items.
pub record Outcome : Type 0 where
  pub state : State
  pub server_status : ServerStatus
  pub processed : ℕ
  pub stop_code : Option String
