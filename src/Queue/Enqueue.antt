-- ===== src/Queue/Enqueue.antt =====
-- `enqueue` of public/kiosk-offline-queue-v2.js: an event is kept before it is sent.
use jenn_shooting_operations.Prelude.{◌+◌, not, [], ◌∷◌, ◌++◌, ◌==◌}
use jenn_shooting_operations.Prelude.Results.{Result, ok, err, ensure, ◌>>=◌}
use jenn_shooting_operations.Json.{Json}
use jenn_shooting_operations.Run.Fold.{max_safe_integer}
use jenn_shooting_operations.Queue.Values.{Protocol}
use jenn_shooting_operations.Queue.Items.{valid_item, event_id, local_sequence}
use jenn_shooting_operations.Queue.State.{
  State, pending, is_blocked, Failure, queue_replay_blocked, invalid_queue_item,
  local_sequence_mismatch, duplicate_event_id, local_sequence_exhausted,
}
use jenn_shooting_operations.Queue.Storage.{Storage, load_state, commit_state, contains}

-- The state with the item behind the others.
abbrev pub appended : State → Json → State
appended s item = record s {
  next_local_sequence = s.next_local_sequence + 1;
  sync_status = pending;
  items = s.items ++ item ∷ [];
}

-- The checks before the item is kept.
unfoldable pub admissible : Protocol → State → Json → Result Failure State
unfolding valid_item local_sequence event_id contains
admissible p s item = do
  _ ← ensure (not (is_blocked s.sync_status)) (queue_replay_blocked s.sync_status)
  _ ← ensure (valid_item p item) invalid_queue_item
  _ ←
      ensure (local_sequence item == s.next_local_sequence)
        (local_sequence_mismatch s.next_local_sequence)
  _ ← ensure (not (contains s.items (event_id item))) duplicate_event_id
  _ ← ensure (not (s.next_local_sequence == max_safe_integer)) local_sequence_exhausted
  ok s

module _ (S : Storage) (p : Protocol) where
  abbrev pub keep : S.Store → Json → Result Failure State → S.Store × Result Failure State
  keep store item (err f) = (store, err f)
  keep store item (ok s) = commit_state S p store s (appended s item)

  unfoldable pub enqueue : S.Store → Json → S.Store × Result Failure State
  unfolding load_state admissible commit_state
  enqueue store item = keep store item (load_state S p store >>= λ s. admissible p s item)
