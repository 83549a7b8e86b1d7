-- ===== src/Queue/Storage.antt =====
-- The storage that the queue is given, and what it calls of it: `loadState`, `commitState` and
-- `reloadHead` of public/kiosk-offline-queue-v2.js.
use jenn_shooting_operations.Prelude.{
  Bool, true, false, String, str_eq, Option, none, some, List, [], ◌∷◌, ◌||◌, if◌then◌else◌,
}
use jenn_shooting_operations.Prelude.Results.{Result, ok, err, ◌>>=◌}
use jenn_shooting_operations.Json.{Json}
use jenn_shooting_operations.Queue.Values.{Protocol}
use jenn_shooting_operations.Queue.Items.{event_id, same_item}
use jenn_shooting_operations.Queue.State.{
  State, Stored, missing, malformed, stored, initial_state, validate_queue_state, Failure,
  queue_state_invalid, queue_storage_write_failed,
}

-- `load` and `commit` of a base and a next state; `none` is an exception, after which the storage may
-- have changed.
pub record Storage : Type 1 where
  pub Store : Type 0
  pub load : Store → Option Stored
  pub commit : Store → State → State → Store × Option Stored

-- What is valid, of what is held.
unfoldable pub admit : Protocol → Stored → Result Failure State
unfolding validate_queue_state
admit p missing = err queue_state_invalid
admit p malformed = err queue_state_invalid
admit p (stored s) = if validate_queue_state p s then ok s else err queue_state_invalid

abbrev pub loaded : Protocol → Option Stored → Result Failure State
loaded p none = err queue_state_invalid
loaded p (some missing) = ok initial_state
loaded p (some malformed) = err queue_state_invalid
loaded p (some (stored s)) = admit p (stored s)

abbrev pub committed : Protocol → Option Stored → Result Failure State
committed p none = err queue_storage_write_failed
committed p (some s) = admit p s

unfoldable pub contains : List Json → String → Bool
unfolding event_id
contains [] id = false
contains (item ∷ items) id = str_eq (event_id item) id || contains items id

-- The state, and whether the head that was submitted is still in it.
unfoldable pub find_head : State → Json → List Json → Result Failure (State × Bool)
unfolding event_id same_item contains
find_head s head [] = ok (s, false)
find_head s head (item ∷ items) =
    if str_eq (event_id item) (event_id head)
    then (if same_item item head then ok (s, true) else err queue_state_invalid)
    else if contains items (event_id head)
    then err queue_state_invalid
    else ok (s, false)

module _ (S : Storage) (p : Protocol) where
  unfoldable pub load_state : S.Store → Result Failure State
  unfolding admit
  load_state store = loaded p (S.load store)

  unfoldable pub commit_state : S.Store → State → State → S.Store × Result Failure State
  unfolding validate_queue_state admit
  commit_state store base next =
      let (store', answer) = S.commit store base next in
      if validate_queue_state p next
      then (store', committed p answer)
      else (store, err queue_state_invalid)

  unfoldable pub reload_head : S.Store → Json → Result Failure (State × Bool)
  unfolding load_state find_head
  reload_head store head = do s ← load_state store; find_head s head s.items
