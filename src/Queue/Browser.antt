-- ===== src/Queue/Browser.antt =====
-- `createBrowserQueueStorage` of public/kiosk-offline-queue-v2.js. The storage of the browser is a list of
-- keys and values; a value is the JSON document of its text, `none` where the text is none.
pub mod Keys
pub mod Records
pub mod Frames
pub mod Order
pub mod Removal
use jenn_shooting_operations.Prelude.{
  ℕ, suc, ◌+◌, max, Bool, true, false, ◌&&◌, ◌||◌, not, String, str_eq, Option, none, some, List,
  [], ◌∷◌, ◌++◌, leb, ◌==◌, if◌then◌else◌,
}
use jenn_shooting_operations.Json.{Json, has, same_value, get, text}
use jenn_shooting_operations.Queue.Values.{Protocol}
use jenn_shooting_operations.Queue.Items.{event_id, local_sequence, same_item}
use jenn_shooting_operations.Queue.State.{
  SyncStatus, conflict, needs_review, State, Stored, missing, malformed, stored, Cache,
  initial_state, validate_queue_state, is_blocked,
}
use jenn_shooting_operations.Queue.Storage.{Storage}
use jenn_shooting_operations.Json.{number_of}
use Keys.{
  Key, meta_key, item_key, sequence_key, terminal_key, LocalStorage, get_item, remove_item,
  put_item,
}
use Records.{marker_json, terminal_json, meta_json, load_from_records, read_terminal}

unfoldable pub event_ids : List Json → List String
unfolding event_id
event_ids [] = []
event_ids (item ∷ items) = event_id item ∷ event_ids items

abbrev pub key_of : Json → Key
key_of item = item_key (local_sequence item) (event_id item)

-- The items of the base that the next state does not have are removed.
unfoldable pub remove_gone : List String → List Json → LocalStorage → LocalStorage
unfolding has event_id local_sequence remove_item
remove_gone next_ids [] store = store
remove_gone next_ids (item ∷ items) store = remove_gone next_ids items (
    if has next_ids (event_id item)
    then store
    else remove_item (terminal_key (event_id item)) (remove_item (key_of item) store))

-- `setItem` throws where the storage is full; `fits` is whether it is not.
module _ (fits : LocalStorage → Bool) where
  unfoldable pub set_item : Key → Json → LocalStorage → LocalStorage × Bool
  unfolding put_item
  set_item key value store =
      let store' = put_item key (some value) store in
      if fits store' then (store', true) else (store, false)

  -- Where there is no such key it is set, where there is one it is checked. `false` is an exception.
  abbrev pub set_or_check :
      Key → Json → (Json → Bool) → LocalStorage → Option (Option Json) → LocalStorage × Bool
  set_or_check key value check store none = set_item key value store
  set_or_check key value check store (some none) = (store, false)
  set_or_check key value check store (some (some old)) = (store, check old)

  -- The next step, where no exception came before.
  abbrev pub then_do :
      LocalStorage × Bool → (LocalStorage → LocalStorage × Bool) → LocalStorage × Bool
  then_do (store, true) next = next store
  then_do (store, false) next = (store, false)

  unfoldable pub add_item : Json → LocalStorage → LocalStorage × Bool
  unfolding set_item get_item same_value get same_item event_id local_sequence
  add_item item store =
      then_do
        (set_or_check (sequence_key (local_sequence item)) (marker_json item)
          (λ old. same_value (get old "eventId") (get item "eventId")) store
          (get_item (sequence_key (local_sequence item)) store))
        (λ store'.
          set_or_check (key_of item) item (λ old. same_item old item) store'
            (get_item (key_of item) store'))

  unfoldable pub add_new : List String → List Json → LocalStorage → LocalStorage × Bool
  unfolding has add_item event_id
  add_new base_ids [] store = (store, true)
  add_new base_ids (item ∷ items) store =
      then_do (if has base_ids (event_id item) then (store, true) else add_item item store)
        (add_new base_ids items)

  abbrev pub first_id : List Json → Option String
  first_id [] = none
  first_id (item ∷ items) = some (event_id item)

  abbrev pub same_id : Option String → Option String → Bool
  same_id (some a) (some b) = str_eq a b
  same_id _ _ = false

  -- The cache with the greater revision.
  unfoldable pub newer_cache : Option Cache → Option Cache → Option Cache
  newer_cache none next = next
  newer_cache (some c) none = some c
  newer_cache (some c) (some d) =
      if leb (number_of c.projection_revision) (number_of d.projection_revision)
      then some d
      else some c

  -- The mark is written once, for the head. A mark that cannot be read throws.
  abbrev pub mark :
      Json → SyncStatus → LocalStorage → Option (Option SyncStatus) → LocalStorage × Bool
  mark head status store none = (store, false)
  mark head status store (some (some old)) = (store, true)
  mark head status store (some none) =
      set_item (terminal_key (event_id head)) (terminal_json head status) store

  abbrev pub mark_terminal : State → List Json → LocalStorage → LocalStorage × Bool
  mark_terminal next [] store = (store, true)
  mark_terminal next (head ∷ items) store =
      if is_blocked next.sync_status && same_id (first_id (head ∷ items)) (first_id next.items)
      then mark head next.sync_status store (read_terminal (head ∷ items) store)
      else (store, true)

  unfoldable pub write_meta : State → State → LocalStorage → LocalStorage × Bool
  unfolding set_item newer_cache
  write_meta next current store =
      set_item meta_key
        (meta_json (max current.next_local_sequence next.next_local_sequence)
          (newer_cache current.cache next.cache))
        store

  abbrev pub or_initial : Stored → Stored
  or_initial missing = stored initial_state
  or_initial malformed = malformed
  or_initial (stored s) = stored s

  abbrev pub reread : LocalStorage → Option Stored → LocalStorage × Option Stored
  reread store none = (store, none)
  reread store (some s) = (store, some (or_initial s))

  abbrev pub reloaded : Protocol → LocalStorage × Bool → LocalStorage × Option Stored
  reloaded p (store, false) = (store, none)
  reloaded p (store, true) = reread store (load_from_records p store)

  -- The marks and the meta record, over what is held after the items.
  unfoldable pub finish :
      Protocol → State → LocalStorage → Option Stored → LocalStorage × Option Stored
  unfolding read_terminal set_item write_meta load_from_records event_id
  finish p next store none = (store, none)
  finish p next store (some malformed) = (store, none)
  finish p next store (some missing) = reloaded p (write_meta next initial_state store)
  finish p next store (some (stored current)) =
      reloaded p (then_do (mark_terminal next current.items store) (write_meta next current))

  abbrev pub with_items : Protocol → State → LocalStorage × Bool → LocalStorage × Option Stored
  with_items p next (store, false) = (store, none)
  with_items p next (store, true) = finish p next store (load_from_records p store)

  unfoldable pub browser_commit :
      Protocol → LocalStorage → State → State → LocalStorage × Option Stored
  unfolding validate_queue_state event_ids remove_gone add_new finish load_from_records
  browser_commit p store base next =
      if validate_queue_state p base && validate_queue_state p next
      then with_items p next (
          add_new (event_ids base.items) next.items
            (remove_gone (event_ids next.items) base.items store))
      else (store, none)

  abbrev pub browser_storage : Protocol → Storage
  browser_storage p = record {
    Store = LocalStorage;
    load = load_from_records p;
    commit = browser_commit p;
  }
