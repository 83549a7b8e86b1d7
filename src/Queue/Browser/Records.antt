-- ===== src/Queue/Browser/Records.antt =====
-- The records of the queue in the storage of the browser, and how they are read.
use jenn_shooting_operations.Prelude.{
  ℕ, ◌+◌, max, Bool, true, false, ◌&&◌, ◌||◌, not, String, str_eq, Option, none, some, List, [],
  ◌∷◌, ltb, ◌==◌, if◌then◌else◌,
}
use jenn_shooting_operations.Prelude.Options.{◌>>=◌, guard}
use jenn_shooting_operations.Prelude.Sorting.{sort_onto}
use jenn_shooting_operations.Json.{
  Json, null, text, number, object, member, done, get, is_number, is_text, exact_keys,
  valid_revision, valid_event_id, number_of, text_of,
}
use jenn_shooting_operations.Queue.Values.{Protocol}
use jenn_shooting_operations.Queue.Items.{valid_item, event_id, local_sequence}
use jenn_shooting_operations.Queue.State.{
  SyncStatus, synced, pending, conflict, needs_review, Stored, missing, stored, Cache, valid_cache,
}
use jenn_shooting_operations.Queue.Browser.Keys.{
  meta_key, item_key, sequence_key, terminal_key, odd_item_key, odd_sequence_key, LocalStorage,
  get_item,
}

abbrev pub marker_json : Json → Json
marker_json item = object (
    member "schemaVersion" (number 2) (
      member "localSequence" (get item "localSequence")
        (member "eventId" (get item "eventId") done)))

abbrev pub status_text : SyncStatus → String
status_text synced = "synced"
status_text pending = "pending"
status_text conflict = "conflict"
status_text needs_review = "reviewRequired"

abbrev pub terminal_json : Json → SyncStatus → Json
terminal_json item status = object (
    member "schemaVersion" (number 2) (
      member "eventId" (get item "eventId") (member "syncStatus" (text (status_text status)) done)))

abbrev pub cache_json : Option Cache → Json
cache_json none = null
cache_json (some c) = object (
    member "projectionRevision" c.projection_revision (member "lastSyncedAt" c.last_synced_at done))

abbrev pub meta_json : ℕ → Option Cache → Json
meta_json next cache = object (
    member "schemaVersion" (number 2)
      (member "nextLocalSequence" (number next) (member "cache" (cache_json cache) done)))

abbrev pub Markers : Type 0
Markers = List (ℕ × String)

unfoldable pub marker_of : Markers → ℕ → Option String
marker_of [] n = none
marker_of ((m, id) ∷ markers) n = let rest = marker_of markers n in if m == n then some id else rest

unfoldable pub has_marked : Markers → String → Bool
has_marked [] id = false
has_marked ((m, x) ∷ markers) id = str_eq x id || has_marked markers id

abbrev pub is_unmarked : Option String → Bool
is_unmarked none = true
is_unmarked (some id) = false

abbrev pub marker_keys : List String
marker_keys = "schemaVersion" ∷ "localSequence" ∷ "eventId" ∷ []

-- A marker at the key of a sequence number, beside those that were read.
unfoldable pub read_marker : Markers → ℕ → Option Json → Option Markers
unfolding exact_keys get is_number valid_revision valid_event_id marker_of has_marked
read_marker markers n none = none
read_marker markers n (some value) = do
  _ ← guard (
      exact_keys value marker_keys marker_keys
      && is_number (get value "schemaVersion") 2
      && valid_revision (get value "localSequence")
      && valid_event_id (get value "eventId")
      && is_number (get value "localSequence") n
      && is_unmarked (marker_of markers n)
      && not (has_marked markers (text_of (get value "eventId"))))
  some ((n, text_of (get value "eventId")) ∷ markers)

-- `none` is an exception.
unfoldable pub read_markers : Markers → LocalStorage → Option Markers
unfolding read_marker
read_markers markers [] = some markers
read_markers markers ((sequence_key n, value) ∷ store) =
    read_marker markers n value >>= λ markers'. read_markers markers' store
read_markers markers ((odd_sequence_key k, value) ∷ store) = none
read_markers markers ((_, value) ∷ store) = read_markers markers store

abbrev pub is_marked : Option String → String → Bool
is_marked none id = false
is_marked (some x) id = str_eq x id

-- The item at a key of an item.
unfoldable pub read_item : Protocol → Markers → ℕ → String → Option Json → Option Json
unfolding valid_item local_sequence event_id marker_of
read_item p markers n id none = none
read_item p markers n id (some item) = do
  _ ← guard (
      valid_item p item
      && (local_sequence item == n && str_eq (event_id item) id)
      && is_marked (marker_of markers (local_sequence item)) (event_id item))
  some item

unfoldable pub read_items : Protocol → Markers → LocalStorage → Option (List Json)
unfolding read_item
read_items p markers [] = some []
read_items p markers ((item_key n id, value) ∷ store) = do
  item ← read_item p markers n id value
  items ← read_items p markers store
  some (item ∷ items)
read_items p markers ((odd_item_key k, value) ∷ store) = none
read_items p markers ((_, value) ∷ store) = read_items p markers store

pub record Meta : Type 0 where
  pub next_local_sequence : ℕ
  pub cache : Option Cache

abbrev pub cache_keys : List String
cache_keys = "projectionRevision" ∷ "lastSyncedAt" ∷ []

unfoldable pub parse_cache : Json → Option (Option Cache)
unfolding exact_keys get valid_cache
parse_cache null = some none
parse_cache value = do
  let cache = some (record {
    projection_revision = get value "projectionRevision";
    last_synced_at = get value "lastSyncedAt";
  })
  _ ← guard (exact_keys value cache_keys cache_keys && valid_cache cache)
  some cache

abbrev pub meta_keys : List String
meta_keys = "schemaVersion" ∷ "nextLocalSequence" ∷ "cache" ∷ []

unfoldable pub parse_meta : Option (Option Json) → Option (Option Meta)
unfolding exact_keys get is_number valid_revision parse_cache
parse_meta none = some none
parse_meta (some none) = none
parse_meta (some (some value)) = do
  _ ← guard (
      exact_keys value meta_keys meta_keys
      && is_number (get value "schemaVersion") 2
      && valid_revision (get value "nextLocalSequence"))
  cache ← parse_cache (get value "cache")
  some (
      some
        (record { next_local_sequence = number_of (get value "nextLocalSequence"); cache = cache }))

abbrev pub terminal_keys : List String
terminal_keys = "schemaVersion" ∷ "eventId" ∷ "syncStatus" ∷ []

abbrev pub terminal_status : Json → Option SyncStatus
terminal_status (text s) =
    if str_eq s "conflict"
    then some conflict
    else if str_eq s "reviewRequired"
    then some needs_review
    else none
terminal_status _ = none

unfoldable pub parse_terminal : Json → Option (Option Json) → Option (Option SyncStatus)
unfolding exact_keys get is_number is_text event_id
parse_terminal item none = some none
parse_terminal item (some none) = none
parse_terminal item (some (some value)) = do
  _ ← guard (
      exact_keys value terminal_keys terminal_keys
      && is_number (get value "schemaVersion") 2
      && is_text (get value "eventId") (event_id item))
  status ← terminal_status (get value "syncStatus")
  some (some status)

unfoldable pub read_terminal : List Json → LocalStorage → Option (Option SyncStatus)
unfolding get_item parse_terminal event_id
read_terminal [] store = some none
read_terminal (item ∷ items) store =
    parse_terminal item (get_item (terminal_key (event_id item)) store)

unfoldable pub minimum_next : Markers → ℕ
minimum_next [] = 0
minimum_next ((n, id) ∷ markers) = max (n + 1) (minimum_next markers)

abbrev pub next_of : Option Meta → ℕ
next_of none = 0
next_of (some m) = m.next_local_sequence

abbrev pub cache_of : Option Meta → Option Cache
cache_of none = none
cache_of (some m) = m.cache

abbrev pub status_of : List Json → Option SyncStatus → SyncStatus
status_of [] terminal = synced
status_of (i ∷ is) none = pending
status_of (i ∷ is) (some status) = status

unfoldable pub sort_items : List Json → List Json
unfolding sort_onto local_sequence
sort_items items =
    sort_onto (λ left right. ltb (local_sequence left) (local_sequence right)) [] items

unfoldable pub assemble : Markers → List Json → Option Meta → Option SyncStatus → Stored
unfolding minimum_next
assemble [] [] none terminal = missing
assemble markers items meta terminal = stored (record {
  next_local_sequence = max (next_of meta) (minimum_next markers);
  sync_status = status_of items terminal;
  items = items;
  cache = cache_of meta;
})

unfoldable pub load_from_records : Protocol → LocalStorage → Option Stored
unfolding read_markers read_items sort_items get_item parse_meta read_terminal assemble
load_from_records p store = do
  markers ← read_markers [] store
  items ← read_items p markers store
  meta ← parse_meta (get_item meta_key store)
  terminal ← read_terminal (sort_items items) store
  some (assemble markers (sort_items items) meta terminal)
