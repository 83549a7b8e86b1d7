-- ===== src/Scheduler/Occupied.antt =====
-- What is occupied and which resources are eligible, of `generateDeterministicScheduleV1` of
-- src/deterministic-scheduler-v1.mjs.
use jenn_shooting_operations.Prelude.{
  ℕ, ◌+◌, ◌*◌, Bool, true, false, ◌&&◌, ◌||◌, String, str_eq, Option, none, some, List, [], ◌∷◌,
  if◌then◌else◌,
}
use jenn_shooting_operations.Scheduler.Slots.{Interval, insert_interval}
use jenn_shooting_operations.Scheduler.Durations.{Candidate}
use jenn_shooting_operations.Scheduler.Options.{Resource, minute_ms}

pub record Occupied : Type 0 where
  pub resource_id : Option String
  pub resource_resolution_status : String
  pub buffer_after_minutes : Option ℕ
  pub planned_start : ℕ
  pub planned_end : ℕ
  pub lock_status : String
  pub schedule_item_id : String

-- `busy.get(id).push(interval)`, with the sort that follows.
unfoldable pub busy_add : String → Interval → (String → List Interval) → String → List Interval
unfolding insert_interval
busy_add id i busy r = if str_eq id r then insert_interval i (busy r) else busy r

unfoldable pub enter :
    Option String → Option ℕ → Occupied → (String → List Interval) → String → List Interval
unfolding busy_add
enter none buffer item busy = busy
enter (some id) none item busy = busy
enter (some id) (some minutes) item busy =
    busy_add id
      (record {
        start = item.planned_start;
        finish = item.planned_end + minutes * minute_ms;
        locked = str_eq item.lock_status "locked";
        schedule_item_id = some item.schedule_item_id;
      })
      busy

-- The intervals of a resource that the input does not have are never read.
unfoldable pub occupied_busy : List Occupied → (String → List Interval) → String → List Interval
unfolding enter
occupied_busy [] busy = busy
occupied_busy (item ∷ items) busy =
    occupied_busy items (enter item.resource_id item.buffer_after_minutes item busy)

abbrev pub is_buffer_unknown : String → Option String → Option ℕ → Bool
is_buffer_unknown id none buffer = false
is_buffer_unknown id (some r) none = str_eq r id
is_buffer_unknown id (some r) (some minutes) = false

unfoldable pub resource_unknown : List Occupied → String → Bool
resource_unknown [] id = false
resource_unknown (item ∷ items) id =
    is_buffer_unknown id item.resource_id item.buffer_after_minutes || resource_unknown items id

unfoldable pub global_unknown : List Occupied → Bool
global_unknown [] = false
global_unknown (item ∷ items) =
    str_eq item.resource_resolution_status "unresolved" || global_unknown items

unfoldable pub includes : List String → String → Bool
includes [] id = false
includes (x ∷ xs) id = str_eq x id || includes xs id

unfoldable pub every_included : List String → List String → Bool
unfolding includes
every_included [] ids = true
every_included (x ∷ xs) ids = includes ids x && every_included xs ids

unfoldable pub is_capable : Option (List String) → List String → Bool
unfolding every_included
is_capable none ids = false
is_capable (some required) ids = every_included required ids

unfoldable pub eligible : Candidate → List Resource → List Resource
unfolding is_capable
eligible candidate [] = []
eligible candidate (resource ∷ resources) =
    let rest = eligible candidate resources in
    if str_eq resource.status "active"
      && is_capable candidate.required_capability_ids resource.capability_ids
    then resource ∷ rest
    else rest

unfoldable pub all_inactive : List Resource → Bool
all_inactive [] = true
all_inactive (resource ∷ resources) = str_eq resource.status "inactive" && all_inactive resources
