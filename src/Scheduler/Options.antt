-- ===== src/Scheduler/Options.antt =====
-- The options of a candidate: the loop over the eligible resources and their windows in
-- `generateDeterministicScheduleV1` of src/deterministic-scheduler-v1.mjs.
use jenn_shooting_operations.Prelude.{
  ℕ, suc, ◌+◌, ◌*◌, Bool, true, false, ◌&&◌, String, str_eq, Option, none, some, List, [], ◌∷◌,
  ◌++◌, leb, ltb, if◌then◌else◌,
}
use jenn_shooting_operations.Scheduler.Slots.{Interval, Window, first_slot}
use jenn_shooting_operations.Scheduler.Durations.{
  Candidate, Stat, Rule, Duration, resolve_duration, matching_rule,
}
use jenn_shooting_operations.Scheduler.Penalties.{Weights, Selected, Penalty, soft_penalty}

pub record Resource : Type 0 where
  pub resource_id : String
  pub status : String
  pub capability_ids : List String
  pub business_windows : List Window

pub record Diagnostic : Type 0 where
  pub code : String
  pub request_id : String
  pub resource_id : Option String
  pub schedule_item_id : Option String
  pub field_path : String

-- The admitted input and configuration. `local_date` is the date of an instant in the business time
-- zone, `resource_unknown` whether some occupied item of the resource has no known buffer.
pub record Setting : Type 0 where
  pub local_date : ℕ → String
  pub config_version : ℕ
  pub planning_start : ℕ
  pub planning_end : ℕ
  pub resources : List Resource
  pub duration_fallback_rules : List Rule
  pub buffer_rules : List Rule
  pub weights : Weights
  pub duration_stats : List Stat
  pub global_unknown : Bool
  pub resource_unknown : String → Bool

pub record Offer : Type 0 where
  pub resource_id : String
  pub slot : ℕ
  pub finish : ℕ
  pub buffer_ms : ℕ
  pub buffer_rule : Rule
  pub duration : Duration
  pub soft : Penalty

pub record Search : Type 0 where
  pub options : List Offer
  pub no_duration : Bool
  pub no_buffer_rule : Bool
  pub crossed_v1_date : Bool
  pub calendar_had_capacity : Bool
  pub unknown_buffer_resources : ℕ
  pub locked_conflict : Option (String × Option String)
  pub diagnostics : List Diagnostic

abbrev pub minute_ms : ℕ
minute_ms = 60000

unfoldable pub unlocked : List Interval → List Interval
unlocked [] = []
unlocked (i ∷ is) = let rest = unlocked is in if i.locked then rest else i ∷ rest

-- The first locked interval that meets the slot.
unfoldable pub locked_at : String → ℕ → ℕ → List Interval → Option (String × Option String)
locked_at resource need slot [] = none
locked_at resource need slot (i ∷ is) =
    let rest = locked_at resource need slot is in
    if i.locked && ltb i.start (slot + need) && ltb slot i.finish
    then some (resource, i.schedule_item_id)
    else rest

unfoldable pub conflict :
    Option (String × Option String)
    → String
    → ℕ
    → List Interval
    → Option ℕ
    → Option (String × Option String)
unfolding locked_at
conflict (some c) resource need busy slot = some c
conflict none resource need busy none = none
conflict none resource need busy (some slot) = locked_at resource need slot busy

-- The offer is kept unless it ends on another date.
unfoldable pub offered : Setting → Offer → Search → Search
offered setting o search =
    if str_eq (setting.local_date o.slot) (setting.local_date o.finish)
    then record search { options = search.options ++ o ∷ [] }
    else record search { crossed_v1_date = true }

unfoldable pub offer_of : Setting → Candidate → List Selected → String → Duration → Rule → ℕ → Offer
unfolding soft_penalty
offer_of setting candidate selected resource duration rule slot = record {
  resource_id = resource;
  slot = slot;
  finish = slot + duration.duration_ms;
  buffer_ms = rule.amount * minute_ms;
  buffer_rule = rule;
  duration = duration;
  soft =
      soft_penalty setting.local_date setting.weights candidate resource slot selected
        duration.duration_ms setting.duration_stats;
}

unfoldable pub try_slot :
    Setting
    → Candidate
    → List Selected
    → String
    → Duration
    → Rule
    → List Interval
    → Window
    → Option ℕ
    → Search
    → Search
unfolding conflict unlocked first_slot offered offer_of
try_slot setting candidate selected resource duration rule busy window none search =
    let need = duration.duration_ms + rule.amount * minute_ms in
    let free = first_slot window (unlocked busy) need setting.planning_start setting.planning_end in
    record search { locked_conflict = conflict search.locked_conflict resource need busy free }
try_slot setting candidate selected resource duration rule busy window (some slot) search =
    offered setting (offer_of setting candidate selected resource duration rule slot) search

unfoldable pub measured : Window → ℕ → Search → Search
measured window need search =
    if leb (window.opens + need) window.closes
    then record search { calendar_had_capacity = true }
    else search

unfoldable pub try_windows :
    Setting
    → Candidate
    → List Selected
    → String
    → Duration
    → Rule
    → List Interval
    → List Window
    → Search
    → Search
unfolding try_slot measured first_slot
try_windows setting candidate selected resource duration rule busy [] search = search
try_windows setting candidate selected resource duration rule busy (window ∷ windows) search =
    let need = duration.duration_ms + rule.amount * minute_ms in
    let slot = first_slot window busy need setting.planning_start setting.planning_end in
    try_windows setting candidate selected resource duration rule busy windows (
      try_slot setting candidate selected resource duration rule busy window slot
        (measured window need search))

unfoldable pub with_rule :
    Setting
    → Candidate
    → List Selected
    → Resource
    → Duration
    → List Interval
    → Option Rule
    → Search
    → Search
unfolding try_windows
with_rule setting candidate selected resource duration busy none search = record search {
  no_buffer_rule = true;
}
with_rule setting candidate selected resource duration busy (some rule) search =
    try_windows setting candidate selected resource.resource_id duration rule busy
      resource.business_windows search

unfoldable pub with_duration :
    Setting
    → Candidate
    → List Selected
    → Resource
    → List Interval
    → Option Duration
    → Search
    → Search
unfolding with_rule matching_rule
with_duration setting candidate selected resource busy none search = search
with_duration setting candidate selected resource busy (some duration) search =
    with_rule setting candidate selected resource duration busy
      (matching_rule setting.buffer_rules candidate) (record search { no_duration = false })

unfoldable pub try_resource :
    Setting → Candidate → List Selected → List Interval → Resource → Search → Search
unfolding with_duration resolve_duration
try_resource setting candidate selected busy resource search =
    if setting.resource_unknown resource.resource_id
    then record search {
      unknown_buffer_resources = suc search.unknown_buffer_resources;
      diagnostics =
          search.diagnostics
          ++ record {
            code = "LEGACY_BUFFER_UNKNOWN";
            request_id = candidate.request_id;
            resource_id = some resource.resource_id;
            schedule_item_id = none;
            field_path = "$.occupied[].bufferAfterMinutes";
          }
            ∷ [];
    }
    else with_duration setting candidate selected resource busy
        (resolve_duration candidate resource.resource_id setting.duration_fallback_rules
          setting.duration_stats)
        search

-- `busy` is the intervals of each resource.
unfoldable pub try_resources :
    Setting → Candidate → List Selected → (String → List Interval) → List Resource → Search → Search
unfolding try_resource
try_resources setting candidate selected busy [] search = search
try_resources setting candidate selected busy (resource ∷ resources) search =
    try_resources setting candidate selected busy resources
      (try_resource setting candidate selected (busy resource.resource_id) resource search)
