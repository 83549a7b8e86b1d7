-- ===== src/Scheduler/Placing.antt =====
-- The candidates are placed one after another: `generateDeterministicScheduleV1` of
-- src/deterministic-scheduler-v1.mjs after the admission of its input, up to the result's canonical form.
use jenn_shooting_operations.Prelude.{
  ℕ, ◌+◌, Bool, true, false, not, length, String, str_eq, Option, none, some, List, [], ◌∷◌, ◌++◌,
  ◌==◌, if◌then◌else◌,
}
use jenn_shooting_operations.Prelude.Sorting.{sort_onto}
use jenn_shooting_operations.Scheduler.Slots.{Interval, reservation}
use jenn_shooting_operations.Scheduler.Durations.{
  Candidate, Priority, code_point_compare, sign, or_else, is_less, sort_candidates,
}
use jenn_shooting_operations.Scheduler.Penalties.{
  Selected, Reason, desired_date_miss, lighting_switch, reflectivity_sequence, idle_gap,
  overrun_expected,
}
use jenn_shooting_operations.Scheduler.Options.{
  Setting, Offer, Search, Resource, Diagnostic, try_resources,
}
use jenn_shooting_operations.Scheduler.Occupied.{
  busy_add, occupied_busy, resource_unknown, global_unknown, eligible, all_inactive, Occupied,
}

pub record ProposedItem : Type 0 where
  pub request_id : String
  pub resource_id : String
  pub planned_start : ℕ
  pub planned_end : ℕ
  pub duration_ms : ℕ
  pub buffer_after_minutes : ℕ
  pub duration_source : String
  pub duration_source_version : String
  pub buffer_rule_id : String
  pub config_version : ℕ

pub record State : Type 0 where
  pub busy : String → List Interval
  pub proposed_items : List ProposedItem
  pub diagnostics : List Diagnostic
  pub selected : List Selected

abbrev pub diagnostic : String → Candidate → Option String → Option String → String → Diagnostic
diagnostic code candidate resource item path = record {
  code = code;
  request_id = candidate.request_id;
  resource_id = resource;
  schedule_item_id = item;
  field_path = path;
}

abbrev pub report : Diagnostic → State → State
report d state = record state { diagnostics = state.diagnostics ++ d ∷ [] }

unfoldable pub ineligible_code : List Resource → String
unfolding all_inactive
ineligible_code [] = "RESOURCE_UNKNOWN"
ineligible_code (resource ∷ resources) =
    if all_inactive (resource ∷ resources)
    then "RESOURCE_INACTIVE"
    else "RESOURCE_CAPABILITY_MISMATCH"

unfoldable pub offer_before : Offer → Offer → Bool
unfolding is_less or_else sign code_point_compare
offer_before left right = is_less (
    or_else (sign left.slot right.slot) (
      or_else (sign left.soft.penalty right.soft.penalty)
        (code_point_compare left.resource_id right.resource_id)))

abbrev pub first_offer : List Offer → Option Offer
first_offer [] = none
first_offer (o ∷ os) = some o

unfoldable pub choice : List Offer → Option Offer
unfolding sort_onto offer_before
choice options = first_offer (sort_onto offer_before [] options)

abbrev pub reason_code : Reason → String
reason_code desired_date_miss = "DESIRED_DATE_MISS"
reason_code lighting_switch = "LIGHTING_SWITCH"
reason_code reflectivity_sequence = "REFLECTIVITY_SEQUENCE"
reason_code idle_gap = "IDLE_GAP"
reason_code overrun_expected = "EXPECTED_OVERRUN"

abbrev pub reason_path : Reason → String
reason_path desired_date_miss = "$.candidates[].desiredDate"
reason_path lighting_switch = "$.occupied[]"
reason_path reflectivity_sequence = "$.occupied[]"
reason_path idle_gap = "$.occupied[]"
reason_path overrun_expected = "$.occupied[]"

unfoldable pub reason_diagnostics : Candidate → String → List Reason → List Diagnostic
reason_diagnostics candidate resource [] = []
reason_diagnostics candidate resource (r ∷ rs) =
    diagnostic (reason_code r) candidate (some resource) none (reason_path r)
    ∷ reason_diagnostics candidate resource rs

abbrev pub proposed : Setting → Candidate → Offer → ProposedItem
proposed setting candidate o = record {
  request_id = candidate.request_id;
  resource_id = o.resource_id;
  planned_start = o.slot;
  planned_end = o.finish;
  duration_ms = o.duration.duration_ms;
  buffer_after_minutes = o.buffer_rule.amount;
  duration_source = o.duration.duration_source;
  duration_source_version = o.duration.duration_source_version;
  buffer_rule_id = o.buffer_rule.rule_id;
  config_version = setting.config_version;
}

unfoldable pub place : Setting → Candidate → Offer → State → State
unfolding busy_add reason_diagnostics
place setting candidate o state = record {
  busy = busy_add o.resource_id (reservation o.slot (o.finish + o.buffer_ms)) state.busy;
  proposed_items = state.proposed_items ++ proposed setting candidate o ∷ [];
  diagnostics = state.diagnostics ++ reason_diagnostics candidate o.resource_id o.soft.reasons;
  selected =
      state.selected
      ++ record {
        resource_id = o.resource_id;
        finish = o.finish + o.buffer_ms;
        lighting_preset = candidate.lighting_preset;
        reflectivity = candidate.reflectivity;
      }
        ∷ [];
}

unfoldable pub report_conflict : Candidate → Bool → Option (String × Option String) → State → State
report_conflict candidate had_capacity none state = state
report_conflict candidate false (some c) state = state
report_conflict candidate true (some c) state =
    report (diagnostic "LOCKED_INTERVAL_CONFLICT" candidate (some c.0) c.1 "$.occupied[]") state

unfoldable pub refuse : Candidate → Search → ℕ → State → State
unfolding report_conflict
refuse candidate search eligible_count state =
    if search.unknown_buffer_resources == eligible_count
    then state
    else report
        (diagnostic
          (if search.no_duration
            then "DURATION_UNKNOWN"
            else if search.crossed_v1_date
            then "V1_DATE_BOUNDARY"
            else if search.calendar_had_capacity
            then "RESOURCE_OVERLAP"
            else "OUTSIDE_BUSINESS_CALENDAR")
          candidate none none
          (if search.no_duration
            then "$.candidates[].durationEstimate"
            else "$.resources[].businessWindows"))
        (report_conflict candidate search.calendar_had_capacity search.locked_conflict state)

unfoldable pub settle_choice : Setting → Candidate → Search → ℕ → Option Offer → State → State
unfolding place refuse
settle_choice setting candidate search eligible_count none state =
    refuse candidate search eligible_count state
settle_choice setting candidate search eligible_count (some o) state =
    place setting candidate o state

abbrev pub new_search : State → Search
new_search state = record {
  options = [];
  no_duration = true;
  no_buffer_rule = false;
  crossed_v1_date = false;
  calendar_had_capacity = false;
  unknown_buffer_resources = 0;
  locked_conflict = none;
  diagnostics = state.diagnostics;
}

-- After the loop over the resources; `none` is `failure('BUFFER_RULE_MISSING')`.
unfoldable pub searched : Setting → Candidate → ℕ → Search → State → Option State
unfolding settle_choice choice
searched setting candidate eligible_count search state =
    if search.no_buffer_rule
    then none
    else some (
        settle_choice setting candidate search eligible_count (choice search.options)
          (record state { diagnostics = search.diagnostics }))

unfoldable pub search_resources : Setting → Candidate → List Resource → State → Option State
unfolding searched try_resources ineligible_code
search_resources setting candidate [] state = some (
    report (diagnostic (ineligible_code setting.resources) candidate none none "$.resources[]")
      state)
search_resources setting candidate (r ∷ rs) state =
    searched setting candidate (length (r ∷ rs))
      (try_resources setting candidate state.selected state.busy (r ∷ rs) (new_search state)) state

abbrev pub is_unknown : Option Priority → Bool
is_unknown none = true
is_unknown (some p) = false

unfoldable pub place_candidate : Setting → Candidate → State → Option State
unfolding search_resources eligible
place_candidate setting candidate state =
    if not (str_eq candidate.sample_status "arrivedVerified")
    then some (
        report (diagnostic "SAMPLE_NOT_VERIFIED" candidate none none "$.candidates[].sampleStatus")
          state)
    else if is_unknown candidate.priority
    then some
        (report (diagnostic "PRIORITY_UNKNOWN" candidate none none "$.candidates[].priority") state)
    else if setting.global_unknown
    then some
        (report (diagnostic "UNRESOLVED_LEGACY_BLOCK" candidate none none "$.occupied[]") state)
    else search_resources setting candidate (eligible candidate setting.resources) state

unfoldable pub place_candidates : Setting → List Candidate → Option State → Option State
unfolding place_candidate
place_candidates setting candidates none = none
place_candidates setting [] (some state) = some state
place_candidates setting (candidate ∷ candidates) (some state) =
    place_candidates setting candidates (place_candidate setting candidate state)

unfoldable pub generate_schedule : Setting → List Occupied → List Candidate → Option State
unfolding place_candidates occupied_busy resource_unknown global_unknown sort_candidates
generate_schedule setting occupied candidates =
    place_candidates
      (record setting {
        global_unknown = global_unknown occupied;
        resource_unknown = resource_unknown occupied;
      })
      (sort_candidates candidates)
      (some (record {
        busy = occupied_busy occupied (λ r. []);
        proposed_items = [];
        diagnostics = [];
        selected = [];
      }))
