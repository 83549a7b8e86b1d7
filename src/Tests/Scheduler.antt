-- ===== src/Tests/Scheduler.antt =====
-- The scheduler at concrete inputs.
use mathlib.Core.List.{Perm, cons≢nil}
use jenn_shooting_operations.Prelude.{
  ℕ, ◌≤◌, ◌≡◌, ◌⊎◌, ◌+◌, inl, refl, false, map, none, some, List, [], ◌∷◌, All, arith,
}
use jenn_shooting_operations.Prelude.Sorting.{IsOrderedBy, insert_by}
use jenn_shooting_operations.Scheduler.Slots.{
  Interval, reservation, Window, first_slot, insert_interval, Fits, IsOrdered, first_slot-Fits,
  first_slot_least, first_slot_twice,
}
use jenn_shooting_operations.Scheduler.Durations.{
  Candidate, Stat, p0, p1, matches, resolve_duration, retrospective, sort_candidates,
}
use jenn_shooting_operations.Scheduler.Penalties.{Weights, Selected, soft_penalty}
use jenn_shooting_operations.Scheduler.Weighing.{IsGap, total, soft_penalty-total}
use jenn_shooting_operations.Scheduler.Options.{Setting}
use jenn_shooting_operations.Scheduler.Occupied.{Occupied}
use jenn_shooting_operations.Scheduler.Placing.{State, ProposedItem, generate_schedule}
use jenn_shooting_operations.Scheduler.Separation.{Apart, IsClearOf}
use jenn_shooting_operations.Scheduler.Placed.{generate_schedule-Apart}
use jenn_shooting_operations.Scheduler.Resolving.{
  resolve_duration_most_specific, IsMatch, IsNoBetter,
}
use jenn_shooting_operations.Scheduler.Ranking.{sort_candidates_ranked, ComesFirst}

abbrev day : Window
day = record { opens = 100; closes = 1000 }

abbrev occupied : List Interval
occupied = reservation 50 150 ∷ reservation 180 300 ∷ []

occupied-IsOrdered : IsOrdered occupied
occupied-IsOrdered = ((omega arith, tt), (tt, tt))

slot_after : first_slot day occupied 40 0 2000 ≡ some 300
unfolding first_slot
slot_after = refl

slot_between : first_slot day occupied 30 0 2000 ≡ some 150
unfolding first_slot
slot_between = refl

no_slot : first_slot day occupied 800 0 2000 ≡ none
unfolding first_slot
no_slot = refl

slot_next : first_slot day (insert_interval (reservation 300 340) occupied) 60 0 2000 ≡ some 340
unfolding first_slot insert_interval
slot_next = refl

first_slot_twice_example : Fits day occupied 40 0 2000 300 × ((300 + 40 ≤ 340) ⊎ (340 + 60 ≤ 300))
first_slot_twice_example =
    first_slot_twice day day occupied 40 60 0 2000 300 340 occupied-IsOrdered slot_after slot_next

first_slot-Fits_example : Fits day occupied 40 0 2000 300
first_slot-Fits_example = first_slot-Fits day occupied 40 0 2000 300 occupied-IsOrdered slot_after

first_slot_least_example : (s : ℕ) × (first_slot day occupied 40 0 2000 ≡ some s) × s ≤ 500
first_slot_least_example = first_slot_least day occupied 40 0 2000 500 (omega arith) (
  omega arith,
  omega arith,
  omega arith,
  omega arith,
  (inl (omega arith), (inl (omega arith), tt)),
)

abbrev bottle : Candidate
bottle = record {
  request_id = "request-1";
  production_type = some "photo";
  shooting_subtype = some "细节图";
  lighting_preset = none;
  reflectivity = some "high";
  duration_estimate = none;
  desired_date = none;
  priority = some p1;
  source_ordinal = 1;
  sample_status = "arrivedVerified";
  required_capability_ids = some [];
}

abbrev general : Stat
general = record {
  stat_id = "stat-1";
  metric_version = "v1";
  resource_id = none;
  production_type = some "photo";
  shooting_subtype = some "细节图";
  lighting_preset = none;
  reflectivity = none;
  sample_count = 9;
  estimate_duration_ms = 60000;
}

abbrev special : Stat
special = record general {
  stat_id = "stat-2";
  reflectivity = some "high";
  sample_count = 2;
  estimate_duration_ms = 90000;
}

special_resolves :
    resolve_duration bottle "room-1" [] (general ∷ special ∷ []) ≡ some (retrospective special)
unfolding resolve_duration insert_by
special_resolves = refl

both_match : matches bottle "room-1" (general ∷ special ∷ []) ≡ general ∷ special ∷ []
unfolding matches
both_match = refl

resolve_duration_most_specific_example :
    (m : Stat) × (resolve_duration bottle "room-1" [] (general ∷ special ∷ [])
      ≡ some (retrospective m))
    × IsMatch bottle "room-1" (general ∷ special ∷ []) m
    × All (IsNoBetter bottle "room-1" m) (general ∷ special ∷ [])
resolve_duration_most_specific_example =
    resolve_duration_most_specific bottle "room-1" [] (general ∷ special ∷ []) "photo" "细节图" refl
      refl refl (rw both_match (λ (e : general ∷ special ∷ [] ≡ []). cons≢nil e))

abbrev urgent : Candidate
urgent = record bottle { request_id = "request-2"; priority = some p0 }

urgent_first : sort_candidates (bottle ∷ urgent ∷ []) ≡ urgent ∷ bottle ∷ []
unfolding sort_candidates insert_by
urgent_first = refl

sort_candidates_ranked_example :
    IsOrderedBy ComesFirst (sort_candidates (bottle ∷ urgent ∷ []))
    × Perm (sort_candidates (bottle ∷ urgent ∷ [])) (bottle ∷ urgent ∷ [])
sort_candidates_ranked_example = sort_candidates_ranked (bottle ∷ urgent ∷ [])

abbrev ten_each : Weights
ten_each reason = 10

abbrev before_bottle : List Selected
before_bottle =
    record {
      resource_id = "room-1";
      finish = 60000;
      lighting_preset = none;
      reflectivity = some "low";
    }
    ∷ []

-- The reflectivity changes, and two minutes have begun since.
bottle_penalty :
    (soft_penalty
      (λ t. "2026-01-05")
      ten_each
      bottle
      "room-1"
      120001
      before_bottle
      60000
      []).penalty
    ≡ 30
unfolding soft_penalty insert_by
bottle_penalty = refl

soft_penalty-total_example :
    (minutes : ℕ) × IsGap "room-1" 120001 before_bottle minutes
    × ((soft_penalty
          (λ t. "2026-01-05")
          ten_each
          bottle
          "room-1"
          120001
          before_bottle
          60000
          []).penalty
        ≡ total ten_each minutes
            (soft_penalty
              (λ t. "2026-01-05")
              ten_each
              bottle
              "room-1"
              120001
              before_bottle
              60000
              []).reasons)
soft_penalty-total_example =
    soft_penalty-total (λ t. "2026-01-05") ten_each bottle "room-1" 120001 before_bottle 60000 []

abbrev studio : Setting
studio = record {
  local_date = λ t. "2026-01-05";
  config_version = 1;
  planning_start = 0;
  planning_end = 86400000;
  resources =
      record {
        resource_id = "room-1";
        status = "active";
        capability_ids = [];
        business_windows = record { opens = 0; closes = 86400000 } ∷ [];
      }
      ∷ [];
  duration_fallback_rules = [];
  buffer_rules =
      record { rule_id = "buffer"; production_type = none; shooting_subtype = none; amount = 1 }
      ∷ [];
  weights = ten_each;
  duration_stats = general ∷ special ∷ [];
  global_unknown = false;
  resource_unknown = λ r. false;
}

abbrev morning : List Occupied
morning =
    record {
      resource_id = some "room-1";
      resource_resolution_status = "resolved";
      buffer_after_minutes = some 0;
      planned_start = 0;
      planned_end = 60000;
      lock_status = "locked";
      schedule_item_id = "item-1";
    }
    ∷ []

-- The state after both candidates.
two_placed : (s : State) × (generate_schedule studio morning (bottle ∷ urgent ∷ []) ≡ some s)
unfolding generate_schedule insert_by
two_placed = (_, refl)

two_placed-starts :
    map (λ (x : ProposedItem). x.planned_start) two_placed.0.proposed_items ≡ 60000 ∷ 210000 ∷ []
unfolding two_placed
two_placed-starts = refl

generate_schedule-Apart_example :
    IsOrderedBy Apart two_placed.0.proposed_items
    × All (λ x. All (IsClearOf x) morning) two_placed.0.proposed_items
generate_schedule-Apart_example =
    generate_schedule-Apart studio morning (bottle ∷ urgent ∷ []) two_placed.0 two_placed.1
