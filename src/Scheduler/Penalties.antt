-- ===== src/Scheduler/Penalties.antt =====
-- `softPenalty` of src/deterministic-scheduler-v1.mjs: what speaks against a slot, and its weight.
use jenn_shooting_operations.Prelude.{
  ℕ, ◌+◌, ◌-◌, ◌*◌, ◌/◌, Bool, true, false, ◌&&◌, not, String, str_eq, Option, none, some, List, [],
  ◌∷◌, ◌++◌, leb, ltb, if◌then◌else◌,
}
use jenn_shooting_operations.Prelude.Sorting.{sort_onto}
use jenn_shooting_operations.Scheduler.Durations.{Candidate, Stat, expected_overrun}

pub data Reason : Type 0 where
  desired_date_miss : Reason
  lighting_switch : Reason
  reflectivity_sequence : Reason
  idle_gap : Reason
  overrun_expected : Reason

-- `softScoringWeights`, by the reason.
abbrev pub Weights : Type 0
Weights = Reason → ℕ

-- An item that was placed; `finish` is after its buffer.
pub record Selected : Type 0 where
  pub resource_id : String
  pub finish : ℕ
  pub lighting_preset : Option String
  pub reflectivity : Option String

pub record Penalty : Type 0 where
  pub penalty : ℕ
  pub reasons : List Reason

-- Both are known and they differ.
unfoldable pub differ : Option String → Option String → Bool
differ none right = false
differ (some a) none = false
differ (some a) (some b) = not (str_eq a b)

unfoldable pub earlier : String → ℕ → List Selected → List Selected
earlier resource slot [] = []
earlier resource slot (item ∷ items) =
    let rest = earlier resource slot items in
    if str_eq item.resource_id resource && leb item.finish slot then item ∷ rest else rest

abbrev pub head : List Selected → Option Selected
head [] = none
head (item ∷ items) = some item

-- The last one to end before the slot.
unfoldable pub prior : String → ℕ → List Selected → Option Selected
unfolding earlier sort_onto
prior resource slot selected = head (
    sort_onto (λ (left right : Selected). ltb right.finish left.finish) []
      (earlier resource slot selected))

-- `penalty += weight; reasons.push(reason)` where the test holds.
unfoldable pub penalise : Bool → ℕ → Reason → Penalty → Penalty
penalise true weight reason p = record {
  penalty = p.penalty + weight;
  reasons = p.reasons ++ reason ∷ [];
}
penalise false weight reason p = p

-- `Math.ceil((slot - prior.end) / MINUTE_MS)`
abbrev pub gap_minutes : ℕ → ℕ → ℕ
gap_minutes slot finish = (slot - finish + 59999) / 60000

unfoldable pub penalise_prior : Weights → Candidate → ℕ → Option Selected → Penalty → Penalty
unfolding differ penalise
penalise_prior weights candidate slot none p = p
penalise_prior weights candidate slot (some item) p =
    penalise (ltb item.finish slot) (weights idle_gap * gap_minutes slot item.finish) idle_gap (
      penalise (differ item.reflectivity candidate.reflectivity) (weights reflectivity_sequence)
        reflectivity_sequence
        (penalise (differ item.lighting_preset candidate.lighting_preset) (weights lighting_switch)
          lighting_switch p))

-- `candidate.desiredDate !== null && candidate.desiredDate !== localDate(formatter, slot)`
unfoldable pub misses_date : Option String → String → Bool
misses_date none date = false
misses_date (some d) date = not (str_eq d date)

-- `local_date` is the date of the slot in the business time zone, of the runtime's formatter.
unfoldable pub soft_penalty :
    (ℕ → String) → Weights → Candidate → String → ℕ → List Selected → ℕ → List Stat → Penalty
unfolding prior penalise penalise_prior misses_date expected_overrun
soft_penalty local_date weights candidate resource slot selected duration_ms stats =
    penalise (expected_overrun candidate resource stats duration_ms) (weights overrun_expected)
      overrun_expected
      (penalise_prior weights candidate slot (prior resource slot selected) (
        penalise (misses_date candidate.desired_date (local_date slot)) (weights desired_date_miss)
          desired_date_miss (record { penalty = 0; reasons = [] })))
