-- ===== src/Scheduler/Durations.antt =====
-- The rules and statistics of the scheduler: `codePointCompare`, `matchingRule`, `resolveDuration`, `expectedOverrun` and
-- `sortCandidates` of src/deterministic-scheduler-v1.mjs. A field that may be null is an option.
use jenn_shooting_operations.Prelude.{
  ℕ, ◌+◌, Bool, true, false, ◌&&◌, ◌||◌, String, str_eq, Option, none, some, List, [], ◌∷◌, ltb,
  ◌==◌, if◌then◌else◌,
}
use jenn_shooting_operations.Prelude.Sorting.{sort_onto}
use jenn_shooting_operations.Timestamp.{Text, codes}

-- The sign of a comparison's number.
pub data Sign : Type 0 where
  less : Sign
  same : Sign
  more : Sign

unfoldable pub sign : ℕ → ℕ → Sign
sign m n = if ltb m n then less else if m == n then same else more

-- `first || second`
unfoldable pub or_else : Sign → Sign → Sign
or_else less second = less
or_else same second = second
or_else more second = more

unfoldable pub is_less : Sign → Bool
is_less less = true
is_less same = false
is_less more = false

unfoldable pub compare_codes : Text → Text → Sign
unfolding or_else
compare_codes [] [] = same
compare_codes [] (d ∷ ds) = less
compare_codes (c ∷ cs) [] = more
compare_codes (c ∷ cs) (d ∷ ds) = or_else (sign c d) (compare_codes cs ds)

unfoldable pub code_point_compare : String → String → Sign
unfolding compare_codes
code_point_compare left right = compare_codes (codes left) (codes right)

pub data Priority : Type 0 where
  p0 : Priority
  p1 : Priority
  p2 : Priority

pub record Duration : Type 0 where
  pub duration_ms : ℕ
  pub duration_source : String
  pub duration_source_version : String

pub record Candidate : Type 0 where
  pub request_id : String
  pub production_type : Option String
  pub shooting_subtype : Option String
  pub lighting_preset : Option String
  pub reflectivity : Option String
  pub duration_estimate : Option Duration
  pub desired_date : Option String
  pub priority : Option Priority
  pub source_ordinal : ℕ
  pub sample_status : String
  pub required_capability_ids : Option (List String)

pub record Stat : Type 0 where
  pub stat_id : String
  pub metric_version : String
  pub resource_id : Option String
  pub production_type : Option String
  pub shooting_subtype : Option String
  pub lighting_preset : Option String
  pub reflectivity : Option String
  pub sample_count : ℕ
  pub estimate_duration_ms : ℕ

-- A rule for durations or for buffers; `amount` is its `durationMs` or its `bufferAfterMinutes`.
pub record Rule : Type 0 where
  pub rule_id : String
  pub production_type : Option String
  pub shooting_subtype : Option String
  pub amount : ℕ

-- `left === right`
unfoldable pub equal : Option String → Option String → Bool
equal none none = true
equal none (some b) = false
equal (some a) none = false
equal (some a) (some b) = str_eq a b

-- `rule === null || rule === value`
unfoldable pub admits : Option String → Option String → Bool
unfolding equal
admits none value = true
admits (some a) value = equal (some a) value

unfoldable pub rule_matches : Candidate → Rule → Bool
unfolding admits
rule_matches candidate rule =
    admits rule.production_type candidate.production_type
    && admits rule.shooting_subtype candidate.shooting_subtype

unfoldable pub matching_rule : List Rule → Candidate → Option Rule
unfolding rule_matches
matching_rule [] candidate = none
matching_rule (rule ∷ rules) candidate =
    let rest = matching_rule rules candidate in
    if rule_matches candidate rule then some rule else rest

-- The subtypes of which a statistic has to name exactly the one.
unfoldable pub is_exact : Option String → Bool
is_exact none = false
is_exact (some s) = str_eq s "产品3D主图" || str_eq s "细节图" || str_eq s "功能图"

unfoldable pub stat_matches : Candidate → String → Stat → Bool
unfolding admits equal is_exact
stat_matches candidate resource stat =
    admits stat.resource_id (some resource)
    && admits stat.production_type candidate.production_type
    && (if is_exact candidate.shooting_subtype
        then equal stat.shooting_subtype candidate.shooting_subtype
        else admits stat.shooting_subtype candidate.shooting_subtype)
    && admits stat.lighting_preset candidate.lighting_preset
    && admits stat.reflectivity candidate.reflectivity

unfoldable pub named : Option String → ℕ
named none = 0
named (some s) = 1

unfoldable pub specificity : Stat → ℕ
unfolding named
specificity stat =
    named stat.resource_id
    + named stat.production_type
    + named stat.shooting_subtype
    + named stat.lighting_preset
    + named stat.reflectivity

-- The comparison of `toSorted` puts the left one first.
unfoldable pub stat_before : Stat → Stat → Bool
unfolding sign or_else is_less specificity code_point_compare
stat_before left right = is_less (
    or_else (sign (specificity right) (specificity left)) (
      or_else (sign right.sample_count left.sample_count)
        (code_point_compare left.stat_id right.stat_id)))

unfoldable pub matches : Candidate → String → List Stat → List Stat
unfolding stat_matches
matches candidate resource [] = []
matches candidate resource (stat ∷ stats) =
    let rest = matches candidate resource stats in
    if stat_matches candidate resource stat then stat ∷ rest else rest

abbrev pub retrospective : Stat → Duration
retrospective stat = record {
  duration_ms = stat.estimate_duration_ms;
  duration_source = "retrospective";
  duration_source_version = stat.metric_version;
}

abbrev pub fallback : Option Rule → Option Duration
fallback none = none
fallback (some rule) = some (record {
  duration_ms = rule.amount;
  duration_source = "fallback";
  duration_source_version = rule.rule_id;
})

-- `matches[0]`, or the rule.
abbrev pub first_match : List Stat → Option Rule → Option Duration
first_match [] rule = fallback rule
first_match (stat ∷ stats) rule = some (retrospective stat)

abbrev pub from_stats : Option String → Option String → List Stat → Option Rule → Option Duration
from_stats none subtype stats rule = none
from_stats (some production) none stats rule = none
from_stats (some production) (some subtype) stats rule = first_match stats rule

abbrev pub estimated : Option Duration → Option Duration → Option Duration
estimated none other = other
estimated (some duration) other = some duration

unfoldable pub resolve_duration : Candidate → String → List Rule → List Stat → Option Duration
unfolding matches stat_before sort_onto matching_rule
resolve_duration candidate resource fallback_rules stats = estimated candidate.duration_estimate (
    from_stats candidate.production_type candidate.shooting_subtype
      (sort_onto stat_before [] (matches candidate resource stats))
      (matching_rule fallback_rules candidate))

unfoldable pub expected_overrun : Candidate → String → List Stat → ℕ → Bool
unfolding stat_matches
expected_overrun candidate resource [] duration_ms = false
expected_overrun candidate resource (stat ∷ stats) duration_ms =
    ltb duration_ms stat.estimate_duration_ms && stat_matches candidate resource stat
    || expected_overrun candidate resource stats duration_ms

unfoldable pub rank : Option Priority → ℕ
rank none = 3
rank (some p0) = 0
rank (some p1) = 1
rank (some p2) = 2

unfoldable pub desired_date_order : Option String → Option String → Sign
unfolding code_point_compare
desired_date_order none none = same
desired_date_order none (some d) = more
desired_date_order (some d) none = less
desired_date_order (some a) (some b) = code_point_compare a b

unfoldable pub compare_candidates : Candidate → Candidate → Sign
unfolding sign or_else desired_date_order rank
compare_candidates left right = or_else (sign (rank left.priority) (rank right.priority)) (
    or_else (desired_date_order left.desired_date right.desired_date) (
      or_else (sign left.source_ordinal right.source_ordinal)
        (code_point_compare left.request_id right.request_id)))

unfoldable pub sort_candidates : List Candidate → List Candidate
unfolding compare_candidates is_less sort_onto
sort_candidates candidates =
    sort_onto (λ left right. is_less (compare_candidates left right)) [] candidates
