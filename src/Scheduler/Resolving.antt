-- ===== src/Scheduler/Resolving.antt =====
-- How a candidate's duration is resolved, and the order of the candidates.
use mathlib.Core.List.{Mem}
use jenn_shooting_operations.Prelude.{
  ℕ, ◌+◌, ◌<◌, ◌⊎◌, inl, inr, ap, Bool-cases, ◌∙◌, ◌≤◌, ◌≡◌, ◌≢◌, refl, true, false, if_elim,
  String, Option, none, some, List, [], ◌∷◌, All, arith,
}
use jenn_shooting_operations.Prelude.Sorting.{All-Mem, sort_onto, sorted_first}
use jenn_shooting_operations.Scheduler.Durations.{
  Candidate, Stat, Rule, Sign, specificity, named, stat_matches, matches, stat_before,
  resolve_duration, retrospective, sign, or_else, is_less, matching_rule, first_match, Duration,
  estimated, from_stats,
}

-- The first comparison decides, except for equals.
pub is_less-or_else : (m n : ℕ) (s : Sign) → is_less (or_else (sign m n) s) ≡ true → m ≤ n
unfolding sign or_else is_less
is_less-or_else m n s h = ground (arith, h)

pub is_less-or_else_not : (m n : ℕ) (s : Sign) → is_less (or_else (sign m n) s) ≡ false → n ≤ m
unfolding sign or_else is_less
is_less-or_else_not m n s h = ground (arith, h)

-- How many of the five features of a run a statistic names.
abbrev feature : Option String → ℕ
feature none = 0
feature (some _) = 1

abbrev pub features : Stat → ℕ
features s =
    feature s.resource_id
    + feature s.production_type
    + feature s.shooting_subtype
    + feature s.lighting_preset
    + feature s.reflectivity

features-specificity : (s : Stat) → specificity s ≡ features s
unfolding specificity named
features-specificity s = ground arith

abbrev pub IsMoreSpecific : Stat → Stat → Type 0
IsMoreSpecific a b =
    (features b < features a) ⊎ ((features b ≡ features a) × (b.sample_count ≤ a.sample_count))

IsMoreSpecific-trans : (a b c : Stat) → IsMoreSpecific a b → IsMoreSpecific b c → IsMoreSpecific a c
IsMoreSpecific-trans a b c h k = ground (arith, h, k)

two_signs :
    (m n i j : ℕ) (s : Sign)
    → is_less (or_else (sign m n) (or_else (sign i j) s)) ≡ true
    → (m < n) ⊎ ((m ≡ n) × (i ≤ j))
unfolding sign or_else is_less
two_signs m n i j s h = ground (arith, h)

two_signs_not :
    (m n i j : ℕ) (s : Sign)
    → is_less (or_else (sign m n) (or_else (sign i j) s)) ≡ false
    → (n < m) ⊎ ((n ≡ m) × (j ≤ i))
unfolding sign or_else is_less
two_signs_not m n i j s h = ground (arith, h)

stat_before-IsMoreSpecific : (a b : Stat) → stat_before a b ≡ true → IsMoreSpecific a b
unfolding stat_before
stat_before-IsMoreSpecific a b h =
    let k = two_signs (specificity b) (specificity a) b.sample_count a.sample_count _ h in
    rw (← features-specificity a, ← features-specificity b) k

stat_after-IsMoreSpecific : (a b : Stat) → stat_before a b ≡ false → IsMoreSpecific b a
unfolding stat_before
stat_after-IsMoreSpecific a b h =
    let k = two_signs_not (specificity b) (specificity a) b.sample_count a.sample_count _ h in
    rw (← features-specificity a, ← features-specificity b) k

-- It is one of the statistics, and it matches.
abbrev pub IsMatch : Candidate → String → List Stat → Stat → Type 0
IsMatch candidate resource stats s = Mem s stats × (stat_matches candidate resource s ≡ true)

matches-IsMatch :
    (candidate : Candidate) (resource : String) (every stats : List Stat)
    → All (λ s. Mem s every) stats
    → All (IsMatch candidate resource every) (matches candidate resource stats)
unfolding matches
matches-IsMatch candidate resource every [] h = tt
matches-IsMatch candidate resource every (stat ∷ stats) h =
    if_elim (All (IsMatch candidate resource every)) (stat_matches candidate resource stat) _ _
      (λ e. ((h.0, e), matches-IsMatch candidate resource every stats h.1))
      (λ e. matches-IsMatch candidate resource every stats h.1)

-- Another that matches is no better: it names fewer features, or as many on no more samples.
abbrev pub IsNoBetter : Candidate → String → Stat → Stat → Type 0
IsNoBetter candidate resource m s =
    (stat_matches candidate resource s ≡ false)
    ⊎ ((features s < features m) ⊎ ((features s ≡ features m) × (s.sample_count ≤ m.sample_count)))

matches-IsNoBetter :
    (candidate : Candidate) (resource : String) (m : Stat) (stats : List Stat)
    → All (IsMoreSpecific m) (matches candidate resource stats)
    → All (IsNoBetter candidate resource m) stats
unfolding matches
matches-IsNoBetter candidate resource m [] h = tt
matches-IsNoBetter candidate resource m (stat ∷ stats) h =
    elim (Bool-cases (stat_matches candidate resource stat)) [
      | inl t ↦
          let k : All (IsMoreSpecific m) (stat ∷ matches candidate resource stats) = rw t at h in
          (inr k.0, matches-IsNoBetter candidate resource m stats k.1)
      | inr f ↦
          let k : All (IsMoreSpecific m) (matches candidate resource stats) = rw f at h in
          (inl f, matches-IsNoBetter candidate resource m stats k)
    ]

picks_first :
    (o : Option Duration) (p q : Option String) (production subtype : String) (stats : List Stat)
    (rule : Option Rule)
    → o ≡ none
    → p ≡ some production
    → q ≡ some subtype
    → estimated o (from_stats p q stats rule) ≡ first_match stats rule
picks_first o p q production subtype stats rule d e f = rw (d, e, f) refl

-- Where a candidate has no estimate, has both its types, and some statistic of the resource matches it, its
-- duration is that of a statistic that was given and matches, and no other that matches names more of the
-- candidate's features, or as many of them on more samples.
pub resolve_duration_most_specific :
    (candidate : Candidate) (resource : String) (rules : List Rule) (stats : List Stat)
    (production subtype : String)
    → candidate.duration_estimate ≡ none
    → candidate.production_type ≡ some production
    → candidate.shooting_subtype ≡ some subtype
    → matches candidate resource stats ≢ []
    → (m : Stat) × (resolve_duration candidate resource rules stats ≡ some (retrospective m))
      × IsMatch candidate resource stats m
      × All (IsNoBetter candidate resource m) stats
unfolding resolve_duration
resolve_duration_most_specific candidate resource rules stats production subtype d p q n =
    let found = matches candidate resource stats in
    let sorted = sort_onto stat_before [] found in
    let picked =
      picks_first candidate.duration_estimate candidate.production_type candidate.shooting_subtype
        production subtype sorted (matching_rule rules candidate) d p q in
    elim (sorted_first stat_before IsMoreSpecific IsMoreSpecific-trans stat_before-IsMoreSpecific
      stat_after-IsMoreSpecific (IsMatch candidate resource stats) (λ x. inr (refl, omega arith))
      found sorted refl (matches-IsMatch candidate resource stats stats (All-Mem stats))) [
        | inl (_, none_found) ↦ absurd (n none_found)
        | inr (m, rest, e, match, better) ↦ (
          m,
          picked ∙ ap (λ ms. first_match ms (matching_rule rules candidate)) e,
          match,
          matches-IsNoBetter candidate resource m stats better,
        )
      ]
