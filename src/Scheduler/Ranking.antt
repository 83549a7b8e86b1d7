-- ===== src/Scheduler/Ranking.antt =====
-- The order of the candidates, `sortCandidates` of src/deterministic-scheduler-v1.mjs.
use mathlib.Core.List.{Perm}
use jenn_shooting_operations.Prelude.{
  ℕ, ◌+◌, ◌<◌, ◌⊎◌, inl, inr, ◌∙◌, ◌≤◌, ◌≡◌, refl, true, false, String, Option, none, some, List,
  [], arith,
}
use jenn_shooting_operations.Prelude.Sorting.{IsOrderedBy, sort_onto-IsOrderedBy, sort_onto-Perm}
use jenn_shooting_operations.Scheduler.Durations.{
  Candidate, Sign, sign, or_else, is_less, rank, compare_candidates, sort_candidates,
}
use jenn_shooting_operations.Scheduler.Durations.{Priority, p0, p1, p2, desired_date_order}
use jenn_shooting_operations.Scheduler.Resolving.{is_less-or_else, is_less-or_else_not}

-- p0 comes before p1, p1 before p2, and what has no priority last.
abbrev pub urgency : Option Priority → ℕ
urgency (some p0) = 1
urgency (some p1) = 2
urgency (some p2) = 3
urgency none = 4

-- What has a desired date comes before what has none, and what has none in the order of the source.
abbrev pub DateFirst : Option String → Option String → ℕ → ℕ → Type 0
DateFirst (some d) other m n = Unit
DateFirst none (some e) m n = ⊥
DateFirst none none m n = m ≤ n

abbrev pub ComesFirst : Candidate → Candidate → Type 0
ComesFirst a b =
    (urgency a.priority < urgency b.priority)
    ⊎ ((urgency a.priority ≡ urgency b.priority)
        × DateFirst a.desired_date b.desired_date a.source_ordinal b.source_ordinal)

DateFirst-trans :
    (a b c : Option String) (i j k : ℕ) → DateFirst a b i j → DateFirst b c j k → DateFirst a c i k
DateFirst-trans (some a) b c i j k g h = tt
DateFirst-trans none (some b) c i j k g h = absurd g
DateFirst-trans none none (some c) i j k g h = absurd h
DateFirst-trans none none none i j k g h = omega (arith, g, h)

ComesFirst-trans : (a b c : Candidate) → ComesFirst a b → ComesFirst b c → ComesFirst a c
ComesFirst-trans a b c (inl g) (inl h) = inl (omega (arith, g, h))
ComesFirst-trans a b c (inl g) (inr h) = inl (let e = h.0 in omega (arith, g, e))
ComesFirst-trans a b c (inr g) (inl h) = inl (let e = g.0 in omega (arith, e, h))
ComesFirst-trans a b c (inr g) (inr h) = inr (
  g.0 ∙ h.0,
  DateFirst-trans a.desired_date b.desired_date c.desired_date a.source_ordinal b.source_ordinal
      c.source_ordinal g.1 h.1,
)

rank-urgency : (p : Option Priority) → rank p + 1 ≡ urgency p
unfolding rank
rank-urgency none = refl
rank-urgency (some p0) = refl
rank-urgency (some p1) = refl
rank-urgency (some p2) = refl

first_sign :
    (m n : ℕ) (s : Sign)
    → is_less (or_else (sign m n) s) ≡ true
    → (m < n) ⊎ ((m ≡ n) × (is_less s ≡ true))
unfolding sign or_else is_less
first_sign m n s h = ground (arith, h)

first_sign_not :
    (m n : ℕ) (s : Sign)
    → is_less (or_else (sign m n) s) ≡ false
    → (n < m) ⊎ ((n ≡ m) × (is_less s ≡ false))
unfolding sign or_else is_less
first_sign_not m n s h = ground (arith, h)

date_before :
    (a b : Option String) (i j : ℕ) (s : Sign)
    → is_less (or_else (desired_date_order a b) (or_else (sign i j) s)) ≡ true
    → DateFirst a b i j
unfolding desired_date_order or_else is_less
date_before (some a) b i j s h = tt
date_before none (some b) i j s h = cc
date_before none none i j s h = is_less-or_else i j s h

date_after :
    (a b : Option String) (i j : ℕ) (s : Sign)
    → is_less (or_else (desired_date_order a b) (or_else (sign i j) s)) ≡ false
    → DateFirst b a j i
unfolding desired_date_order or_else is_less
date_after a (some b) i j s h = tt
date_after (some a) none i j s h = cc
date_after none none i j s h = is_less-or_else_not i j s h

compare-ComesFirst : (a b : Candidate) → is_less (compare_candidates a b) ≡ true → ComesFirst a b
unfolding compare_candidates
compare-ComesFirst a b h = elim (first_sign (rank a.priority) (rank b.priority) _ h) [
  | inl l ↦ inl (omega (arith, rank-urgency a.priority, rank-urgency b.priority, l))
  | inr (e, k) ↦ inr (
    omega (arith, rank-urgency a.priority, rank-urgency b.priority, e),
    date_before a.desired_date b.desired_date a.source_ordinal b.source_ordinal _ k,
  )
]

compare_not-ComesFirst :
    (a b : Candidate) → is_less (compare_candidates a b) ≡ false → ComesFirst b a
unfolding compare_candidates
compare_not-ComesFirst a b h = elim (first_sign_not (rank a.priority) (rank b.priority) _ h) [
  | inl l ↦ inl (omega (arith, rank-urgency a.priority, rank-urgency b.priority, l))
  | inr (e, k) ↦ inr (
    omega (arith, rank-urgency a.priority, rank-urgency b.priority, e),
    date_after a.desired_date b.desired_date a.source_ordinal b.source_ordinal _ k,
  )
]

-- The candidates come by their priorities, p0 before p1 before p2 and those without one last; of one
-- priority, those with a desired date come first, and those without one in the order of the source. They
-- are those that were given.
pub sort_candidates_ranked :
    (candidates : List Candidate)
    → IsOrderedBy ComesFirst (sort_candidates candidates)
      × Perm (sort_candidates candidates) candidates
unfolding sort_candidates
sort_candidates_ranked candidates = (
  sort_onto-IsOrderedBy (λ left right. is_less (compare_candidates left right)) ComesFirst
      ComesFirst-trans compare-ComesFirst compare_not-ComesFirst candidates [] tt,
  sort_onto-Perm (λ left right. is_less (compare_candidates left right)) candidates [],
)
