-- ===== src/Scheduler/Weighing.antt =====
-- What the penalty of a slot amounts to.
use mathlib.Core.Path.{subst}
use mathlib.Core.List.{Mem}
use jenn_shooting_operations.Prelude.Sorting.{All-Mem, sort_onto, sorted_first}
use jenn_shooting_operations.Prelude.{
  ℕ, ◌+◌, ◌*◌, ◌≡◌, ◌≢◌, ◌≤◌, ◌<◌, ◌⊎◌, inl, inr, All, All-map, if_elim, both_true, Bool-cases, ltb,
  ◌&&◌, str_eq, eq_iff, leb, refl, sym, ap, Bool, true, false, String, Option, none, some, List, [],
  ◌∷◌, ◌++◌, arith,
}
use jenn_shooting_operations.Scheduler.Durations.{Candidate, Stat, expected_overrun}
use jenn_shooting_operations.Scheduler.Penalties.{
  Reason, desired_date_miss, lighting_switch, reflectivity_sequence, idle_gap, overrun_expected,
  Weights, Selected, Penalty, gap_minutes, prior, earlier, head, misses_date, penalise,
  penalise_prior, soft_penalty,
}

-- The minutes between the item before, if there is one, and the slot.
abbrev pub gap_after : Option Selected → ℕ → ℕ
gap_after none slot = 0
gap_after (some item) slot = gap_minutes slot item.finish

-- What a reason adds: an idle gap counts once for each minute.
abbrev pub price : Weights → ℕ → Reason → ℕ
price weights minutes desired_date_miss = weights desired_date_miss
price weights minutes lighting_switch = weights lighting_switch
price weights minutes reflectivity_sequence = weights reflectivity_sequence
price weights minutes idle_gap = weights idle_gap * minutes
price weights minutes overrun_expected = weights overrun_expected

abbrev pub total : Weights → ℕ → List Reason → ℕ
total weights minutes [] = 0
total weights minutes (reason ∷ reasons) =
    price weights minutes reason + total weights minutes reasons

total-append :
    (weights : Weights) (minutes : ℕ) (xs : List Reason) (reason : Reason)
    → total weights minutes (xs ++ reason ∷ [])
      ≡ total weights minutes xs + price weights minutes reason
total-append weights minutes [] reason = omega arith
total-append weights minutes (x ∷ xs) reason =
    let h = total-append weights minutes xs reason in omega arith

abbrev IsPriced : Weights → ℕ → Penalty → Type 0
IsPriced weights minutes p = p.penalty ≡ total weights minutes p.reasons

penalise-IsPriced :
    (weights : Weights) (minutes : ℕ) (test : Bool) (reason : Reason) (p : Penalty)
    → IsPriced weights minutes p
    → IsPriced weights minutes (penalise test (price weights minutes reason) reason p)
unfolding penalise
penalise-IsPriced weights minutes true reason p h =
    let k = total-append weights minutes p.reasons reason in omega arith
penalise-IsPriced weights minutes false reason p h = h

penalise_prior-IsPriced :
    (weights : Weights) (candidate : Candidate) (slot : ℕ) (item : Option Selected) (p : Penalty)
    → IsPriced weights (gap_after item slot) p
    → IsPriced weights (gap_after item slot) (penalise_prior weights candidate slot item p)
unfolding penalise_prior
penalise_prior-IsPriced weights candidate slot none p h = h
penalise_prior-IsPriced weights candidate slot (some item) p h =
    let add = penalise-IsPriced weights (gap_minutes slot item.finish) in
    add _ idle_gap _ (add _ reflectivity_sequence _ (add _ lighting_switch p h))

-- It does not end on the resource by the slot.
abbrev pub IsElsewhere : String → ℕ → Selected → Type 0
IsElsewhere resource slot i = (i.resource_id ≢ resource) ⊎ (slot < i.finish)

-- The minutes begun between the last item to end on the resource by the slot and the slot, of which there
-- are none without such an item.
abbrev pub IsGap : String → ℕ → List Selected → ℕ → Type 0
IsGap resource slot selected minutes =
    ((minutes ≡ 0) × All (IsElsewhere resource slot) selected)
    ⊎ ((m : Selected) × Mem m selected
        × ((m.resource_id ≡ resource) × (m.finish ≤ slot))
        × All (λ i. IsElsewhere resource slot i ⊎ (i.finish ≤ m.finish)) selected
        × (slot ≤ m.finish + minutes * 60000)
        × (m.finish + minutes * 60000 < slot + 60000))

module _ (resource : String) (slot : ℕ) where
  -- One of the items, on the resource and by the slot.
  IsEarlier : List Selected → Selected → Type 0
  IsEarlier every i = Mem i every × ((i.resource_id ≡ resource) × (i.finish ≤ slot))

  earlier_test : Selected → Bool
  earlier_test i = str_eq i.resource_id resource && leb i.finish slot

  earlier-parts :
      (i : Selected) → earlier_test i ≡ true → (i.resource_id ≡ resource) × (i.finish ≤ slot)
  unfolding earlier_test
  earlier-parts i h =
      let (a, b) = both_true (str_eq i.resource_id resource) (leb i.finish slot) h in
      ((eq_iff i.resource_id resource).0 a, ground (arith, b))

  not_earlier : (i : Selected) → earlier_test i ≡ false → IsElsewhere resource slot i
  unfolding earlier_test
  not_earlier i h = elim (Bool-cases (str_eq i.resource_id resource)) [
    | inl t ↦ inr (ground (arith, t, h))
    | inr f ↦ inl (λ q.
        let k : str_eq i.resource_id resource ≡ true = (eq_iff i.resource_id resource).1 q in cc)
  ]

  earlier-IsEarlier :
      (every items : List Selected)
      → All (λ i. Mem i every) items
      → All (IsEarlier every) (earlier resource slot items)
  unfolding earlier earlier_test IsEarlier
  earlier-IsEarlier every [] h = tt
  earlier-IsEarlier every (i ∷ items) h =
      if_elim (All (IsEarlier every)) (earlier_test i) _ _
        (λ e. ((h.0, earlier-parts i e), earlier-IsEarlier every items h.1))
        (λ e. earlier-IsEarlier every items h.1)

  earlier-All :
      (P : Selected → Type 0) (items : List Selected)
      → All P (earlier resource slot items)
      → All (λ i. IsElsewhere resource slot i ⊎ P i) items
  unfolding earlier earlier_test
  earlier-All P [] h = tt
  earlier-All P (i ∷ items) h =
      if_elim
        (λ (is : List Selected).
          All P is → All (λ i. IsElsewhere resource slot i ⊎ P i) (i ∷ items))
        (earlier_test i) (i ∷ earlier resource slot items) (earlier resource slot items)
        (λ e k. (inr k.0, earlier-All P items k.1))
        (λ e k. (inl (not_earlier i e), earlier-All P items k)) h

abbrev EndsLater : Selected → Selected → Type 0
EndsLater a b = b.finish ≤ a.finish

sorted_later :
    (P : Selected → Type 0) (xs sorted : List Selected)
    → sorted ≡ sort_onto (λ (left right : Selected). ltb right.finish left.finish) [] xs
    → All P xs
    → ((sorted ≡ []) × (xs ≡ []))
      ⊎ ((m : Selected) × (rest : List Selected) × (sorted ≡ m ∷ rest) × P m × All (EndsLater m) xs)
sorted_later P =
    sorted_first (λ (left right : Selected). ltb right.finish left.finish) EndsLater
      (λ a b c h k. omega (arith, h, k)) (λ a b e. ground (arith, e)) (λ a b e. ground (arith, e)) P
      (λ a. omega arith)

minutes_begun :
    (slot finish : ℕ)
    → finish ≤ slot
    → (slot ≤ finish + gap_minutes slot finish * 60000)
      × (finish + gap_minutes slot finish * 60000 < slot + 60000)
minutes_begun slot finish h = (omega (arith, h), omega (arith, h))

prior-IsGap :
    (resource : String) (slot : ℕ) (selected : List Selected)
    → IsGap resource slot selected (gap_after (prior resource slot selected) slot)
unfolding prior IsEarlier
prior-IsGap resource slot selected =
    let found = earlier resource slot selected in
    let sorted = sort_onto (λ (left right : Selected). ltb right.finish left.finish) [] found in
    elim (sorted_later (IsEarlier resource slot selected) found sorted refl
      (earlier-IsEarlier resource slot selected selected (All-Mem selected))) [
        | inl (e, none_found) ↦ inl (
          ap (λ is. gap_after (head is) slot) e,
          All-map _ (IsElsewhere resource slot) selected (λ i h. elim h [ inl l ↦ l | inr r ↦ r ])
              (earlier-All resource slot (IsElsewhere resource slot) selected
                (subst (All (IsElsewhere resource slot)) (sym none_found) tt)),
        )
        | inr (m, rest, e, is_earlier, later) ↦
            let (reached, begun) = minutes_begun slot m.finish is_earlier.1.1 in
            subst (IsGap resource slot selected) (sym (ap (λ is. gap_after (head is) slot) e)) (
              inr (
                m,
                is_earlier.0,
                is_earlier.1,
                earlier-All resource slot (λ i. i.finish ≤ m.finish) selected later,
                reached,
                begun,
              ))
      ]

soft_penalty-priced :
    (local_date : ℕ → String) (weights : Weights) (candidate : Candidate) (resource : String)
    (slot : ℕ) (selected : List Selected) (duration_ms : ℕ) (stats : List Stat)
    → (soft_penalty local_date weights candidate resource slot selected duration_ms stats).penalty
      ≡ total weights
          (gap_after (prior resource slot selected) slot)
          (soft_penalty local_date weights candidate resource slot selected duration_ms
            stats).reasons
unfolding soft_penalty
soft_penalty-priced local_date weights candidate resource slot selected duration_ms stats =
    let item = prior resource slot selected in
    let add = penalise-IsPriced weights (gap_after item slot) in
    let p : Penalty = record { penalty = 0; reasons = [] } in
    let missed = misses_date candidate.desired_date (local_date slot) in
    let q = penalise missed (weights desired_date_miss) desired_date_miss p in
    add (expected_overrun candidate resource stats duration_ms) overrun_expected
      (penalise_prior weights candidate slot item q)
      (penalise_prior-IsPriced weights candidate slot item q (add missed desired_date_miss p refl))

-- The penalty of a slot is the sum of the weights of the reasons that are reported with it, an idle gap
-- counted once for each minute begun between the last item to end on the resource by the slot and the slot.
pub soft_penalty-total :
    (local_date : ℕ → String) (weights : Weights) (candidate : Candidate) (resource : String)
    (slot : ℕ) (selected : List Selected) (duration_ms : ℕ) (stats : List Stat)
    → (minutes : ℕ) × IsGap resource slot selected minutes
      × ((soft_penalty local_date weights candidate resource slot selected duration_ms
            stats).penalty
          ≡ total weights minutes
              (soft_penalty local_date weights candidate resource slot selected duration_ms
                stats).reasons)
soft_penalty-total local_date weights candidate resource slot selected duration_ms stats = (
  gap_after (prior resource slot selected) slot,
  prior-IsGap resource slot selected,
  soft_penalty-priced local_date weights candidate resource slot selected duration_ms stats,
)
