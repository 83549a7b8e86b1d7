-- ===== src/Scheduler/Separation.antt =====
-- That what is placed on one resource does not overlap, as an invariant of the state.
use mathlib.Core.Path.{subst}
use jenn_shooting_operations.Prelude.{
  ℕ, ◌+◌, ◌*◌, ◌≡◌, ◌≢◌, ◌≤◌, ◌⊎◌, refl, true, String, str_eq, eq_iff, Option, none, some, List, [],
  ◌∷◌, All, if_elim, Bool-cases, inl, inr, sym,
}
use jenn_shooting_operations.Prelude.Sorting.{
  sort_onto, IsOrderedBy, All-sort_onto, insert_by-inserted, insert_by-others,
}
use jenn_shooting_operations.Scheduler.Slots.{
  Interval, IsOrdered, reservation, insert_interval, interval_before, insert_interval-IsOrdered,
}
use jenn_shooting_operations.Scheduler.Options.{Offer, minute_ms}
use jenn_shooting_operations.Scheduler.Offers.{IsFreeOffer}
use jenn_shooting_operations.Scheduler.Occupied.{Occupied, busy_add, enter, occupied_busy}
use jenn_shooting_operations.Scheduler.Placing.{
  ProposedItem, State, offer_before, first_offer, choice,
}

-- The busy intervals of every resource.
abbrev pub Busy : Type 0
Busy = String → List Interval

abbrev pub until : ProposedItem → ℕ
until x = x.planned_end + x.buffer_after_minutes * minute_ms

-- The item with its buffer has no time in common with an interval.
abbrev pub IsClearItem : ProposedItem → Interval → Type 0
IsClearItem x i = (i.finish ≤ x.planned_start) ⊎ (until x ≤ i.start)

-- Two items are on different resources, or the one ends, with its buffer, before the other starts.
abbrev pub Apart : ProposedItem → ProposedItem → Type 0
Apart a b =
    (a.resource_id ≢ b.resource_id) ⊎ ((until a ≤ b.planned_start) ⊎ (until b ≤ a.planned_start))

-- The item is among the busy intervals of its resource.
abbrev pub Holds : Busy → ProposedItem → Type 1
Holds busy x =
    (P : Interval → Type 0) → All P (busy x.resource_id) → P (reservation x.planned_start (until x))

-- `initial` is what was busy before the first candidate.
pub record IsPlaced (initial : Busy) (state : State) : Type 1 where
  pub ordered : (r : String) → IsOrdered (state.busy r)
  pub kept : (r : String) (P : Interval → Type 0) → All P (state.busy r) → All P (initial r)
  pub held : All (Holds state.busy) state.proposed_items
  pub clear : All (λ x. All (IsClearItem x) (initial x.resource_id)) state.proposed_items
  pub apart : IsOrderedBy Apart state.proposed_items

-- Where the schedule does not fail.
abbrev pub IsPlacedOption : Busy → Option State → Type 1
IsPlacedOption initial none = Unit
IsPlacedOption initial (some state) = IsPlaced initial state

pub busy_add-IsOrdered :
    (id : String) (i : Interval) (busy : Busy)
    → ((r : String) → IsOrdered (busy r))
    → (r : String) → IsOrdered (busy_add id i busy r)
unfolding busy_add
busy_add-IsOrdered id i busy h r =
    if_elim IsOrdered (str_eq id r) _ _ (λ e. insert_interval-IsOrdered i (busy r) (h r)) (λ e. h r)

pub busy_add-others :
    (P : Interval → Type 0) (id : String) (i : Interval) (busy : Busy) (r : String)
    → All P (busy_add id i busy r)
    → All P (busy r)
unfolding busy_add insert_interval
busy_add-others P id i busy r =
    if_elim (λ (is : List Interval). All P is → All P (busy r)) (str_eq id r) _ _
      (λ e. insert_by-others interval_before P i (busy r)) (λ e h. h)

pub busy_add-inserted :
    (P : Interval → Type 0) (id : String) (i : Interval) (busy : Busy)
    → All P (busy_add id i busy id)
    → P i
unfolding busy_add insert_interval
busy_add-inserted P id i busy =
    if_elim (λ (is : List Interval). All P is → P i) (str_eq id id) _ _
      (λ e. insert_by-inserted interval_before P i (busy id))
      (λ e h. let k : str_eq id id ≡ true = (eq_iff id id).1 refl in cc)

first_lem :
    (busy : Busy) (os : List Offer) (o : Offer)
    → All (IsFreeOffer busy) os
    → first_offer os ≡ some o
    → IsFreeOffer busy o
first_lem busy [] o h e = cc
first_lem busy (x ∷ xs) o h e = subst (IsFreeOffer busy) (let k : x ≡ o = cc in k) h.0

pub choice-IsFreeOffer :
    (busy : Busy) (options : List Offer) (o : Offer)
    → All (IsFreeOffer busy) options
    → choice options ≡ some o
    → IsFreeOffer busy o
unfolding choice
choice-IsFreeOffer busy options o h e =
    first_lem busy (sort_onto offer_before [] options) o
      (All-sort_onto offer_before (IsFreeOffer busy) options [] tt h) e

enter-IsOrdered :
    (id : Option String) (buffer : Option ℕ) (item : Occupied) (busy : Busy)
    → ((r : String) → IsOrdered (busy r))
    → (r : String) → IsOrdered (enter id buffer item busy r)
unfolding enter
enter-IsOrdered none buffer item busy h r = h r
enter-IsOrdered (some id) none item busy h r = h r
enter-IsOrdered (some id) (some minutes) item busy h r = busy_add-IsOrdered id _ busy h r

pub occupied_busy-IsOrdered :
    (items : List Occupied) (busy : Busy)
    → ((r : String) → IsOrdered (busy r))
    → (r : String) → IsOrdered (occupied_busy items busy r)
unfolding occupied_busy
occupied_busy-IsOrdered [] busy h = h
occupied_busy-IsOrdered (item ∷ items) busy h =
    occupied_busy-IsOrdered items _
      (enter-IsOrdered item.resource_id item.buffer_after_minutes item busy h)

-- The item with its buffer is clear of an occupied interval of its resource, which goes on for the minutes
-- of its own buffer.
abbrev ClearOf : ProposedItem → Option String → Option ℕ → ℕ → ℕ → Type 0
ClearOf x none buffer start finish = Unit
ClearOf x (some id) none start finish = Unit
ClearOf x (some id) (some minutes) start finish =
    (id ≢ x.resource_id) ⊎ ((finish + minutes * 60000 ≤ x.planned_start) ⊎ (until x ≤ start))

abbrev pub IsClearOf : ProposedItem → Occupied → Type 0
IsClearOf x item =
    ClearOf x item.resource_id item.buffer_after_minutes item.planned_start item.planned_end

module _ (x : ProposedItem) (item : Occupied) where
  entered-IsClear :
      (id : Option String) (buffer : Option ℕ) (busy : Busy)
      → All (IsClearItem x) (enter id buffer item busy x.resource_id)
      → ClearOf x id buffer item.planned_start item.planned_end
  unfolding enter
  entered-IsClear none buffer busy h = tt
  entered-IsClear (some id) none busy h = tt
  entered-IsClear (some id) (some minutes) busy h = elim (Bool-cases (str_eq id x.resource_id)) [
    | inl e ↦
        let same : id ≡ x.resource_id = (eq_iff id x.resource_id).0 e in
        let i : Interval = record {
          start = item.planned_start;
          finish = item.planned_end + minutes * minute_ms;
          locked = str_eq item.lock_status "locked";
          schedule_item_id = some item.schedule_item_id;
        } in
        inr (
          busy_add-inserted (IsClearItem x) id i busy
            (subst (λ r. All (IsClearItem x) (busy_add id i busy r)) (sym same) h))
    | inr e ↦
        inl (λ q. let k : str_eq id x.resource_id ≡ true = (eq_iff id x.resource_id).1 q in cc)
  ]

  enter-others :
      (id : Option String) (buffer : Option ℕ) (busy : Busy)
      → All (IsClearItem x) (enter id buffer item busy x.resource_id)
      → All (IsClearItem x) (busy x.resource_id)
  unfolding enter
  enter-others none buffer busy h = h
  enter-others (some id) none busy h = h
  enter-others (some id) (some minutes) busy h =
      busy_add-others (IsClearItem x) id _ busy x.resource_id h

occupied_busy-others :
    (x : ProposedItem) (items : List Occupied) (busy : Busy)
    → All (IsClearItem x) (occupied_busy items busy x.resource_id)
    → All (IsClearItem x) (busy x.resource_id)
unfolding occupied_busy
occupied_busy-others x [] busy h = h
occupied_busy-others x (item ∷ items) busy h =
    enter-others x item item.resource_id item.buffer_after_minutes busy
      (occupied_busy-others x items _ h)

pub occupied_busy-IsClear :
    (x : ProposedItem) (items : List Occupied) (busy : Busy)
    → All (IsClearItem x) (occupied_busy items busy x.resource_id)
    → All (IsClearOf x) items
unfolding occupied_busy
occupied_busy-IsClear x [] busy h = tt
occupied_busy-IsClear x (item ∷ items) busy h = (
  entered-IsClear x item item.resource_id item.buffer_after_minutes busy
      (occupied_busy-others x items _ h),
  occupied_busy-IsClear x items _ h,
)
