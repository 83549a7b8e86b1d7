-- ===== src/Scheduler/Placed.antt =====
-- What is placed on one resource does not overlap.
use mathlib.Core.Path.{subst}
use jenn_shooting_operations.Prelude.{
  ℕ, ◌+◌, ◌*◌, ◌≡◌, inl, inr, sym, refl, Bool, true, false, not, length, String, str_eq, eq_iff,
  Option, none, some, List, [], ◌∷◌, ◌==◌, All, All-map, All-snoc, if_elim, Bool-cases, arith,
}
use jenn_shooting_operations.Prelude.Sorting.{IsOrderedBy, IsOrderedBy-snoc}
use jenn_shooting_operations.Scheduler.Slots.{Interval, reservation}
use jenn_shooting_operations.Scheduler.Durations.{Candidate, sort_candidates}
use jenn_shooting_operations.Scheduler.Options.{
  Setting, Offer, Search, Resource, Diagnostic, minute_ms,
}
use jenn_shooting_operations.Scheduler.Offers.{IsClear, IsFreeOffer, try_resources-IsFreeSearch}
use jenn_shooting_operations.Scheduler.Occupied.{
  Occupied, busy_add, occupied_busy, eligible, resource_unknown, global_unknown,
}
use jenn_shooting_operations.Scheduler.Placing.{
  ProposedItem, State, choice, proposed, place, report_conflict, refuse, settle_choice, searched,
  search_resources, place_candidate, place_candidates, generate_schedule, new_search, is_unknown,
}
use jenn_shooting_operations.Scheduler.Separation.{
  Busy, IsClearItem, Apart, Holds, IsPlaced, IsPlacedOption, busy_add-IsOrdered, busy_add-others,
  busy_add-inserted, choice-IsFreeOffer, occupied_busy-IsOrdered, IsClearOf, occupied_busy-IsClear,
}

module _ (initial : Busy) (setting : Setting) (candidate : Candidate) where
  item-IsClearItem :
      (o : Offer) (is : List Interval)
      → o.buffer_ms ≡ o.buffer_rule.amount * minute_ms
      → All (IsClear o) is
      → All (IsClearItem (proposed setting candidate o)) is
  item-IsClearItem o is e =
      All-map (IsClear o) (IsClearItem (proposed setting candidate o)) is
        (λ i h. elim h [ inl a ↦ inl a | inr b ↦ inr (omega arith) ])

  item-Apart :
      (o : Offer) (busy : Busy) (a : ProposedItem)
      → IsFreeOffer busy o
      → Holds busy a
      → Apart a (proposed setting candidate o)
  item-Apart o busy a f h = elim (Bool-cases (str_eq a.resource_id o.resource_id)) [
    | inl e ↦
        let k = h (IsClear o) (
          subst (λ r. All (IsClear o) (busy r)) (sym ((eq_iff a.resource_id o.resource_id).0 e))
            f.1) in
        let e' = f.0 in inr (elim k [ inl l ↦ inl l | inr l ↦ inr (omega arith) ])
    | inr e ↦ inl (λ q.
        let k : str_eq a.resource_id o.resource_id ≡ true =
          (eq_iff a.resource_id o.resource_id).1 q in
        cc)
  ]

  place-IsPlaced :
      (o : Offer) (state : State)
      → IsFreeOffer state.busy o
      → IsPlaced initial state
      → IsPlaced initial (place setting candidate o state)
  unfolding place
  place-IsPlaced o state f h =
      let x = proposed setting candidate o in
      let i = reservation o.slot (o.finish + o.buffer_ms) in
      record {
        ordered = busy_add-IsOrdered o.resource_id i state.busy h.ordered;
        kept = λ r P a. h.kept r P (busy_add-others P o.resource_id i state.busy r a);
        held =
            All-snoc (Holds (busy_add o.resource_id i state.busy)) state.proposed_items x
              (All-map (Holds state.busy) (Holds (busy_add o.resource_id i state.busy))
                state.proposed_items
                (λ a k P ps. k P (busy_add-others P o.resource_id i state.busy a.resource_id ps))
                h.held)
              (λ P ps.
                subst (λ b. P (reservation o.slot (o.finish + b))) f.0
                  (busy_add-inserted P o.resource_id i state.busy ps));
        clear =
            All-snoc (λ y. All (IsClearItem y) (initial y.resource_id)) state.proposed_items x
              h.clear
              (item-IsClearItem o (initial o.resource_id) f.0
                (h.kept o.resource_id (IsClear o) f.1));
        apart = IsOrderedBy-snoc Apart state.proposed_items x h.apart (
            All-map (Holds state.busy) (λ a. Apart a x) state.proposed_items
              (λ a. item-Apart o state.busy a f) h.held);
      }

  reported-IsPlaced :
      (ds : List Diagnostic) (state : State)
      → IsPlaced initial state
      → IsPlaced initial (record state { diagnostics = ds })
  reported-IsPlaced ds state h = record {
    ordered = h.ordered;
    kept = h.kept;
    held = h.held;
    clear = h.clear;
    apart = h.apart;
  }

  report_conflict-IsPlaced :
      (b : Bool) (c : Option (String × Option String)) (state : State)
      → IsPlaced initial state
      → IsPlaced initial (report_conflict candidate b c state)
  unfolding report_conflict
  report_conflict-IsPlaced b none state h = h
  report_conflict-IsPlaced false (some c) state h = h
  report_conflict-IsPlaced true (some c) state h = reported-IsPlaced _ state h

  refuse-IsPlaced :
      (search : Search) (n : ℕ) (state : State)
      → IsPlaced initial state
      → IsPlaced initial (refuse candidate search n state)
  unfolding refuse
  refuse-IsPlaced search n state h =
      if_elim (IsPlaced initial) (search.unknown_buffer_resources == n) _ _ (λ e. h)
        (λ e.
          reported-IsPlaced _ _
            (report_conflict-IsPlaced search.calendar_had_capacity search.locked_conflict state h))

  settle_choice-IsPlaced :
      (search : Search) (n : ℕ) (o : Option Offer) (state : State)
      → choice search.options ≡ o
      → All (IsFreeOffer state.busy) search.options
      → IsPlaced initial state
      → IsPlaced initial (settle_choice setting candidate search n o state)
  unfolding settle_choice
  settle_choice-IsPlaced search n none state e f h = refuse-IsPlaced search n state h
  settle_choice-IsPlaced search n (some o) state e f h =
      place-IsPlaced o state (choice-IsFreeOffer state.busy search.options o f e) h

  searched-IsPlaced :
      (n : ℕ) (search : Search) (state : State)
      → All (IsFreeOffer state.busy) search.options
      → IsPlaced initial state
      → IsPlacedOption initial (searched setting candidate n search state)
  unfolding searched
  searched-IsPlaced n search state f h =
      if_elim (IsPlacedOption initial) search.no_buffer_rule _ _ (λ e. tt)
        (λ e.
          settle_choice-IsPlaced search n (choice search.options) _ refl f
            (reported-IsPlaced search.diagnostics state h))

  search_resources-IsPlaced :
      (resources : List Resource) (state : State)
      → IsPlaced initial state
      → IsPlacedOption initial (search_resources setting candidate resources state)
  unfolding search_resources
  search_resources-IsPlaced [] state h = reported-IsPlaced _ state h
  search_resources-IsPlaced (r ∷ rs) state h =
      searched-IsPlaced (length (r ∷ rs)) _ state
        (try_resources-IsFreeSearch setting candidate state.selected state.busy h.ordered (r ∷ rs)
          (new_search state) tt)
        h

  place_candidate-IsPlaced :
      (state : State)
      → IsPlaced initial state
      → IsPlacedOption initial (place_candidate setting candidate state)
  unfolding place_candidate
  place_candidate-IsPlaced state h =
      if_elim (IsPlacedOption initial) (not (str_eq candidate.sample_status "arrivedVerified")) _ _
        (λ e. reported-IsPlaced _ state h)
        (λ e.
          if_elim (IsPlacedOption initial) (is_unknown candidate.priority) _ _
            (λ e'. reported-IsPlaced _ state h)
            (λ e'.
              if_elim (IsPlacedOption initial) setting.global_unknown _ _
                (λ e2. reported-IsPlaced _ state h)
                (λ e2. search_resources-IsPlaced (eligible candidate setting.resources) state h)))

place_candidates-IsPlaced :
    (initial : Busy) (setting : Setting) (candidates : List Candidate) (state : Option State)
    → IsPlacedOption initial state
    → IsPlacedOption initial (place_candidates setting candidates state)
unfolding place_candidates
place_candidates-IsPlaced initial setting candidates none h = tt
place_candidates-IsPlaced initial setting [] (some state) h = h
place_candidates-IsPlaced initial setting (candidate ∷ candidates) (some state) h =
    place_candidates-IsPlaced initial setting candidates (place_candidate setting candidate state)
      (place_candidate-IsPlaced initial setting candidate state h)

-- Of a schedule that does not fail, no two proposed items on one resource have a time in common, their
-- buffers included, and no proposed item with its buffer has a time in common with an occupied item of
-- its resource whose buffer is known, that buffer included.
pub generate_schedule-Apart :
    (setting : Setting) (occupied : List Occupied) (candidates : List Candidate) (state : State)
    → generate_schedule setting occupied candidates ≡ some state
    → IsOrderedBy Apart state.proposed_items
      × All (λ x. All (IsClearOf x) occupied) state.proposed_items
unfolding generate_schedule
generate_schedule-Apart setting occupied candidates state e =
    let initial = occupied_busy occupied (λ r. []) in
    let known = record setting {
      global_unknown = global_unknown occupied;
      resource_unknown = resource_unknown occupied;
    } in
    let first : State = record {
      busy = initial;
      proposed_items = [];
      diagnostics = [];
      selected = [];
    } in
    let start : IsPlaced initial first = record {
      ordered = occupied_busy-IsOrdered occupied (λ r. []) (λ r. tt);
      kept = λ r P ps. ps;
      held = tt;
      clear = tt;
      apart = tt;
    } in
    let h =
      subst (IsPlacedOption initial) e
        (place_candidates-IsPlaced initial known (sort_candidates candidates) (some first) start) in
    (
      h.apart,
      All-map (λ x. All (IsClearItem x) (initial x.resource_id)) (λ x. All (IsClearOf x) occupied)
          state.proposed_items (λ x. occupied_busy-IsClear x occupied (λ r. [])) h.clear,
    )
