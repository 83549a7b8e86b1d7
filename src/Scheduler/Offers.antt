-- ===== src/Scheduler/Offers.antt =====
-- The options of a candidate are free.
use jenn_shooting_operations.Prelude.{
  ℕ, ◌+◌, ◌*◌, ◌≡◌, refl, false, String, str_eq, Option, none, some, List, [], ◌∷◌, All, if_elim,
  All-map, All-snoc, leb, arith, ◌≤◌, ◌⊎◌, inl, inr,
}
use jenn_shooting_operations.Scheduler.Slots.{
  Interval, Window, first_slot, IsFree, IsOrdered, first_slot-Fits,
}
use jenn_shooting_operations.Scheduler.Durations.{Candidate, Rule, Duration, matching_rule}
use jenn_shooting_operations.Scheduler.Penalties.{Selected}
use jenn_shooting_operations.Scheduler.Options.{
  Setting, Offer, Search, Resource, minute_ms, offered, offer_of, try_slot, measured, try_windows,
  with_rule, with_duration, try_resource, try_resources,
}

-- The slot with its buffer has no time in common with an interval.
abbrev pub IsClear : Offer → Interval → Type 0
IsClear o i = (i.finish ≤ o.slot) ⊎ (o.finish + o.buffer_ms ≤ i.start)

abbrev pub IsFreeOffer : (String → List Interval) → Offer → Type 0
IsFreeOffer busy o =
    (o.buffer_ms ≡ o.buffer_rule.amount * minute_ms) × All (IsClear o) (busy o.resource_id)

abbrev pub IsFreeSearch : (String → List Interval) → Search → Type 0
IsFreeSearch busy search = All (IsFreeOffer busy) search.options

module _ (setting : Setting) (candidate : Candidate) (selected : List Selected)
    (busy : String → List Interval) (ordered : (r : String) → IsOrdered (busy r)) where
  offered-IsFreeSearch :
      (o : Offer) (search : Search)
      → IsFreeOffer busy o
      → IsFreeSearch busy search
      → IsFreeSearch busy (offered setting o search)
  unfolding offered
  offered-IsFreeSearch o search f h =
      if_elim (IsFreeSearch busy) (str_eq (setting.local_date o.slot) (setting.local_date o.finish))
        _ _ (λ e. All-snoc (IsFreeOffer busy) search.options o h f) (λ e. h)

  offer_of-IsFreeOffer :
      (resource : String) (duration : Duration) (rule : Rule) (slot : ℕ)
      → All (IsFree (duration.duration_ms + rule.amount * minute_ms) slot) (busy resource)
      → IsFreeOffer busy (offer_of setting candidate selected resource duration rule slot)
  unfolding offer_of
  offer_of-IsFreeOffer resource duration rule slot free =
      let o = offer_of setting candidate selected resource duration rule slot in
      (
        refl,
        All-map (IsFree (duration.duration_ms + rule.amount * minute_ms) slot) (IsClear o)
            (busy resource) (λ i h. elim h [ inl a ↦ inl a | inr b ↦ inr (omega arith) ]) free,
      )

  try_slot-IsFreeSearch :
      (resource : String) (duration : Duration) (rule : Rule) (window : Window) (slot : Option ℕ)
      (search : Search)
      → first_slot window
          (busy resource)
          (duration.duration_ms + rule.amount * minute_ms)
          setting.planning_start
          setting.planning_end
        ≡ slot
      → IsFreeSearch busy search
      → IsFreeSearch busy (
          try_slot setting candidate selected resource duration rule
            (busy resource)
            window
            slot
            search)
  unfolding try_slot
  try_slot-IsFreeSearch resource duration rule window none search e h = h
  try_slot-IsFreeSearch resource duration rule window (some slot) search e h =
      offered-IsFreeSearch (offer_of setting candidate selected resource duration rule slot) search
        (offer_of-IsFreeOffer resource duration rule slot
          (first_slot-Fits window (busy resource) (duration.duration_ms + rule.amount * minute_ms)
            setting.planning_start setting.planning_end slot (ordered resource) e).4)
        h

  measured-IsFreeSearch :
      (window : Window) (need : ℕ) (search : Search)
      → IsFreeSearch busy search
      → IsFreeSearch busy (measured window need search)
  unfolding measured
  measured-IsFreeSearch window need search h =
      if_elim (IsFreeSearch busy) (leb (window.opens + need) window.closes) _ _ (λ e. h) (λ e. h)

  try_windows-IsFreeSearch :
      (resource : String) (duration : Duration) (rule : Rule) (windows : List Window)
      (search : Search)
      → IsFreeSearch busy search
      → IsFreeSearch busy (
          try_windows setting candidate selected resource duration rule
            (busy resource)
            windows
            search)
  unfolding try_windows
  try_windows-IsFreeSearch resource duration rule [] search h = h
  try_windows-IsFreeSearch resource duration rule (window ∷ windows) search h =
      let need = duration.duration_ms + rule.amount * minute_ms in
      try_windows-IsFreeSearch resource duration rule windows _ (
        try_slot-IsFreeSearch resource duration rule window
          (first_slot window (busy resource) need setting.planning_start setting.planning_end)
          (measured window need search) refl (measured-IsFreeSearch window need search h))

  with_rule-IsFreeSearch :
      (resource : Resource) (duration : Duration) (rule : Option Rule) (search : Search)
      → IsFreeSearch busy search
      → IsFreeSearch busy (
          with_rule setting candidate selected resource duration
            (busy resource.resource_id)
            rule
            search)
  unfolding with_rule
  with_rule-IsFreeSearch resource duration none search h = h
  with_rule-IsFreeSearch resource duration (some rule) search h =
      try_windows-IsFreeSearch resource.resource_id duration rule resource.business_windows search h

  with_duration-IsFreeSearch :
      (resource : Resource) (duration : Option Duration) (search : Search)
      → IsFreeSearch busy search
      → IsFreeSearch busy (
          with_duration setting candidate selected resource
            (busy resource.resource_id)
            duration
            search)
  unfolding with_duration
  with_duration-IsFreeSearch resource none search h = h
  with_duration-IsFreeSearch resource (some duration) search h =
      with_rule-IsFreeSearch resource duration (matching_rule setting.buffer_rules candidate)
        (record search { no_duration = false }) h

  try_resource-IsFreeSearch :
      (resource : Resource) (search : Search)
      → IsFreeSearch busy search
      → IsFreeSearch busy
          (try_resource setting candidate selected (busy resource.resource_id) resource search)
  unfolding try_resource
  try_resource-IsFreeSearch resource search h =
      if_elim (IsFreeSearch busy) (setting.resource_unknown resource.resource_id) _ _ (λ e. h)
        (λ e. with_duration-IsFreeSearch resource _ search h)

  -- Where the busy intervals are in order, no option that the search finds meets a busy interval of its resource, its
  -- buffer included.
  pub try_resources-IsFreeSearch :
      (resources : List Resource) (search : Search)
      → IsFreeSearch busy search
      → IsFreeSearch busy (try_resources setting candidate selected busy resources search)
  unfolding try_resources
  try_resources-IsFreeSearch [] search h = h
  try_resources-IsFreeSearch (resource ∷ resources) search h =
      try_resources-IsFreeSearch resources _ (try_resource-IsFreeSearch resource search h)
