-- ===== src/Scheduler/Slots.antt =====
-- `firstSlot` of src/deterministic-scheduler-v1.mjs: the first start in a window at which nothing is busy.
use jenn_shooting_operations.Prelude.{
  String, ℕ, Bool, sym, ◌+◌, ◌≤◌, ◌<◌, ◌≡◌, ◌⊎◌, inl, inr, min, max, true, false, ◌&&◌, ◌||◌,
  Option, none, some, List, [], ◌∷◌, All, All-map, leb, ltb, ◌==◌, arith, Bool-cases, if◌then◌else◌,
}
use mathlib.Core.Path.{subst}
use jenn_shooting_operations.Prelude.Sorting.{
  insert_by, IsOrderedBy, insert_by-IsOrderedBy, insert_by-inserted,
}
use jenn_shooting_operations.Run.Fold.{max_safe_integer}

pub record Interval : Type 0 where
  pub start : ℕ
  pub finish : ℕ
  pub locked : Bool
  pub schedule_item_id : Option String

pub record Window : Type 0 where
  pub opens : ℕ
  pub closes : ℕ

-- The loop over the intervals. `need` is the duration with its buffer.
unfoldable pub scan : ℕ → ℕ → List Interval → ℕ
scan need start [] = start
scan need start (i ∷ is) = elim (leb i.finish start) [
  | true ↦ scan need start is
  | false ↦ elim (leb (start + need) i.start) [
    | true ↦ start
    | false ↦ scan need (max start i.finish) is
  ]
]

unfoldable pub first_slot : Window → List Interval → ℕ → ℕ → ℕ → Option ℕ
unfolding scan
first_slot window busy need planning_start planning_end =
    let start = scan need (max window.opens planning_start) busy in
    if leb (start + need) max_safe_integer && leb (start + need) (min window.closes planning_end)
    then some start
    else none

-- `intervals.sort((a, b) => a.start - b.start || a.end - b.end)` of a list that was in order, with one
-- interval more.
abbrev pub interval_before : Interval → Interval → Bool
interval_before a b = ltb a.start b.start || a.start == b.start && ltb a.finish b.finish

unfoldable pub insert_interval : Interval → List Interval → List Interval
unfolding insert_by
insert_interval = insert_by interval_before

-- The interval of a slot that was chosen.
abbrev pub reservation : ℕ → ℕ → Interval
reservation start finish = record {
  start = start;
  finish = finish;
  locked = false;
  schedule_item_id = none;
}

-- By their starts.
abbrev pub IsOrdered : List Interval → Type 0
IsOrdered = IsOrderedBy (λ (i j : Interval). i.start ≤ j.start)

-- A slot from `s` and the interval have no time in common.
abbrev pub IsFree : ℕ → ℕ → Interval → Type 0
IsFree need s i = (i.finish ≤ s) ⊎ (s + need ≤ i.start)

scan-le : (need start : ℕ) (is : List Interval) → start ≤ scan need start is
unfolding scan
scan-le need start [] = omega arith
scan-le need start (i ∷ is) =
    ground (arith, scan-le need start is, scan-le need (max start i.finish) is)

le_or_lt : (m n : ℕ) → (m ≤ n) ⊎ (n < m)
le_or_lt m n = elim (Bool-cases (leb m n)) [
  | inl e ↦ inl (ground (arith, e))
  | inr e ↦ inr (ground (arith, e))
]

scan-past :
    (need start : ℕ) (i : Interval) (is : List Interval)
    → i.finish ≤ start
    → scan need start (i ∷ is) ≡ scan need start is
unfolding scan
scan-past need start i is h = ground (arith, h)

scan-before :
    (need start : ℕ) (i : Interval) (is : List Interval)
    → start < i.finish
    → start + need ≤ i.start
    → scan need start (i ∷ is) ≡ start
unfolding scan
scan-before need start i is h k = ground (arith, h, k)

scan-jump :
    (need start : ℕ) (i : Interval) (is : List Interval)
    → start < i.finish
    → i.start < start + need
    → scan need start (i ∷ is) ≡ scan need i.finish is
unfolding scan
scan-jump need start i is h k = ground (arith, h, k)

scan-IsFree :
    (need start : ℕ) (is : List Interval) → IsOrdered is → All (IsFree need (scan need start is)) is
scan-IsFree need start [] o = tt
scan-IsFree need start (i ∷ is) o =
    let at = λ (m n : ℕ) (e : m ≡ n) (f : All (IsFree need m) (i ∷ is)).
      subst (λ t. All (IsFree need t) (i ∷ is)) e f in
    elim (le_or_lt i.finish start) [
      | inl h ↦
          at (scan need start is) (scan need start (i ∷ is)) (sym (scan-past need start i is h))
            (inl (ground (arith, h, scan-le need start is)), scan-IsFree need start is o.1)
      | inr h ↦ elim (le_or_lt (start + need) i.start) [
        | inl k ↦ at start (scan need start (i ∷ is)) (sym (scan-before need start i is h k)) (
          inr k,
          All-map (λ (j : Interval). i.start ≤ j.start) (IsFree need start) is
              (λ j l. inr (omega arith)) o.0,
        )
        | inr k ↦
            at (scan need i.finish is) (scan need start (i ∷ is))
              (sym (scan-jump need start i is h k))
              (inl (scan-le need i.finish is), scan-IsFree need i.finish is o.1)
      ]
    ]

scan_least :
    (need start s : ℕ) (is : List Interval)
    → start ≤ s
    → All (IsFree need s) is
    → scan need start is ≤ s
unfolding scan
scan_least need start s [] h f = h
scan_least need start s (i ∷ is) h f =
    ground (arith, f.0, scan_least need start s is h f.1, scan_least need (max start i.finish) s is)

-- The slot lies in the window and the planning, and is free.
abbrev pub Fits : Window → List Interval → ℕ → ℕ → ℕ → ℕ → Type 0
Fits window busy need planning_start planning_end s =
    (window.opens ≤ s)
    × (planning_start ≤ s)
    × (s + need ≤ window.closes)
    × (s + need ≤ planning_end)
    × All (IsFree need s) busy

-- Where the busy intervals stand in the order of their starts, the slot that is found fits: it lies in the window and
-- in the planning, and neither it nor its buffer meets a busy interval.
pub first_slot-Fits :
    (window : Window) (busy : List Interval) (need planning_start planning_end s : ℕ)
    → IsOrdered busy
    → first_slot window busy need planning_start planning_end ≡ some s
    → Fits window busy need planning_start planning_end s
unfolding first_slot
first_slot-Fits window busy need planning_start planning_end s o h =
    let start = scan need (max window.opens planning_start) busy in
    let from : max window.opens planning_start ≤ start =
      scan-le need (max window.opens planning_start) busy in
    let free = scan-IsFree need (max window.opens planning_start) busy o in
    elim (Bool-cases (
      leb (start + need) max_safe_integer && leb (start + need) (min window.closes planning_end))) [
        | inl e ↦ let k : start ≡ s = ground (arith, e, h) in ground (arith, from, e, k, free)
        | inr e ↦ ground (arith, e, h)
      ]

-- Where a slot fits in a window that closes at a safe integer, one is found, and it is not later than the slot that
-- fits.
pub first_slot_least :
    (window : Window) (busy : List Interval) (need planning_start planning_end r : ℕ)
    → window.closes ≤ max_safe_integer
    → Fits window busy need planning_start planning_end r
    → (s : ℕ) × (first_slot window busy need planning_start planning_end ≡ some s) × (s ≤ r)
unfolding first_slot
first_slot_least window busy need planning_start planning_end r safe f =
    let start = scan need (max window.opens planning_start) busy in
    let e : start ≤ r =
      scan_least need (max window.opens planning_start) r busy (ground (arith, f)) f.4 in
    (start, ground (arith, f, e), e)

-- The order of the busy intervals is kept.
pub insert_interval-IsOrdered :
    (i : Interval) (is : List Interval) → IsOrdered is → IsOrdered (insert_interval i is)
unfolding insert_interval
insert_interval-IsOrdered =
    insert_by-IsOrderedBy interval_before (λ (i j : Interval). i.start ≤ j.start)
      (λ i j k h l. omega arith) (λ i j e. ground (arith, e)) (λ i j e. ground (arith, e))

-- Where a slot that was found has been entered among the busy intervals, with its buffer, a slot found afterwards has no
-- time in common with it: the one ends, its buffer included, before the other starts.
pub first_slot_twice :
    (window other : Window) (busy : List Interval) (need more planning_start planning_end s r : ℕ)
    → IsOrdered busy
    → first_slot window busy need planning_start planning_end ≡ some s
    → first_slot other
        (insert_interval (reservation s (s + need)) busy)
        more
        planning_start
        planning_end
      ≡ some r
    → Fits window busy need planning_start planning_end s × ((s + need ≤ r) ⊎ (r + more ≤ s))
unfolding insert_interval
first_slot_twice window other busy need more planning_start planning_end s r o h k =
    let i : Interval = reservation s (s + need) in
    (
      first_slot-Fits window busy need planning_start planning_end s o h,
      insert_by-inserted interval_before (IsFree more r) i busy
          (first_slot-Fits other (insert_interval i busy) more planning_start planning_end r
            (insert_interval-IsOrdered i busy o) k).4,
    )
