-- ===== src/Queue/Valid.antt =====
-- The states that the queue proposes are valid.
use mathlib.Core.Path.{subst}
use jenn_shooting_operations.Prelude.{
  sym, ℕ, ◌+◌, ◌≡◌, refl, Bool, true, false, not, String, Option, none, some, List, [], ◌∷◌, ◌++◌,
  leb, ◌==◌, arith, four_true, true_both, true_four, ==_iff,
}
use jenn_shooting_operations.Prelude.Results.{ok, ensure, parts_of_ok}
use jenn_shooting_operations.Json.{Json, has}
use jenn_shooting_operations.Run.Fold.{max_safe_integer}
use jenn_shooting_operations.Queue.Values.{Protocol}
use jenn_shooting_operations.Queue.Items.{valid_item, event_id, local_sequence}
use jenn_shooting_operations.Queue.State.{
  pending, State, valid_cache, status_fits, comes_after, valid_items, validate_queue_state,
  is_blocked, Failure, queue_replay_blocked, invalid_queue_item, local_sequence_mismatch,
  duplicate_event_id, local_sequence_exhausted,
}
use jenn_shooting_operations.Queue.Storage.{contains}
use jenn_shooting_operations.Queue.Enqueue.{appended, admissible}
use jenn_shooting_operations.Queue.Replay.{dropped, after_drop, tail}

pub item_parts :
    (p : Protocol) (seen : List String) (prior : Option ℕ) (next : ℕ) (i : Json) (is : List Json)
    → valid_items p seen prior next (i ∷ is) ≡ true
    → (valid_item p i ≡ true)
      × (not (has seen (event_id i)) ≡ true)
      × (comes_after prior (local_sequence i) ≡ true)
      × (valid_items p (event_id i ∷ seen) (some (local_sequence i)) next is ≡ true)
unfolding valid_items
item_parts p seen prior next i is h =
    four_true (valid_item p i) (not (has seen (event_id i))) (comes_after prior (local_sequence i))
      (valid_items p (event_id i ∷ seen) (some (local_sequence i)) next is) h

pub state_parts :
    (p : Protocol) (s : State)
    → validate_queue_state p s ≡ true
    → (leb s.next_local_sequence max_safe_integer ≡ true)
      × (valid_cache s.cache ≡ true)
      × (status_fits s.sync_status s.items ≡ true)
      × (valid_items p [] none s.next_local_sequence s.items ≡ true)
unfolding validate_queue_state
state_parts p s h =
    four_true (leb s.next_local_sequence max_safe_integer) (valid_cache s.cache)
      (status_fits s.sync_status s.items) (valid_items p [] none s.next_local_sequence s.items) h

valid_items-snoc :
    (p : Protocol) (seen : List String) (prior : Option ℕ) (next : ℕ) (items : List Json)
    (item : Json)
    → valid_items p seen prior next items ≡ true
    → valid_item p item ≡ true
    → local_sequence item ≡ next
    → has seen (event_id item) ≡ false
    → contains items (event_id item) ≡ false
    → valid_items p seen prior (next + 1) (items ++ item ∷ []) ≡ true
unfolding valid_items contains has
valid_items-snoc p seen prior next [] item h v l f g =
    rw (v, f, l) (true_both h ((==_iff (next + 1) (next + 1)).1 refl))
valid_items-snoc p seen prior next (i ∷ is) item h v l f g =
    let (valid, fresh, follows, rest) = item_parts p seen prior next i is h in
    let unseen : has (event_id i ∷ seen) (event_id item) ≡ false = ground (arith, f, g) in
    let later : contains is (event_id item) ≡ false = ground (arith, g) in
    true_four valid fresh follows (
      valid_items-snoc p (event_id i ∷ seen) (some (local_sequence i)) next is item rest v l unseen
        later)

-- What is valid behind an item is valid without it.
has-snoc :
    (seen : List String) (x key : String) → has (seen ++ x ∷ []) key ≡ false → has seen key ≡ false
unfolding has
has-snoc [] x key h = refl
has-snoc (k ∷ ks) x key h = ground (arith, h, has-snoc ks x key)

valid_items-forget :
    (p : Protocol) (seen : List String) (x : String) (prior : Option ℕ) (next : ℕ)
    (items : List Json)
    → valid_items p (seen ++ x ∷ []) prior next items ≡ true
    → valid_items p seen prior next items ≡ true
unfolding valid_items
valid_items-forget p seen x prior next [] h = h
valid_items-forget p seen x prior next (i ∷ is) h = ground (
  arith,
  h,
  has-snoc seen x (event_id i),
  valid_items-forget p (event_id i ∷ seen) x (some (local_sequence i)) next is,
)

valid_items-start :
    (p : Protocol) (seen : List String) (n next : ℕ) (items : List Json)
    → valid_items p seen (some n) next items ≡ true
    → valid_items p seen none next items ≡ true
unfolding valid_items
valid_items-start p seen n next [] h = refl
valid_items-start p seen n next (i ∷ is) h = ground (arith, h)

status_fits-after : (items : List Json) → status_fits (after_drop items) items ≡ true
unfolding status_fits
status_fits-after [] = refl
status_fits-after (i ∷ is) = refl

status_fits-snoc :
    (items : List Json) (item : Json) → status_fits pending (items ++ item ∷ []) ≡ true
unfolding status_fits
status_fits-snoc [] item = refl
status_fits-snoc (i ∷ is) item = refl

ensured : (b : Bool) (f : Failure) → ensure b f ≡ ok tt → b ≡ true
ensured true f h = refl
ensured false f h = cc

below :
    (n : ℕ)
    → leb n max_safe_integer ≡ true
    → not (n == max_safe_integer) ≡ true
    → leb (n + 1) max_safe_integer ≡ true
below n h k = ground arith

pub is_false : (b : Bool) → not b ≡ true → b ≡ false
is_false false h = refl
is_false true h = cc

-- Without its head a valid state is valid: the sequence has no gap, and the status is that of the items
-- that are left.
pub dropped-IsValid :
    (p : Protocol) (s : State) (head : Json) (items : List Json)
    → s.items ≡ head ∷ items
    → validate_queue_state p s ≡ true
    → validate_queue_state p (dropped s) ≡ true
unfolding validate_queue_state valid_items
dropped-IsValid p s head items e h =
    let (bounded, cached, fits, all) = state_parts p s h in
    let all' : valid_items p [] none s.next_local_sequence (head ∷ items) ≡ true =
      subst (λ is. valid_items p [] none s.next_local_sequence is ≡ true) e all in
    let (_, _, _, rest) = item_parts p [] none s.next_local_sequence head items all' in
    let kept = valid_items-start p [] (local_sequence head) s.next_local_sequence items (
      valid_items-forget p [] (event_id head) (some (local_sequence head)) s.next_local_sequence
        items rest) in
    subst
      (λ is.
        validate_queue_state p (record s { sync_status = after_drop (tail is); items = tail is })
        ≡ true)
      (sym e) (true_four bounded cached (status_fits-after items) kept)

-- What an admissible item is, for the state that it was checked for.
pub admissible-parts :
    (p : Protocol) (s t : State) (item : Json)
    → admissible p s item ≡ ok t
    → (s ≡ t)
      × (valid_item p item ≡ true)
      × (local_sequence item ≡ s.next_local_sequence)
      × (contains s.items (event_id item) ≡ false)
      × (not (s.next_local_sequence == max_safe_integer) ≡ true)
unfolding admissible
admissible-parts p s t item a =
    let (_, unblocked, a1) =
      parts_of_ok (ensure (not (is_blocked s.sync_status)) (queue_replay_blocked s.sync_status)) _
        a in
    let (_, valid, a2) = parts_of_ok (ensure (valid_item p item) invalid_queue_item) _ a1 in
    let (_, next, a3) =
      parts_of_ok
        (ensure (local_sequence item == s.next_local_sequence)
          (local_sequence_mismatch s.next_local_sequence))
        _ a2 in
    let (_, new, a4) =
      parts_of_ok (ensure (not (contains s.items (event_id item))) duplicate_event_id) _ a3 in
    let (_, room, a5) =
      parts_of_ok
        (ensure (not (s.next_local_sequence == max_safe_integer)) local_sequence_exhausted) _ a4 in
    (
      cc,
      ensured _ _ valid,
      (==_iff (local_sequence item) s.next_local_sequence).0 (ensured _ _ next),
      is_false (contains s.items (event_id item)) (ensured _ _ new),
      ensured _ _ room,
    )

-- An item that is admissible leaves a valid state valid behind the others.
pub appended-IsValid :
    (p : Protocol) (s : State) (item : Json)
    → validate_queue_state p s ≡ true
    → admissible p s item ≡ ok s
    → validate_queue_state p (appended s item) ≡ true
unfolding validate_queue_state
appended-IsValid p s item h a =
    let (bounded, cached, fits, all) = state_parts p s h in
    let (same, valid, next, new, room) = admissible-parts p s s item a in
    true_four (below s.next_local_sequence bounded room) cached (status_fits-snoc s.items item)
      (valid_items-snoc p [] none s.next_local_sequence s.items item all valid next refl new)
