-- ===== src/Outbox/Dedupe.antt =====
-- A new intent is written once: `enqueue` keeps the table well formed and is idempotent.
use text.Mathlib.TextPositions.{eq_refl}
use jenn_shooting_operations.Prelude.{
  ◌≡◌, refl, Bool, true, false, ◌||◌, String, Option, none, some, List, [], ◌∷◌, ◌++◌, All, arith,
  str_eq, eq_iff, if_elim, ==_iff,
}
use jenn_shooting_operations.Outbox.{Row, Intent, pending}
use jenn_shooting_operations.Outbox.Table.{by_id, by_dedupe, has_id}
use jenn_shooting_operations.Outbox.Rows.{Unique}
use jenn_shooting_operations.Outbox.Repository.{Store, Fault}
use jenn_shooting_operations.Outbox.Soundness.{IsSound, IsValid}
use jenn_shooting_operations.Outbox.Enqueue.{
  EnqueueResult, enqueued, exact_noop, new_row, equivalent, enqueue_row, enqueue, isolation_differs,
}

has_id-append :
    (id : String) (rs : List Row) (r : Row)
    → has_id id (rs ++ r ∷ []) ≡ (has_id id rs || str_eq r.outbox_id id)
unfolding has_id
has_id-append id [] r = ground arith
has_id-append id (x ∷ xs) r = ground (arith, has_id-append id xs r)

Unique-append :
    (rs : List Row) (r : Row) → Unique rs → has_id r.outbox_id rs ≡ false → Unique (rs ++ r ∷ [])
unfolding has_id
Unique-append [] r u h = (refl, tt)
Unique-append (x ∷ xs) r u h = (
  rw (has_id-append x.outbox_id xs r)
      (ground (arith, eq_iff x.outbox_id r.outbox_id, eq_iff r.outbox_id x.outbox_id)),
  Unique-append xs r u.1 (ground arith),
)

All-append : (P : Row → Type 0) (rs : List Row) (r : Row) → All P rs → P r → All P (rs ++ r ∷ [])
All-append P [] r h k = (k, tt)
All-append P (x ∷ xs) r h k = (h.0, All-append P xs r h.1 k)

has_id_of_by_id : (id : String) (rs : List Row) → by_id id rs ≡ none → has_id id rs ≡ false
unfolding by_id has_id
has_id_of_by_id id [] h = refl
has_id_of_by_id id (x ∷ xs) h = ground (arith, has_id_of_by_id id xs)

by_dedupe-append :
    (key : String) (rs : List Row) (r : Row)
    → by_dedupe key rs ≡ none
    → str_eq r.dedupe_key key ≡ true
    → by_dedupe key (rs ++ r ∷ []) ≡ some r
unfolding by_dedupe
by_dedupe-append key [] r h k = ground arith
by_dedupe-append key (x ∷ xs) r h k = ground (arith, by_dedupe-append key xs r)

new_row-IsSound : (intent : Intent) → IsSound (new_row intent)
new_row-IsSound intent = ground arith

enqueue_row-IsValid :
    (intent : Intent) (s : Store) (d i : Option Row)
    → by_id intent.outbox_id s.rows ≡ i
    → IsValid s.rows
    → IsValid (enqueue_row intent d i s).0.rows
unfolding enqueue_row
enqueue_row-IsValid intent s (some row) i e v =
    if_elim (λ (t : Store × EnqueueResult). IsValid t.0.rows) (equivalent row.intent intent) _ _
      (λ _. v) (λ _. v)
enqueue_row-IsValid intent s none (some row) e v = v
enqueue_row-IsValid intent s none none e v = record {
  unique =
      Unique-append s.rows (new_row intent) v.unique (has_id_of_by_id intent.outbox_id s.rows e);
  sound = All-append IsSound s.rows (new_row intent) v.sound (new_row-IsSound intent);
}

-- An intent that is enqueued, or refused, leaves the table well formed.
pub enqueue-IsValid :
    (valid_intent : Bool) (intent : Intent) (fault : Option Fault) (s : Store)
    → IsValid s.rows
    → IsValid (enqueue valid_intent intent fault s).0.rows
unfolding enqueue
enqueue-IsValid valid_intent intent fault s v = ground (
  arith,
  enqueue_row-IsValid intent s (by_dedupe intent.dedupe_key s.rows) (by_id intent.outbox_id s.rows)
      refl v,
)

equivalent_refl : (a : Intent) → equivalent a a ≡ true
unfolding equivalent
equivalent_refl a = simp (eq_refl, (==_iff a.aggregate_revision a.aggregate_revision).1 refl)

-- What an intent that was written has passed.
record Admitted (intent : Intent) (s : Store) : Type 0 where
  in_transaction : s.is_transaction ≡ true
  not_isolated : isolation_differs s.isolations intent ≡ false
  new_key : by_dedupe intent.dedupe_key s.rows ≡ none
  new_id : by_id intent.outbox_id s.rows ≡ none

abbrev written : Intent → Store → Store
written intent s = record s { rows = s.rows ++ new_row intent ∷ [] }

enqueue-Admitted :
    (intent : Intent) (s : Store) (id : String)
    → (enqueue true intent none s).1 ≡ enqueued id
    → Admitted intent s
unfolding enqueue
enqueue-Admitted intent s id h = ground arith

enqueue-written :
    (intent : Intent) (s : Store)
    → Admitted intent s
    → enqueue true intent none s ≡ (written intent s, enqueued intent.outbox_id)
unfolding enqueue
enqueue-written intent s a = rw (a.in_transaction) (rw a.not_isolated (rw (a.new_key, a.new_id)))

enqueue-written_again :
    (intent : Intent) (s : Store)
    → Admitted intent s
    → enqueue true intent none (written intent s)
      ≡ (written intent s, exact_noop intent.outbox_id pending)
unfolding enqueue
enqueue-written_again intent s a = rw a.in_transaction (
    rw a.not_isolated (
      rw
        (by_dedupe-append intent.dedupe_key s.rows (new_row intent) a.new_key
          (eq_refl intent.dedupe_key))
        (rw (equivalent_refl intent))))

-- A notification that was written is not written again: the same intent is answered with the row that
-- is there, and the store stays as it is.
pub enqueue_twice :
    (intent : Intent) (s : Store) (id : String)
    → (enqueue true intent none s).1 ≡ enqueued id
    → enqueue true intent none (enqueue true intent none s).0
      ≡ ((enqueue true intent none s).0, exact_noop intent.outbox_id pending)
enqueue_twice intent s id h =
    let a = enqueue-Admitted intent s id h in
    rw (enqueue-written intent s a) (enqueue-written_again intent s a)
