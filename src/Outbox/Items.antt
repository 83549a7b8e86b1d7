-- ===== src/Outbox/Items.antt =====
-- What a batch hands to the dispatcher: the items of a claim and the rows that they stand for.
use mathlib.Core.Path.{subst}
use jenn_shooting_operations.Prelude.{
  ℕ, suc, ◌+◌, ◌≤◌, ◌≡◌, ◌⊎◌, inl, inr, true, false, ◌&&◌, String, Option, none, some, List, [],
  ◌∷◌, All, length, arith, eq_iff, Bool-cases, if_elim, ◌==◌,
}
use jenn_shooting_operations.Outbox.{Row, leased}
use jenn_shooting_operations.Outbox.Policy.{lease_duration_ms}
use jenn_shooting_operations.Outbox.Opaque.{valid_opaque}
use jenn_shooting_operations.Outbox.Table.{update_where, count_where}
use jenn_shooting_operations.Outbox.Selections.{length-take-le}
use jenn_shooting_operations.Outbox.Repository.{
  Isolation, Store, Fault, Item, ClaimResult, claimed, claim_invalid, busy, other_error, claims,
  lease, claim_rows, claim_transaction, claim_committed, claim_batch,
}

-- Some row has the property.
abbrev pub Some : (Row → Type 0) → List Row → Type 0
Some P [] = ⊥
Some P (r ∷ rs) = P r ⊎ Some P rs

-- The row of an item is leased to the worker under the item's token until the lease ends.
pub record Holds (worker : String) (now : ℕ) (item : Item) (r : Row) : Type 0 where
  pub same_id : r.outbox_id ≡ item.outbox_id
  pub status : r.status ≡ leased
  pub token : r.lease_token ≡ some item.lease_token
  pub owner : r.lease_owner ≡ some worker
  pub expires : r.lease_expires_at ≡ some (now + lease_duration_ms)
  pub attempts : r.attempt_count ≡ item.attempt_count

module _ (worker : String) (now : ℕ) where
  abbrev item_of : Row → String → Item
  item_of q token = record {
    outbox_id = q.outbox_id;
    lease_token = token;
    attempt_count = q.attempt_count + 1;
  }

  -- The compare-and-swap that changes a row gives it to the worker.
  Some-lease :
      (q : Row) (token : String) (rows : List Row)
      → (count_where (claims q now) rows == 1) ≡ true
      → Some
          (Holds worker now (item_of q token))
          (update_where (claims q now) (lease token worker now) rows)
  unfolding count_where update_where
  Some-lease q token [] h = cc
  Some-lease q token (r ∷ rs) h = elim (Bool-cases (claims q now r)) [
    | inl e ↦ rw e (inl (ground (arith, eq_iff r.outbox_id q.outbox_id)))
    | inr e ↦ rw e (inr (Some-lease q token rs (ground arith)))
  ]

  -- A later compare-and-swap of the batch does not touch a row that was given away.
  Holds-not_claimed : (item : Item) (q r : Row) → Holds worker now item r → claims q now r ≡ false
  Holds-not_claimed item q r h = ground arith

  Some-update :
      (item : Item) (q : Row) (token : String) (rows : List Row)
      → Some (Holds worker now item) rows
      → Some (Holds worker now item) (update_where (claims q now) (lease token worker now) rows)
  unfolding update_where
  Some-update item q token [] h = h
  Some-update item q token (r ∷ rs) (inl h) = rw (Holds-not_claimed item q r h) (inl h)
  Some-update item q token (r ∷ rs) (inr h) = inr (Some-update item q token rs h)

  abbrev Kept : Item → Option (List Row × List Item) → Type 0
  Kept item none = Unit
  Kept item (some (rows, items)) = Some (Holds worker now item) rows

  abbrev Given : Option (List Row × List Item) → Type 0
  Given none = Unit
  Given (some (rows, items)) = All (λ item. Some (Holds worker now item) rows) items

  abbrev push : Item → Option (List Row × List Item) → Option (List Row × List Item)
  push item r = elim r [ none ↦ none | some (rows, items) ↦ some (rows, item ∷ items) ]

  Kept-push :
      (item new : Item) (r : Option (List Row × List Item)) → Kept item r → Kept item (push new r)
  Kept-push item new none h = tt
  Kept-push item new (some (rows, items)) h = h

  Given-push :
      (item : Item) (r : Option (List Row × List Item))
      → Kept item r
      → Given r
      → Given (push item r)
  Given-push item none h k = tt
  Given-push item (some (rows, items)) h k = (h, k)

  claim_rows-Kept :
      (item : Item) (qs : List Row) (tokens : List String) (rows : List Row)
      → Some (Holds worker now item) rows
      → Kept item (claim_rows worker now qs tokens rows)
  unfolding claim_rows
  claim_rows-Kept item [] tokens rows h = h
  claim_rows-Kept item (q ∷ qs) [] rows h = tt
  claim_rows-Kept item (q ∷ qs) (token ∷ tokens) rows h =
      if_elim (Kept item) (valid_opaque token 128 && count_where (claims q now) rows == 1)
        (push (item_of q token) (
          claim_rows worker now qs tokens
            (update_where (claims q now) (lease token worker now) rows)))
        none
        (λ _. Kept-push item (item_of q token) _ (
          claim_rows-Kept item qs tokens (update_where (claims q now) (lease token worker now) rows)
            (Some-update item q token rows h)))
        (λ _. tt)

  claim_rows-Given :
      (qs : List Row) (tokens : List String) (rows : List Row)
      → Given (claim_rows worker now qs tokens rows)
  unfolding claim_rows
  claim_rows-Given [] tokens rows = tt
  claim_rows-Given (q ∷ qs) [] rows = tt
  claim_rows-Given (q ∷ qs) (token ∷ tokens) rows =
      if_elim Given (valid_opaque token 128 && count_where (claims q now) rows == 1)
        (push (item_of q token) (
          claim_rows worker now qs tokens
            (update_where (claims q now) (lease token worker now) rows)))
        none
        (λ e.
          Given-push (item_of q token) _
            (claim_rows-Kept (item_of q token) qs tokens
              (update_where (claims q now) (lease token worker now) rows)
              (Some-lease q token rows (ground arith)))
            (claim_rows-Given qs tokens
              (update_where (claims q now) (lease token worker now) rows)))
        (λ _. tt)

  abbrev AtMost : ℕ → Option (List Row × List Item) → Type 0
  AtMost n none = Unit
  AtMost n (some (rows, items)) = length items ≤ n

  AtMost-push :
      (n : ℕ) (item : Item) (r : Option (List Row × List Item))
      → AtMost n r
      → AtMost (suc n) (push item r)
  AtMost-push n item none h = tt
  AtMost-push n item (some (rows, items)) h = omega arith

  claim_rows-AtMost :
      (qs : List Row) (tokens : List String) (rows : List Row)
      → AtMost (length qs) (claim_rows worker now qs tokens rows)
  unfolding claim_rows
  claim_rows-AtMost [] tokens rows = omega arith
  claim_rows-AtMost (q ∷ qs) [] rows = tt
  claim_rows-AtMost (q ∷ qs) (token ∷ tokens) rows =
      if_elim (AtMost (suc (length qs)))
        (valid_opaque token 128 && count_where (claims q now) rows == 1)
        (push (item_of q token) (
          claim_rows worker now qs tokens
            (update_where (claims q now) (lease token worker now) rows)))
        none
        (λ _.
          AtMost-push (length qs) (item_of q token) _ (
            claim_rows-AtMost qs tokens
              (update_where (claims q now) (lease token worker now) rows)))
        (λ _. tt)

  module _ (limit : ℕ) where
    abbrev Batch : Option (List Row × List Item × ℕ) → Type 0
    Batch none = Unit
    Batch (some (rows, items, buried)) =
        (length items ≤ limit) × All (λ item. Some (Holds worker now item) rows) items

    Batch-elim :
        (n k : ℕ) (r : Option (List Row × List Item))
        → k ≤ limit
        → AtMost k r
        → Given r
        → Batch (elim r [ none ↦ none | some (rows, items) ↦ some (rows, items, n) ])
    Batch-elim n k none l h g = tt
    Batch-elim n k (some (rows, items)) l h g = (omega arith, g)

    claim_transaction-Batch :
        (tokens : List String) (isolations : List Isolation) (rows : List Row)
        → Batch (claim_transaction worker now limit tokens isolations rows)
    unfolding claim_transaction
    claim_transaction-Batch tokens isolations rows =
        Batch-elim _ _ _ (length-take-le limit _) (claim_rows-AtMost _ tokens _)
          (claim_rows-Given _ tokens _)

    abbrev Answer : Store × ClaimResult → Type 0
    Answer (s, claimed items n) =
        (length items ≤ limit) × All (λ item. Some (Holds worker now item) s.rows) items
    Answer (s, _) = Unit

    claim_committed-Answer :
        (s : Store) (fault : Option Fault) (r : Option (List Row × List Item × ℕ))
        → Batch r
        → Answer (claim_committed s fault r)
    unfolding claim_committed
    claim_committed-Answer s (some busy) r h = tt
    claim_committed-Answer s (some other_error) r h = tt
    claim_committed-Answer s none none h = tt
    claim_committed-Answer s none (some (rows, items, buried)) h = h

-- A batch that is claimed has at most `limit` items, and for each of them the table holds a row that is
-- leased to the worker under the item's token, with the item's attempt, until `lease_duration_ms` from
-- the claim.
pub claim_batch-Holds :
    (worker : String) (now limit : ℕ) (tokens : List String) (fault : Option Fault) (s s' : Store)
    (items : List Item) (buried : ℕ)
    → claim_batch worker now limit tokens fault s ≡ (s', claimed items buried)
    → (length items ≤ limit) × All (λ item. Some (Holds worker now item) s'.rows) items
unfolding claim_batch
claim_batch-Holds worker now limit tokens fault s s' items buried h =
    subst (Answer worker now limit) h (
      if_elim (Answer worker now limit) _ _ (s, claim_invalid)
        (λ _.
          claim_committed-Answer worker now limit s fault _
            (claim_transaction-Batch worker now limit tokens s.isolations s.rows))
        (λ _. tt))
