-- ===== src/Outbox/Claims.antt =====
-- What `claim_batch` does to the rows of the outbox.
use jenn_shooting_operations.Prelude.{
  ℕ, ◌≡◌, refl, ap, ◌∙◌, ◌⊎◌, inl, inr, Bool, true, false, String, Option, none, some, List, [],
  ◌∷◌, All, All-always, All-map, arith, eq_iff, if_elim, if◌then◌else◌,
}
use jenn_shooting_operations.Outbox.{Row}
use jenn_shooting_operations.Outbox.Table.{update_where, due_key}
use jenn_shooting_operations.Outbox.Rows.{
  Pointwise, Unique, update_where-Pointwise, Pointwise-trans, Pointwise-refl, has_id-chosen,
  selected,
}
use jenn_shooting_operations.Outbox.Selections.{All-chosen}
use jenn_shooting_operations.Outbox.Repository.{
  Isolation, Store, Fault, Item, ClaimResult, expired_final, bury, eligible, claims, lease,
  claim_rows, claim_transaction, claim_committed, claim_batch,
}

-- The last attempt of a row ended with its lease, and the row is given up.
abbrev pub BuriedBy : ℕ → Row → Row → Type 0
BuriedBy now r r' = (expired_final now r ≡ true) × (r' ≡ bury now r)

-- A row that is not isolated and is due is leased to the worker, for one attempt more.
abbrev pub LeasedBy : List Isolation → String → ℕ → Row → Row → Type 0
LeasedBy isolations worker now r r' =
    (eligible isolations now r ≡ true) × (token : String) × (r' ≡ lease token worker now r)

abbrev Kept : Row → Row → Type 0
Kept r r' = r' ≡ r

abbrev pub ClaimStep : List Isolation → String → ℕ → Row → Row → Type 0
ClaimStep isolations worker now r r' =
    Kept r r' ⊎ BuriedBy now r r' ⊎ LeasedBy isolations worker now r r'

module _ (isolations : List Isolation) (worker : String) (now : ℕ) where
  abbrev Claimed : Row → Row → Type 0
  Claimed r r' = Kept r r' ⊎ LeasedBy isolations worker now r r'

  lease-not_eligible :
      (token : String) (r : Row) → eligible isolations now (lease token worker now r) ≡ false
  unfolding eligible
  lease-not_eligible token r = ground arith

  bury-not_eligible : (r : Row) → eligible isolations now (bury now r) ≡ false
  unfolding eligible
  bury-not_eligible r = ground arith

  Claimed-trans : (x y z : Row) → Claimed x y → Claimed y z → Claimed x z
  Claimed-trans x y z (inl e) k = rw e at k
  Claimed-trans x y z (inr h) (inl e) = rw e (inr h)
  Claimed-trans x y z (inr (_, token, e)) (inr (again, _, _)) =
      cc (lease-not_eligible token x, ap (eligible isolations now) e)

  claims-eligible :
      (q r : Row)
      → eligible isolations now q ≡ true
      → claims q now r ≡ true
      → eligible isolations now r ≡ true
  unfolding eligible
  claims-eligible q r h k = ground (arith, eq_iff r.outbox_id q.outbox_id)

  abbrev Remaining : List Row → Option (List Row × List Item) → Type 0
  Remaining rows none = Unit
  Remaining rows (some (rows', items)) = Pointwise Claimed rows rows'

  Remaining-if :
      (b : Bool) (rows : List Row) (r : Option (List Row × List Item))
      → Remaining rows r
      → Remaining rows (if b then r else none)
  Remaining-if true rows r h = h
  Remaining-if false rows r h = tt

  Remaining-more :
      (item : Item) (rows mid : List Row) (r : Option (List Row × List Item))
      → Pointwise Claimed rows mid
      → Remaining mid r
      → Remaining rows (elim r [ none ↦ none | some (rows', items) ↦ some (rows', item ∷ items) ])
  Remaining-more item rows mid none h k = tt
  Remaining-more item rows mid (some (rows', items)) h k =
      Pointwise-trans Claimed Claimed Claimed rows mid rows' Claimed-trans h k

  claim_rows-Remaining :
      (qs : List Row) (tokens : List String) (rows : List Row)
      → All (λ q. eligible isolations now q ≡ true) qs
      → Remaining rows (claim_rows worker now qs tokens rows)
  unfolding claim_rows
  claim_rows-Remaining [] tokens rows h = Pointwise-refl Claimed rows (λ r. inl refl)
  claim_rows-Remaining (q ∷ qs) [] rows h = tt
  claim_rows-Remaining (q ∷ qs) (token ∷ tokens) rows h = Remaining-if _ rows _ (
      Remaining-more _ rows _ _
        (update_where-Pointwise Claimed (claims q now) (lease token worker now) rows (λ r. inl refl)
          (All-always (λ r k. inr (claims-eligible q r h.0 k, token, refl)) rows))
        (claim_rows-Remaining qs tokens (update_where (claims q now) (lease token worker now) rows)
          h.1))

  abbrev Change : Row → Row → Type 0
  Change r r' = ClaimStep isolations worker now r r'

  Change-trans : (x y z : Row) → Kept x y ⊎ BuriedBy now x y → Claimed y z → Change x z
  Change-trans x y z (inl e) (inl e') = inl (e' ∙ e)
  Change-trans x y z (inl e) (inr k) = inr (inr (rw e at k))
  Change-trans x y z (inr h) (inl e) = rw e (inr (inl h))
  Change-trans x y z (inr (_, e)) (inr (again, _, _)) =
      cc (bury-not_eligible x, ap (eligible isolations now) e)

  -- The rows before and after a transaction that was not rolled back.
  abbrev Transacted : List Row → Option (List Row × List Item × ℕ) → Type 0
  Transacted rows none = Unit
  Transacted rows (some (rows', items, buried)) = Pointwise Change rows rows'

  Transacted-elim :
      (n : ℕ) (rows mid : List Row) (r : Option (List Row × List Item))
      → Pointwise (λ r r'. Kept r r' ⊎ BuriedBy now r r') rows mid
      → Remaining mid r
      → Transacted rows (elim r [ none ↦ none | some (rows', items) ↦ some (rows', items, n) ])
  Transacted-elim n rows mid none h k = tt
  Transacted-elim n rows mid (some (rows', items)) h k =
      Pointwise-trans _ Claimed Change rows mid rows' Change-trans h k

  claim_transaction-Transacted :
      (limit : ℕ) (tokens : List String) (rows : List Row)
      → Unique rows
      → Transacted rows (claim_transaction worker now limit tokens isolations rows)
  unfolding claim_transaction
  claim_transaction-Transacted limit tokens rows u =
      Transacted-elim _ rows _ _
        (update_where-Pointwise _ _ (bury now) rows (λ r. inl refl)
          (All-map _ _ rows
            (λ r h k.
              inr (h (has_id-chosen r.outbox_id limit due_key (expired_final now) rows k), refl))
            (selected (expired_final now) rows u)))
        (claim_rows-Remaining _ tokens _ (All-chosen limit due_key (eligible isolations now) _))

  claim_committed-rows :
      (s : Store) (fault : Option Fault) (r : Option (List Row × List Item × ℕ))
      → Transacted s.rows r
      → Pointwise Change s.rows (claim_committed s fault r).0.rows
  unfolding claim_committed
  claim_committed-rows s (some f) r h = Pointwise-refl Change s.rows (λ r. inl refl)
  claim_committed-rows s none none h = Pointwise-refl Change s.rows (λ r. inl refl)
  claim_committed-rows s none (some (rows, items, buried)) h = h

-- What a batch does to each row, whatever it returns.
pub claim_batch-ClaimStep :
    (worker : String) (now limit : ℕ) (tokens : List String) (fault : Option Fault) (s : Store)
    → Unique s.rows
    → Pointwise
        (ClaimStep s.isolations worker now)
        s.rows
        (claim_batch worker now limit tokens fault s).0.rows
unfolding claim_batch
claim_batch-ClaimStep worker now limit tokens fault s u =
    if_elim
      (λ (t : Store × ClaimResult). Pointwise (ClaimStep s.isolations worker now) s.rows t.0.rows) _
      _ _
      (λ _.
        claim_committed-rows s.isolations worker now s fault _
          (claim_transaction-Transacted s.isolations worker now limit tokens s.rows u))
      (λ _. Pointwise-refl _ s.rows (λ r. inl refl))
