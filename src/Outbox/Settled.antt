-- ===== src/Outbox/Settled.antt =====
-- What `settle_delivery` and `enqueue` do to the rows of the outbox.
use jenn_shooting_operations.Prelude.{
  ℕ, ◌≡◌, refl, ◌⊎◌, inl, inr, true, false, ◌&&◌, String, Option, none, some, List, [], ◌∷◌, All,
  All-map, arith, str_eq, eq_iff, Bool-cases, if_elim, if◌then◌else◌,
}
use jenn_shooting_operations.Outbox.{Row, leased}
use jenn_shooting_operations.Outbox.Policy.{normalize_result}
use jenn_shooting_operations.Outbox.Table.{status_eq, until, by_id}
use jenn_shooting_operations.Outbox.Rows.{
  Pointwise, Unique, Pointwise-refl, update_where-Pointwise, ids_differ,
}
use jenn_shooting_operations.Outbox.Repository.{Store, Fault}
use jenn_shooting_operations.Outbox.Settlement.{
  SettleResult, lease_expired, lease_mismatch, Call, Faults, holds_lease, token_eq, settle_row,
  settle_update, settle_found, perform_settlement, settle_pragma, settle_delivery,
}

-- The row of an identifier is the only one with it.
by_id-only :
    (id : String) (rs : List Row) (row : Row)
    → Unique rs
    → by_id id rs ≡ some row
    → All (λ r. str_eq r.outbox_id id ≡ true → r ≡ row) rs
unfolding by_id
by_id-only id [] row u h = tt
by_id-only id (x ∷ xs) row u h = elim (Bool-cases (str_eq x.outbox_id id)) [
  | inl e ↦ (
    λ k. ground arith,
    All-map _ _ xs
        (λ r d k.
          ground (
            arith,
            d,
            eq_iff x.outbox_id id,
            eq_iff r.outbox_id id,
            eq_iff x.outbox_id r.outbox_id,
          ))
        (ids_differ x xs u.0),
  )
  | inr e ↦ (λ k. cc, by_id-only id xs row u.1 (rw e at h))
]

module _ (receipt_digest : Row → String → ℕ → String) (c : Call) (random : ℕ) where
  -- The row that holds the lease of the call, before it ends, takes the change of the outcome.
  abbrev pub SettledBy : Row → Row → Type 0
  SettledBy r r' =
      (holds_lease c.outbox_id c.lease_token r ≡ true)
      × (until r.lease_expires_at c.now ≡ false)
      × (change : Row → Row) × (result : SettleResult) × (settle_row receipt_digest r
            (normalize_result c.result) random c.now
          ≡ some (change, result))
      × (r' ≡ change r)

  abbrev pub SettleChange : Row → Row → Type 0
  SettleChange r r' = (r' ≡ r) ⊎ SettledBy r r'

  lease_id :
      (r : Row)
      → holds_lease c.outbox_id c.lease_token r ≡ true
      → str_eq r.outbox_id c.outbox_id ≡ true
  lease_id r k = ground arith

  settled_only :
      (r row : Row) (change : Row → Row) (result : SettleResult)
      → r ≡ row
      → holds_lease c.outbox_id c.lease_token r ≡ true
      → until row.lease_expires_at c.now ≡ false
      → settle_row receipt_digest row (normalize_result c.result) random c.now
        ≡ some (change, result)
      → SettleChange r (change r)
  settled_only r row change result same k live e =
      inr (k, rw same live, change, result, rw same e, refl)

  kept_rows : (rs : List Row) → Pointwise SettleChange rs rs
  kept_rows rs = Pointwise-refl SettleChange rs (λ r. inl refl)

  settle_update-rows :
      (rs : List Row) (row : Row) (o : Option ((Row → Row) × SettleResult))
      → settle_row receipt_digest row (normalize_result c.result) random c.now ≡ o
      → until row.lease_expires_at c.now ≡ false
      → All (λ r. str_eq r.outbox_id c.outbox_id ≡ true → r ≡ row) rs
      → Pointwise SettleChange rs (settle_update receipt_digest c.outbox_id c.lease_token rs o).0
  unfolding settle_update
  settle_update-rows rs row none e live only = kept_rows rs
  settle_update-rows rs row (some (change, result)) e live only =
      if_elim (λ (t : List Row × SettleResult). Pointwise SettleChange rs t.0) _ _ _
        (λ _.
          update_where-Pointwise SettleChange _ change rs (λ r. inl refl)
            (All-map _ _ rs (λ r o k. settled_only r row change result (o (lease_id r k)) k live e)
              only))
        (λ _. kept_rows rs)

  settle_found-rows :
      (rs : List Row) (o : Option Row)
      → Unique rs
      → by_id c.outbox_id rs ≡ o
      → Pointwise SettleChange rs
          (settle_found receipt_digest c.outbox_id c.lease_token c.result random c.now rs o).0
  unfolding settle_found
  settle_found-rows rs none u e = kept_rows rs
  settle_found-rows rs (some row) u e =
      let kept = λ (t : List Row × SettleResult). Pointwise SettleChange rs t.0 in
      let update =
        settle_update receipt_digest c.outbox_id c.lease_token rs
          (settle_row receipt_digest row (normalize_result c.result) random c.now) in
      if_elim kept (status_eq row.status leased && token_eq row.lease_token c.lease_token)
        (if until row.lease_expires_at c.now then (rs, lease_expired) else update)
        (rs, lease_mismatch)
        (λ _.
          if_elim kept (until row.lease_expires_at c.now) (rs, lease_expired) update
            (λ _. kept_rows rs)
            (λ live. settle_update-rows rs row _ refl live (by_id-only c.outbox_id rs row u e)))
        (λ _. kept_rows rs)

  perform_settlement-rows :
      (fault : Option Fault) (s : Store)
      → Unique s.rows
      → Pointwise SettleChange s.rows (perform_settlement receipt_digest c random fault s).0.rows
  unfolding perform_settlement
  perform_settlement-rows (some f) s u = kept_rows s.rows
  perform_settlement-rows none s u = settle_found-rows s.rows _ u refl

  settle_pragma-rows :
      (faults : Faults) (o : Option Fault) (s : Store)
      → faults.pragma ≡ o
      → Unique s.rows
      → Pointwise SettleChange s.rows (settle_pragma receipt_digest c random faults s).0.rows
  unfolding settle_pragma
  settle_pragma-rows faults (some f) s e u = rw e (kept_rows s.rows)
  settle_pragma-rows faults none s e u = rw e (perform_settlement-rows faults.transaction s u)

  -- A settlement changes at most the row that holds the call's lease, only while the lease lasts, and
  -- then in the way that the outcome asks. Every other row is kept, whatever the result is.
  pub settle_delivery-SettleChange :
      (faults : Faults) (s : Store)
      → Unique s.rows
      → Pointwise SettleChange s.rows (settle_delivery receipt_digest c random faults s).0.rows
  unfolding settle_delivery
  settle_delivery-SettleChange faults s u =
      if_elim (λ (t : Store × SettleResult). Pointwise SettleChange s.rows t.0.rows) _ _ _
        (λ _. settle_pragma-rows faults faults.pragma s refl u) (λ _. kept_rows s.rows)
