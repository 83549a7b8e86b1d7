-- ===== src/Outbox/Claimed.antt =====
-- The rows that `claim_batch` takes, described without its queries.
use jenn_shooting_operations.Prelude.{
  ℕ, ◌≤◌, ◌<◌, ◌≡◌, ◌⊎◌, inl, inr, true, false, String, Option, some, List, [], ◌∷◌, All, arith,
  eq_iff,
}
use jenn_shooting_operations.Outbox.{Row, pending, leased, retryable_failed}
use jenn_shooting_operations.Outbox.Policy.{max_attempts}
use jenn_shooting_operations.Outbox.Rows.{Pointwise, Unique, Pointwise-map}
use jenn_shooting_operations.Outbox.Repository.{
  Isolation, Store, Fault, isolated, eligible, expired_final, bury, lease, claim_batch,
}
use jenn_shooting_operations.Outbox.Claims.{ClaimStep, claim_batch-ClaimStep}

-- The column has a time that is not after `now`.
abbrev pub Reached : Option ℕ → ℕ → Type 0
Reached column now = (t : ℕ) × (column ≡ some t) × (t ≤ now)

abbrev pub NotIsolated : List Isolation → Row → Type 0
NotIsolated isolations r = All (λ (i : Isolation). i.outbox_id ≡ r.outbox_id → ⊥) isolations

-- A row that waits for its time, or that was leased until then.
abbrev pub Due : ℕ → Row → Type 0
Due now r =
    ((r.status ≡ pending) × Reached r.available_at now)
    ⊎ ((r.status ≡ retryable_failed) × Reached r.available_at now)
    ⊎ ((r.status ≡ leased) × Reached r.lease_expires_at now)

-- The last attempt of a row ended with its lease, and the row is given up.
abbrev pub GivenUp : ℕ → Row → Row → Type 0
GivenUp now r r' =
    (r.status ≡ leased)
    × (r.attempt_count ≡ max_attempts)
    × Reached r.lease_expires_at now
    × (r' ≡ bury now r)

-- A row that is due, is not isolated and has an attempt left is leased for one attempt more.
abbrev pub LeasedTo : List Isolation → String → ℕ → Row → Row → Type 0
LeasedTo isolations worker now r r' =
    NotIsolated isolations r
    × (r.attempt_count < max_attempts)
    × Due now r
    × (token : String) × (r' ≡ lease token worker now r)

abbrev pub ClaimChange : List Isolation → String → ℕ → Row → Row → Type 0
ClaimChange isolations worker now r r' =
    (r' ≡ r) ⊎ GivenUp now r r' ⊎ LeasedTo isolations worker now r r'

isolated-NotIsolated :
    (isolations : List Isolation) (r : Row)
    → isolated isolations r.outbox_id ≡ false
    → NotIsolated isolations r
unfolding isolated
isolated-NotIsolated [] r h = tt
isolated-NotIsolated (i ∷ is) r h =
    (λ e. ground (arith, eq_iff i.outbox_id r.outbox_id), isolated-NotIsolated is r (ground arith))

eligible-Due :
    (isolations : List Isolation) (now : ℕ) (r : Row)
    → eligible isolations now r ≡ true
    → (isolated isolations r.outbox_id ≡ false) × (r.attempt_count < max_attempts) × Due now r
unfolding eligible
eligible-Due isolations now r h = ground arith

expired_final-Reached :
    (now : ℕ) (r : Row)
    → expired_final now r ≡ true
    → (r.status ≡ leased) × (r.attempt_count ≡ max_attempts) × Reached r.lease_expires_at now
expired_final-Reached now r h = ground arith

ClaimStep-ClaimChange :
    (isolations : List Isolation) (worker : String) (now : ℕ) (r r' : Row)
    → ClaimStep isolations worker now r r'
    → ClaimChange isolations worker now r r'
ClaimStep-ClaimChange isolations worker now r r' (inl e) = inl e
ClaimStep-ClaimChange isolations worker now r r' (inr (inl (h, e))) =
    let (s, n, t) = expired_final-Reached now r h in inr (inl (s, n, t, e))
ClaimStep-ClaimChange isolations worker now r r' (inr (inr (h, token, e))) =
    let (i, n, d) = eligible-Due isolations now r h in
    inr (inr (isolated-NotIsolated isolations r i, n, d, token, e))

-- A batch changes rows in two ways, whatever it returns. A row whose last attempt ended with its lease
-- becomes a dead letter. A row that waits for its time and has reached it, or whose lease has ended,
-- and that is not isolated and has an attempt left, is leased to the worker for one attempt more.
-- Every other row is kept. The identifiers of the rows differ.
pub claim_batch-ClaimChange :
    (worker : String) (now limit : ℕ) (tokens : List String) (fault : Option Fault) (s : Store)
    → Unique s.rows
    → Pointwise
        (ClaimChange s.isolations worker now)
        s.rows
        (claim_batch worker now limit tokens fault s).0.rows
claim_batch-ClaimChange worker now limit tokens fault s u =
    Pointwise-map _ _ s.rows _ (ClaimStep-ClaimChange s.isolations worker now)
      (claim_batch-ClaimStep worker now limit tokens fault s u)
