-- ===== src/Outbox/Soundness.antt =====
-- The columns that a row has in each status, and that every operation keeps them so.
use jenn_shooting_operations.Prelude.{
  ℕ, ◌≤◌, ◌<◌, ◌≡◌, inl, inr, true, false, String, Option, none, some, List, All, arith,
}
use jenn_shooting_operations.Outbox.{
  Row, Status, pending, leased, retryable_failed, sent, dead_letter,
}
use jenn_shooting_operations.Outbox.Policy.{max_attempts}
use jenn_shooting_operations.Outbox.Table.{until}
use jenn_shooting_operations.Outbox.Rows.{
  Unique, SameId, Unique-Pointwise, Pointwise-map, All-Pointwise,
}
use jenn_shooting_operations.Outbox.Repository.{
  Isolation, Store, Fault, eligible, expired_final, bury, lease, claim_batch,
}
use jenn_shooting_operations.Outbox.Claims.{ClaimStep, claim_batch-ClaimStep}

abbrev pub Present : {A : Type 0} → Option A → Type 0
Present {A} o = (a : A) × (o ≡ some a)

abbrev pub NoLease : Row → Type 0
NoLease r = (r.lease_token ≡ none) × (r.lease_owner ≡ none) × (r.lease_expires_at ≡ none)

abbrev pub Columns : Status → Row → Type 0
Columns pending r = (r.attempt_count ≡ 0) × Present r.available_at × NoLease r × (r.sent_at ≡ none)
Columns leased r =
    (1 ≤ r.attempt_count)
    × (r.attempt_count ≤ max_attempts)
    × (r.available_at ≡ none)
    × Present r.lease_token
    × Present r.lease_owner
    × Present r.lease_expires_at
    × (r.sent_at ≡ none)
Columns retryable_failed r =
    (1 ≤ r.attempt_count)
    × (r.attempt_count < max_attempts)
    × Present r.available_at
    × NoLease r
    × Present r.last_error_code
    × (r.sent_at ≡ none)
Columns sent r =
    (1 ≤ r.attempt_count)
    × (r.attempt_count ≤ max_attempts)
    × (r.available_at ≡ none)
    × NoLease r
    × Present r.provider_ref
    × Present r.delivery_receipt_digest
    × Present r.sent_at
Columns dead_letter r =
    (1 ≤ r.attempt_count)
    × (r.attempt_count ≤ max_attempts)
    × (r.available_at ≡ none)
    × NoLease r
    × Present r.last_error_code
    × (r.sent_at ≡ none)

-- A row is well formed if it has the columns of its status.
pub record IsSound (r : Row) : Type 0 where
  pub columns : Columns r.status r

-- A table is well formed if its rows are, and their identifiers differ.
pub record IsValid (rows : List Row) : Type 0 where
  pub unique : Unique rows
  pub sound : All IsSound rows

bury-IsSound : (now : ℕ) (r : Row) → expired_final now r ≡ true → IsSound r → IsSound (bury now r)
bury-IsSound now r h k = ground arith

lease-IsSound :
    (isolations : List Isolation) (token worker : String) (now : ℕ) (r : Row)
    → eligible isolations now r ≡ true
    → IsSound r
    → IsSound (lease token worker now r)
unfolding eligible
lease-IsSound isolations token worker now r h k = ground arith

ClaimStep-IsSound :
    (isolations : List Isolation) (worker : String) (now : ℕ) (r r' : Row)
    → ClaimStep isolations worker now r r'
    → IsSound r
    → IsSound r'
ClaimStep-IsSound isolations worker now r r' (inl e) k = rw e k
ClaimStep-IsSound isolations worker now r r' (inr (inl (h, e))) k = rw e (bury-IsSound now r h k)
ClaimStep-IsSound isolations worker now r r' (inr (inr (h, token, e))) k =
    rw e (lease-IsSound isolations token worker now r h k)

ClaimStep-SameId :
    (isolations : List Isolation) (worker : String) (now : ℕ) (r r' : Row)
    → ClaimStep isolations worker now r r'
    → SameId r r'
ClaimStep-SameId isolations worker now r r' (inl e) = rw e
ClaimStep-SameId isolations worker now r r' (inr (inl (h, e))) = rw e
ClaimStep-SameId isolations worker now r r' (inr (inr (h, token, e))) = rw e

-- A batch keeps the table well formed, whatever it returns.
pub claim_batch-IsValid :
    (worker : String) (now limit : ℕ) (tokens : List String) (fault : Option Fault) (s : Store)
    → IsValid s.rows
    → IsValid (claim_batch worker now limit tokens fault s).0.rows
claim_batch-IsValid worker now limit tokens fault s v =
    let changes = claim_batch-ClaimStep worker now limit tokens fault s v.unique in
    record {
      unique =
          Unique-Pointwise s.rows _
            (Pointwise-map _ _ s.rows _ (ClaimStep-SameId s.isolations worker now) changes)
            v.unique;
      sound =
          All-Pointwise IsSound _ s.rows _ (ClaimStep-IsSound s.isolations worker now) changes
            v.sound;
    }

-- A lease that has not ended excludes every other claim: its row is kept.
abbrev LiveLeaseKept : ℕ → Row → Row → Type 0
LiveLeaseKept now r r' = r.status ≡ leased → until r.lease_expires_at now ≡ false → r' ≡ r

ClaimStep-LiveLeaseKept :
    (isolations : List Isolation) (worker : String) (now : ℕ) (r r' : Row)
    → ClaimStep isolations worker now r r'
    → LiveLeaseKept now r r'
unfolding eligible
ClaimStep-LiveLeaseKept isolations worker now r r' h = ground arith
