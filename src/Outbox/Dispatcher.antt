-- ===== src/Outbox/Dispatcher.antt =====
-- `settleWithBusyRetry` and the counts of `dispatchOnce` of src/outbox-dispatcher-v1.mjs.
use jenn_shooting_operations.Prelude.{
  ℕ, zero, suc, ◌+◌, ◌≤◌, ◌≡◌, inl, inr, refl, Bool, true, false, ◌&&◌, not, Option, none, some,
  List, [], ◌∷◌, ◌==◌, length, All, arith, if◌then◌else◌, Bool-cases,
}
use jenn_shooting_operations.Outbox.Policy.{Delivery, delivered, failed, retryable}
use jenn_shooting_operations.Outbox.Repository.{Fault, busy, other_error}
use jenn_shooting_operations.Outbox.Settlement.{
  SettleResult, settled_sent, retry_scheduled, dead_lettered, store_busy,
}

-- A call of `repository.settleDelivery`, which returns or throws.
pub data Attempt : Type 0 where
  returned : SettleResult → Attempt
  threw : Fault → Attempt

abbrev pub is_busy : Attempt → Bool
is_busy (returned store_busy) = true
is_busy (returned _) = false
is_busy (threw busy) = true
is_busy (threw other_error) = false

abbrev pub settlement_of : Attempt → Option SettleResult
settlement_of (returned r) = some r
settlement_of (threw _) = none

-- The rounds from `attempt` on. `call` is the answer to each call, `waited` whether the timer of each
-- pause could be set, and the list the pauses that are left. The result `none` is `null`.
unfoldable pub settle_with_busy_retry :
    (ℕ → Attempt) → (ℕ → Bool) → ℕ → List ℕ → Option SettleResult
settle_with_busy_retry call waited attempt [] =
    if is_busy (call attempt) then none else settlement_of (call attempt)
settle_with_busy_retry call waited attempt (_ ∷ delays) =
    let rest = settle_with_busy_retry call waited (suc attempt) delays in
    if is_busy (call attempt)
    then (if waited attempt then rest else none)
    else settlement_of (call attempt)

abbrev pub valid_settle_result : Option SettleResult → Bool
valid_settle_result (some (settled_sent _ _)) = true
valid_settle_result (some (retry_scheduled _ _)) = true
valid_settle_result (some (dead_lettered _)) = true
valid_settle_result _ = false

abbrev is_sent : Option SettleResult → Bool
is_sent (some (settled_sent _ _)) = true
is_sent _ = false

pub record Outcome : Type 0 where
  pub sent : Bool
  pub retryable_failure : Bool
  pub non_retryable_failure : Bool
  pub settlement_failed : Bool

-- What `dispatchOnce` keeps of a claimed item, from the delivery and the settlement.
unfoldable pub outcome_of : Delivery → Option SettleResult → Outcome
outcome_of (delivered _) settlement = record {
  sent = valid_settle_result settlement && is_sent settlement;
  retryable_failure = false;
  non_retryable_failure = false;
  settlement_failed = not (valid_settle_result settlement);
}
outcome_of (failed code _) settlement = record {
  sent = false;
  retryable_failure = retryable code;
  non_retryable_failure = not (retryable code);
  settlement_failed = not (valid_settle_result settlement);
}

unfoldable pub count : (Outcome → Bool) → List Outcome → ℕ
count p [] = 0
count p (o ∷ os) = (if p o then 1 else 0) + count p os

pub data Code : Type 0 where
  outbox_dispatch_completed outbox_settlement_incomplete : Code

pub record Summary : Type 0 where
  pub is_ok : Bool
  pub code : Code
  pub claimed_count : ℕ
  pub sent_count : ℕ
  pub retryable_failure_count : ℕ
  pub non_retryable_failure_count : ℕ
  pub settlement_failure_count : ℕ

unfoldable pub summarise : List Outcome → Summary
unfolding count
summarise outcomes =
    let settlement_failure_count = count (λ o. o.settlement_failed) outcomes in
    record {
      is_ok = settlement_failure_count == 0;
      code =
          if settlement_failure_count == 0
          then outbox_dispatch_completed
          else outbox_settlement_incomplete;
      claimed_count = length outcomes;
      sent_count = count (λ o. o.sent) outcomes;
      retryable_failure_count = count (λ o. o.retryable_failure) outcomes;
      non_retryable_failure_count = count (λ o. o.non_retryable_failure) outcomes;
      settlement_failure_count = settlement_failure_count;
    }

-- `k` calls, from the one with the number `n`, are answered that the store is busy, and the next call
-- returns `r`.
abbrev pub AnsweredAfter : (ℕ → Attempt) → ℕ → ℕ → SettleResult → Type 0
AnsweredAfter call n zero r = call n ≡ returned r
AnsweredAfter call n (suc k) r = (is_busy (call n) ≡ true) × AnsweredAfter call (suc n) k r

settlement_of-returned :
    (a : Attempt) (r : SettleResult)
    → is_busy a ≡ false
    → settlement_of a ≡ some r
    → (a ≡ returned r) × (is_busy (returned r) ≡ false)
settlement_of-returned (returned x) r h e = ground arith
settlement_of-returned (threw f) r h e = ground arith

-- A settlement that is retried yields the first answer that the store is not busy, after at most as
-- many calls as there are pauses and one more. It never yields that the store is busy.
pub settle_with_busy_retry-AnsweredAfter :
    (call : ℕ → Attempt) (waited : ℕ → Bool) (n : ℕ) (delays : List ℕ) (r : SettleResult)
    → settle_with_busy_retry call waited n delays ≡ some r
    → (k : ℕ) × (k ≤ length delays) × AnsweredAfter call n k r × (is_busy (returned r) ≡ false)
unfolding settle_with_busy_retry
settle_with_busy_retry-AnsweredAfter call waited n [] r h =
    let (a, b) = settlement_of-returned (call n) r (ground arith) (ground arith) in
    (0, omega arith, a, b)
settle_with_busy_retry-AnsweredAfter call waited n (d ∷ delays) r h =
    elim (Bool-cases (is_busy (call n))) [
      | inl e ↦
          let (k, l, a, b) =
            settle_with_busy_retry-AnsweredAfter call waited (suc n) delays r (ground arith) in
          (suc k, omega (arith, l), (e, a), b)
      | inr e ↦
          let (a, b) = settlement_of-returned (call n) r e (ground arith) in (0, omega arith, a, b)
    ]

-- A delivered card is settled as sent or not at all, and a failed one as anything else.
abbrev pub Fits : Delivery → Option SettleResult → Type 0
Fits (delivered _) settlement = valid_settle_result settlement ≡ is_sent settlement
Fits (failed _ _) settlement = is_sent settlement ≡ false

abbrev pub outcomes_of : List (Delivery × Option SettleResult) → List Outcome
outcomes_of [] = []
outcomes_of ((d, s) ∷ rest) = outcome_of d s ∷ outcomes_of rest

abbrev sorted : Outcome → ℕ
sorted o =
    (if o.sent then 1 else 0)
    + (if o.retryable_failure then 1 else 0)
    + (if o.non_retryable_failure then 1 else 0)

outcome_of-sorted :
    (d : Delivery) (s : Option SettleResult)
    → Fits d s
    → (outcome_of d s).settlement_failed ≡ false
    → sorted (outcome_of d s) ≡ 1
unfolding outcome_of
outcome_of-sorted (delivered p) s f h = ground (arith, f, h)
outcome_of-sorted (failed code ms) s f h = ground (arith, f, h)

count-sorted :
    (items : List (Delivery × Option SettleResult))
    → All (λ i. Fits i.0 i.1) items
    → count (λ o. o.settlement_failed) (outcomes_of items) ≡ 0
    → length (outcomes_of items)
      ≡ count (λ o. o.sent) (outcomes_of items)
        + count (λ o. o.retryable_failure) (outcomes_of items)
        + count (λ o. o.non_retryable_failure) (outcomes_of items)
unfolding count
count-sorted [] f h = refl
count-sorted ((d, s) ∷ rest) (f, fs) h = elim (Bool-cases (outcome_of d s).settlement_failed) [
  | inl e ↦ ground (arith, e, h)
  | inr e ↦
      let n : count (λ o. o.settlement_failed) (outcomes_of rest) ≡ 0 = ground (arith, e, h) in
      omega (arith, outcome_of-sorted d s f e, count-sorted rest fs n)
]

-- If each settlement fits its delivery, a dispatch that is reported as completed has sent each of the
-- claimed notifications, or has counted it as one failure, retryable or not.
pub summarise-count :
    (items : List (Delivery × Option SettleResult))
    → All (λ i. Fits i.0 i.1) items
    → (summarise (outcomes_of items)).code ≡ outbox_dispatch_completed
    → (summarise (outcomes_of items)).claimed_count
      ≡ (summarise (outcomes_of items)).sent_count
        + (summarise (outcomes_of items)).retryable_failure_count
        + (summarise (outcomes_of items)).non_retryable_failure_count
unfolding summarise
summarise-count items f h = count-sorted items f (ground (arith, h))
