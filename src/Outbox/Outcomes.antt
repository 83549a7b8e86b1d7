-- ===== src/Outbox/Outcomes.antt =====
-- The outcomes of a settlement, and that settlements and new intents keep the table well formed.
use jenn_shooting_operations.Prelude.{
  ℕ, ◌+◌, ◌≡◌, ◌≤◌, ◌<◌, ◌⊎◌, ◌^◌, min, none, false, refl, ltb→lt, inl, inr, true, ◌&&◌, String,
  Option, some, arith, if_elim, ltb, if◌then◌else◌,
}
use jenn_shooting_operations.Outbox.{
  Row, leased, retryable_failed, dead_letter, DeliveryError, timeout, rate_limited, unavailable,
  transport_error,
}
use jenn_shooting_operations.Outbox.Policy.{
  max_attempts, asked, backoff, retry_delay_bounds, retryable, Delivery, delivered, failed,
  retry_delay,
}
use jenn_shooting_operations.Outbox.Rows.{SameId, Unique-Pointwise, Pointwise-map, All-Pointwise}
use jenn_shooting_operations.Outbox.Repository.{Store}
use jenn_shooting_operations.Outbox.Soundness.{IsSound, IsValid}
use jenn_shooting_operations.Outbox.Settlement.{
  SettleResult, retry_scheduled, dead_lettered, Call, Faults, mark_sent, mark_retry, mark_dead,
  settle_failed, settle_row, settle_delivery,
}
use jenn_shooting_operations.Outbox.Settled.{SettleChange, settle_delivery-SettleChange}

settle_failed-row :
    (row : Row) (code : DeliveryError) (after : Option ℕ) (random now : ℕ) {change : Row → Row}
    {result : SettleResult}
    → settle_failed row code after random now ≡ some (change, result)
    → (r : Row)
    → change r ≡ (
        if retryable code && ltb row.attempt_count max_attempts
        then mark_retry code (now + retry_delay code after row.attempt_count random) now r
        else mark_dead code now r)
unfolding settle_failed
settle_failed-row row code after random now h r = ground arith

-- The failures that may be gone at the next attempt.
abbrev pub IsTransient : DeliveryError → Type 0
IsTransient timeout = Unit
IsTransient rate_limited = Unit
IsTransient unavailable = Unit
IsTransient transport_error = Unit
IsTransient _ = ⊥

abbrev pub IsUnleased : Row → Type 0
IsUnleased r = (r.lease_token ≡ none) × (r.lease_owner ≡ none) × (r.lease_expires_at ≡ none)

-- The row waits for its next attempt, which is neither before the policy nor before the provider asks.
abbrev pub IsRetried : Row → DeliveryError → Option ℕ → ℕ → Row → SettleResult → Type 0
IsRetried row code after now r result =
    IsTransient code
    × (row.attempt_count < 5)
    × (r.status ≡ retryable_failed)
    × IsUnleased r
    × ((at : ℕ) × (r.available_at ≡ some at)
        × (result ≡ retry_scheduled code at)
        × (now + min (backoff row.attempt_count) 300000 ≤ at)
        × (now + asked code after ≤ at)
        × (at ≤ now + 300000))

abbrev pub IsBuried : Row → DeliveryError → Row → SettleResult → Type 0
IsBuried row code r result =
    (¬ IsTransient code ⊎ (5 ≤ row.attempt_count))
    × (r.status ≡ dead_letter)
    × IsUnleased r
    × (r.available_at ≡ none)
    × (result ≡ dead_lettered code)

retryable-IsTransient : (code : DeliveryError) → retryable code ≡ true → IsTransient code
unfolding retryable
retryable-IsTransient code h = ground arith

not_retryable : (code : DeliveryError) → retryable code ≡ false → ¬ IsTransient code
unfolding retryable
not_retryable code h = ground arith

settle_failed-cases :
    (row : Row) (code : DeliveryError) (after : Option ℕ) (random now : ℕ) {change : Row → Row}
    {result : SettleResult}
    → settle_failed row code after random now ≡ some (change, result)
    → ((retryable code ≡ true)
        × (ltb row.attempt_count max_attempts ≡ true)
        × (random < 2 ^ 53)
        × (change row
            ≡ mark_retry code (now + retry_delay code after row.attempt_count random) now row)
        × (result ≡ retry_scheduled code (now + retry_delay code after row.attempt_count random)))
      ⊎ (((retryable code ≡ false) ⊎ (ltb row.attempt_count max_attempts ≡ false))
          × (change row ≡ mark_dead code now row)
          × (result ≡ dead_lettered code))
unfolding settle_failed
settle_failed-cases row code after random now h = ground arith

retried :
    (row : Row) (code : DeliveryError) (after : Option ℕ) (random now : ℕ) (change : Row → Row)
    (result : SettleResult)
    → asked code after ≤ 300000
    → retryable code ≡ true
    → ltb row.attempt_count max_attempts ≡ true
    → random < 2 ^ 53
    → change row ≡ mark_retry code (now + retry_delay code after row.attempt_count random) now row
    → result ≡ retry_scheduled code (now + retry_delay code after row.attempt_count random)
    → IsRetried row code after now (change row) result
retried row code after random now change result h t l k c r =
    let (least, asks, most, longer) = retry_delay_bounds code after row.attempt_count random h k in
    rw c (
      retryable-IsTransient code t,
      ltb→lt row.attempt_count 5 l,
      refl,
      (refl, refl, refl),
      (
        now + retry_delay code after row.attempt_count random,
        refl,
        r,
        omega (arith, least),
        omega (arith, asks),
        omega (arith, most),
      ),
    )

buried :
    (row : Row) (code : DeliveryError) (change : Row → Row) (result : SettleResult) (now : ℕ)
    → (retryable code ≡ false) ⊎ (ltb row.attempt_count max_attempts ≡ false)
    → change row ≡ mark_dead code now row
    → result ≡ dead_lettered code
    → IsBuried row code (change row) result
buried row code change result now (inl f) c r =
    rw c (inl (not_retryable code f), refl, (refl, refl, refl), refl, r)
buried row code change result now (inr f) c r =
    rw c (inr (ground (arith, f)), refl, (refl, refl, refl), refl, r)

-- Where the provider asks to wait for at most five minutes: a failed delivery that is settled waits for
-- another attempt if the failure is a timeout, a limit of the rate, an unavailable service or a broken
-- transport, and fewer than five attempts were made. It then waits for what the policy asks, up to five
-- minutes, and for what the provider asks, and for no more than five minutes. Otherwise it is a dead
-- letter. The lease is gone, and the result says which it was.
pub settle_failed_retries :
    (row : Row) (code : DeliveryError) (after : Option ℕ) (random now : ℕ) (change : Row → Row)
    (result : SettleResult)
    → asked code after ≤ 300000
    → settle_failed row code after random now ≡ some (change, result)
    → IsRetried row code after now (change row) result ⊎ IsBuried row code (change row) result
settle_failed_retries row code after random now change result h e =
    elim (settle_failed-cases row code after random now e) [
      | inl (t, l, k, c, r) ↦ inl (retried row code after random now change result h t l k c r)
      | inr (n, c, r) ↦ inr (buried row code change result now n c r)
    ]

mark_sent-IsSound :
    (ref digest : String) (now : ℕ) (r : Row)
    → r.status ≡ leased
    → IsSound r
    → IsSound (mark_sent ref digest now r)
mark_sent-IsSound ref digest now r l k = ground arith

mark_retry-IsSound :
    (code : DeliveryError) (at now : ℕ) (r : Row)
    → r.status ≡ leased
    → ltb r.attempt_count max_attempts ≡ true
    → IsSound r
    → IsSound (mark_retry code at now r)
mark_retry-IsSound code at now r l m k = ground arith

mark_dead-IsSound :
    (code : DeliveryError) (now : ℕ) (r : Row)
    → r.status ≡ leased
    → IsSound r
    → IsSound (mark_dead code now r)
mark_dead-IsSound code now r l k = ground arith

module _ (receipt_digest : Row → String → ℕ → String) where
  settle_row-IsSound :
      (r : Row) (d : Delivery) (random now : ℕ) (change : Row → Row) (result : SettleResult)
      → settle_row receipt_digest r d random now ≡ some (change, result)
      → r.status ≡ leased
      → IsSound r
      → IsSound (change r)
  unfolding settle_row
  settle_row-IsSound r (delivered ref) random now change result e l k =
      let same : change r ≡ mark_sent ref (receipt_digest r ref now) now r = ground arith in
      rw same (mark_sent-IsSound ref _ now r l k)
  settle_row-IsSound r (failed code after) random now change result e l k =
      rw (settle_failed-row r code after random now e r) (
        if_elim IsSound (retryable code && ltb r.attempt_count max_attempts) _ _
          (λ m. mark_retry-IsSound code _ now r l (ground arith) k)
          (λ _. mark_dead-IsSound code now r l k))

  settle_row-SameId :
      (r : Row) (d : Delivery) (random now : ℕ) (change : Row → Row) (result : SettleResult)
      → settle_row receipt_digest r d random now ≡ some (change, result)
      → SameId r (change r)
  unfolding settle_row
  settle_row-SameId r (delivered ref) random now change result e = ground arith
  settle_row-SameId r (failed code after) random now change result e =
      rw (settle_failed-row r code after random now e r) (ground arith)

  module _ (c : Call) (random : ℕ) where
    SettleChange-IsSound :
        (r r' : Row) → SettleChange receipt_digest c random r r' → IsSound r → IsSound r'
    SettleChange-IsSound r r' (inl e) k = rw e k
    SettleChange-IsSound r r' (inr (h, live, change, result, e, same)) k =
        rw same (settle_row-IsSound r _ random c.now change result e (ground arith) k)

    SettleChange-SameId : (r r' : Row) → SettleChange receipt_digest c random r r' → SameId r r'
    SettleChange-SameId r r' (inl e) = rw e
    SettleChange-SameId r r' (inr (h, live, change, result, e, same)) =
        rw same (settle_row-SameId r _ random c.now change result e)

    -- A settlement keeps the table well formed, whatever it returns.
    pub settle_delivery-IsValid :
        (faults : Faults) (s : Store)
        → IsValid s.rows
        → IsValid (settle_delivery receipt_digest c random faults s).0.rows
    settle_delivery-IsValid faults s v =
        let changes = settle_delivery-SettleChange receipt_digest c random faults s v.unique in
        record {
          unique =
              Unique-Pointwise s.rows _ (Pointwise-map _ _ s.rows _ SettleChange-SameId changes)
                v.unique;
          sound = All-Pointwise IsSound _ s.rows _ SettleChange-IsSound changes v.sound;
        }
