-- ===== src/Outbox/Policy.antt =====
-- `OUTBOX_DISPATCH_POLICY_V1` of src/outbox-contract-v1.mjs, the classification of failures of
-- src/dingtalk-port-v1.mjs, and the delay before a retry of `performSettlement` of
-- src/sqlite-outbox-repository-v1.mjs.
use jenn_shooting_operations.Prelude.{
  ℕ, ◌+◌, ◌-◌, ◌*◌, ◌/◌, ◌^◌, ◌≤◌, ◌<◌, min, max, Bool, true, false, String, Option, none, some,
  leb, if◌then◌else◌, arith, ◌≡◌, ◌⊎◌,
}
use jenn_shooting_operations.Outbox.{
  DeliveryError, timeout, rate_limited, unavailable, transport_error, adapter_protocol_error,
  delivery_outcome_unknown,
}

abbrev pub batch_size : ℕ
batch_size = 8

abbrev pub lease_duration_ms : ℕ
lease_duration_ms = 30000

abbrev pub max_attempts : ℕ
max_attempts = 5

abbrev pub retry_base_delay_ms : ℕ
retry_base_delay_ms = 2000

abbrev pub retry_max_delay_ms : ℕ
retry_max_delay_ms = 300000

-- `classifyDingTalkFailureV1(code).retryable`
unfoldable pub retryable : DeliveryError → Bool
retryable timeout = true
retryable rate_limited = true
retryable unavailable = true
retryable transport_error = true
retryable _ = false

-- What `normalizeDingTalkResultV1` returns for `sendCard`.
pub data Delivery : Type 0 where
  delivered : String → Delivery
  failed : DeliveryError → Option ℕ → Delivery

-- A value of an adapter, as far as the normalisation reads it: a sent card with its reference and
-- whether the reference is well formed, a failure that the port knows with no other key or with a
-- `retryAfterMs`, or anything else. The adapter reports no `delivery_outcome_unknown`.
pub data AdapterResult : Type 0 where
  card_sent : String → Bool → AdapterResult
  failure : DeliveryError → AdapterResult
  failure_after : DeliveryError → ℕ → AdapterResult
  malformed : AdapterResult

abbrev is_rate_limited : DeliveryError → Bool
is_rate_limited rate_limited = true
is_rate_limited _ = false

abbrev protocol_error : Delivery
protocol_error = failed adapter_protocol_error none

-- `normalizeDingTalkResultV1(result, { operation: 'sendCard' })`
unfoldable pub normalize_result : AdapterResult → Delivery
normalize_result (card_sent ref valid) = if valid then delivered ref else protocol_error
normalize_result (failure delivery_outcome_unknown) = protocol_error
normalize_result (failure code) = failed code none
normalize_result (failure_after code ms) =
    if is_rate_limited code
    then (if leb ms retry_max_delay_ms then failed code (some ms) else protocol_error)
    else protocol_error
normalize_result malformed = protocol_error

abbrev or_zero : Option ℕ → ℕ
or_zero none = 0
or_zero (some n) = n

-- `exponentialDelay` after the attempt of that number, which is at least 1.
unfoldable pub exponential_delay : ℕ → ℕ
exponential_delay attempt_count =
    min (retry_base_delay_ms * 2 ^ (attempt_count - 1)) retry_max_delay_ms

unfoldable pub requested_delay : DeliveryError → Option ℕ → ℕ → ℕ
requested_delay code retry_after_ms attempt_count =
    if is_rate_limited code
    then max (exponential_delay attempt_count) (or_zero retry_after_ms)
    else exponential_delay attempt_count

-- The random value is `random / 2 ^ 53`, and the jitter ratio is 1/4.
unfoldable pub jittered : ℕ → ℕ → ℕ
jittered requested random = min retry_max_delay_ms (requested + requested * random / (4 * 2 ^ 53))

unfoldable pub retry_delay : DeliveryError → Option ℕ → ℕ → ℕ → ℕ
unfolding exponential_delay requested_delay jittered
retry_delay code retry_after_ms attempt_count random =
    jittered (requested_delay code retry_after_ms attempt_count) random

jitter-le :
    (requested random : ℕ) → random < 2 ^ 53 → requested * random / (4 * 2 ^ 53) * 4 ≤ requested
jitter-le requested random k =
    let h : requested * random ≤ requested * 2 ^ 53 = grind arith in omega arith

jittered_bounds :
    (requested random : ℕ)
    → requested ≤ retry_max_delay_ms
    → random < 2 ^ 53
    → (requested ≤ jittered requested random)
      × (jittered requested random ≤ retry_max_delay_ms)
      × (4 * jittered requested random ≤ 5 * requested)
unfolding jittered
jittered_bounds requested random h k = omega (arith, jitter-le requested random k)

-- What the provider asks to wait, where it limits the rate.
abbrev pub asked : DeliveryError → Option ℕ → ℕ
asked rate_limited (some ms) = ms
asked _ _ = 0

-- What the policy asks: two seconds, doubled with each attempt behind the first.
abbrev pub backoff : ℕ → ℕ
backoff attempt_count = 2000 * 2 ^ (attempt_count - 1)

requested_delay-asks :
    (code : DeliveryError) (after : Option ℕ) (attempt_count : ℕ)
    → requested_delay code after attempt_count
      ≡ max (min (backoff attempt_count) 300000) (asked code after)
unfolding requested_delay exponential_delay
requested_delay-asks rate_limited none n = ground arith
requested_delay-asks rate_limited (some ms) n = ground arith
requested_delay-asks code after n = ground arith

-- Of what the policy and the provider ask, a retry waits for at least both, up to five minutes. It waits
-- for at most five minutes, and for at most a quarter longer than one of both. The provider asks for at
-- most five minutes.
pub retry_delay_bounds :
    (code : DeliveryError) (after : Option ℕ) (attempt_count random : ℕ)
    → asked code after ≤ 300000
    → random < 2 ^ 53
    → (min (backoff attempt_count) 300000 ≤ retry_delay code after attempt_count random)
      × (asked code after ≤ retry_delay code after attempt_count random)
      × (retry_delay code after attempt_count random ≤ 300000)
      × ((4 * retry_delay code after attempt_count random ≤ 5 * backoff attempt_count)
          ⊎ (4 * retry_delay code after attempt_count random ≤ 5 * asked code after))
unfolding retry_delay
retry_delay_bounds code after attempt_count random h k =
    let asks = requested_delay-asks code after attempt_count in
    let (least, most, longer) =
      jittered_bounds (requested_delay code after attempt_count) random (omega (arith, asks, h))
        k in
    (omega (arith, asks, least), omega (arith, asks, least), most, ground (arith, asks, longer))
