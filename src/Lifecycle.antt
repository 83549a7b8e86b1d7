-- ===== src/Lifecycle.antt =====
-- src/domain-rules-v2.mjs: the states of schedule items and of requests, what a run's event does to
-- the requests that it serves, and the revisions that an operation raises or expects.
use jenn_shooting_operations.Prelude.{
  ℕ, Bool, true, false, String, Option, none, some, List, [], ◌∷◌, leb, ◌==◌, if◌then◌else◌, length,
  ◌≡◌, ◌≢◌, ◌↔◌, ◌⊎◌, ◌≤◌, ◌<◌, arith, refl, inl, inr, sym, ap,
}
use jenn_shooting_operations.Prelude.Results.{Result, ok, err, or_fail, ensure, ◌>>=◌}
use jenn_shooting_operations.Run.{Tag, known, unknown, Transition, RunEvent, complete}
use jenn_shooting_operations.Run.Fold.{Number, nat, other, max_safe_integer}

pub data ScheduleState : Type 0 where
  draft confirmed cancelled : ScheduleState

pub data ScheduleCommand : Type 0 where
  confirm cancel : ScheduleCommand

pub data ScheduleError : Type 0 where
  invalid_schedule_state invalid_schedule_command invalid_schedule_transition : ScheduleError

-- `SCHEDULE_TRANSITIONS`
unfoldable pub schedule_transitions : ScheduleState → ScheduleCommand → Option ScheduleState
schedule_transitions draft confirm = some confirmed
schedule_transitions draft cancel = some cancelled
schedule_transitions confirmed cancel = some cancelled
schedule_transitions _ _ = none

abbrev has : {E A : Type 0} → Tag A → E → Result E A
has (known a) e = ok a
has (unknown _) e = err e

unfoldable pub transition_schedule_item :
    Tag ScheduleState → Tag ScheduleCommand → Result ScheduleError (Transition ScheduleState)
unfolding schedule_transitions
transition_schedule_item state command_type = do
  s ← has state invalid_schedule_state
  c ← has command_type invalid_schedule_command
  resulting_state ← or_fail (schedule_transitions s c) invalid_schedule_transition
  ok (record { previous_state = s; resulting_state = resulting_state })

pub data RequestState : Type 0 where
  open_request fulfilled cancelled_request : RequestState

pub data RequestCommand : Type 0 where
  fulfill cancel_request : RequestCommand

pub data RequestError : Type 0 where
  invalid_request_state invalid_request_command invalid_request_transition : RequestError

-- `REQUEST_TRANSITIONS`
unfoldable pub request_transitions : RequestState → RequestCommand → Option RequestState
request_transitions open_request fulfill = some fulfilled
request_transitions open_request cancel_request = some cancelled_request
request_transitions _ _ = none

unfoldable pub transition_request :
    Tag RequestState → Tag RequestCommand → Result RequestError (Transition RequestState)
unfolding request_transitions
transition_request state command_type = do
  s ← has state invalid_request_state
  c ← has command_type invalid_request_command
  resulting_state ← or_fail (request_transitions s c) invalid_request_transition
  ok (record { previous_state = s; resulting_state = resulting_state })

pub data RunScope : Type 0 where
  task block : RunScope

pub data ScopeError : Type 0 where
  invalid_run_scope invalid_run_event invalid_run_scope_binding : ScopeError

abbrev is_complete : RunEvent → Bool
is_complete complete = true
is_complete _ = false

abbrev pub binds : RunScope → ℕ → Bool
binds task n = n == 1
binds block n = leb 2 n

abbrev effects : RunScope → RunEvent → List String → List (String × RequestCommand)
effects task complete (id ∷ _) = (id, fulfill) ∷ []
effects _ _ _ = []

-- The exceptions are the errors.
unfoldable pub request_effects_for_run_event :
    Tag RunScope
    → Tag RunEvent
    → Option (List String)
    → Result ScopeError (List (String × RequestCommand))
request_effects_for_run_event scope event_type request_ids = do
  s ← has scope invalid_run_scope
  e ← has event_type invalid_run_event
  ids ← or_fail request_ids invalid_run_scope_binding
  _ ← ensure (binds s (length ids)) invalid_run_scope_binding
  ok (effects s e ids)

pub record RevisionEffects : Type 0 where
  pub schedule_revision : ℕ
  pub run_revision : ℕ
  pub projection_revision : ℕ

pub data EffectKind : Type 0 where
  schedule_command run_event new_request outbox noop replay : EffectKind

-- `REVISION_EFFECTS`
unfoldable pub revision_effects : EffectKind → RevisionEffects
revision_effects schedule_command = record {
  schedule_revision = 1;
  run_revision = 0;
  projection_revision = 1;
}
revision_effects run_event = record {
  schedule_revision = 0;
  run_revision = 1;
  projection_revision = 1;
}
revision_effects new_request = record {
  schedule_revision = 0;
  run_revision = 0;
  projection_revision = 1;
}
revision_effects outbox = record {
  schedule_revision = 0;
  run_revision = 0;
  projection_revision = 0;
}
revision_effects noop = record { schedule_revision = 0; run_revision = 0; projection_revision = 0 }
revision_effects replay = record {
  schedule_revision = 0;
  run_revision = 0;
  projection_revision = 0;
}

pub data RevisionError : Type 0 where
  invalid_revision : RevisionError
  revision_conflict : ℕ → RevisionError

abbrev safe : Number → Option ℕ
safe (nat n) = if leb n max_safe_integer then some n else none
safe other = none

-- `checkExpectedScheduleRevision` and `checkExpectedRunRevision` call it and differ in the scope's
-- name. A conflict carries the current revision.
unfoldable pub check_expected_revision : Number → Number → Result RevisionError ℕ
check_expected_revision expected current = do
  e ← or_fail (safe expected) invalid_revision
  c ← or_fail (safe current) invalid_revision
  _ ← ensure (e == c) (revision_conflict c)
  ok c

-- Between safe integers a revision is accepted exactly if it is the current one, and any other is a
-- conflict that carries the current one. With a number that is not safe, on either side, and only then,
-- the revision is invalid.
pub check_expected_revision_ok :
    (expected current r : ℕ)
    → ((check_expected_revision (nat expected) (nat current) ≡ ok r)
        ↔ ((expected ≡ current) × (r ≡ current) × (current ≤ max_safe_integer)))
      × ((check_expected_revision (nat expected) (nat current) ≡ err (revision_conflict r)) ↔ (
          (expected ≢ current)
          × (r ≡ current)
          × (expected ≤ max_safe_integer)
          × (current ≤ max_safe_integer)))
      × ((check_expected_revision (nat expected) (nat current) ≡ err invalid_revision)
          ↔ ((max_safe_integer < expected) ⊎ (max_safe_integer < current)))
unfolding check_expected_revision
check_expected_revision_ok expected current r = (ground arith, ground arith, ground arith)

-- A task has one request, a block of tasks two or more.
abbrev pub Serves : RunScope → List String → Type 0
Serves task ids = length ids ≡ 1
Serves block ids = 2 ≤ length ids

-- Completing a task fulfils its request; nothing else changes a request.
abbrev pub Fulfils : RunScope → RunEvent → List String → List (String × RequestCommand) → Type 0
Fulfils scope e ids es =
    (((scope ≢ task) ⊎ (e ≢ complete)) × (es ≡ []))
    ⊎ ((id : String) × (scope ≡ task)
        × (e ≡ complete)
        × (ids ≡ id ∷ [])
        × (es ≡ (id, fulfill) ∷ []))

fulfilled_one :
    (id : String) (es : List (String × RequestCommand))
    → Fulfils task complete (id ∷ []) es
    → es ≡ (id, fulfill) ∷ []
fulfilled_one id es (inl (inl n, e)) = absurd (n refl)
fulfilled_one id es (inl (inr n, e)) = absurd (n refl)
fulfilled_one id es (inr (i, s, c, k, e)) = let j : id ≡ i = cc in rw j e

ok_list :
    {xs ys : List (String × RequestCommand)}
    → ◌≡◌ {A = Result ScopeError (List (String × RequestCommand))} (ok xs) (ok ys)
    → ys ≡ xs
ok_list h = cc

-- Effects are accepted exactly for one request of a task or for two or more of a block, and then they
-- are none, or they fulfil the one request of a task whose run is completed.
pub request_effects_ok :
    (scope : RunScope) (e : RunEvent) (ids : List String) (es : List (String × RequestCommand))
    → (request_effects_for_run_event (known scope) (known e) (some ids) ≡ ok es)
      ↔ (Serves scope ids × Fulfils scope e ids es)
unfolding request_effects_for_run_event
request_effects_ok task e [] es = ground arith
request_effects_ok task complete (id ∷ []) es = (
  (λ h. (refl, inr (id, refl, refl, refl, ok_list h))),
  (λ h. ap ok (sym (fulfilled_one id es h.1))),
)
request_effects_ok task e (id ∷ []) es = ground arith
request_effects_ok task e (id ∷ id' ∷ ids) es = ground arith
request_effects_ok block e ids es = ground arith
