-- ===== src/Queue/Replay.antt =====
-- `replay` of public/kiosk-offline-queue-v2.js. While the queue waits for the service, others may change
-- the storage: each answer comes with that change.
use jenn_shooting_operations.Prelude.{
  ℕ, ◌+◌, Bool, true, false, ◌&&◌, ◌||◌, not, String, Option, none, some, List, [], ◌∷◌, ◌==◌,
  if◌then◌else◌,
}
use jenn_shooting_operations.Prelude.Results.{Result, ok, err}
use jenn_shooting_operations.Json.{
  Json, undefined, text, get, is_text, valid_revision, text_of, is_one_of,
}
use jenn_shooting_operations.Queue.Values.{Version, v2, Protocol, valid_identifier, valid_timestamp}
use jenn_shooting_operations.Queue.Receipts.{valid_field_day}
use jenn_shooting_operations.Queue.Current.{validate_kiosk_current_response}
use jenn_shooting_operations.Queue.Responses.{
  Response, applied, review_required, protocol_failure, valid_result, has_status, in_range,
  conflict_codes,
}
use jenn_shooting_operations.Queue.State.{
  SyncStatus, synced, pending, conflict, needs_review, Cache, State, is_blocked, Failure,
  invalid_resource_id, invalid_client_time, ServerStatus, unchanged, unavailable, fresh, refused,
  Outcome,
}
use jenn_shooting_operations.Queue.Storage.{Storage, load_state, commit_state, reload_head}

abbrev pub outcome : State → ServerStatus → ℕ → Option String → Outcome
outcome s status n stop = record {
  state = s;
  server_status = status;
  processed = n;
  stop_code = stop;
}

abbrev pub after_drop : List Json → SyncStatus
after_drop [] = synced
after_drop (i ∷ is) = pending

abbrev pub tail : List Json → List Json
tail [] = []
tail (i ∷ is) = is

-- The state without its head.
abbrev pub dropped : State → State
dropped s = record s { sync_status = after_drop (tail s.items); items = tail s.items }

abbrev pub is_legacy : Version → Response → Bool
is_legacy v2 r = false
is_legacy _ r =
    has_status r.status 409 && is_text (get r.body "code") "LEGACY_ONLINE_EVENT_REVIEW_REQUIRED"

abbrev pub stop_code_of : Json → String
stop_code_of (text s) = s
stop_code_of _ = "QUEUE_CONFLICT"

-- What to do with the answer to the head.
pub data Verdict : Type 0 where
  stops : ServerStatus → Option String → Verdict
  acknowledged : Verdict
  held : SyncStatus → String → Verdict

unfoldable pub judge : Protocol → ServerStatus → Json → Response → Verdict
unfolding get is_text has_status protocol_failure valid_result applied review_required is_one_of
judge p status head r =
    if is_legacy p.version r
    then stops status (some "LEGACY_ONLINE_EVENT_REVIEW_REQUIRED")
    else if protocol_failure r || not (in_range r.status 0 499)
    then stops status none
    else if has_status r.status 401
    then stops (refused status 401) (some "UNAUTHENTICATED")
    else if has_status r.status 403
    then stops (refused status 403) (some "FORBIDDEN")
    else if not (valid_result p r)
    then stops status none
    else if applied p r head
    then acknowledged
    else if review_required p r head
    then held needs_review "EVENT_TIME_REVIEW_REQUIRED"
    else if in_range r.status 400 499 || is_one_of (get r.body "code") conflict_codes
    then held conflict (stop_code_of (get r.body "code"))
    else stops status none

module _ (S : Storage) (p : Protocol) where
  -- An answer; `none` is an exception. `others` is the change by others before it comes.
  pub record Answer : Type 0 where
    pub response : Option Response
    pub others : S.Store → S.Store

  -- The end of a turn of the loop.
  pub data Turn : Type 0 where
    finished : S.Store → Result Failure Outcome → Turn
    continues : S.Store → State → ℕ → Turn

  abbrev pub saved_drop : State → ServerStatus → ℕ → S.Store × Result Failure State → Turn
  saved_drop s status n (store, ok s') = continues store s' (n + 1)
  saved_drop s status n (store, err f) = finished store (ok (outcome s status n none))

  abbrev pub saved_hold : State → ServerStatus → ℕ → String → S.Store × Result Failure State → Turn
  saved_hold s status n code (store, ok s') = finished store (ok (outcome s' status n (some code)))
  saved_hold s status n code (store, err f) = finished store (ok (outcome s status n none))

  -- The head is dropped only here.
  unfoldable pub act : S.Store → ServerStatus → ℕ → State → Bool → Verdict → Turn
  unfolding commit_state
  act store status n s present (stops status' code) = finished store (ok (outcome s status' n code))
  act store status n s false acknowledged = continues store s (n + 1)
  act store status n s true acknowledged =
      if is_blocked s.sync_status
      then finished store (ok (outcome s status n none))
      else saved_drop s status n (commit_state S p store s (dropped s))
  act store status n s false (held sync code) = continues store s n
  act store status n s true (held sync code) =
      saved_hold s status n code (commit_state S p store s (record s { sync_status = sync }))

  abbrev pub judged :
      S.Store → ServerStatus → ℕ → Json → Response → Result Failure (State × Bool) → Turn
  judged store status n head r (err f) = finished store (err f)
  judged store status n head r (ok (s, present)) =
      act store status n s present (judge p status head r)

  abbrev pub unanswered : S.Store → ServerStatus → ℕ → Result Failure State → Turn
  unanswered store status n (err f) = finished store (err f)
  unanswered store status n (ok s) = finished store (ok (outcome s status n none))

  unfoldable pub received : S.Store → ServerStatus → ℕ → Json → Option Response → Turn
  unfolding load_state reload_head judge act
  received store status n head none = unanswered store status n (load_state S p store)
  received store status n head (some r) = judged store status n head r (reload_head S p store head)

  unfoldable pub turn : S.Store → ServerStatus → State → ℕ → List Json → Answer → Turn
  unfolding received
  turn store status s n [] a = finished store (ok (outcome s status n none))
  turn store status s n (head ∷ items) a = received (a.others store) status n head a.response

  -- `waits` for the answer to an item, where no more answers have come.
  pub data Reply : Type 0 where
    returned : Result Failure Outcome → Reply
    waits : Json → Reply

  abbrev pub at_rest : State → ServerStatus → ℕ → List Json → Reply
  at_rest s status n [] = returned (ok (outcome s status n none))
  at_rest s status n (head ∷ items) = waits head

  -- The loop over the head of the queue, with the answers as they come.
  unfoldable pub replay_loop : S.Store → ServerStatus → State → ℕ → List Answer → S.Store × Reply
  unfolding turn
  replay_loop store status s n [] = (store, at_rest s status n s.items)
  replay_loop store status s n (a ∷ answers) = elim (turn store status s n s.items a) [
    | finished store' r ↦ (store', returned r)
    | continues store' s' n' ↦ replay_loop store' status s' n' answers
  ]

  -- The answer of `refreshCurrent`; `none` is an exception, or no integer for a status.
  pub record Refresh : Type 0 where
    pub status : Option ℕ
    pub body : Json
    pub others : S.Store → S.Store

  abbrev pub valid_refresh_body : Version → Json → String → Bool
  valid_refresh_body v2 body resource =
      validate_kiosk_current_response body && is_text (get body "resourceId") resource
  valid_refresh_body _ body resource = valid_field_day p body resource

  abbrev pub cached_revision : Option Cache → Json
  cached_revision none = undefined
  cached_revision (some c) = c.projection_revision

  -- The status of the server and the revision for the cache, of an answer 200 or 304.
  unfoldable pub refreshed : String → State → ℕ → Json → Option (ServerStatus × Json)
  unfolding validate_kiosk_current_response valid_field_day get is_text valid_revision
  refreshed resource s code body =
      if code == 304
      then (if valid_revision (cached_revision s.cache)
          then some (unchanged, cached_revision s.cache)
          else none)
      else (if valid_refresh_body p.version body resource
          then some (fresh body, get body "projectionRevision")
          else none)

  abbrev pub resumed : ServerStatus → List Answer → S.Store × Result Failure State → S.Store × Reply
  resumed status answers (store, err f) = (store, returned (err f))
  resumed status answers (store, ok s) =
      if is_blocked s.sync_status
      then (store, returned (ok (outcome s status 0 none)))
      else replay_loop store status s 0 answers

  -- The cache is written over the latest state.
  abbrev pub recached :
      S.Store → ServerStatus → Json → Json → List Answer → Result Failure State → S.Store × Reply
  recached store status revision synced_at answers (err f) = (store, returned (err f))
  recached store status revision synced_at answers (ok s) = resumed status answers (
      commit_state S p store s (record s {
        cache = some (record { projection_revision = revision; last_synced_at = synced_at });
      }))

  abbrev pub continued :
      S.Store → State → Json → List Answer → Option (ServerStatus × Json) → S.Store × Reply
  continued store s synced_at answers none =
      (store, returned (ok (outcome s (unavailable none) 0 none)))
  continued store s synced_at answers (some (status, revision)) =
      recached store status revision synced_at answers (load_state S p store)

  unfoldable pub after_refresh :
      S.Store → State → String → Json → List Answer → Option ℕ → Json → S.Store × Reply
  unfolding refreshed load_state commit_state replay_loop valid_timestamp
  after_refresh store s resource clock answers none body =
      (store, returned (ok (outcome s (unavailable none) 0 none)))
  after_refresh store s resource clock answers (some code) body =
      if not (code == 200 || code == 304)
      then (store, returned (ok (outcome s (unavailable (some code)) 0 none)))
      else if not (valid_timestamp clock)
      then (store, returned (err invalid_client_time))
      else continued store s clock answers (refreshed resource s code body)

  abbrev pub started :
      S.Store → String → Json → Refresh → List Answer → Result Failure State → S.Store × Reply
  started store resource clock refresh answers (err f) = (store, returned (err f))
  started store resource clock refresh answers (ok s) =
      after_refresh (refresh.others store) s resource clock answers refresh.status refresh.body

  -- `clock` is what `toISOString` of the clock gives, `undefined` if it throws.
  unfoldable pub replay : S.Store → Json → Json → Refresh → List Answer → S.Store × Reply
  unfolding load_state after_refresh valid_identifier
  replay store resource clock refresh answers =
      if valid_identifier resource
      then started store (text_of resource) clock refresh answers (load_state S p store)
      else (store, returned (err invalid_resource_id))
