-- ===== src/Queue/Replayed.antt =====
-- A whole replay: the refresh, the cache, and the loop.
use mathlib.Core.Path.{subst}
use jenn_shooting_operations.Prelude.{
  ℕ, ◌+◌, ◌≤◌, ◌≡◌, inl, refl, sym, ap, ◌∙◌, ◌||◌, not, String, Option, none, some, List, [], ◌∷◌,
  ◌++◌, length, length-append, if_elim, arith, ◌==◌,
}
use jenn_shooting_operations.Prelude.Results.{Result, ok, err}
use jenn_shooting_operations.Json.{Json, text_of}
use jenn_shooting_operations.Queue.Values.{Protocol, valid_identifier, valid_timestamp}
use jenn_shooting_operations.Queue.State.{
  State, is_blocked, Failure, ServerStatus, unavailable, Outcome,
}
use jenn_shooting_operations.Queue.Storage.{Storage, load_state, commit_state}
use jenn_shooting_operations.Queue.Replay.{
  Answer, Reply, returned, waits, replay_loop, outcome, Refresh, refreshed, resumed, recached,
  continued, after_refresh, started, replay,
}
use jenn_shooting_operations.Queue.Delivery.{IsLawful, IsQuiet, AllQuiet, IsDelivered}
use jenn_shooting_operations.Queue.Delivered.{loop-IsDelivered}

-- An error is returned, or the items are delivered as far as is reported.
abbrev pub IsReplayed :
    (S : Storage) (p : Protocol) → List Json → List (Answer S p) → Reply S p → Type 0
IsReplayed S p items answers (returned (err f)) = Unit
IsReplayed S p items answers (returned (ok o)) = IsDelivered S p 0 items answers (returned (ok o))
IsReplayed S p items answers (waits head) = IsDelivered S p 0 items answers (waits head)

delivered-IsReplayed :
    (S : Storage) (p : Protocol) (items : List Json) (answers : List (Answer S p))
    (reply : Reply S p)
    → IsDelivered S p 0 items answers reply
    → IsReplayed S p items answers reply
delivered-IsReplayed S p items answers (returned (err f)) h = tt
delivered-IsReplayed S p items answers (returned (ok o)) h = h
delivered-IsReplayed S p items answers (waits head) h = h

module _ (S : Storage) (p : Protocol) (lawful : IsLawful S p) (items : List Json)
    (answers : List (Answer S p)) (quiet : AllQuiet S p answers) where
  abbrev Ends : S.Store × Reply S p → Type 0
  Ends r = IsReplayed S p items answers r.1

  idle-Ends :
      (store : S.Store) (s : State) (status : ServerStatus)
      → s.items ≡ items
      → Ends (store, returned (ok (outcome s status 0 none)))
  idle-Ends store s status e = ([], sym e, refl, tt)

  resumed-Ends :
      (store : S.Store) (base next : State) (status : ServerStatus)
      (saved : S.Store × Result Failure State)
      → load_state S p store ≡ ok base
      → next.items ≡ base.items
      → base.items ≡ items
      → commit_state S p store base next ≡ saved
      → Ends (resumed S p status answers saved)
  resumed-Ends store base next status (store', err f) l same e c = tt
  resumed-Ends store base next status (store', ok s) l same e c =
      let law = lawful.commit_law store store' base next s l (inl same) c in
      if_elim Ends (is_blocked s.sync_status) _ _
        (λ b. idle-Ends store' s status (law.1 ∙ same ∙ e))
        (λ b. delivered-IsReplayed S p items answers (replay_loop S p store' status s 0 answers).1 (
          loop-IsDelivered S p lawful status store' s 0 items answers law.0 (law.1 ∙ same ∙ e)
            quiet))

  module _ (store : S.Store) (s : State) (loads : load_state S p store ≡ ok s)
      (holds : s.items ≡ items) where
    continued-Ends :
        (clock : Json) (r : Option (ServerStatus × Json))
        → Ends (continued S p store s clock answers r)
    continued-Ends clock none = idle-Ends store s (unavailable none) holds
    continued-Ends clock (some (status, revision)) =
        subst (λ l. Ends (recached S p store status revision clock answers l)) (sym loads)
          (resumed-Ends store s
            (record s {
              cache = some (record { projection_revision = revision; last_synced_at = clock });
            })
            status _ loads refl holds refl)

    after_refresh-Ends :
        (resource : String) (clock : Json) (code : Option ℕ) (body : Json)
        → Ends (after_refresh S p store s resource clock answers code body)
    unfolding after_refresh
    after_refresh-Ends resource clock none body = idle-Ends store s (unavailable none) holds
    after_refresh-Ends resource clock (some code) body =
        if_elim Ends (not (code == 200 || code == 304)) _ _
          (λ b. idle-Ends store s (unavailable (some code)) holds)
          (λ b.
            if_elim Ends (not (valid_timestamp clock)) _ _ (λ b'. tt)
              (λ b'. continued-Ends clock (refreshed S p resource s code body)))

-- Over a lawful storage that nobody else changes, a replay ends with an error of the whole, or the items are those that
-- were acknowledged, in their order and each by a receipt of its own, and then those that are left; the number of the
-- acknowledged ones is the number that is reported.
pub replay-IsReplayed :
    (S : Storage) (p : Protocol) (store : S.Store) (s : State) (resource clock : Json)
    (refresh : Refresh S p) (answers : List (Answer S p))
    → IsLawful S p
    → load_state S p store ≡ ok s
    → IsQuiet S p refresh.others
    → AllQuiet S p answers
    → IsReplayed S p s.items answers (replay S p store resource clock refresh answers).1
unfolding replay
replay-IsReplayed S p store s resource clock refresh answers lawful l q quiet =
    let P = λ (r : S.Store × Reply S p). IsReplayed S p s.items answers r.1 in
    if_elim P (valid_identifier resource) _ _
      (λ b.
        subst (λ m. P (started S p store (text_of resource) clock refresh answers m)) (sym l)
          (after_refresh-Ends S p lawful s.items answers quiet (refresh.others store) s
            (q store ∙ l) refl (text_of resource) clock refresh.status refresh.body))
      (λ b. tt)

too_few :
    (a : ℕ) (items acked rest : List Json) (head : Json)
    → items ≡ acked ++ head ∷ rest
    → length acked ≡ a
    → length items ≤ a
    → ⊥
too_few a items acked rest head e c le =
    let k : length items ≡ length acked + length (head ∷ rest) =
      ap length e ∙ length-append acked (head ∷ rest) in
    omega (arith, k, c, le)

never_waits :
    (S : Storage) (p : Protocol) (items : List Json) (answers : List (Answer S p))
    (reply : Reply S p)
    → IsReplayed S p items answers reply
    → length items ≤ length answers
    → (r : Result Failure Outcome) × (reply ≡ returned r)
never_waits S p items answers (returned r) h le = (r, refl)
never_waits S p items answers (waits head) (acked, rest, e, c, all) le =
    absurd (too_few (length answers) items acked rest head e c le)

-- Over a lawful storage that nobody else changes, a replay returns as soon as the service has answered as often as there
-- are items.
pub replay_returns :
    (S : Storage) (p : Protocol) (store : S.Store) (s : State) (resource clock : Json)
    (refresh : Refresh S p) (answers : List (Answer S p))
    → IsLawful S p
    → load_state S p store ≡ ok s
    → IsQuiet S p refresh.others
    → AllQuiet S p answers
    → length s.items ≤ length answers
    → (r : Result Failure Outcome) × ((replay S p store resource clock refresh answers).1
        ≡ returned r)
replay_returns S p store s resource clock refresh answers lawful l q quiet =
    never_waits S p s.items answers (replay S p store resource clock refresh answers).1
      (replay-IsReplayed S p store s resource clock refresh answers lawful l q quiet)
