-- ===== src/Queue/Delivered.antt =====
-- The replay over a lawful storage delivers.
use mathlib.Core.Path.{subst}
use jenn_shooting_operations.Prelude.{
  ℕ, ◌+◌, ◌≡◌, inl, inr, refl, sym, ap, ◌∙◌, true, ◌||◌, not, String, eq_iff, Option, none, some,
  List, [], ◌∷◌, if_elim, arith,
}
use jenn_shooting_operations.Prelude.Results.{Result, ok, err}
use jenn_shooting_operations.Json.{Json, get, is_one_of}
use jenn_shooting_operations.Queue.Values.{Protocol}
use jenn_shooting_operations.Queue.Items.{event_id}
use jenn_shooting_operations.Queue.Sameness.{same_item_refl}
use jenn_shooting_operations.Queue.Responses.{
  Response, applied, review_required, protocol_failure, valid_result, has_status, in_range,
  conflict_codes,
}
use jenn_shooting_operations.Queue.State.{SyncStatus, State, is_blocked, Failure, ServerStatus}
use jenn_shooting_operations.Queue.Storage.{
  Storage, load_state, commit_state, reload_head, find_head,
}
use jenn_shooting_operations.Queue.Replay.{
  Verdict, stops, acknowledged, held, is_legacy, judge, dropped, tail, outcome, Answer, Turn,
  finished, continues, saved_drop, saved_hold, act, judged, unanswered, received, turn, Reply,
  returned, waits, at_rest, replay_loop,
}
use jenn_shooting_operations.Queue.Delivery.{IsLawful, IsQuiet, AllQuiet, Acknowledges, IsDelivered}

find_head-first :
    (s : State) (head : Json) (items : List Json) → find_head s head (head ∷ items) ≡ ok (s, true)
unfolding find_head
find_head-first s head items =
    rw ((eq_iff (event_id head) (event_id head)).1 refl, same_item_refl head) refl

-- A response is taken for a receipt only where `applied` holds.
judge-applied :
    (p : Protocol) (status : ServerStatus) (head : Json) (r : Response)
    → judge p status head r ≡ acknowledged
    → applied p r head ≡ true
unfolding judge
judge-applied p status head r =
    let P = λ (v : Verdict). v ≡ acknowledged → applied p r head ≡ true in
    if_elim P (is_legacy p.version r) _ _ (λ e h. cc)
      (λ e1.
        if_elim P (protocol_failure r || not (in_range r.status 0 499)) _ _ (λ e h. cc)
          (λ e2.
            if_elim P (has_status r.status 401) _ _ (λ e h. cc)
              (λ e3.
                if_elim P (has_status r.status 403) _ _ (λ e h. cc)
                  (λ e4.
                    if_elim P (not (valid_result p r)) _ _ (λ e h. cc)
                      (λ e5.
                        if_elim P (applied p r head) _ _ (λ e h. e)
                          (λ e6.
                            if_elim P (review_required p r head) _ _ (λ e h. cc)
                              (λ e7.
                                if_elim P
                                  (in_range r.status 400 499
                                    || is_one_of (get r.body "code") conflict_codes)
                                  _ _ (λ e h. cc) (λ e h. cc))))))))

module _ (S : Storage) (p : Protocol) (lawful : IsLawful S p) (status : ServerStatus) where
  -- A turn keeps the items and ends, or drops the head for its receipt.
  abbrev TurnHolds : Json → List Json → ℕ → Option Response → Turn S p → Type 0
  TurnHolds head items n response (finished store (err f)) = ⊥
  TurnHolds head items n response (finished store (ok o)) =
      (o.state.items ≡ head ∷ items) × (o.processed ≡ n)
  TurnHolds head items n response (continues store s n') =
      (n' ≡ n + 1)
      × (s.items ≡ items)
      × (load_state S p store ≡ ok s)
      × Acknowledges S p response head

  module _ (store : S.Store) (s : State) (n : ℕ) (head : Json) (items : List Json)
      (loads : load_state S p store ≡ ok s) (starts : s.items ≡ head ∷ items) where
    saved_drop-TurnHolds :
        (response : Option Response) (saved : S.Store × Result Failure State)
        → commit_state S p store s (dropped s) ≡ saved
        → Acknowledges S p response head
        → TurnHolds head items n response (saved_drop S p s status n saved)
    saved_drop-TurnHolds response (store', err f) e k = (starts, refl)
    saved_drop-TurnHolds response (store', ok s') e k =
        let law = lawful.commit_law store store' s (dropped s) s' loads (inr refl) e in
        (refl, law.1 ∙ ap tail starts, law.0, k)

    saved_hold-TurnHolds :
        (response : Option Response) (sync : SyncStatus) (code : String)
        (saved : S.Store × Result Failure State)
        → commit_state S p store s (record s { sync_status = sync }) ≡ saved
        → TurnHolds head items n response (saved_hold S p s status n code saved)
    saved_hold-TurnHolds response sync code (store', err f) e = (starts, refl)
    saved_hold-TurnHolds response sync code (store', ok s') e =
        let law =
          lawful.commit_law store store' s (record s { sync_status = sync }) s' loads (inl refl)
            e in
        (law.1 ∙ starts, refl)

    act-TurnHolds :
        (r : Response) (v : Verdict)
        → judge p status head r ≡ v
        → TurnHolds head items n (some r) (act S p store status n s true v)
    unfolding act
    act-TurnHolds r (stops status' code) e = (starts, refl)
    act-TurnHolds r acknowledged e =
        if_elim (TurnHolds head items n (some r)) (is_blocked s.sync_status) _ _
          (λ b. (starts, refl))
          (λ b.
            saved_drop-TurnHolds (some r) (commit_state S p store s (dropped s)) refl
              (judge-applied p status head r e))
    act-TurnHolds r (held sync code) e =
        saved_hold-TurnHolds (some r) sync code
          (commit_state S p store s (record s { sync_status = sync })) refl

    reload : reload_head S p store head ≡ ok (s, true)
    unfolding reload_head
    reload = rw loads (
        subst (λ is. find_head s head is ≡ ok (s, true)) (sym starts)
          (find_head-first s head items))

    received-TurnHolds :
        (response : Option Response)
        → TurnHolds head items n response (received S p store status n head response)
    unfolding received
    received-TurnHolds none =
        subst (λ l. TurnHolds head items n none (unanswered S p store status n l)) (sym loads)
          (starts, refl)
    received-TurnHolds (some r) =
        subst (λ l. TurnHolds head items n (some r) (judged S p store status n head r l))
          (sym reload) (act-TurnHolds r (judge p status head r) refl)

  prepend :
      (n : ℕ) (head : Json) (items : List Json) (a : Answer S p) (answers : List (Answer S p))
      (reply : Reply S p)
      → Acknowledges S p a.response head
      → IsDelivered S p (n + 1) items answers reply
      → IsDelivered S p n (head ∷ items) (a ∷ answers) reply
  prepend n head items a answers (returned (err f)) k h = h
  prepend n head items a answers (returned (ok o)) k (acked, e, c, all) =
      (head ∷ acked, ap (λ is. head ∷ is) e, omega arith, (k, all))
  prepend n head items a answers (waits i) k (acked, rest, e, c, all) =
      (head ∷ acked, rest, ap (λ is. head ∷ is) e, omega arith, (k, all))

  after_turn : List (Answer S p) → Turn S p → S.Store × Reply S p
  after_turn answers (finished store r) = (store, returned r)
  after_turn answers (continues store s n) = replay_loop S p store status s n answers

  replay_loop-turn :
      (store : S.Store) (s : State) (n : ℕ) (a : Answer S p) (answers : List (Answer S p))
      (t : Turn S p)
      → turn S p store status s n s.items a ≡ t
      → replay_loop S p store status s n (a ∷ answers) ≡ after_turn answers t
  unfolding replay_loop after_turn
  replay_loop-turn store s n a answers (finished store' r) e = rw (replay_loop, e) refl
  replay_loop-turn store s n a answers (continues store' s' n') e = rw (replay_loop, e) refl

  turn-empty :
      (store : S.Store) (s : State) (n : ℕ) (a : Answer S p)
      → s.items ≡ []
      → turn S p store status s n s.items a ≡ finished store (ok (outcome s status n none))
  unfolding turn
  turn-empty store s n a e = rw e refl

  turn-TurnHolds :
      (store : S.Store) (s : State) (n : ℕ) (head : Json) (items : List Json) (a : Answer S p)
      → load_state S p store ≡ ok s
      → s.items ≡ head ∷ items
      → IsQuiet S p a.others
      → TurnHolds head items n a.response (turn S p store status s n s.items a)
  unfolding turn
  turn-TurnHolds store s n head items a l e q =
      subst (λ is. TurnHolds head items n a.response (turn S p store status s n is a)) (sym e)
        (received-TurnHolds (a.others store) s n head items (q store ∙ l) e a.response)

  after_turn-IsDelivered :
      (head : Json) (items : List Json) (n : ℕ) (a : Answer S p) (answers : List (Answer S p))
      (t : Turn S p)
      → ((store : S.Store) (s : State) (m : ℕ)
          → load_state S p store ≡ ok s
          → s.items ≡ items
          → IsDelivered S p m items answers (replay_loop S p store status s m answers).1)
      → TurnHolds head items n a.response t
      → IsDelivered S p n (head ∷ items) (a ∷ answers) (after_turn answers t).1
  unfolding after_turn
  after_turn-IsDelivered head items n a answers (finished store (err f)) loop h = h
  after_turn-IsDelivered head items n a answers (finished store (ok o)) loop h =
      ([], sym h.0, omega (arith, h.1), tt)
  after_turn-IsDelivered head items n a answers (continues store s m) loop (c, e, l, k) =
      prepend n head items a answers (replay_loop S p store status s m answers).1 k (
        subst (λ m'. IsDelivered S p m' items answers (replay_loop S p store status s m answers).1)
          c (loop store s m l e))

  -- The loop delivers the items of the state that it starts with.
  pub loop-IsDelivered :
      (store : S.Store) (s : State) (n : ℕ) (items : List Json) (answers : List (Answer S p))
      → load_state S p store ≡ ok s
      → s.items ≡ items
      → AllQuiet S p answers
      → IsDelivered S p n items answers (replay_loop S p store status s n answers).1
  unfolding replay_loop after_turn
  loop-IsDelivered store s n [] [] l e q =
      subst (λ is. IsDelivered S p n [] [] (at_rest S p s status n is)) (sym e)
        ([], sym e, omega arith, tt)
  loop-IsDelivered store s n (head ∷ items) [] l e q =
      subst (λ is. IsDelivered S p n (head ∷ items) [] (at_rest S p s status n is)) (sym e)
        ([], items, refl, refl, tt)
  loop-IsDelivered store s n [] (a ∷ answers) l e q =
      subst (λ r. IsDelivered S p n [] (a ∷ answers) r.1)
        (sym (replay_loop-turn store s n a answers _ (turn-empty store s n a e)))
        ([], sym e, omega arith, tt)
  loop-IsDelivered store s n (head ∷ items) (a ∷ answers) l e q =
      subst (λ r. IsDelivered S p n (head ∷ items) (a ∷ answers) r.1)
        (sym (replay_loop-turn store s n a answers _ refl))
        (after_turn-IsDelivered head items n a answers (turn S p store status s n s.items a)
          (λ store' s' m l' e'. loop-IsDelivered store' s' m items answers l' e' q.1)
          (turn-TurnHolds store s n head items a l e q.0))
