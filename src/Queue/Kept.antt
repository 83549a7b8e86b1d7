-- ===== src/Queue/Kept.antt =====
-- `enqueue` of public/kiosk-offline-queue-v2.js over the storage of the browser.
use jenn_shooting_operations.Prelude.{
  ℕ, ◌≡◌, refl, sym, ap, ◌∙◌, Bool, true, false, Option, none, some, List, [], ◌∷◌, ◌++◌, inl, inr,
}
use jenn_shooting_operations.Prelude.Results.{Result, ok, err, ◌>>=◌}
use jenn_shooting_operations.Json.{Json}
use jenn_shooting_operations.Queue.Values.{Protocol}
use jenn_shooting_operations.Queue.Items.{event_id, local_sequence}
use jenn_shooting_operations.Queue.State.{State, Stored, valid_items, validate_queue_state, Failure}
use jenn_shooting_operations.Queue.Storage.{contains, load_state, commit_state}
use jenn_shooting_operations.Queue.Enqueue.{appended, admissible, enqueue, keep}
use jenn_shooting_operations.Queue.Valid.{state_parts, admissible-parts}
use jenn_shooting_operations.Queue.Browser.Keys.{LocalStorage}
use jenn_shooting_operations.Queue.Browser.Records.{sort_items, load_from_records}
use jenn_shooting_operations.Queue.Browser.{finish, with_items, browser_commit, browser_storage}
use jenn_shooting_operations.Queue.Loaded.{items_of, view, load-view}
use jenn_shooting_operations.Queue.Removed.{changed}
use jenn_shooting_operations.Queue.Present.{values}
use jenn_shooting_operations.Queue.Behind.{view-values, view-contains, sort_items-new}
use jenn_shooting_operations.Queue.Added.{Adds, add_item-Adds, changed-added}
use jenn_shooting_operations.Queue.Lawful.{
  loaded-view, commit_state-parts, committed-parts, finished-law,
}

module _ (fits : LocalStorage → Bool) (p : Protocol) where
  -- A new item is read behind those that were there.
  added-view :
      (store t : LocalStorage) (items read : List Json) (item : Json) (next : ℕ)
      → view p store ≡ some items
      → valid_items p [] none next items ≡ true
      → local_sequence item ≡ next
      → contains items (event_id item) ≡ false
      → view p t ≡ some read
      → Adds fits item store t
      → read ≡ items ++ item ∷ []
  added-view store t items read item next v h n c w (inl e) =
      let sorted = view-values p store items v in
      let valid : valid_items p [] none next (sort_items (values store)) ≡ true =
        ap (valid_items p [] none next) sorted ∙ h in
      sym (view-values p t read w)
      ∙ ap sort_items e
      ∙ sort_items-new p next (values store) item n valid
      ∙ ap (λ is. is ++ item ∷ []) sorted
  added-view store t items read item next v h n c w (inr (found, g, e)) =
      let same : read ≡ items =
        sym (view-values p t read w) ∙ ap sort_items e ∙ view-values p store items v in
      let there : contains items (event_id item) ≡ true =
        ap (λ is. contains is (event_id item)) (sym same) ∙ view-contains p t read item found w g in
      cc

  finish-loads :
      (next : State) (t store' : LocalStorage) (x : Stored) (o : Option Stored)
      → finish fits p next t o ≡ (store', some x)
      → (l : Stored) × (o ≡ some l)
  unfolding finish
  finish-loads next t store' x none h =
      let k : none ≡ some x = ap (λ (z : LocalStorage × Option Stored). z.1) h in cc
  finish-loads next t store' x (some l) h = (l, refl)

  with_items-parts :
      (next : State) (r : LocalStorage × Bool) (store' : LocalStorage) (x : Stored)
      → with_items fits p next r ≡ (store', some x)
      → (t : LocalStorage) × (r ≡ (t, true))
        × (finish fits p next t (load_from_records p t) ≡ (store', some x))
  with_items-parts next (t, true) store' x h = (t, refl, h)
  with_items-parts next (t, false) store' x h =
      let k : none ≡ some x = ap (λ (z : LocalStorage × Option Stored). z.1) h in cc

  browser_commit-with_items :
      (store : LocalStorage) (base next : State)
      → validate_queue_state p base ≡ true
      → validate_queue_state p next ≡ true
      → browser_commit fits p store base next
        ≡ with_items fits p next (changed fits base.items next.items store)
  unfolding browser_commit
  browser_commit-with_items store base next b n = rw (b, n) refl

  committed-Keeps :
      (store store' : LocalStorage) (base s : State) (item : Json)
      → load_state (browser_storage fits p) p store ≡ ok base
      → admissible p base item ≡ ok base
      → commit_state (browser_storage fits p) p store base (appended base item) ≡ (store', ok s)
      → (load_state (browser_storage fits p) p store' ≡ ok s) × (s.items ≡ base.items ++ item ∷ [])
  unfolding load_state
  committed-Keeps store store' base s item h a e =
      let next = appended base item in
      let (v, valid) = loaded-view p store base (load_from_records p store) refl h in
      let (_, _, _, valid_base) = state_parts p base valid in
      let (_, _, number, new, _) = admissible-parts p base base item a in
      let (c0, c1, valid_next) =
        commit_state-parts (browser_storage fits p) p store store' base next s e in
      let (x, f, m) = committed-parts p _ s c1 in
      let (t, r, g) =
        with_items-parts next _ store' x
          (sym (browser_commit-with_items store base next valid valid_next) ∙ (λ i. (c0 i, f i))) in
      let adds =
        add_item-Adds fits item store t (sym (changed-added fits base.items item store new) ∙ r) in
      let (l, o) = finish-loads next t store' x (load_from_records p t) g in
      let w = load-view p t l o in
      let read =
        added-view store t base.items (items_of l) item base.next_local_sequence v valid_base number
          new w adds in
      finished-law fits p t store' next s x (w ∙ ap some read) g m

  kept-Keeps :
      (store store' : LocalStorage) (base s : State) (item : Json) (r : Result Failure State)
      → load_state (browser_storage fits p) p store ≡ ok base
      → admissible p base item ≡ r
      → keep (browser_storage fits p) p store item r ≡ (store', ok s)
      → (load_state (browser_storage fits p) p store' ≡ ok s) × (s.items ≡ base.items ++ item ∷ [])
  kept-Keeps store store' base s item (err f) h a e =
      let k : err f ≡ ok s = ap (λ (z : LocalStorage × Result Failure State). z.1) e in cc
  kept-Keeps store store' base s item (ok b) h a e =
      let same = (admissible-parts p base b item a).0 in
      committed-Keeps store store' base s item h (a ∙ ap ok (sym same))
        (ap (λ c. commit_state (browser_storage fits p) p store c (appended c item)) same ∙ e)

  -- Where the queue in the storage of the browser loads a state and then accepts an item, what it loads
  -- next is what it answered, with the item behind those that waited, whatever else the storage holds.
  pub enqueue-load_state :
      (store store' : LocalStorage) (base s : State) (item : Json)
      → load_state (browser_storage fits p) p store ≡ ok base
      → enqueue (browser_storage fits p) p store item ≡ (store', ok s)
      → (load_state (browser_storage fits p) p store' ≡ ok s) × (s.items ≡ base.items ++ item ∷ [])
  unfolding enqueue
  enqueue-load_state store store' base s item h e =
      kept-Keeps store store' base s item (admissible p base item) h refl (
        ap (λ r. keep (browser_storage fits p) p store item (r >>= λ b. admissible p b item))
          (sym h)
        ∙ e)
