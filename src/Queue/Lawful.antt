-- ===== src/Queue/Lawful.antt =====
-- Commits to the storage of the browser, held against what the queue of public/kiosk-offline-queue-v2.js
-- relies on.
use jenn_shooting_operations.Prelude.{
  ◌≡◌, ◌⊎◌, refl, sym, ap, ◌∙◌, Bool, true, Option, none, some, List, if_elim,
}
use jenn_shooting_operations.Prelude.Results.{Result, ok, err}
use jenn_shooting_operations.Json.{Json}
use jenn_shooting_operations.Queue.Values.{Protocol}
use jenn_shooting_operations.Queue.State.{
  State, Stored, missing, malformed, stored, initial_state, validate_queue_state, valid_items,
  valid_cache, status_fits, Failure, queue_state_invalid,
}
use jenn_shooting_operations.Queue.Storage.{
  Storage, load_state, commit_state, admit, loaded, committed,
}
use jenn_shooting_operations.Queue.Replay.{tail}
use jenn_shooting_operations.Queue.Delivery.{IsLawful}
use jenn_shooting_operations.Queue.Valid.{state_parts}
use jenn_shooting_operations.Queue.Browser.Keys.{LocalStorage}
use jenn_shooting_operations.Queue.Browser.Records.{load_from_records}
use jenn_shooting_operations.Queue.Browser.{finish, or_initial, browser_commit, browser_storage}
use jenn_shooting_operations.Queue.Loaded.{items_of, view, load-view, finish-Reloads}
use jenn_shooting_operations.Queue.Removed.{changed, changed-Changes}

pub admit-parts :
    (p : Protocol) (s t : State)
    → admit p (stored s) ≡ ok t
    → (validate_queue_state p s ≡ true) × (s ≡ t)
unfolding admit
admit-parts p s t h =
    if_elim (λ (r : Result Failure State). r ≡ ok t → (validate_queue_state p s ≡ true) × (s ≡ t))
      (validate_queue_state p s) _ _ (λ v e. (v, cc)) (λ v e. cc) h

initial_state-IsValid : (p : Protocol) → validate_queue_state p initial_state ≡ true
unfolding validate_queue_state valid_items valid_cache status_fits
initial_state-IsValid p = refl

-- What is loaded is valid, and has the items that are read.
pub loaded-view :
    (p : Protocol) (store : LocalStorage) (base : State) (o : Option Stored)
    → load_from_records p store ≡ o
    → loaded p o ≡ ok base
    → (view p store ≡ some base.items) × (validate_queue_state p base ≡ true)
loaded-view p store base none e h = cc
loaded-view p store base (some missing) e h =
    let same : initial_state ≡ base = cc in
    (
      load-view p store missing e ∙ ap (λ (s : State). some s.items) same,
      ap (validate_queue_state p) (sym same) ∙ initial_state-IsValid p,
    )
loaded-view p store base (some malformed) e h = cc
loaded-view p store base (some (stored s)) e h =
    let (v, same) = admit-parts p s base h in
    (
      load-view p store (stored s) e ∙ ap (λ (t : State). some t.items) same,
      ap (validate_queue_state p) (sym same) ∙ v,
    )

pub commit_state-parts :
    (S : Storage) (p : Protocol) (store store' : S.Store) (base next s : State)
    → commit_state S p store base next ≡ (store', ok s)
    → ((S.commit store base next).0 ≡ store')
      × (committed p (S.commit store base next).1 ≡ ok s)
      × (validate_queue_state p next ≡ true)
unfolding commit_state
commit_state-parts S p store store' base next s h =
    if_elim
      (λ (r : S.Store × Result Failure State).
        r ≡ (store', ok s)
        → ((S.commit store base next).0 ≡ store')
          × (committed p (S.commit store base next).1 ≡ ok s)
          × (validate_queue_state p next ≡ true))
      (validate_queue_state p next) _ _ (λ v e. (ap (λ r. r.0) e, ap (λ r. r.1) e, v))
      (λ v e. let k : err queue_state_invalid ≡ ok s = ap (λ r. r.1) e in cc) h

pub committed-parts :
    (p : Protocol) (o : Option Stored) (s : State)
    → committed p o ≡ ok s
    → (x : Stored) × (o ≡ some x) × (admit p x ≡ ok s)
committed-parts p none s h = cc
committed-parts p (some x) s h = (x, refl, h)

reloaded-items :
    (fits : LocalStorage → Bool) (p : Protocol) (l : Stored) (s : State)
    → admit p (or_initial fits l) ≡ ok s
    → (loaded p (some l) ≡ ok s) × (s.items ≡ items_of l)
unfolding admit
reloaded-items fits p missing s h =
    let (v, same) = admit-parts p initial_state s h in
    (ap ok same, ap (λ (t : State). t.items) (sym same))
reloaded-items fits p malformed s h = cc
reloaded-items fits p (stored t) s h =
    let (v, same) = admit-parts p t s h in (h, ap (λ (u : State). u.items) (sym same))

-- After the items have changed there are the marks and the meta record to write.
browser_commit-finish :
    (fits : LocalStorage → Bool) (p : Protocol) (store t : LocalStorage) (base next : State)
    → validate_queue_state p base ≡ true
    → validate_queue_state p next ≡ true
    → changed fits base.items next.items store ≡ (t, true)
    → browser_commit fits p store base next ≡ finish fits p next t (load_from_records p t)
unfolding browser_commit
browser_commit-finish fits p store t base next b n c = rw (b, n, c) refl

some_items : (s t : List Json) → some s ≡ some t → s ≡ t
some_items s t h = cc

pub finished-law :
    (fits : LocalStorage → Bool) (p : Protocol) (store store' : LocalStorage) (next s : State)
    (x : Stored)
    → view p store ≡ some next.items
    → finish fits p next store (load_from_records p store) ≡ (store', some x)
    → admit p x ≡ ok s
    → (load_state (browser_storage fits p) p store' ≡ ok s) × (s.items ≡ next.items)
unfolding load_state
finished-law fits p store store' next s x v h a =
    let (l, e, i, w) = finish-Reloads fits p store store' next x (load_from_records p store) h in
    let (k, items) = reloaded-items fits p l s (ap (admit p) i ∙ a) in
    let read : items_of l ≡ next.items =
      some_items (items_of l) next.items (sym (load-view p store' l e) ∙ w ∙ v) in
    (ap (loaded p) e ∙ k, items ∙ read)

browser_commit-law :
    (fits : LocalStorage → Bool) (p : Protocol) (store store' : LocalStorage) (base next s : State)
    → load_state (browser_storage fits p) p store ≡ ok base
    → (next.items ≡ base.items) ⊎ (next.items ≡ tail base.items)
    → commit_state (browser_storage fits p) p store base next ≡ (store', ok s)
    → (load_state (browser_storage fits p) p store' ≡ ok s) × (s.items ≡ next.items)
unfolding load_state
browser_commit-law fits p store store' base next s h items e =
    let (v, valid) = loaded-view p store base (load_from_records p store) refl h in
    let (_, _, _, valid_base) = state_parts p base valid in
    let (c0, c1, valid_next) =
      commit_state-parts (browser_storage fits p) p store store' base next s e in
    let (x, f, a) = committed-parts p _ s c1 in
    let (t, change, w) =
      changed-Changes fits p store base.next_local_sequence base.items next.items v valid_base
        items in
    let done = browser_commit-finish fits p store t base next valid valid_next change in
    finished-law fits p t store' next s x w (sym done ∙ (λ i. (c0 i, f i))) a

-- What the queue commits to the storage of the browser, over the state that it has loaded, with the same
-- items or all but the first, is what it loads next, and has these items: where no write throws, however
-- full the storage is.
pub browser_storage-IsLawful :
    (fits : LocalStorage → Bool) (p : Protocol) → IsLawful (browser_storage fits p) p
browser_storage-IsLawful fits p = record {
  commit_law = λ store store' base next s h items e.
      browser_commit-law fits p store store' base next s h items e;
}
