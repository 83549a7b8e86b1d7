-- ===== src/Queue/Loaded.antt =====
-- What the storage of the browser loads, and what leaves it as it is.
use mathlib.Core.Path.{subst}
use jenn_shooting_operations.Prelude.{
  ◌≡◌, refl, sym, ap, ◌∙◌, Bool, true, false, ◌&&◌, Option, none, some, List, [], ◌∷◌, if_elim,
}
use jenn_shooting_operations.Prelude.Options.{◌>>=◌}
use jenn_shooting_operations.Json.{Json}
use jenn_shooting_operations.Queue.Values.{Protocol}
use jenn_shooting_operations.Queue.Items.{event_id}
use jenn_shooting_operations.Queue.State.{
  State, SyncStatus, Stored, missing, malformed, stored, initial_state, is_blocked,
}
use jenn_shooting_operations.Queue.Browser.Keys.{
  Key, meta_key, terminal_key, LocalStorage, get_item, put_item,
}
use jenn_shooting_operations.Queue.Browser.Records.{
  Markers, Meta, read_markers, read_items, sort_items, parse_meta, read_terminal, assemble,
  load_from_records, terminal_json,
}
use jenn_shooting_operations.Queue.Browser.Frames.{
  is_item, is_sequence, kept, Apart, kept-put_item, bind_cong, read_markers-kept, read_items-kept,
  meta-Apart, terminal-Apart,
}
use jenn_shooting_operations.Queue.Browser.Removal.{some_parts}
use jenn_shooting_operations.Queue.Browser.{
  set_item, then_do, first_id, same_id, mark, mark_terminal, write_meta, reread, reloaded, finish,
  or_initial,
}

abbrev pub items_of : Stored → List Json
items_of missing = []
items_of malformed = []
items_of (stored s) = s.items

-- The items that are read, in their order.
unfoldable pub view : Protocol → LocalStorage → Option (List Json)
view p store = do
  markers ← read_markers [] store
  items ← read_items p markers store
  some (sort_items items)

assemble-items :
    (markers : Markers) (items : List Json) (meta : Option Meta) (terminal : Option SyncStatus)
    → items_of (assemble markers items meta terminal) ≡ items
unfolding assemble
assemble-items [] [] none terminal = refl
assemble-items [] [] (some m) terminal = refl
assemble-items [] (i ∷ is) meta terminal = refl
assemble-items (m ∷ ms) items meta terminal = refl

pub view-read :
    (p : Protocol) (store : LocalStorage) (markers : Markers) (items : List Json)
    → read_markers [] store ≡ some markers
    → read_items p markers store ≡ some items
    → view p store ≡ some (sort_items items)
unfolding view
view-read p store markers items e f = rw (e, f) refl

pub load-view :
    (p : Protocol) (store : LocalStorage) (l : Stored)
    → load_from_records p store ≡ some l
    → view p store ≡ some (items_of l)
unfolding load_from_records view
load-view p store l h =
    let (markers, e1, h1) = some_parts (read_markers [] store) _ h in
    let (items, e2, h2) = some_parts (read_items p markers store) _ h1 in
    let (meta, e3, h3) = some_parts (parse_meta (get_item meta_key store)) _ h2 in
    let (terminal, e4, h4) = some_parts (read_terminal (sort_items items) store) _ h3 in
    let e : assemble markers (sort_items items) meta terminal ≡ l = cc in
    let read : view p store ≡ some (sort_items items) = view-read p store markers items e1 e2 in
    read ∙ ap some (sym (assemble-items markers (sort_items items) meta terminal) ∙ ap items_of e)

-- The same records of items and numbers are read alike.
pub view-kept :
    (p : Protocol) (store other : LocalStorage)
    → kept is_sequence store ≡ kept is_sequence other
    → kept is_item store ≡ kept is_item other
    → view p store ≡ view p other
unfolding view
view-kept p store other e f =
    let m =
      read_markers-kept [] store ∙ ap (read_markers []) e ∙ sym (read_markers-kept [] other) in
    ap (λ (r : Option Markers). r >>= λ ms. read_items p ms store >>= λ is. some (sort_items is)) m
    ∙ bind_cong (read_markers [] other) _ _ (λ ms.
      ap (λ (r : Option (List Json)). r >>= λ is. some (sort_items is))
        (read_items-kept p ms store ∙ ap (read_items p ms) f ∙ sym (read_items-kept p ms other)))

module _ (fits : LocalStorage → Bool) (p : Protocol) where
  -- The items are those of another storage.
  abbrev Frame : LocalStorage → LocalStorage × Bool → Type 0
  Frame store r = view p r.0 ≡ view p store

  set_item-Frame :
      (key : Key) (value : Json) (store : LocalStorage)
      → Apart is_sequence key
      → is_sequence key ≡ false
      → Apart is_item key
      → is_item key ≡ false
      → Frame store (set_item fits key value store)
  unfolding set_item
  set_item-Frame key value store a e b f =
      if_elim (Frame store) (fits (put_item key (some value) store)) _ _
        (λ h.
          view-kept p (put_item key (some value) store) store
            (kept-put_item is_sequence key (some value) store a e)
            (kept-put_item is_item key (some value) store b f))
        (λ h. refl)

  write_meta-Frame :
      (next current : State) (store : LocalStorage)
      → Frame store (write_meta fits next current store)
  unfolding write_meta
  write_meta-Frame next current store =
      set_item-Frame meta_key _ store (meta-Apart is_sequence refl) refl (meta-Apart is_item refl)
        refl

  mark-Frame :
      (head : Json) (status : SyncStatus) (store : LocalStorage) (old : Option (Option SyncStatus))
      → Frame store (mark fits head status store old)
  mark-Frame head status store none = refl
  mark-Frame head status store (some (some old)) = refl
  mark-Frame head status store (some none) =
      set_item-Frame (terminal_key (event_id head)) (terminal_json head status) store
        (terminal-Apart is_sequence (event_id head) (λ x. refl)) refl
        (terminal-Apart is_item (event_id head) (λ x. refl)) refl

  mark_terminal-Frame :
      (next : State) (items : List Json) (store : LocalStorage)
      → Frame store (mark_terminal fits next items store)
  mark_terminal-Frame next [] store = refl
  mark_terminal-Frame next (head ∷ items) store =
      if_elim (Frame store)
        (is_blocked next.sync_status
          && same_id fits (first_id fits (head ∷ items)) (first_id fits next.items))
        _ _ (λ e. mark-Frame head next.sync_status store (read_terminal (head ∷ items) store))
        (λ e. refl)

  then_do-Frame :
      (store : LocalStorage) (r : LocalStorage × Bool) (step : LocalStorage → LocalStorage × Bool)
      → Frame store r
      → ((t : LocalStorage) → Frame t (step t))
      → Frame store (then_do fits r step)
  then_do-Frame store (t, true) step h k = k t ∙ h
  then_do-Frame store (t, false) step h k = h

  -- What is answered is what is loaded then, with the items as they were.
  abbrev pub Reloads : LocalStorage → LocalStorage → Stored → Type 0
  Reloads store store' x =
      (l : Stored) × (load_from_records p store' ≡ some l)
      × (or_initial fits l ≡ x)
      × (view p store' ≡ view p store)

  loaded-Reloads :
      (store store' : LocalStorage) (x : Stored) (t : LocalStorage)
      → Frame store (t, true)
      → (o : Option Stored) → load_from_records p t ≡ o
      → reread fits t o ≡ (store', some x)
      → Reloads store store' x
  loaded-Reloads store store' x t f none e h =
      let k : none ≡ some x = ap (λ (z : LocalStorage × Option Stored). z.1) h in cc
  loaded-Reloads store store' x t f (some s) e h =
      let m : t ≡ store' = ap (λ (z : LocalStorage × Option Stored). z.0) h in
      let n : some (or_initial fits s) ≡ some x =
        ap (λ (z : LocalStorage × Option Stored). z.1) h in
      let k : or_initial fits s ≡ x = cc in subst (λ u. Reloads store u x) m (s, e, k, f)

  reloaded-Reloads :
      (store store' : LocalStorage) (x : Stored) (r : LocalStorage × Bool)
      → Frame store r
      → reloaded fits p r ≡ (store', some x)
      → Reloads store store' x
  reloaded-Reloads store store' x (t, false) f h =
      let k : none ≡ some x = ap (λ (z : LocalStorage × Option Stored). z.1) h in cc
  reloaded-Reloads store store' x (t, true) f h =
      loaded-Reloads store store' x t f (load_from_records p t) refl h

  pub finish-Reloads :
      (store store' : LocalStorage) (next : State) (x : Stored) (o : Option Stored)
      → finish fits p next store o ≡ (store', some x)
      → Reloads store store' x
  unfolding finish
  finish-Reloads store store' next x none h =
      let k : none ≡ some x = ap (λ (z : LocalStorage × Option Stored). z.1) h in cc
  finish-Reloads store store' next x (some malformed) h =
      let k : none ≡ some x = ap (λ (z : LocalStorage × Option Stored). z.1) h in cc
  finish-Reloads store store' next x (some missing) h =
      reloaded-Reloads store store' x _ (write_meta-Frame next initial_state store) h
  finish-Reloads store store' next x (some (stored current)) h =
      reloaded-Reloads store store' x _
        (then_do-Frame store (mark_terminal fits next current.items store)
          (write_meta fits next current) (mark_terminal-Frame next current.items store)
          (write_meta-Frame next current))
        h
