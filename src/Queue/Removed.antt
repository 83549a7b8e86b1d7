-- ===== src/Queue/Removed.antt =====
-- What a commit to the storage of the browser removes and adds, in public/kiosk-offline-queue-v2.js.
use mathlib.Core.Path.{subst}
use jenn_shooting_operations.Prelude.{
  ℕ, ◌≡◌, ◌⊎◌, inl, inr, refl, sym, ap, ◌∙◌, Bool, true, false, ◌||◌, String, str_eq, eq_iff,
  Option, none, some, List, [], ◌∷◌,
}
use jenn_shooting_operations.Json.{Json, has}
use jenn_shooting_operations.Queue.Values.{Protocol}
use jenn_shooting_operations.Queue.Items.{event_id, local_sequence}
use jenn_shooting_operations.Queue.State.{valid_items}
use jenn_shooting_operations.Queue.Replay.{tail}
use jenn_shooting_operations.Queue.Valid.{item_parts}
use jenn_shooting_operations.Queue.Browser.Keys.{terminal_key, LocalStorage, remove_item}
use jenn_shooting_operations.Queue.Browser.Records.{read_markers, read_items, sort_items}
use jenn_shooting_operations.Queue.Browser.Frames.{
  is_item, is_sequence, kept-remove_item, read_markers-kept, terminal-Apart, item-Apart,
}
use jenn_shooting_operations.Queue.Browser.Order.{only, sort_items-only}
use jenn_shooting_operations.Queue.Browser.Removal.{
  some_parts, different, is_other, read_items-remove_item, only-head,
}
use jenn_shooting_operations.Queue.Browser.{event_ids, remove_gone, add_new, key_of}
use jenn_shooting_operations.Queue.Loaded.{view, view-read, view-kept}

has-event_ids :
    (items : List Json) (seen : List String) (p : Protocol) (prior : Option ℕ) (next : ℕ)
    (id : String)
    → has seen id ≡ true
    → valid_items p seen prior next items ≡ true
    → has (event_ids items) id ≡ false
unfolding has event_ids
has-event_ids [] seen p prior next id k h = refl
has-event_ids (i ∷ is) seen p prior next id k h =
    let (valid, fresh, follows, rest) = item_parts p seen prior next i is h in
    let other = different seen (event_id i) id fresh k in
    rw other (
      has-event_ids is (event_id i ∷ seen) p (some (local_sequence i)) next id (rw (other, k) refl)
        rest)

-- All of them are among the identifiers.
abbrev pub AllIn : List String → List Json → Type 0
AllIn ids [] = Unit
AllIn ids (i ∷ is) = (has ids (event_id i) ≡ true) × AllIn ids is

or_true : (b : Bool) → (b || true) ≡ true
or_true true = refl
or_true false = refl

pub AllIn-cons :
    (id : String) (ids : List String) (items : List Json) → AllIn ids items → AllIn (id ∷ ids) items
unfolding has
AllIn-cons id ids [] h = tt
AllIn-cons id ids (i ∷ is) h =
    (rw (h.0) (or_true (str_eq id (event_id i))), AllIn-cons id ids is h.1)

pub AllIn-self : (items : List Json) → AllIn (event_ids items) items
unfolding has event_ids
AllIn-self [] = tt
AllIn-self (i ∷ is) = (
  rw ((eq_iff (event_id i) (event_id i)).1 refl) refl,
  AllIn-cons (event_id i) (event_ids is) is (AllIn-self is),
)

AllIn-tail : (head : Json) (rest : List Json) → AllIn (event_ids (head ∷ rest)) rest
unfolding event_ids
AllIn-tail head rest = AllIn-cons (event_id head) (event_ids rest) rest (AllIn-self rest)

has_first : (id : String) → has (id ∷ []) id ≡ true
unfolding has
has_first id = rw ((eq_iff id id).1 refl) refl

pub remove_gone-none :
    (ids : List String) (items : List Json) (store : LocalStorage)
    → AllIn ids items
    → remove_gone ids items store ≡ store
unfolding remove_gone
remove_gone-none ids [] store h = refl
remove_gone-none ids (i ∷ is) store h = rw (h.0) (remove_gone-none ids is store h.1)

pub add_new-none :
    (fits : LocalStorage → Bool) (ids : List String) (items : List Json) (store : LocalStorage)
    → AllIn ids items
    → add_new fits ids items store ≡ (store, true)
unfolding add_new
add_new-none fits ids [] store h = refl
add_new-none fits ids (i ∷ is) store h = rw (h.0) (add_new-none fits ids is store h.1)

abbrev removed : Json → LocalStorage → LocalStorage
removed head store = remove_item (terminal_key (event_id head)) (remove_item (key_of head) store)

-- With the records of the head gone, the others are read.
view-removed :
    (p : Protocol) (store : LocalStorage) (next : ℕ) (head : Json) (rest : List Json)
    → view p store ≡ some (head ∷ rest)
    → valid_items p [] none next (head ∷ rest) ≡ true
    → view p (removed head store) ≡ some rest
unfolding view
view-removed p store next head rest v h =
    let item = key_of head in
    let once = remove_item item store in
    let mark = terminal_key (event_id head) in
    let (markers, m, v1) = some_parts (read_markers [] store) _ v in
    let (items, r, v2) = some_parts (read_items p markers store) _ v1 in
    let sorted : sort_items items ≡ head ∷ rest = cc in
    let others = only (is_other (local_sequence head) (event_id head)) in
    let marked : read_markers [] once ≡ some markers =
      read_markers-kept [] once
      ∙ ap (read_markers []) (
          kept-remove_item is_sequence item store
            (item-Apart (local_sequence head) (event_id head)))
      ∙ sym (read_markers-kept [] store)
      ∙ m in
    let left : read_items p markers once ≡ some (others items) =
      read_items-remove_item p markers (local_sequence head) (event_id head) store items r in
    view-kept p (remove_item mark once) once
      (kept-remove_item is_sequence mark once
        (terminal-Apart is_sequence (event_id head) (λ x. refl)))
      (kept-remove_item is_item mark once (terminal-Apart is_item (event_id head) (λ x. refl)))
    ∙ view-read p once markers (others items) marked left
    ∙ ap some (
        sort_items-only (is_other (local_sequence head) (event_id head)) items
        ∙ ap others sorted
        ∙ only-head p next head rest h)

remove_gone-head :
    (head : Json) (rest : List Json) (store : LocalStorage)
    → has (event_ids rest) (event_id head) ≡ false
    → remove_gone (event_ids rest) (head ∷ rest) store ≡ removed head store
unfolding remove_gone
remove_gone-head head rest store h =
    rw h (remove_gone-none (event_ids rest) rest (removed head store) (AllIn-self rest))

abbrev pub changed :
    (LocalStorage → Bool) → List Json → List Json → LocalStorage → LocalStorage × Bool
changed fits base next store =
    add_new fits (event_ids base) next (remove_gone (event_ids next) base store)

-- Then the items that are read are those of the next state.
abbrev pub Changes :
    (LocalStorage → Bool) → Protocol → LocalStorage → List Json → List Json → Type 0
Changes fits p store base next =
    (t : LocalStorage) × (changed fits base next store ≡ (t, true)) × (view p t ≡ some next)

changed-same :
    (fits : LocalStorage → Bool) (p : Protocol) (store : LocalStorage) (base : List Json)
    → view p store ≡ some base
    → Changes fits p store base base
changed-same fits p store base v = (
  store,
  rw (remove_gone-none (event_ids base) base store (AllIn-self base))
      (add_new-none fits (event_ids base) base store (AllIn-self base)),
  v,
)

changed-tail :
    (fits : LocalStorage → Bool) (p : Protocol) (store : LocalStorage) (n : ℕ) (base : List Json)
    → view p store ≡ some base
    → valid_items p [] none n base ≡ true
    → Changes fits p store base (tail base)
changed-tail fits p store n [] v h = changed-same fits p store [] v
changed-tail fits p store n (head ∷ rest) v h =
    let (_, _, _, later) = item_parts p [] none n head rest h in
    let seen : has (event_id head ∷ []) (event_id head) ≡ true = has_first (event_id head) in
    let unseen =
      has-event_ids rest (event_id head ∷ []) p (some (local_sequence head)) n (event_id head) seen
        later in
    (
      removed head store,
      rw (remove_gone-head head rest store unseen) (
          add_new-none fits (event_ids (head ∷ rest)) rest (removed head store)
            (AllIn-tail head rest)),
      view-removed p store n head rest v h,
    )

pub changed-Changes :
    (fits : LocalStorage → Bool) (p : Protocol) (store : LocalStorage) (n : ℕ)
    (base next : List Json)
    → view p store ≡ some base
    → valid_items p [] none n base ≡ true
    → (next ≡ base) ⊎ (next ≡ tail base)
    → Changes fits p store base next
changed-Changes fits p store n base next v h (inl e) =
    subst (Changes fits p store base) (sym e) (changed-same fits p store base v)
changed-Changes fits p store n base next v h (inr e) =
    subst (Changes fits p store base) (sym e) (changed-tail fits p store n base v h)
