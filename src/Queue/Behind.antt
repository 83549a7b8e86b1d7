-- ===== src/Queue/Behind.antt =====
-- Where a new item stands among the items of the browser, in public/kiosk-offline-queue-v2.js.
use jenn_shooting_operations.Prelude.{
  ℕ, ◌≡◌, ◌<◌, ◌+◌, refl, sym, ap, ◌∙◌, true, false, ◌||◌, String, str_eq, Option, none, some, List,
  [], ◌∷◌, ◌++◌, All, if_elim, ==_iff, arith,
}
use jenn_shooting_operations.Prelude.Sorting.{insert_by, sort_onto}
use jenn_shooting_operations.Json.{Json}
use jenn_shooting_operations.Queue.Values.{Protocol}
use jenn_shooting_operations.Queue.Items.{event_id, local_sequence}
use jenn_shooting_operations.Queue.State.{valid_items}
use jenn_shooting_operations.Queue.Storage.{contains}
use jenn_shooting_operations.Queue.Valid.{item_parts}
use jenn_shooting_operations.Queue.Browser.Keys.{LocalStorage, get_item}
use jenn_shooting_operations.Queue.Browser.Records.{read_markers, read_items, sort_items}
use jenn_shooting_operations.Queue.Browser.Order.{before}
use jenn_shooting_operations.Queue.Browser.Removal.{some_parts}
use jenn_shooting_operations.Queue.Browser.{key_of}
use jenn_shooting_operations.Queue.Loaded.{view}
use jenn_shooting_operations.Queue.Present.{values, read_items-values, read_items-contains}

contains-insert :
    (x : Json) (ys : List Json) (id : String)
    → contains ys id ≡ true
    → contains (insert_by before x ys) id ≡ true
unfolding contains insert_by
contains-insert x [] id h = cc
contains-insert x (y ∷ ys) id h =
    if_elim (λ (zs : List Json). contains zs id ≡ true) (before x y) _ _ (λ e. ground (arith, h))
      (λ e. ground (arith, h, contains-insert x ys id))

insert-contains :
    (x : Json) (ys : List Json) (id : String)
    → str_eq (event_id x) id ≡ true
    → contains (insert_by before x ys) id ≡ true
unfolding contains insert_by
insert-contains x [] id h = rw h refl
insert-contains x (y ∷ ys) id h =
    if_elim (λ (zs : List Json). contains zs id ≡ true) (before x y) _ _ (λ e. rw h refl)
      (λ e. ground (arith, insert-contains x ys id h))

contains-sort_onto :
    (xs acc : List Json) (id : String)
    → (contains xs id || contains acc id) ≡ true
    → contains (sort_onto before acc xs) id ≡ true
unfolding contains sort_onto
contains-sort_onto [] acc id h = h
contains-sort_onto (x ∷ xs) acc id h =
    contains-sort_onto xs (insert_by before x acc) id
      (ground (arith, h, contains-insert x acc id, insert-contains x acc id))

contains-sort_items :
    (xs : List Json) (id : String) → contains xs id ≡ true → contains (sort_items xs) id ≡ true
unfolding contains sort_items
contains-sort_items xs id h = contains-sort_onto xs [] id (rw h refl)

sort_onto-snoc :
    (xs acc : List Json) (x : Json)
    → sort_onto before acc (xs ++ x ∷ []) ≡ insert_by before x (sort_onto before acc xs)
unfolding sort_onto
sort_onto-snoc [] acc x = refl
sort_onto-snoc (y ∷ xs) acc x = sort_onto-snoc xs (insert_by before y acc) x

insert-last :
    (x : Json) (ys : List Json)
    → All (λ y. before x y ≡ false) ys
    → insert_by before x ys ≡ ys ++ x ∷ []
unfolding insert_by
insert-last x [] h = refl
insert-last x (y ∷ ys) h = rw (h.0) (ap (λ zs. y ∷ zs) (insert-last x ys h.1))

prior_below :
    (p : Protocol) (seen : List String) (prior next : ℕ) (is : List Json)
    → valid_items p seen (some prior) next is ≡ true
    → prior < next
unfolding valid_items
prior_below p seen prior next [] h = let e = (==_iff next (prior + 1)).0 h in omega (arith, e)
prior_below p seen prior next (i ∷ is) h =
    let (_, _, follows, rest) = item_parts p seen (some prior) next i is h in
    let later = prior_below p (event_id i ∷ seen) (local_sequence i) next is rest in
    let e = (==_iff (local_sequence i) (prior + 1)).0 follows in omega (arith, e, later)

-- A new item has a greater number than those that wait.
none_after :
    (p : Protocol) (seen : List String) (prior : Option ℕ) (next : ℕ) (is : List Json) (item : Json)
    → local_sequence item ≡ next
    → valid_items p seen prior next is ≡ true
    → All (λ i. before item i ≡ false) is
none_after p seen prior next [] item e h = tt
none_after p seen prior next (i ∷ is) item e h =
    let (_, _, _, rest) = item_parts p seen prior next i is h in
    let later = prior_below p (event_id i ∷ seen) (local_sequence i) next is rest in
    (
      ground (arith, e, later),
      none_after p (event_id i ∷ seen) (some (local_sequence i)) next is item e rest,
    )

pub sort_items-new :
    (p : Protocol) (next : ℕ) (xs : List Json) (item : Json)
    → local_sequence item ≡ next
    → valid_items p [] none next (sort_items xs) ≡ true
    → sort_items (xs ++ item ∷ []) ≡ sort_items xs ++ item ∷ []
unfolding sort_items
sort_items-new p next xs item e h =
    sort_onto-snoc xs [] item
    ∙ insert-last item (sort_onto before [] xs)
        (none_after p [] none next (sort_onto before [] xs) item e h)

-- The items that are read are the documents at their keys, in their order.
pub view-values :
    (p : Protocol) (store : LocalStorage) (items : List Json)
    → view p store ≡ some items
    → sort_items (values store) ≡ items
unfolding view
view-values p store items h =
    let (markers, m, h1) = some_parts (read_markers [] store) _ h in
    let (found, r, h2) = some_parts (read_items p markers store) _ h1 in
    let e : sort_items found ≡ items = cc in
    ap sort_items (read_items-values p markers store found r) ∙ e

pub view-contains :
    (p : Protocol) (store : LocalStorage) (items : List Json) (item : Json) (found : Option Json)
    → view p store ≡ some items
    → get_item (key_of item) store ≡ some found
    → contains items (event_id item) ≡ true
unfolding view
view-contains p store items item v h g =
    let (markers, m, h1) = some_parts (read_markers [] store) _ h in
    let (found, r, h2) = some_parts (read_items p markers store) _ h1 in
    let e : sort_items found ≡ items = cc in
    ap (λ is. contains is (event_id item)) (sym e)
    ∙ contains-sort_items found (event_id item)
        (read_items-contains p markers (local_sequence item) (event_id item) v store found r g)
