-- ===== src/Queue/Present.antt =====
-- The items in the storage of the browser when a record is set, in public/kiosk-offline-queue-v2.js.
use mathlib.Core.Path.{subst}
use mathlib.Core.List.{append_assoc}
use jenn_shooting_operations.Prelude.{
  ℕ, ◌≡◌, refl, sym, ap, ◌∙◌, Bool, true, false, ◌&&◌, ◌||◌, String, str_eq, Option, none, some,
  List, [], ◌∷◌, ◌++◌, if_elim, ◌==◌,
}
use jenn_shooting_operations.Json.{Json}
use jenn_shooting_operations.Queue.Values.{Protocol}
use jenn_shooting_operations.Queue.Items.{event_id}
use jenn_shooting_operations.Queue.Storage.{contains}
use jenn_shooting_operations.Queue.Browser.Keys.{
  Key, meta_key, item_key, sequence_key, terminal_key, odd_item_key, odd_sequence_key, foreign_key,
  same_key, LocalStorage, get_item, put_item,
}
use jenn_shooting_operations.Queue.Browser.Records.{Markers, read_item, read_items}
use jenn_shooting_operations.Queue.Browser.Frames.{is_item, Apart, not_kept}
use jenn_shooting_operations.Queue.Browser.Removal.{some_parts, read_item-key, read_item-value}

abbrev value_of : Key → Option Json → List Json
value_of (item_key n id) (some item) = item ∷ []
value_of _ _ = []

-- The documents at the keys of items.
unfoldable pub values : LocalStorage → List Json
values [] = []
values ((k, v) ∷ store) = value_of k v ++ values store

no_value : (k : Key) (v : Option Json) → is_item k ≡ false → value_of k v ≡ []
no_value meta_key v h = refl
no_value (item_key n id) v h = cc
no_value (sequence_key n) v h = refl
no_value (terminal_key id) v h = refl
no_value (odd_item_key k) v h = refl
no_value (odd_sequence_key k) v h = refl
no_value (foreign_key k) v h = refl

values-skip :
    (k : Key) (v : Option Json) (store : LocalStorage)
    → is_item k ≡ false
    → values ((k, v) ∷ store) ≡ values store
unfolding values
values-skip k v store h = ap (λ vs. vs ++ values store) (no_value k v h)

pub values-put_item-Apart :
    (key : Key) (value : Option Json) (store : LocalStorage)
    → Apart is_item key
    → is_item key ≡ false
    → values (put_item key value store) ≡ values store
unfolding put_item values
values-put_item-Apart key value [] apart e = values-skip key value [] e
values-put_item-Apart key value ((k, v) ∷ store) apart e =
    if_elim (λ (s : LocalStorage). values s ≡ values ((k, v) ∷ store)) (same_key k key) _ _
      (λ h.
        values-skip key value store e
        ∙ sym (values-skip k v store (not_kept is_item key k apart h)))
      (λ h. ap (λ vs. value_of k v ++ vs) (values-put_item-Apart key value store apart e))

get_item-next :
    (k key : Key) (v : Option Json) (store : LocalStorage)
    → get_item key ((k, v) ∷ store) ≡ none
    → (same_key k key ≡ false) × (get_item key store ≡ none)
unfolding get_item
get_item-next k key v store h =
    if_elim
      (λ (r : Option (Option Json)).
        r ≡ none → (same_key k key ≡ false) × (get_item key store ≡ none))
      (same_key k key) _ _ (λ e r. cc) (λ e r. (e, r)) h

-- A new item is the last one.
pub values-put_item_new :
    (n : ℕ) (id : String) (item : Json) (store : LocalStorage)
    → get_item (item_key n id) store ≡ none
    → values (put_item (item_key n id) (some item) store) ≡ values store ++ item ∷ []
unfolding put_item values
values-put_item_new n id item [] h = refl
values-put_item_new n id item ((k, v) ∷ store) h =
    let (other, rest) = get_item-next k (item_key n id) v store h in
    if_elim (λ (s : LocalStorage). values s ≡ values ((k, v) ∷ store) ++ item ∷ [])
      (same_key k (item_key n id)) _ _ (λ h. cc)
      (λ h.
        ap (λ vs. value_of k v ++ vs) (values-put_item_new n id item store rest)
        ∙ sym (append_assoc (value_of k v) (values store) (item ∷ [])))

pub read_items-values :
    (p : Protocol) (markers : Markers) (store : LocalStorage) (items : List Json)
    → read_items p markers store ≡ some items
    → values store ≡ items
unfolding read_items values
read_items-values p markers [] items h = cc
read_items-values p markers ((meta_key, v) ∷ store) items h =
    read_items-values p markers store items h
read_items-values p markers ((item_key n id, v) ∷ store) items h =
    let (item, r, h1) = some_parts (read_item p markers n id v) _ h in
    let (rest, rs, h2) = some_parts (read_items p markers store) _ h1 in
    let e : item ∷ rest ≡ items = cc in
    ap (λ w. value_of (item_key n id) w ++ values store) (read_item-value p markers n id v item r)
    ∙ ap (λ vs. item ∷ vs) (read_items-values p markers store rest rs)
    ∙ e
read_items-values p markers ((sequence_key n, v) ∷ store) items h =
    read_items-values p markers store items h
read_items-values p markers ((terminal_key id, v) ∷ store) items h =
    read_items-values p markers store items h
read_items-values p markers ((odd_item_key k, v) ∷ store) items h = cc
read_items-values p markers ((odd_sequence_key k, v) ∷ store) items h =
    read_items-values p markers store items h
read_items-values p markers ((foreign_key k, v) ∷ store) items h =
    read_items-values p markers store items h

or_right : (a b : Bool) → b ≡ true → (a || b) ≡ true
or_right true b h = refl
or_right false b h = h

second_true : (a b : Bool) → (a && b) ≡ true → b ≡ true
second_true true b h = h
second_true false b h = cc

-- What is at the key of an item is one of the items that are read.
pub read_items-contains :
    (p : Protocol) (markers : Markers) (n : ℕ) (id : String) (found : Option Json)
    (store : LocalStorage) (items : List Json)
    → read_items p markers store ≡ some items
    → get_item (item_key n id) store ≡ some found
    → contains items id ≡ true
unfolding read_items get_item contains same_key
read_items-contains p markers n id found [] items h g = cc
read_items-contains p markers n id found ((meta_key, v) ∷ store) items h g =
    read_items-contains p markers n id found store items h g
read_items-contains p markers n id found ((item_key m x, v) ∷ store) items h g =
    let (item, r, h1) = some_parts (read_item p markers m x v) _ h in
    let (rest, rs, h2) = some_parts (read_items p markers store) _ h1 in
    let e : item ∷ rest ≡ items = cc in
    let (_, named) = read_item-key p markers m x v item r in
    let later : get_item (item_key n id) store ≡ some found → contains (item ∷ rest) id ≡ true =
      λ g'.
        or_right (str_eq (event_id item) id) (contains rest id)
          (read_items-contains p markers n id found store rest rs g') in
    subst (λ is. contains is id ≡ true) e
      (if_elim (λ (o : Option (Option Json)). o ≡ some found → contains (item ∷ rest) id ≡ true)
        (m == n && str_eq x id) _ _
        (λ b g'.
          ap (λ y. str_eq y id || contains rest id) named
          ∙ rw (second_true (m == n) (str_eq x id) b) refl)
        (λ b g'. later g') g)
read_items-contains p markers n id found ((sequence_key m, v) ∷ store) items h g =
    read_items-contains p markers n id found store items h g
read_items-contains p markers n id found ((terminal_key x, v) ∷ store) items h g =
    read_items-contains p markers n id found store items h g
read_items-contains p markers n id found ((odd_item_key k, v) ∷ store) items h g = cc
read_items-contains p markers n id found ((odd_sequence_key k, v) ∷ store) items h g =
    read_items-contains p markers n id found store items h g
read_items-contains p markers n id found ((foreign_key k, v) ∷ store) items h g =
    read_items-contains p markers n id found store items h g
