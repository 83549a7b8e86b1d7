-- ===== src/Queue/Browser/Removal.antt =====
-- What is read when the record of an item is removed.
use mathlib.Core.Path.{subst}
use jenn_shooting_operations.Prelude.{
  ==_iff, ℕ, ◌≡◌, refl, sym, ap, ◌∙◌, Bool, true, false, ◌&&◌, not, String, str_eq, eq_iff, Option,
  none, some, List, [], ◌∷◌, if_elim, ◌==◌, Bool-cases, inl, inr,
}
use jenn_shooting_operations.Prelude.Options.{◌>>=◌, guard}
use jenn_shooting_operations.Json.{Json, has}
use jenn_shooting_operations.Queue.Values.{Protocol}
use jenn_shooting_operations.Queue.Items.{valid_item, event_id, local_sequence}
use jenn_shooting_operations.Queue.State.{valid_items}
use jenn_shooting_operations.Queue.Valid.{item_parts}
use jenn_shooting_operations.Queue.Browser.Keys.{
  meta_key, item_key, sequence_key, terminal_key, odd_item_key, odd_sequence_key, foreign_key,
  same_key, LocalStorage, remove_item,
}
use jenn_shooting_operations.Queue.Browser.Records.{
  Markers, marker_of, is_marked, read_item, read_items,
}
use jenn_shooting_operations.Queue.Browser.Order.{only, only-no, only-yes}

-- All items but the one with this key.
abbrev pub is_other : ℕ → String → Json → Bool
is_other n id item = not (local_sequence item == n && str_eq (event_id item) id)

pub some_parts :
    {A B : Type 0} (m : Option A) (f : A → Option B) {b : B}
    → (m >>= f) ≡ some b
    → (a : A) × (m ≡ some a) × (f a ≡ some b)
some_parts none f h = cc
some_parts (some a) f h = (a, refl, h)

guarded : (b : Bool) → guard b ≡ some tt → b ≡ true
guarded true h = refl
guarded false h = cc

middle_true : (a b c d : Bool) → (a && (b && c) && d) ≡ true → (b ≡ true) × (c ≡ true)
middle_true true true true true h = (refl, refl)
middle_true true true true false h = cc
middle_true true true false d h = cc
middle_true true false c d h = cc
middle_true false b c d h = cc

pub read_item-value :
    (p : Protocol) (markers : Markers) (n : ℕ) (id : String) (v : Option Json) (item : Json)
    → read_item p markers n id v ≡ some item
    → v ≡ some item
unfolding read_item
read_item-value p markers n id none item h = cc
read_item-value p markers n id (some i) item h =
    let (_, g, e) =
      some_parts
        (guard (
          valid_item p i
          && (local_sequence i == n && str_eq (event_id i) id)
          && is_marked (marker_of markers (local_sequence i)) (event_id i)))
        _ h in
    e

pub read_item-key :
    (p : Protocol) (markers : Markers) (n : ℕ) (id : String) (v : Option Json) (item : Json)
    → read_item p markers n id v ≡ some item
    → (local_sequence item ≡ n) × (event_id item ≡ id)
unfolding read_item
read_item-key p markers n id none item h = cc
read_item-key p markers n id (some i) item h =
    let (_, g, e) =
      some_parts
        (guard (
          valid_item p i
          && (local_sequence i == n && str_eq (event_id i) id)
          && is_marked (marker_of markers (local_sequence i)) (event_id i)))
        _ h in
    let (a, b) =
      middle_true (valid_item p i) (local_sequence i == n) (str_eq (event_id i) id) _
        (guarded _ g) in
    let same : i ≡ item = cc in
    (
      ap local_sequence (sym same) ∙ (==_iff (local_sequence i) n).0 a,
      ap event_id (sym same) ∙ (eq_iff (event_id i) id).0 b,
    )

read_items-cons :
    (p : Protocol) (markers : Markers) (m : ℕ) (x : String) (v : Option Json) (store : LocalStorage)
    (item : Json) (items : List Json)
    → read_item p markers m x v ≡ some item
    → read_items p markers store ≡ some items
    → read_items p markers ((item_key m x, v) ∷ store) ≡ some (item ∷ items)
unfolding read_items
read_items-cons p markers m x v store item items e h = rw (e, h) refl

is_other-key :
    (n : ℕ) (id : String) (item : Json) (m : ℕ) (x : String)
    → local_sequence item ≡ m
    → event_id item ≡ x
    → is_other n id item ≡ not (m == n && str_eq x id)
is_other-key n id item m x e f = rw (e, f) refl

pub read_items-remove_item :
    (p : Protocol) (markers : Markers) (n : ℕ) (id : String) (store : LocalStorage) (is : List Json)
    → read_items p markers store ≡ some is
    → read_items p markers (remove_item (item_key n id) store) ≡ some (only (is_other n id) is)
unfolding read_items remove_item same_key only
read_items-remove_item p markers n id [] is h =
    let e : [] ≡ is = cc in subst (λ js. some [] ≡ some (only (is_other n id) js)) e refl
read_items-remove_item p markers n id ((meta_key, v) ∷ store) is h =
    read_items-remove_item p markers n id store is h
read_items-remove_item p markers n id ((item_key m x, v) ∷ store) is h =
    let (item, r, h1) = some_parts (read_item p markers m x v) _ h in
    let (items, rs, h2) = some_parts (read_items p markers store) _ h1 in
    let e : item ∷ items ≡ is = cc in
    let (k, l) = read_item-key p markers m x v item r in
    let other = is_other-key n id item m x k l in
    let rest = read_items-remove_item p markers n id store items rs in
    subst
      (λ js.
        read_items p markers (remove_item (item_key n id) ((item_key m x, v) ∷ store))
        ≡ some (only (is_other n id) js))
      e
      (if_elim
        (λ (s : LocalStorage). read_items p markers s ≡ some (only (is_other n id) (item ∷ items)))
        (m == n && str_eq x id) _ _
        (λ b. rest ∙ ap some (sym (only-no (is_other n id) item items (other ∙ ap not b))))
        (λ b.
          read_items-cons p markers m x v (remove_item (item_key n id) store) item
            (only (is_other n id) items) r rest
          ∙ ap some (sym (only-yes (is_other n id) item items (other ∙ ap not b)))))
read_items-remove_item p markers n id ((sequence_key m, v) ∷ store) is h =
    read_items-remove_item p markers n id store is h
read_items-remove_item p markers n id ((terminal_key x, v) ∷ store) is h =
    read_items-remove_item p markers n id store is h
read_items-remove_item p markers n id ((odd_item_key k, v) ∷ store) is h = cc
read_items-remove_item p markers n id ((odd_sequence_key k, v) ∷ store) is h =
    read_items-remove_item p markers n id store is h
read_items-remove_item p markers n id ((foreign_key k, v) ∷ store) is h =
    read_items-remove_item p markers n id store is h

pub different :
    (seen : List String) (x id : String)
    → not (has seen x) ≡ true
    → has seen id ≡ true
    → str_eq x id ≡ false
different seen x id fresh k = elim (Bool-cases (str_eq x id)) [
  | inl e ↦
      let same : has seen x ≡ true = subst (λ y. has seen y ≡ true) (sym ((eq_iff x id).0 e)) k in
      cc
  | inr e ↦ e
]

not_both : (b : Bool) → not (b && false) ≡ true
not_both true = refl
not_both false = refl

-- Behind the head of a valid queue there is no other item with its key.
only-unseen :
    (p : Protocol) (n : ℕ) (id : String) (seen : List String) (prior : Option ℕ) (next : ℕ)
    (is : List Json)
    → has seen id ≡ true
    → valid_items p seen prior next is ≡ true
    → only (is_other n id) is ≡ is
unfolding valid_items has only
only-unseen p n id seen prior next [] k h = refl
only-unseen p n id seen prior next (i ∷ is) k h =
    let (valid, fresh, follows, rest) = item_parts p seen prior next i is h in
    let other = different seen (event_id i) id fresh k in
    only-yes (is_other n id) i is
      (ap (λ b. not (local_sequence i == n && b)) other ∙ not_both (local_sequence i == n))
    ∙ ap (λ js. i ∷ js)
        (only-unseen p n id (event_id i ∷ seen) (some (local_sequence i)) next is
          (rw (other, k) refl) rest)

pub only-head :
    (p : Protocol) (next : ℕ) (head : Json) (rest : List Json)
    → valid_items p [] none next (head ∷ rest) ≡ true
    → only (is_other (local_sequence head) (event_id head)) (head ∷ rest) ≡ rest
unfolding only has
only-head p next head rest h =
    let (valid, fresh, follows, later) = item_parts p [] none next head rest h in
    let same : str_eq (event_id head) (event_id head) ≡ true =
      (eq_iff (event_id head) (event_id head)).1 refl in
    let number : (local_sequence head == local_sequence head) ≡ true =
      (==_iff (local_sequence head) (local_sequence head)).1 refl in
    only-no (is_other (local_sequence head) (event_id head)) head rest (rw (number, same) refl)
    ∙ only-unseen p (local_sequence head) (event_id head) (event_id head ∷ [])
        (some (local_sequence head)) next rest (rw same refl) later
