-- ===== src/Queue/Added.antt =====
-- What a commit to the storage of the browser adds for a new item, in public/kiosk-offline-queue-v2.js.
use jenn_shooting_operations.Prelude.{
  ℕ, ◌≡◌, refl, sym, ap, ◌∙◌, Bool, true, false, ◌||◌, String, str_eq, eq_iff, Option, none, some,
  List, [], ◌∷◌, ◌++◌, if_elim, ◌⊎◌, inl, inr,
}
use jenn_shooting_operations.Json.{Json, get, same_value, has}
use jenn_shooting_operations.Queue.Items.{event_id, local_sequence, same_item}
use jenn_shooting_operations.Queue.Storage.{contains}
use jenn_shooting_operations.Queue.Browser.Keys.{
  Key, sequence_key, LocalStorage, get_item, put_item,
}
use jenn_shooting_operations.Queue.Browser.Records.{marker_json}
use jenn_shooting_operations.Queue.Browser.Frames.{sequence-Apart}
use jenn_shooting_operations.Queue.Browser.{
  event_ids, key_of, set_item, set_or_check, then_do, add_item, add_new,
}
use jenn_shooting_operations.Queue.Removed.{
  changed, AllIn, AllIn-self, AllIn-cons, remove_gone-none,
}
use jenn_shooting_operations.Queue.Present.{values, values-put_item-Apart, values-put_item_new}

AllIn-before : (items others : List Json) → AllIn (event_ids (items ++ others)) items
unfolding has event_ids
AllIn-before [] others = tt
AllIn-before (i ∷ is) others = (
  rw ((eq_iff (event_id i) (event_id i)).1 refl) refl,
  AllIn-cons (event_id i) (event_ids (is ++ others)) is (AllIn-before is others),
)

has-contains : (items : List Json) (id : String) → has (event_ids items) id ≡ contains items id
unfolding has event_ids contains
has-contains [] id = refl
has-contains (i ∷ is) id = ap (λ b. str_eq (event_id i) id || b) (has-contains is id)

module _ (fits : LocalStorage → Bool) where
  -- It was set, or it was there.
  abbrev Sets : Key → Json → LocalStorage → LocalStorage → Type 0
  Sets key value store t =
      ((get_item key store ≡ none) × (put_item key (some value) store ≡ t))
      ⊎ ((v : Option Json) × (get_item key store ≡ some v) × (store ≡ t))

  set_item-true :
      (key : Key) (value : Json) (store t : LocalStorage)
      → set_item fits key value store ≡ (t, true)
      → put_item key (some value) store ≡ t
  unfolding set_item
  set_item-true key value store t h =
      if_elim (λ (r : LocalStorage × Bool). r ≡ (t, true) → put_item key (some value) store ≡ t)
        (fits (put_item key (some value) store)) _ _
        (λ e r. ap (λ (z : LocalStorage × Bool). z.0) r)
        (λ e r. let k : false ≡ true = ap (λ (z : LocalStorage × Bool). z.1) r in cc) h

  set_or_check-Sets :
      (key : Key) (value : Json) (check : Json → Bool) (store t : LocalStorage)
      (o : Option (Option Json))
      → get_item key store ≡ o
      → set_or_check fits key value check store o ≡ (t, true)
      → Sets key value store t
  set_or_check-Sets key value check store t none e h = inl (e, set_item-true key value store t h)
  set_or_check-Sets key value check store t (some v) e h = inr (v, e, found v h)
    where
      found :
          (w : Option Json)
          → set_or_check fits key value check store (some w) ≡ (t, true)
          → store ≡ t
      found none r = ap (λ (z : LocalStorage × Bool). z.0) r
      found (some old) r = ap (λ (z : LocalStorage × Bool). z.0) r

  then_do-parts :
      (r : LocalStorage × Bool) (next : LocalStorage → LocalStorage × Bool) (t : LocalStorage)
      → then_do fits r next ≡ (t, true)
      → (s : LocalStorage) × (r ≡ (s, true)) × (next s ≡ (t, true))
  then_do-parts (s, true) next t h = (s, refl, h)
  then_do-parts (s, false) next t h =
      let k : false ≡ true = ap (λ (z : LocalStorage × Bool). z.1) h in cc

  then_do-end : (r : LocalStorage × Bool) → then_do fits r (λ s. (s, true)) ≡ r
  then_do-end (s, true) = refl
  then_do-end (s, false) = refl

  marked-values :
      (n : ℕ) (value : Json) (store t : LocalStorage)
      → Sets (sequence_key n) value store t
      → values t ≡ values store
  marked-values n value store t (inl (e, h)) =
      ap values (sym h)
      ∙ values-put_item-Apart (sequence_key n) (some value) store (sequence-Apart n) refl
  marked-values n value store t (inr (v, e, h)) = ap values (sym h)

  -- The document of the item is the last one, or there was one at its key.
  abbrev pub Adds : Json → LocalStorage → LocalStorage → Type 0
  Adds item store t =
      (values t ≡ values store ++ item ∷ [])
      ⊎ ((v : Option Json) × (get_item (key_of item) t ≡ some v) × (values t ≡ values store))

  set-Adds :
      (item : Json) (store s t : LocalStorage)
      → values s ≡ values store
      → Sets (key_of item) item s t
      → Adds item store t
  set-Adds item store s t e (inl (g, h)) = inl (
      ap values (sym h)
      ∙ values-put_item_new (local_sequence item) (event_id item) item s g
      ∙ ap (λ vs. vs ++ item ∷ []) e)
  set-Adds item store s t e (inr (v, g, h)) =
      inr (v, ap (get_item (key_of item)) (sym h) ∙ g, ap values (sym h) ∙ e)

  pub add_item-Adds :
      (item : Json) (store t : LocalStorage)
      → add_item fits item store ≡ (t, true)
      → Adds item store t
  unfolding add_item
  add_item-Adds item store t h =
      let (s, a, b) = then_do-parts _ _ t h in
      let key = sequence_key (local_sequence item) in
      set-Adds item store s t
        (marked-values (local_sequence item) (marker_json item) store s (
          set_or_check-Sets key (marker_json item)
            (λ old. same_value (get old "eventId") (get item "eventId")) store s
            (get_item key store) refl a))
        (set_or_check-Sets (key_of item) item (λ old. same_item old item) s t
          (get_item (key_of item) s) refl b)

  add_new-last :
      (ids : List String) (items : List Json) (item : Json) (store : LocalStorage)
      → AllIn ids items
      → has ids (event_id item) ≡ false
      → add_new fits ids (items ++ item ∷ []) store ≡ add_item fits item store
  unfolding add_new
  add_new-last ids [] item store h f = rw f (then_do-end (add_item fits item store))
  add_new-last ids (i ∷ is) item store h f = rw (h.0) (add_new-last ids is item store h.1 f)

  pub changed-added :
      (items : List Json) (item : Json) (store : LocalStorage)
      → contains items (event_id item) ≡ false
      → changed fits items (items ++ item ∷ []) store ≡ add_item fits item store
  changed-added items item store f =
      ap (add_new fits (event_ids items) (items ++ item ∷ [])) (
        remove_gone-none (event_ids (items ++ item ∷ [])) items store
          (AllIn-before items (item ∷ [])))
      ∙ add_new-last (event_ids items) items item store (AllIn-self items)
          (has-contains items (event_id item) ∙ f)
