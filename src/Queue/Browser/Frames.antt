-- ===== src/Queue/Browser/Frames.antt =====
-- The records of the items and of the sequence numbers, apart from the others.
use jenn_shooting_operations.Prelude.{
  ℕ, ◌≡◌, refl, sym, ap, ◌∙◌, Bool, true, false, String, Option, none, some, List, [], ◌∷◌, if_elim,
  Bool-cases, inl, inr, if◌then◌else◌,
}
use jenn_shooting_operations.Prelude.Options.{◌>>=◌}
use jenn_shooting_operations.Json.{Json}
use jenn_shooting_operations.Queue.Values.{Protocol}
use jenn_shooting_operations.Queue.Browser.Keys.{
  Key, meta_key, item_key, sequence_key, terminal_key, odd_item_key, odd_sequence_key, foreign_key,
  same_key, LocalStorage, remove_item, put_item,
}
use jenn_shooting_operations.Queue.Browser.Records.{
  Markers, read_marker, read_markers, read_item, read_items,
}

abbrev pub is_item : Key → Bool
is_item meta_key = false
is_item (item_key n id) = true
is_item (sequence_key n) = false
is_item (terminal_key id) = false
is_item (odd_item_key k) = true
is_item (odd_sequence_key k) = false
is_item (foreign_key k) = false

abbrev pub is_sequence : Key → Bool
is_sequence meta_key = false
is_sequence (item_key n id) = false
is_sequence (sequence_key n) = true
is_sequence (terminal_key id) = false
is_sequence (odd_item_key k) = false
is_sequence (odd_sequence_key k) = true
is_sequence (foreign_key k) = false

unfoldable pub kept : (Key → Bool) → LocalStorage → LocalStorage
kept q [] = []
kept q ((k, v) ∷ store) = let rest = kept q store in if q k then (k, v) ∷ rest else rest

-- No key that is kept is the same as this one.
abbrev pub Apart : (Key → Bool) → Key → Type 0
Apart q key = (k : Key) → q k ≡ true → same_key k key ≡ false

pub not_kept : (q : Key → Bool) (key k : Key) → Apart q key → same_key k key ≡ true → q k ≡ false
not_kept q key k apart e = elim (Bool-cases (q k)) [ inl t ↦ let h = apart k t in cc | inr f ↦ f ]

kept-skip :
    (q : Key → Bool) (k : Key) (v : Option Json) (store : LocalStorage)
    → q k ≡ false
    → kept q ((k, v) ∷ store) ≡ kept q store
unfolding kept
kept-skip q k v store e = rw e refl

kept-cong :
    (q : Key → Bool) (k : Key) (v : Option Json) (store other : LocalStorage)
    → kept q store ≡ kept q other
    → kept q ((k, v) ∷ store) ≡ kept q ((k, v) ∷ other)
unfolding kept
kept-cong q k v store other e = ap (λ rest. if q k then (k, v) ∷ rest else rest) e

pub kept-put_item :
    (q : Key → Bool) (key : Key) (value : Option Json) (store : LocalStorage)
    → Apart q key
    → q key ≡ false
    → kept q (put_item key value store) ≡ kept q store
unfolding put_item
kept-put_item q key value [] apart e = kept-skip q key value [] e
kept-put_item q key value ((k, v) ∷ store) apart e =
    if_elim (λ (s : LocalStorage). kept q s ≡ kept q ((k, v) ∷ store)) (same_key k key) _ _
      (λ h. kept-skip q key value store e ∙ sym (kept-skip q k v store (not_kept q key k apart h)))
      (λ h. kept-cong q k v _ store (kept-put_item q key value store apart e))

pub kept-remove_item :
    (q : Key → Bool) (key : Key) (store : LocalStorage)
    → Apart q key
    → kept q (remove_item key store) ≡ kept q store
unfolding remove_item
kept-remove_item q key [] apart = refl
kept-remove_item q key ((k, v) ∷ store) apart =
    if_elim (λ (s : LocalStorage). kept q s ≡ kept q ((k, v) ∷ store)) (same_key k key) _ _
      (λ h.
        kept-remove_item q key store apart ∙ sym (kept-skip q k v store (not_kept q key k apart h)))
      (λ h. kept-cong q k v _ store (kept-remove_item q key store apart))

pub bind_cong :
    {A B : Type 0} (m : Option A) (f g : A → Option B)
    → ((a : A) → f a ≡ g a)
    → (m >>= f) ≡ (m >>= g)
bind_cong none f g h = refl
bind_cong (some a) f g h = h a

pub read_markers-kept :
    (markers : Markers) (store : LocalStorage)
    → read_markers markers store ≡ read_markers markers (kept is_sequence store)
unfolding read_markers kept
read_markers-kept markers [] = refl
read_markers-kept markers ((meta_key, v) ∷ store) = read_markers-kept markers store
read_markers-kept markers ((item_key n id, v) ∷ store) = read_markers-kept markers store
read_markers-kept markers ((sequence_key n, v) ∷ store) =
    bind_cong (read_marker markers n v) _ _ (λ markers'. read_markers-kept markers' store)
read_markers-kept markers ((terminal_key id, v) ∷ store) = read_markers-kept markers store
read_markers-kept markers ((odd_item_key k, v) ∷ store) = read_markers-kept markers store
read_markers-kept markers ((odd_sequence_key k, v) ∷ store) = refl
read_markers-kept markers ((foreign_key k, v) ∷ store) = read_markers-kept markers store

pub read_items-kept :
    (p : Protocol) (markers : Markers) (store : LocalStorage)
    → read_items p markers store ≡ read_items p markers (kept is_item store)
unfolding read_items kept
read_items-kept p markers [] = refl
read_items-kept p markers ((meta_key, v) ∷ store) = read_items-kept p markers store
read_items-kept p markers ((item_key n id, v) ∷ store) =
    bind_cong (read_item p markers n id v) _ _ (λ item.
      ap (λ (r : Option (List Json)). r >>= λ items. some (item ∷ items))
        (read_items-kept p markers store))
read_items-kept p markers ((sequence_key n, v) ∷ store) = read_items-kept p markers store
read_items-kept p markers ((terminal_key id, v) ∷ store) = read_items-kept p markers store
read_items-kept p markers ((odd_item_key k, v) ∷ store) = refl
read_items-kept p markers ((odd_sequence_key k, v) ∷ store) = read_items-kept p markers store
read_items-kept p markers ((foreign_key k, v) ∷ store) = read_items-kept p markers store

pub meta-Apart : (q : Key → Bool) → q meta_key ≡ false → Apart q meta_key
unfolding same_key
meta-Apart q e meta_key h = cc
meta-Apart q e (item_key n id) h = refl
meta-Apart q e (sequence_key n) h = refl
meta-Apart q e (terminal_key id) h = refl
meta-Apart q e (odd_item_key k) h = refl
meta-Apart q e (odd_sequence_key k) h = refl
meta-Apart q e (foreign_key k) h = refl

pub terminal-Apart :
    (q : Key → Bool) (id : String)
    → ((x : String) → q (terminal_key x) ≡ false)
    → Apart q (terminal_key id)
unfolding same_key
terminal-Apart q id e meta_key h = refl
terminal-Apart q id e (item_key n x) h = refl
terminal-Apart q id e (sequence_key n) h = refl
terminal-Apart q id e (terminal_key x) h = let k = e x in cc
terminal-Apart q id e (odd_item_key k) h = refl
terminal-Apart q id e (odd_sequence_key k) h = refl
terminal-Apart q id e (foreign_key k) h = refl

pub item-Apart : (n : ℕ) (id : String) → Apart is_sequence (item_key n id)
unfolding same_key
item-Apart n id meta_key h = refl
item-Apart n id (item_key m x) h = cc
item-Apart n id (sequence_key m) h = refl
item-Apart n id (terminal_key x) h = refl
item-Apart n id (odd_item_key k) h = refl
item-Apart n id (odd_sequence_key k) h = refl
item-Apart n id (foreign_key k) h = refl

pub sequence-Apart : (n : ℕ) → Apart is_item (sequence_key n)
unfolding same_key
sequence-Apart n meta_key h = refl
sequence-Apart n (item_key m x) h = refl
sequence-Apart n (sequence_key m) h = cc
sequence-Apart n (terminal_key x) h = refl
sequence-Apart n (odd_item_key k) h = refl
sequence-Apart n (odd_sequence_key k) h = refl
sequence-Apart n (foreign_key k) h = refl
