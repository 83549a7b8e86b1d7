-- ===== src/Outbox/Rows.antt =====
-- Tables before and after a statement, row by row, and the rows that a list of identifiers selects.
use jenn_shooting_operations.Prelude.{
  ℕ, zero, suc, ◌≡◌, refl, sym, ap, ◌∙◌, inl, inr, Bool, true, false, ◌||◌, String, List, [], ◌∷◌,
  All, arith, str_eq, eq_iff, Bool-cases,
}
use jenn_shooting_operations.Outbox.{Row}
use jenn_shooting_operations.Outbox.Table.{
  update_where, select, insert_by, order_by, take, has_id, before,
}

-- The row in each place is related to the row in that place before.
abbrev pub Pointwise : (Row → Row → Type 0) → List Row → List Row → Type 0
Pointwise R [] [] = Unit
Pointwise R [] (_ ∷ _) = ⊥
Pointwise R (_ ∷ _) [] = ⊥
Pointwise R (x ∷ xs) (y ∷ ys) = R x y × Pointwise R xs ys

-- The primary key.
abbrev pub Unique : List Row → Type 0
Unique [] = Unit
Unique (r ∷ rs) = (has_id r.outbox_id rs ≡ false) × Unique rs

pub update_where-Pointwise :
    (R : Row → Row → Type 0) (p : Row → Bool) (f : Row → Row) (rows : List Row)
    → ((r : Row) → R r r)
    → All (λ r. p r ≡ true → R r (f r)) rows
    → Pointwise R rows (update_where p f rows)
unfolding update_where
update_where-Pointwise R p f [] same h = tt
update_where-Pointwise R p f (r ∷ rs) same h = elim (Bool-cases (p r)) [
  | inl e ↦ rw e (h.0 e, update_where-Pointwise R p f rs same h.1)
  | inr e ↦ rw e (same r, update_where-Pointwise R p f rs same h.1)
]

pub Pointwise-trans :
    (R S T : Row → Row → Type 0) (xs ys zs : List Row)
    → ((x y z : Row) → R x y → S y z → T x z)
    → Pointwise R xs ys
    → Pointwise S ys zs
    → Pointwise T xs zs
Pointwise-trans R S T [] [] [] c h k = tt
Pointwise-trans R S T [] [] (_ ∷ _) c h k = k
Pointwise-trans R S T [] (_ ∷ _) zs c h k = absurd h
Pointwise-trans R S T (_ ∷ _) [] zs c h k = absurd h
Pointwise-trans R S T (x ∷ xs) (y ∷ ys) [] c h k = absurd k
Pointwise-trans R S T (x ∷ xs) (y ∷ ys) (z ∷ zs) c h k =
    (c x y z h.0 k.0, Pointwise-trans R S T xs ys zs c h.1 k.1)

pub Pointwise-map :
    (R S : Row → Row → Type 0) (xs ys : List Row)
    → ((x y : Row) → R x y → S x y)
    → Pointwise R xs ys
    → Pointwise S xs ys
Pointwise-map R S [] [] c h = tt
Pointwise-map R S [] (_ ∷ _) c h = h
Pointwise-map R S (_ ∷ _) [] c h = h
Pointwise-map R S (x ∷ xs) (y ∷ ys) c h = (c x y h.0, Pointwise-map R S xs ys c h.1)

pub Pointwise-refl :
    (R : Row → Row → Type 0) (xs : List Row) → ((r : Row) → R r r) → Pointwise R xs xs
Pointwise-refl R [] same = tt
Pointwise-refl R (x ∷ xs) same = (same x, Pointwise-refl R xs same)

pub All-Pointwise :
    (P : Row → Type 0) (R : Row → Row → Type 0) (xs ys : List Row)
    → ((x y : Row) → R x y → P x → P y)
    → Pointwise R xs ys
    → All P xs
    → All P ys
All-Pointwise P R [] [] c h k = tt
All-Pointwise P R [] (_ ∷ _) c h k = absurd h
All-Pointwise P R (_ ∷ _) [] c h k = absurd h
All-Pointwise P R (x ∷ xs) (y ∷ ys) c h k = (c x y h.0 k.0, All-Pointwise P R xs ys c h.1 k.1)

abbrev pub SameId : Row → Row → Type 0
SameId x y = y.outbox_id ≡ x.outbox_id

has_id-Pointwise :
    (id : String) (xs ys : List Row) → Pointwise SameId xs ys → has_id id ys ≡ has_id id xs
unfolding has_id
has_id-Pointwise id [] [] h = refl
has_id-Pointwise id [] (_ ∷ _) h = absurd h
has_id-Pointwise id (_ ∷ _) [] h = absurd h
has_id-Pointwise id (x ∷ xs) (y ∷ ys) h = rw (h.0, has_id-Pointwise id xs ys h.1)

pub Unique-Pointwise : (xs ys : List Row) → Pointwise SameId xs ys → Unique xs → Unique ys
Unique-Pointwise [] [] h u = tt
Unique-Pointwise [] (_ ∷ _) h u = absurd h
Unique-Pointwise (_ ∷ _) [] h u = absurd h
Unique-Pointwise (x ∷ xs) (y ∷ ys) h u =
    (rw h.0 (has_id-Pointwise x.outbox_id xs ys h.1 ∙ u.0), Unique-Pointwise xs ys h.1 u.1)

pub All-zip :
    (P Q R : Row → Type 0) (xs : List Row)
    → ((r : Row) → P r → Q r → R r)
    → All P xs
    → All Q xs
    → All R xs
All-zip P Q R [] c h k = tt
All-zip P Q R (x ∷ xs) c h k = (c x h.0 k.0, All-zip P Q R xs c h.1 k.1)

has_id-select :
    (id : String) (q : Row → Bool) (rs : List Row)
    → has_id id (select q rs) ≡ true
    → has_id id rs ≡ true
unfolding has_id select
has_id-select id q [] h = h
has_id-select id q (r ∷ rs) h = ground (arith, has_id-select id q rs)

has_id-insert_by :
    (id : String) (key : Row → ℕ) (r : Row) (rs : List Row)
    → has_id id (insert_by key r rs) ≡ (str_eq r.outbox_id id || has_id id rs)
unfolding has_id insert_by
has_id-insert_by id key r [] = refl
has_id-insert_by id key r (q ∷ qs) = elim (Bool-cases (before key q r)) [
  | inl e ↦ rw e (rw (has_id-insert_by id key r qs) (ground arith))
  | inr e ↦ rw e
]

has_id-order_by :
    (id : String) (key : Row → ℕ) (rs : List Row) → has_id id (order_by key rs) ≡ has_id id rs
unfolding has_id order_by
has_id-order_by id key [] = refl
has_id-order_by id key (r ∷ rs) =
    has_id-insert_by id key r (order_by key rs)
    ∙ ap (λ b. str_eq r.outbox_id id || b) (has_id-order_by id key rs)

has_id-take :
    (id : String) (n : ℕ) (rs : List Row) → has_id id (take n rs) ≡ true → has_id id rs ≡ true
unfolding has_id take
has_id-take id zero rs h = cc
has_id-take id (suc n) [] h = h
has_id-take id (suc n) (r ∷ rs) h = ground (arith, has_id-take id n rs)

-- What `IN (SELECT ... ORDER BY ... LIMIT n)` selects was selected by the condition.
pub has_id-chosen :
    (id : String) (n : ℕ) (key : Row → ℕ) (q : Row → Bool) (rs : List Row)
    → has_id id (take n (order_by key (select q rs))) ≡ true
    → has_id id (select q rs) ≡ true
has_id-chosen id n key q rs h = sym (has_id-order_by id key (select q rs)) ∙ has_id-take id n _ h

pub ids_differ :
    (x : Row) (rs : List Row)
    → has_id x.outbox_id rs ≡ false
    → All (λ r. str_eq x.outbox_id r.outbox_id ≡ false) rs
unfolding has_id
ids_differ x [] h = tt
ids_differ x (r ∷ rs) h = (
  ground (arith, eq_iff x.outbox_id r.outbox_id, eq_iff r.outbox_id x.outbox_id),
  ids_differ x rs (ground arith),
)

-- Where identifiers are unique, a row with the identifier of a selected row is that row.
pub selected :
    (q : Row → Bool) (rs : List Row)
    → Unique rs
    → All (λ r. has_id r.outbox_id (select q rs) ≡ true → q r ≡ true) rs
unfolding has_id select
selected q [] u = tt
selected q (x ∷ xs) u = (
  ground (arith, has_id-select x.outbox_id q xs),
  All-zip _ _ _ xs (λ r h k s. ground (arith, h, k)) (selected q xs u.1) (ids_differ x xs u.0),
)
