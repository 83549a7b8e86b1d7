-- ===== src/Prelude/Sorting.antt =====
-- The stable sort of an array: each item goes behind the items that it does not precede.
use mathlib.Core.Path.{subst}
use mathlib.Core.List.{Perm, Mem, mem-cons_self, mem-cons_of_mem}
use mathlib.Core.List.{append-nil, perm_middle}
use mathlib.Core.List.Perm as Perm
use jenn_shooting_operations.Prelude.{
  ◌++◌, Bool, true, false, ◌≡◌, ◌⊎◌, inl, inr, refl, sym, List, [], ◌∷◌, All, All-map, All-snoc,
  if_elim, if◌then◌else◌,
}

module _ {ℓ} {A : Type ℓ} where
  -- Each item stands in the relation to all that follow it.
  abbrev pub IsOrderedBy : (A → A → Type 0) → List A → Type ℓ
  IsOrderedBy R [] = Unit
  IsOrderedBy R (x ∷ xs) = All (R x) xs × IsOrderedBy R xs

  pub IsOrderedBy-snoc :
      (R : A → A → Type 0) (xs : List A) (x : A)
      → IsOrderedBy R xs
      → All (λ y. R y x) xs
      → IsOrderedBy R (xs ++ x ∷ [])
  IsOrderedBy-snoc R [] x o h = (tt, tt)
  IsOrderedBy-snoc R (y ∷ ys) x o h = (All-snoc (R y) ys x o.0 h.0, IsOrderedBy-snoc R ys x o.1 h.1)

pub All-Mem {ℓ} : {A : Type ℓ} (xs : List A) → All (λ x. Mem x xs) xs
All-Mem [] = tt
All-Mem (x ∷ xs) = (
  mem-cons_self,
  All-map (λ y. Mem y xs) (λ y. Mem y (x ∷ xs)) xs (λ y. mem-cons_of_mem x) (All-Mem xs),
)

module _ {ℓ} {A : Type ℓ} (before : A → A → Bool) where
  unfoldable pub insert_by : A → List A → List A
  insert_by x [] = x ∷ []
  insert_by x (y ∷ ys) = let rest = insert_by x ys in if before x y then x ∷ y ∷ ys else y ∷ rest

  -- The items are entered one by one into the list that is in order.
  unfoldable pub sort_onto : List A → List A → List A
  sort_onto sorted [] = sorted
  sort_onto sorted (x ∷ xs) = sort_onto (insert_by x sorted) xs

  insert_by-Perm : (x : A) (xs : List A) → Perm (insert_by x xs) (x ∷ xs)
  unfolding insert_by
  insert_by-Perm x [] = Perm.rfl
  insert_by-Perm x (y ∷ ys) =
      if_elim (λ (zs : List A). Perm zs (x ∷ y ∷ ys)) (before x y) _ _ (λ e. Perm.rfl)
        (λ e. Perm.trans (Perm.cons y (insert_by-Perm x ys)) (Perm.swap x y ys))

  module _ (P : A → Type 0) where
    pub All-insert_by : (x : A) (xs : List A) → P x → All P xs → All P (insert_by x xs)
    unfolding insert_by
    All-insert_by x [] p ps = (p, tt)
    All-insert_by x (y ∷ ys) p ps =
        if_elim (All P) (before x y) _ _ (λ e. (p, ps)) (λ e. (ps.0, All-insert_by x ys p ps.1))

    pub insert_by-inserted : (x : A) (xs : List A) → All P (insert_by x xs) → P x
    unfolding insert_by
    insert_by-inserted x [] h = h.0
    insert_by-inserted x (y ∷ ys) h =
        if_elim (λ (zs : List A). All P zs → P x) (before x y) _ _ (λ e k. k.0)
          (λ e k. insert_by-inserted x ys k.1) h

    pub insert_by-others : (x : A) (xs : List A) → All P (insert_by x xs) → All P xs
    unfolding insert_by
    insert_by-others x [] h = tt
    insert_by-others x (y ∷ ys) h =
        if_elim (λ (zs : List A). All P zs → All P (y ∷ ys)) (before x y) _ _ (λ e k. k.1)
          (λ e k. (k.0, insert_by-others x ys k.1)) h

    pub All-sort_onto : (xs sorted : List A) → All P sorted → All P xs → All P (sort_onto sorted xs)
    unfolding sort_onto
    All-sort_onto [] sorted h k = h
    All-sort_onto (x ∷ xs) sorted h k =
        All-sort_onto xs (insert_by x sorted) (All-insert_by x sorted k.0 h) k.1

    pub sort_onto-All : (xs sorted : List A) → All P (sort_onto sorted xs) → All P sorted × All P xs
    unfolding sort_onto
    sort_onto-All [] sorted h = (h, tt)
    sort_onto-All (x ∷ xs) sorted h =
        let k = sort_onto-All xs (insert_by x sorted) h in
        (insert_by-others x sorted k.0, (insert_by-inserted x sorted k.0, k.1))

  pub sort_onto-Perm : (xs sorted : List A) → Perm (sort_onto sorted xs) (sorted ++ xs)
  unfolding sort_onto
  sort_onto-Perm [] sorted = rw (append-nil sorted) Perm.rfl
  sort_onto-Perm (x ∷ xs) sorted = Perm.trans (sort_onto-Perm xs (insert_by x sorted)) (
      Perm.trans (Perm.append_right xs (insert_by-Perm x sorted))
        (Perm.symm (perm_middle sorted xs)))

  module _ (R : A → A → Type 0) (R_trans : (x y z : A) → R x y → R y z → R x z)
      (before_R : (x y : A) → before x y ≡ true → R x y)
      (after_R : (x y : A) → before x y ≡ false → R y x) where
    pub insert_by-IsOrderedBy :
        (x : A) (xs : List A) → IsOrderedBy R xs → IsOrderedBy R (insert_by x xs)
    unfolding insert_by
    insert_by-IsOrderedBy x [] o = (tt, tt)
    insert_by-IsOrderedBy x (y ∷ ys) o =
        if_elim (IsOrderedBy R) (before x y) _ _
          (λ e.
            ((before_R x y e, All-map (R y) (R x) ys (λ z. R_trans x y z (before_R x y e)) o.0), o))
          (λ e. (All-insert_by (R y) x ys (after_R x y e) o.0, insert_by-IsOrderedBy x ys o.1))

    pub sort_onto-IsOrderedBy :
        (xs sorted : List A) → IsOrderedBy R sorted → IsOrderedBy R (sort_onto sorted xs)
    unfolding sort_onto
    sort_onto-IsOrderedBy [] sorted o = o
    sort_onto-IsOrderedBy (x ∷ xs) sorted o =
        sort_onto-IsOrderedBy xs (insert_by x sorted) (insert_by-IsOrderedBy x sorted o)

    nothing_sorted : (xs : List A) → [] ≡ sort_onto [] xs → xs ≡ []
    nothing_sorted [] e = refl
    nothing_sorted (x ∷ xs) e =
        let h : All (λ (x : A). ⊥) (sort_onto [] (x ∷ xs)) = subst (All (λ (x : A). ⊥)) e tt in
        absurd (sort_onto-All (λ (x : A). ⊥) (x ∷ xs) [] h).1.0

    -- The first of the items that were sorted is one of them, and stands in the relation to all of them.
    pub sorted_first :
        (P : A → Type 0) (R_refl : (x : A) → R x x) (xs sorted : List A)
        → sorted ≡ sort_onto [] xs
        → All P xs
        → ((sorted ≡ []) × (xs ≡ []))
          ⊎ ((m : A) × (rest : List A) × (sorted ≡ m ∷ rest) × P m × All (R m) xs)
    sorted_first P R_refl xs [] e ps = inl (refl, nothing_sorted xs e)
    sorted_first P R_refl xs (m ∷ rest) e ps =
        let o = subst (IsOrderedBy R) (sym e) (sort_onto-IsOrderedBy xs [] tt) in
        inr (
          m,
          rest,
          refl,
          (subst (All P) (sym e) (All-sort_onto P xs [] tt ps)).0,
          (sort_onto-All (R m) xs [] (subst (All (R m)) e (R_refl m, o.0))).1,
        )
