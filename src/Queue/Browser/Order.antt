-- ===== src/Queue/Browser/Order.antt =====
-- The order of the items, when some of them are left out.
use jenn_shooting_operations.Prelude.{
  ◌≡◌, ◌≤◌, refl, sym, ap, ◌∙◌, Bool, true, false, List, [], ◌∷◌, All, if_elim, ltb, ltb→lt, lt→ltb,
  arith, if◌then◌else◌, Bool-cases, inl, inr,
}
use jenn_shooting_operations.Prelude.Sorting.{
  insert_by, sort_onto, IsOrderedBy, insert_by-IsOrderedBy,
}
use jenn_shooting_operations.Json.{Json}
use jenn_shooting_operations.Queue.Items.{local_sequence}
use jenn_shooting_operations.Queue.Browser.Records.{sort_items}

abbrev pub before : Json → Json → Bool
before left right = ltb (local_sequence left) (local_sequence right)

abbrev pub Before : Json → Json → Type 0
Before left right = local_sequence left ≤ local_sequence right

module _ (q : Json → Bool) where
  unfoldable pub only : List Json → List Json
  only [] = []
  only (i ∷ is) = let rest = only is in if q i then i ∷ rest else rest

  pub only-no : (i : Json) (is : List Json) → q i ≡ false → only (i ∷ is) ≡ only is
  unfolding only
  only-no i is e = rw e refl

  pub only-yes : (i : Json) (is : List Json) → q i ≡ true → only (i ∷ is) ≡ i ∷ only is
  unfolding only
  only-yes i is e = rw e refl

  insert-behind :
      (x y : Json) (zs : List Json)
      → before x y ≡ false
      → insert_by before x (y ∷ zs) ≡ y ∷ insert_by before x zs
  unfolding insert_by
  insert-behind x y zs e = rw e refl

  insert-IsOrdered :
      (x : Json) (ys : List Json)
      → IsOrderedBy Before ys
      → IsOrderedBy Before (insert_by before x ys)
  insert-IsOrdered =
      insert_by-IsOrderedBy before Before (λ a b c h k. omega arith) (λ a b e. ground (arith, e))
        (λ a b e. ground (arith, e))

  -- What comes before all goes to the front.
  insert-front :
      (x : Json) (is : List Json) → All (λ i. before x i ≡ true) is → insert_by before x is ≡ x ∷ is
  unfolding insert_by
  insert-front x [] h = refl
  insert-front x (i ∷ is) h = rw (h.0) refl

  All-only : (P : Json → Type 0) (is : List Json) → All P is → All P (only is)
  unfolding only
  All-only P [] h = tt
  All-only P (i ∷ is) h =
      if_elim (All P) (q i) _ _ (λ e. (h.0, All-only P is h.1)) (λ e. All-only P is h.1)

  all_after :
      (x y : Json) (ys : List Json)
      → before x y ≡ true
      → All (Before y) ys
      → All (λ i. before x i ≡ true) ys
  all_after x y [] e h = tt
  all_after x y (z ∷ zs) e h =
      (lt→ltb _ _ (let l = ltb→lt _ _ e in omega (arith, h.0, l)), all_after x y zs e h.1)

  only-insert_yes :
      (x : Json) (ys : List Json)
      → q x ≡ true
      → IsOrderedBy Before ys
      → only (insert_by before x ys) ≡ insert_by before x (only ys)
  unfolding insert_by only
  only-insert_yes x [] e o = only-yes x [] e
  only-insert_yes x (y ∷ ys) e o =
      if_elim (λ (zs : List Json). only zs ≡ insert_by before x (only (y ∷ ys))) (before x y) _ _
        (λ b.
          only-yes x (y ∷ ys) e
          ∙ sym (
              insert-front x (only (y ∷ ys))
                (All-only (λ i. before x i ≡ true) (y ∷ ys) (b, all_after x y ys b o.0))))
        (λ b. elim (Bool-cases (q y)) [
          | inl t ↦
              only-yes y (insert_by before x ys) t
              ∙ ap (λ zs. y ∷ zs) (only-insert_yes x ys e o.1)
              ∙ sym (insert-behind x y (only ys) b)
              ∙ ap (insert_by before x) (sym (only-yes y ys t))
          | inr f ↦
              only-no y (insert_by before x ys) f
              ∙ only-insert_yes x ys e o.1
              ∙ ap (insert_by before x) (sym (only-no y ys f))
        ])

  only-insert_no :
      (x : Json) (ys : List Json) → q x ≡ false → only (insert_by before x ys) ≡ only ys
  unfolding insert_by only
  only-insert_no x [] e = only-no x [] e
  only-insert_no x (y ∷ ys) e =
      if_elim (λ (zs : List Json). only zs ≡ only (y ∷ ys)) (before x y) _ _
        (λ b. only-no x (y ∷ ys) e)
        (λ b. ap (λ zs. if q y then y ∷ zs else zs) (only-insert_no x ys e))

  only-sort_onto :
      (xs sorted : List Json)
      → IsOrderedBy Before sorted
      → only (sort_onto before sorted xs) ≡ sort_onto before (only sorted) (only xs)
  unfolding sort_onto only
  only-sort_onto [] sorted o = refl
  only-sort_onto (x ∷ xs) sorted o =
      let h = only-sort_onto xs (insert_by before x sorted) (insert-IsOrdered x sorted o) in
      elim (Bool-cases (q x)) [
        | inl t ↦
            h
            ∙ ap (λ zs. sort_onto before zs (only xs)) (only-insert_yes x sorted t o)
            ∙ ap (sort_onto before (only sorted)) (sym (only-yes x xs t))
        | inr f ↦
            h
            ∙ ap (λ zs. sort_onto before zs (only xs)) (only-insert_no x sorted f)
            ∙ ap (sort_onto before (only sorted)) (sym (only-no x xs f))
      ]

pub sort_items-only :
    (q : Json → Bool) (is : List Json) → sort_items (only q is) ≡ only q (sort_items is)
unfolding sort_items only
sort_items-only q is = sym (only-sort_onto q is [] tt)
