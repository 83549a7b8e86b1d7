-- ===== src/Outbox/Selections.antt =====
-- What a selection in an order and with a limit holds.
use jenn_shooting_operations.Prelude.{
  ℕ, zero, suc, ◌≤◌, ◌≡◌, inl, inr, Bool, true, List, [], ◌∷◌, All, length, arith, Bool-cases,
}
use jenn_shooting_operations.Outbox.{Row}
use jenn_shooting_operations.Outbox.Table.{select, insert_by, order_by, take, before}

All-select : (p : Row → Bool) (rs : List Row) → All (λ r. p r ≡ true) (select p rs)
unfolding select
All-select p [] = tt
All-select p (r ∷ rs) = elim (Bool-cases (p r)) [
  | inl e ↦ rw (e, select) (e, All-select p rs)
  | inr e ↦ rw (e, select) (All-select p rs)
]

module _ (P : Row → Type 0) where
  All-insert_by :
      (key : Row → ℕ) (r : Row) (rs : List Row) → P r → All P rs → All P (insert_by key r rs)
  unfolding insert_by
  All-insert_by key r [] h k = (h, tt)
  All-insert_by key r (q ∷ qs) h k = elim (Bool-cases (before key q r)) [
    | inl e ↦ rw e (k.0, All-insert_by key r qs h k.1)
    | inr e ↦ rw e (h, k)
  ]

  All-order_by : (key : Row → ℕ) (rs : List Row) → All P rs → All P (order_by key rs)
  unfolding order_by
  All-order_by key [] h = tt
  All-order_by key (r ∷ rs) h = All-insert_by key r (order_by key rs) h.0 (All-order_by key rs h.1)

  All-take : (n : ℕ) (rs : List Row) → All P rs → All P (take n rs)
  unfolding take
  All-take zero rs h = tt
  All-take (suc n) [] h = tt
  All-take (suc n) (r ∷ rs) h = (h.0, All-take n rs h.1)

-- Every chosen row meets the condition.
pub All-chosen :
    (n : ℕ) (key : Row → ℕ) (p : Row → Bool) (rs : List Row)
    → All (λ r. p r ≡ true) (take n (order_by key (select p rs)))
All-chosen n key p rs = All-take _ n _ (All-order_by _ key _ (All-select p rs))

pub length-take-le : (n : ℕ) (rs : List Row) → length (take n rs) ≤ n
unfolding take
length-take-le zero rs = omega arith
length-take-le (suc n) [] = omega arith
length-take-le (suc n) (r ∷ rs) = omega (arith, length-take-le n rs)
