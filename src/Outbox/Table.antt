-- ===== src/Outbox/Table.antt =====
-- The statements of src/sqlite-outbox-repository-v1.mjs on the table notification_outbox: selections in
-- an order, and updates that count the rows that they change. Rows keep their places.
use jenn_shooting_operations.Prelude.{
  ℕ, zero, suc, ◌+◌, Bool, true, false, ◌||◌, String, Option, none, some, List, [], ◌∷◌, ltb, leb,
  ◌==◌, str_eq, if◌then◌else◌,
}
use jenn_shooting_operations.Timestamp.{codes}
use jenn_shooting_operations.Outbox.{
  Row, Status, pending, leased, retryable_failed, sent, dead_letter,
}

-- `UPDATE ... SET f WHERE p`
unfoldable pub update_where : (Row → Bool) → (Row → Row) → List Row → List Row
update_where p f [] = []
update_where p f (r ∷ rs) = (if p r then f r else r) ∷ update_where p f rs

-- `changes` of such an update.
unfoldable pub count_where : (Row → Bool) → List Row → ℕ
count_where p [] = 0
count_where p (r ∷ rs) = (if p r then 1 else 0) + count_where p rs

unfoldable pub select : (Row → Bool) → List Row → List Row
select p [] = []
select p (r ∷ rs) = let rest = select p rs in if p r then r ∷ rest else rest

-- The order of texts by their code points, which is that of the bytes.
text_ltb : List ℕ → List ℕ → Bool
text_ltb [] [] = false
text_ltb [] (_ ∷ _) = true
text_ltb (_ ∷ _) [] = false
text_ltb (a ∷ s) (b ∷ t) =
    let rest = text_ltb s t in if ltb a b then true else if a == b then rest else false

-- `ORDER BY key, created_at, outbox_id`: the first comes before the second.
unfoldable pub before : (Row → ℕ) → Row → Row → Bool
unfolding text_ltb
before key r q =
    if ltb (key r) (key q)
    then true
    else if ltb (key q) (key r)
    then false
    else if ltb r.created_at q.created_at
    then true
    else if ltb q.created_at r.created_at
    then false
    else text_ltb (codes r.outbox_id) (codes q.outbox_id)

unfoldable pub insert_by : (Row → ℕ) → Row → List Row → List Row
unfolding before
insert_by key r [] = r ∷ []
insert_by key r (q ∷ qs) =
    let rest = insert_by key r qs in if before key q r then q ∷ rest else r ∷ q ∷ qs

unfoldable pub order_by : (Row → ℕ) → List Row → List Row
unfolding insert_by
order_by key [] = []
order_by key (r ∷ rs) = insert_by key r (order_by key rs)

-- `LIMIT n`
unfoldable pub take : ℕ → List Row → List Row
take zero rs = []
take (suc n) [] = []
take (suc n) (r ∷ rs) = r ∷ take n rs

-- `WHERE outbox_id = ?` on a list of selected rows, for `IN`.
unfoldable pub has_id : String → List Row → Bool
has_id id [] = false
has_id id (r ∷ rs) = str_eq r.outbox_id id || has_id id rs

-- `SELECT ... WHERE outbox_id = ?` and `WHERE dedupe_key = ?`: both columns are unique.
unfoldable pub by_id : String → List Row → Option Row
by_id id [] = none
by_id id (r ∷ rs) = if str_eq r.outbox_id id then some r else by_id id rs

unfoldable pub by_dedupe : String → List Row → Option Row
by_dedupe key [] = none
by_dedupe key (r ∷ rs) = if str_eq r.dedupe_key key then some r else by_dedupe key rs

abbrev pub status_eq : Status → Status → Bool
status_eq pending pending = true
status_eq leased leased = true
status_eq retryable_failed retryable_failed = true
status_eq sent sent = true
status_eq dead_letter dead_letter = true
status_eq _ _ = false

-- `column <= now`, which a NULL column does not satisfy.
abbrev pub until : Option ℕ → ℕ → Bool
until none now = false
until (some t) now = leb t now

-- `CASE WHEN status = 'leased' THEN lease_expires_at ELSE available_at END`
abbrev pub due_at : Row → Option ℕ
due_at r = if status_eq r.status leased then r.lease_expires_at else r.available_at

-- The key of the order; a row that is ordered has one.
abbrev pub due_key : Row → ℕ
due_key r = elim (due_at r) [ none ↦ 0 | some t ↦ t ]
