-- ===== src/Prelude/Options.antt =====
-- Sequencing of optional values: a missing part makes the whole missing.
use jenn_shooting_operations.Prelude.{Bool, true, false, Option, none, some}

infixl 5 ◌>>=◌
abbrev pub ◌>>=◌ {ℓ κ} : {A : Type ℓ} {B : Type κ} → Option A → (A → Option B) → Option B
none >>= f = none
some a >>= f = f a

abbrev pub guard : Bool → Option (Unit {0})
guard true = some tt
guard false = none
