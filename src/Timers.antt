-- ===== src/Timers.antt =====
-- The timers of the JavaScript runtime: those that are set and have not fired, in no order.
use jenn_shooting_operations.Prelude.{ℕ, Bool, false, ◌||◌, List, [], ◌∷◌, ◌==◌, if◌then◌else◌}

pub record Timer : Type 0 where
  pub token : ℕ
  pub delay : ℕ

unfoldable pub clear_timer : ℕ → List Timer → List Timer
clear_timer token [] = []
clear_timer token (t ∷ ts) =
    let rest = clear_timer token ts in if t.token == token then rest else t ∷ rest

abbrev pub has_timer : ℕ → List Timer → Bool
has_timer token [] = false
has_timer token (t ∷ ts) = t.token == token || has_timer token ts
