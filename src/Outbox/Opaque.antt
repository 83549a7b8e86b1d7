-- ===== src/Outbox/Opaque.antt =====
-- `validOpaque` of src/sqlite-outbox-repository-v1.mjs: a text with no control character or line
-- separator, not empty, with no white space at its ends, and of bounded length.
use jenn_shooting_operations.Prelude.{
  ℕ, Bool, false, ◌&&◌, ◌||◌, not, String, [], ◌∷◌, ltb, leb, ◌==◌, length,
}
use jenn_shooting_operations.Timestamp.{Text, codes}

-- White space of `String.prototype.trim`, less the control characters and line separators.
is_space : ℕ → Bool
is_space c =
    c == 32
    || c == 160
    || c == 0x1680
    || leb 0x2000 c && leb c 0x200a
    || c == 0x202f
    || c == 0x205f
    || c == 0x3000
    || c == 0xfeff

is_control : ℕ → Bool
is_control c = ltb c 32 || c == 127 || c == 0x2028 || c == 0x2029

starts_with_space : Text → Bool
starts_with_space [] = false
starts_with_space (c ∷ _) = is_space c

ends_with_space : Text → Bool
ends_with_space [] = false
ends_with_space (c ∷ []) = is_space c
ends_with_space (_ ∷ s) = ends_with_space s

has_control : Text → Bool
has_control [] = false
has_control (c ∷ s) = is_control c || has_control s

unfoldable pub valid_opaque : String → ℕ → Bool
unfolding is_space is_control starts_with_space ends_with_space has_control
valid_opaque value max_code_points =
    let text = codes value in
    leb 1 (length text)
    && not (starts_with_space text)
    && not (ends_with_space text)
    && leb (length text) max_code_points
    && not (has_control text)
