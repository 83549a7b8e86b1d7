-- ===== src/Queue/Browser/Keys.antt =====
-- The keys of the queue in the storage of the browser, and the storage itself.
use jenn_shooting_operations.Prelude.{
  ℕ, Bool, true, false, ◌&&◌, String, str_eq, Option, none, some, List, [], ◌∷◌, ◌==◌,
  if◌then◌else◌,
}
use jenn_shooting_operations.Json.{Json}

-- The keys by their parts: the paddings and the encoding of identifiers keep keys apart. The odd ones have
-- a prefix of the queue and are none of its keys.
pub data Key : Type 0 where
  meta_key : Key
  item_key : ℕ → String → Key
  sequence_key : ℕ → Key
  terminal_key : String → Key
  odd_item_key odd_sequence_key foreign_key : String → Key

unfoldable pub same_key : Key → Key → Bool
same_key meta_key meta_key = true
same_key (item_key m a) (item_key n b) = m == n && str_eq a b
same_key (sequence_key m) (sequence_key n) = m == n
same_key (terminal_key a) (terminal_key b) = str_eq a b
same_key (odd_item_key a) (odd_item_key b) = str_eq a b
same_key (odd_sequence_key a) (odd_sequence_key b) = str_eq a b
same_key (foreign_key a) (foreign_key b) = str_eq a b
same_key _ _ = false

abbrev pub LocalStorage : Type 0
LocalStorage = List (Key × Option Json)

unfoldable pub get_item : Key → LocalStorage → Option (Option Json)
unfolding same_key
get_item key [] = none
get_item key ((k, v) ∷ store) =
    let rest = get_item key store in if same_key k key then some v else rest

unfoldable pub remove_item : Key → LocalStorage → LocalStorage
unfolding same_key
remove_item key [] = []
remove_item key ((k, v) ∷ store) =
    let rest = remove_item key store in if same_key k key then rest else (k, v) ∷ rest

unfoldable pub put_item : Key → Option Json → LocalStorage → LocalStorage
unfolding same_key
put_item key value [] = (key, value) ∷ []
put_item key value ((k, v) ∷ store) =
    let rest = put_item key value store in
    if same_key k key then (key, value) ∷ store else (k, v) ∷ rest
