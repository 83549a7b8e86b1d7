-- ===== src/Json.antt =====
-- JSON documents as JavaScript reads them, and the tests on keys and fields.
use jenn_shooting_operations.Prelude.{
  ℕ, Bool, true, false, ◌&&◌, ◌||◌, not, String, str_eq, List, [], ◌∷◌, leb, ltb, ◌==◌,
  if◌then◌else◌,
}
use jenn_shooting_operations.Patterns.{is_event_id}
use jenn_shooting_operations.Timestamp.{Text, codes}
use jenn_shooting_operations.Run.Fold.{max_safe_integer}

-- `undefined` is the value of a missing key. A number that is not a natural number is kept as it is
-- printed.
mutual
  pub data Json : Type 0 where
    undefined null : Json
    boolean : Bool → Json
    text : String → Json
    number : ℕ → Json
    other_number : String → Json
    array : Elements → Json
    object : Members → Json

  pub data Elements : Type 0 where
    end : Elements
    element : Json → Elements → Elements

  pub data Members : Type 0 where
    done : Members
    member : String → Json → Members → Members

unfoldable pub lookup : String → Members → Json
lookup key done = undefined
lookup key (member k v ms) = let rest = lookup key ms in if str_eq k key then v else rest

-- `value[key]`, where it is `undefined` for a value that is no object.
unfoldable pub get : Json → String → Json
unfolding lookup
get (object ms) key = lookup key ms
get _ key = undefined

-- `set.has(key)`
unfoldable pub has : List String → String → Bool
has [] key = false
has (k ∷ ks) key = str_eq k key || has ks key

unfoldable pub has_member : Members → String → Bool
has_member done key = false
has_member (member k v ms) key = str_eq k key || has_member ms key

unfoldable pub keys_allowed : Members → List String → Bool
unfolding has
keys_allowed done allowed = true
keys_allowed (member k v ms) allowed = has allowed k && keys_allowed ms allowed

unfoldable pub keys_present : Members → List String → Bool
unfolding has_member
keys_present ms [] = true
keys_present ms (k ∷ ks) = has_member ms k && keys_present ms ks

-- `exactKeys`
unfoldable pub exact_keys : Json → List String → List String → Bool
unfolding keys_allowed keys_present
exact_keys (object ms) allowed required = keys_allowed ms allowed && keys_present ms required
exact_keys _ allowed required = false

abbrev pub is_object : Json → Bool
is_object (object ms) = true
is_object _ = false

-- `value === s`
unfoldable pub is_text : Json → String → Bool
is_text (text t) s = str_eq t s
is_text _ s = false

unfoldable pub is_one_of : Json → List String → Bool
unfolding has
is_one_of (text t) ss = has ss t
is_one_of _ ss = false

abbrev pub is_true : Json → Bool
is_true (boolean b) = b
is_true _ = false

abbrev pub is_false : Json → Bool
is_false (boolean b) = not b
is_false _ = false

abbrev pub is_boolean : Json → Bool
is_boolean (boolean b) = true
is_boolean _ = false

abbrev pub is_null : Json → Bool
is_null null = true
is_null _ = false

abbrev pub is_undefined : Json → Bool
is_undefined undefined = true
is_undefined _ = false

unfoldable pub is_number : Json → ℕ → Bool
is_number (number m) n = m == n
is_number _ n = false

-- `validRevision`
unfoldable pub valid_revision : Json → Bool
valid_revision (number n) = leb n max_safe_integer
valid_revision _ = false

-- `typeof value === 'string' && EVENT_ID.test(value)`
unfoldable pub valid_event_id : Json → Bool
unfolding is_event_id
valid_event_id (text s) = is_event_id (codes s)
valid_event_id _ = false

-- Whether two values are printed alike. Where one is neither an array nor an object, that is
-- `left === right`.
unfoldable mutual
  pub same_value : Json → Json → Bool
  same_value undefined undefined = true
  same_value null null = true
  same_value (boolean a) (boolean b) = if a then b else not b
  same_value (text s) (text t) = str_eq s t
  same_value (number m) (number n) = m == n
  same_value (other_number s) (other_number t) = str_eq s t
  same_value (array es) (array fs) = same_elements es fs
  same_value (object ms) (object ns) = same_members ms ns
  same_value _ _ = false

  pub same_elements : Elements → Elements → Bool
  same_elements end end = true
  same_elements (element e es) (element f fs) = same_value e f && same_elements es fs
  same_elements _ _ = false

  pub same_members : Members → Members → Bool
  same_members done done = true
  same_members (member k v ms) (member l w ns) = str_eq k l && same_value v w && same_members ms ns
  same_members _ _ = false

unfoldable pub text_before : Text → Text → Bool
text_before [] [] = false
text_before [] (d ∷ ds) = true
text_before (c ∷ cs) [] = false
text_before (c ∷ cs) (d ∷ ds) = ltb c d || c == d && text_before cs ds

-- By code points, where the source has code units: the order is used for no more than to tell whether two
-- objects have the same members.
unfoldable pub insert_member : String → Json → Members → Members
unfolding text_before
insert_member k v done = member k v done
insert_member k v (member l w ms) =
    let rest = insert_member k v ms in
    if text_before (codes k) (codes l) then member k v (member l w ms) else member l w rest

unfoldable pub sort_members : Members → Members
unfolding insert_member
sort_members done = done
sort_members (member k v ms) = insert_member k v (sort_members ms)

abbrev pub number_of : Json → ℕ
number_of (number n) = n
number_of _ = 0

abbrev pub text_of : Json → String
text_of (text s) = s
text_of _ = ""
