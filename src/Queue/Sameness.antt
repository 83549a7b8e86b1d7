-- ===== src/Queue/Sameness.antt =====
-- A value is the same as itself.
use jenn_shooting_operations.Prelude.{◌≡◌, refl, true, false, String, str_eq, eq_iff, arith}
use jenn_shooting_operations.Json.{
  Json, undefined, null, boolean, text, number, other_number, array, object, Elements, end, element,
  Members, done, member, same_value, same_elements, same_members,
}
use jenn_shooting_operations.Queue.Items.{item_fingerprint, same_item}

str_eq_refl : (s : String) → str_eq s s ≡ true
str_eq_refl s = (eq_iff s s).1 refl

mutual
  unfolding same_value

  pub same_value_refl : (v : Json) → same_value v v ≡ true
  same_value_refl undefined = refl
  same_value_refl null = refl
  same_value_refl (boolean true) = refl
  same_value_refl (boolean false) = refl
  same_value_refl (text s) = str_eq_refl s
  same_value_refl (number n) = ground arith
  same_value_refl (other_number s) = str_eq_refl s
  same_value_refl (array es) = same_elements_refl es
  same_value_refl (object ms) = same_members_refl ms

  same_elements_refl : (es : Elements) → same_elements es es ≡ true
  same_elements_refl end = refl
  same_elements_refl (element e es) = rw (same_value_refl e) (same_elements_refl es)

  same_members_refl : (ms : Members) → same_members ms ms ≡ true
  same_members_refl done = refl
  same_members_refl (member k v ms) = rw (str_eq_refl k, same_value_refl v) (same_members_refl ms)

pub same_item_refl : (item : Json) → same_item item item ≡ true
unfolding same_item
same_item_refl item = same_value_refl (item_fingerprint item)
