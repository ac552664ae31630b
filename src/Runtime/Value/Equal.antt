-- ===== src/Runtime/Value/Equal.antt =====
-- runtime/eval.go and runtime/bytesval.go: `==` of values. The branches on maps are left out with
-- the maps.
use fct.Base.{
  ℕ, suc, Bool, true, false, not, ◌&&◌, Option, none, some, [], ◌∷◌, ◌==◌, nat_eq, string_eq,
  if◌then◌else◌, String,
}
use fct.Base.Text.{Text, text_eq}
use fct.Runtime.Value.{
  Any, int, float, bool, text, bytes, items, row, Anys, done, more, Fields, end, field, Host,
  truthy, to_float, to_int, to_str,
}

abbrev pub bool_eq : Bool → Bool → Bool
bool_eq true b = b
bool_eq false b = not b

module _ {F : Type 0} where
  abbrev pub find_field : String → Fields F → Option (Any F)
  find_field name end = none
  find_field name (field own value rest) = if own == name then some value else find_field name rest

  abbrev pub count_fields : Fields F → ℕ
  count_fields end = 0
  count_fields (field own value rest) = suc (count_fields rest)

  -- bytesEqualList against a list: each element is the int of its byte.
  unfoldable pub bytes_equal_items : Text → Anys F → Bool
  bytes_equal_items [] done = true
  bytes_equal_items (b ∷ bs) (more (int n) xs) = n == b && bytes_equal_items bs xs
  bytes_equal_items bs xs = false

  unfoldable pub bytes_equal : Text → Any F → Bool
  unfolding bytes_equal_items
  bytes_equal bs (bytes cs) = text_eq bs cs
  bytes_equal bs (items xs) = bytes_equal_items bs xs
  bytes_equal bs other = false

module _ {F : Type 0} (h : Host F) where
  -- The end of `equal`: neither side is a list, a byte buffer or a record.
  unfoldable pub equal_scalars : Any F → Any F → Bool
  equal_scalars (text s) b = text_eq s (to_str h b)
  equal_scalars a (text s) = text_eq (to_str h a) s
  equal_scalars (bool x) b = bool_eq x (truthy h b)
  equal_scalars (float f) b = h.eq f (to_float h b)
  equal_scalars a (float f) = h.eq (to_float h a) f
  equal_scalars a b = to_int h a == to_int h b

  -- `switch b.(type) { case []any, map[string]any: return false }`
  unfoldable pub equal_scalar : Any F → Any F → Bool
  unfolding equal_scalars
  equal_scalar a (items ys) = false
  equal_scalar a (row gs) = false
  equal_scalar a b = equal_scalars a b

unfoldable mutual
  unfolding bytes_equal equal_scalar

  pub equal : {F : Type 0} → Host F → Any F → Any F → Bool
  equal h (bytes bs) b = bytes_equal bs b
  equal h (items xs) (bytes cs) = bytes_equal cs (items xs)
  equal h (items xs) (items ys) = equal_items h xs ys
  equal h (items xs) b = false
  equal h (row fs) (row gs) = (count_fields fs == count_fields gs) && equal_fields h fs gs
  equal h (row fs) b = false
  equal h a (bytes cs) = false
  equal h a b = equal_scalar h a b

  pub equal_items : {F : Type 0} → Host F → Anys F → Anys F → Bool
  equal_items h done done = true
  equal_items h (more x xs) (more y ys) = equal h x y && equal_items h xs ys
  equal_items h xs ys = false

  pub equal_fields : {F : Type 0} → Host F → Fields F → Fields F → Bool
  equal_fields h end gs = true
  equal_fields h (field name v fs) gs = elim (find_field name gs) [
    | none ↦ false
    | some w ↦ equal h v w && equal_fields h fs gs
  ]
