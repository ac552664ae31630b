-- ===== src/Runtime/Value.antt =====
-- runtime/eval.go and runtime/bytesval.go: the values of an expression and their total conversions.
-- An int is its 64-bit pattern, a number below 2 ^ 64; a text and a byte buffer are lists of bytes;
-- a record is the list of its fields. A driver's int64, int32 and []byte, and the maps and structs
-- of procs, are left out. A float64 is a type of its own, `F`, with what the code calls of Go's
-- arithmetic, `strconv`, `regexp` and `math` in `Host`.
pub mod Equal
pub mod Ops
pub mod Reduce
pub mod Extremes
use fct.Base.{
  ℕ, ◌+◌, ◌-◌, ◌*◌, ◌/◌, ◌%◌, ◌^◌, Bool, true, false, not, ◌&&◌, ◌||◌, Option, none, some, List, [],
  ◌∷◌, ◌++◌, ltb, leb, ◌==◌, nat_eq, string_eq, if◌then◌else◌, String, map,
}
use fct.Base.Text.{Text, codes}
use fct.Base.Decimal.{print_u64}

mutual
  pub data Any (F : Type 0) : Type 0 where
    nil : Any F
    int : ℕ → Any F
    float : F → Any F
    bool : Bool → Any F
    text : Text → Any F
    bytes : Text → Any F
    items : Anys F → Any F
    row : Fields F → Any F

  pub data Anys (F : Type 0) : Type 0 where
    done : Anys F
    more : Any F → Anys F → Anys F

  pub data Fields (F : Type 0) : Type 0 where
    end : Fields F
    field : String → Any F → Fields F → Fields F

-- float64's operators, float64(n) and int(f), and the calls of `strconv`, `regexp` and `math`.
-- `parse_float` gives the value and whether there was no error.
pub record Host (F : Type 0) : Type 0 where
  pub of_int : ℕ → F
  pub to_whole : F → ℕ
  pub add : F → F → F
  pub sub : F → F → F
  pub mul : F → F → F
  pub div : F → F → F
  pub neg : F → F
  pub trunc : F → F
  pub eq : F → F → Bool
  pub lt : F → F → Bool
  pub le : F → F → Bool
  pub is_nan : F → Bool
  pub is_inf : F → Bool
  pub format : F → Text
  pub trim_space : Text → Text
  pub is_numeric : Text → Bool
  pub parse_whole : Text → Option ℕ
  pub parse_float : Text → F × Bool

-- int on 64-bit patterns.
abbrev pub word : ℕ
word = 2 ^ 64

abbrev pub sign_bit : ℕ
sign_bit = 2 ^ 63

abbrev pub is_negative : ℕ → Bool
is_negative n = leb sign_bit n

unfoldable pub int_neg : ℕ → ℕ
int_neg n = (word - n) % word

-- a < b of two ints
unfoldable pub int_lt : ℕ → ℕ → Bool
int_lt a b = ltb ((a + sign_bit) % word) ((b + sign_bit) % word)

-- The size of an int, without its sign.
unfoldable pub magnitude : ℕ → ℕ
magnitude n = if is_negative n then word - n else n

unfoldable pub itoa : ℕ → Text
unfolding magnitude
itoa n =
    if n == 0
    then codes "0"
    else if is_negative n
    then codes "-" ++ print_u64 (magnitude n)
    else print_u64 (magnitude n)

module _ {F : Type 0} where
  abbrev pub elems : Anys F → List (Any F)
  elems done = []
  elems (more x xs) = x ∷ elems xs

  abbrev pub of_elems : List (Any F) → Anys F
  of_elems [] = done
  of_elems (x ∷ xs) = more x (of_elems xs)

  -- m[name] of a record, with nil for a missing name
  unfoldable pub read_field : String → Fields F → Any F
  read_field name end = nil
  read_field name (field own value rest) = if own == name then value else read_field name rest

  -- m[name] of a row; nil for what is no record
  abbrev pub get_field : Any F → String → Any F
  get_field (row fields) name = read_field name fields
  get_field other name = nil

  abbrev pub is_record : Any F → Bool
  is_record (row fields) = true
  is_record other = false

  abbrev pub is_float : Any F → Bool
  is_float (float f) = true
  is_float other = false

  -- promoteBytes, listElems
  unfoldable pub list_elems : Any F → Option (List (Any F))
  list_elems (items xs) = some (elems xs)
  list_elems (bytes bs) = some (map int bs)
  list_elems other = none

  -- scope[e.Name].([]any): no rows for another value
  unfoldable pub list_rows : Any F → List (Any F)
  list_rows (items xs) = elems xs
  list_rows other = []

module _ {F : Type 0} (h : Host F) where
  abbrev zero_float : F
  zero_float = h.of_int 0

  unfoldable pub truthy : Any F → Bool
  truthy (bool b) = b
  truthy (int n) = not (n == 0)
  truthy (float f) = not (h.eq f (h.of_int 0))
  truthy (text []) = false
  truthy (text (c ∷ s)) = true
  truthy (items done) = false
  truthy (items (more x xs)) = true
  truthy nil = false
  truthy (bytes bs) = true
  truthy (row fields) = true

  -- parseNumericText
  unfoldable pub parse_numeric_text : Text → Option ℕ
  parse_numeric_text s =
      let t = h.trim_space s in
      if h.is_numeric t
      then elim (h.parse_whole t) [
        | some n ↦ some n
        | none ↦ if (h.parse_float t).1 then some (h.to_whole (h.parse_float t).0) else none
      ]
      else none

  -- parseFloatText
  unfoldable pub parse_float_text : Text → F
  parse_float_text s =
      let t = h.trim_space s in if h.is_numeric t then (h.parse_float t).0 else h.of_int 0

  unfoldable pub to_float : Any F → F
  unfolding parse_float_text
  to_float (float f) = f
  to_float (int n) = h.of_int n
  to_float (bool b) = if b then h.of_int 1 else h.of_int 0
  to_float (text s) = parse_float_text s
  to_float other = h.of_int 0

  abbrev number : Option ℕ → ℕ
  number none = 0
  number (some n) = n

  unfoldable pub to_int : Any F → ℕ
  unfolding parse_numeric_text
  to_int (int n) = n
  to_int (float f) = h.to_whole f
  to_int (bool b) = if b then 1 else 0
  to_int (text s) = number (parse_numeric_text s)
  to_int other = 0

  -- A float of a whole number within int's range prints as that int.
  unfoldable pub float_text : F → Text
  unfolding itoa
  float_text f =
      if not (h.is_nan f)
        && not (h.is_inf f)
        && h.eq f (h.trunc f)
        && h.le (h.of_int sign_bit) f
        && h.lt f (h.neg (h.of_int sign_bit))
      then itoa (h.to_whole f)
      else h.format f

-- strings.Join(parts, ",")
unfoldable pub join_commas : List Text → Text
join_commas [] = []
join_commas (p ∷ []) = p
join_commas (p ∷ (q ∷ ps)) = p ++ (b',' ∷ join_commas (q ∷ ps))

unfoldable mutual
  unfolding itoa float_text join_commas

  pub to_str : {F : Type 0} → Host F → Any F → Text
  to_str h (text s) = s
  to_str h (int n) = itoa n
  to_str h (float f) = float_text h f
  to_str h (bool b) = if b then codes "true" else codes "false"
  to_str h (items xs) = join_commas (to_strs h xs)
  to_str h (bytes bs) = join_commas (map itoa bs)
  to_str h nil = []
  to_str h (row fields) = []

  pub to_strs : {F : Type 0} → Host F → Anys F → List Text
  to_strs h done = []
  to_strs h (more x xs) = to_str h x ∷ to_strs h xs
