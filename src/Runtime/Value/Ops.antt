-- ===== src/Runtime/Value/Ops.antt =====
-- runtime/eval.go: the binary operators and indexing, on values already computed. The
-- branches on maps are left out with the maps.
use fct.Base.{
  ℕ, ◌+◌, ◌-◌, ◌*◌, ◌/◌, ◌%◌, ◌^◌, Bool, true, false, not, ◌&&◌, ◌||◌, Option, none, some, [], ◌∷◌,
  ◌++◌, ltb, leb, ◌==◌, nat_eq, string_eq, if◌then◌else◌, elem, get_elem?, any,
}
use fct.Base.Text.{Text, text_eq, codes}
use fct.Runtime.Value.{
  Any, nil, int, float, bool, text, bytes, items, row, Anys, done, more, Fields, end, field, Host,
  word, is_negative, int_neg, int_lt, magnitude, elems, of_elems, is_float, list_elems, truthy,
  to_float, to_int, to_str,
}
use Prim.Native.Nat.{bit_and, bit_or, bit_xor}
use fct.Runtime.Value.Equal.{bool_eq, equal}

-- Go's `<` on strings.
unfoldable pub text_lt : Text → Text → Bool
text_lt s [] = false
text_lt [] (d ∷ t) = true
text_lt (c ∷ s) (d ∷ t) = ltb c d || (c == d && text_lt s t)

-- Go's `/` and `%` on ints: towards zero, and the sign of the dividend.
unfoldable pub int_div : ℕ → ℕ → ℕ
unfolding magnitude int_neg
int_div a b =
    let q = magnitude a / magnitude b in
    if bool_eq (is_negative a) (is_negative b) then q % word else int_neg q

unfoldable pub int_rem : ℕ → ℕ → ℕ
unfolding magnitude int_neg
int_rem a b = let r = magnitude a % magnitude b in if is_negative a then int_neg r else r

unfoldable pub shift_left : ℕ → ℕ → ℕ
shift_left x n = if is_negative n then 0 else if leb 64 n then 0 else (x * 2 ^ n) % word

-- A negative int is shifted as the complement of its complement.
unfoldable pub shift_right : ℕ → ℕ → ℕ
shift_right x n =
    if is_negative n
    then 0
    else if leb 64 n
    then if is_negative x then word - 1 else 0
    else if is_negative x
    then word - 1 - (word - 1 - x) / 2 ^ n
    else x / 2 ^ n

pub data BinOp : Type 0 where
  land lor plus minus times over modulo eq ne lt le gt ge member band bor bxor shl shr : BinOp

module _ {F : Type 0} where
  abbrev pub element : Option (Any F) → Any F
  element none = nil
  element (some x) = x

  -- m[name] of a json object, whose members' names are bytes.
  unfoldable pub member_of : Fields F → Text → Any F
  member_of end name = nil
  member_of (field own value rest) name =
      if text_eq (codes own) name then value else member_of rest name

module _ {F : Type 0} (h : Host F) where
  abbrev text_side : Any F → Bool
  text_side (text s) = true
  text_side other = false

  -- The texts that an ordering compares, if one side is a text.
  unfoldable pub text_operands : Any F → Any F → Option (Text × Text)
  text_operands l r = if text_side l || text_side r then some (to_str h l, to_str h r) else none

  -- An ordering: of texts, of floats if one side is a float, else of ints.
  unfoldable pub compare_by :
      (Text → Text → Bool) → (F → F → Bool) → (ℕ → ℕ → Bool) → Any F → Any F → Bool
  unfolding text_operands
  compare_by texts floats ints l r = elim (text_operands l r) [
    | some (s, t) ↦ texts s t
    | none ↦
        if is_float l || is_float r
        then floats (to_float h l) (to_float h r)
        else ints (to_int h l) (to_int h r)
  ]

  abbrev pub is_byte : ℕ → Bool
  is_byte n = ltb n 256

  -- bytesOf: the bytes of a buffer, or those that a list of ints spells.
  unfoldable pub bytes_of_items : Anys F → Option Text
  bytes_of_items done = some []
  bytes_of_items (more x xs) =
      if is_byte (to_int h x)
      then elim (bytes_of_items xs) [ none ↦ none | some bs ↦ some (to_int h x ∷ bs) ]
      else none

  unfoldable pub bytes_of : Any F → Option Text
  unfolding bytes_of_items
  bytes_of (bytes bs) = some bs
  bytes_of (items xs) = bytes_of_items xs
  bytes_of other = none

  abbrev is_bytes : Any F → Bool
  is_bytes (bytes bs) = true
  is_bytes other = false

  -- int or float arithmetic, as an operand asks for.
  unfoldable pub arith_by : (F → F → F) → (ℕ → ℕ → ℕ) → Any F → Any F → Any F
  arith_by floats ints l r =
      if is_float l || is_float r
      then float (floats (to_float h l) (to_float h r))
      else int (ints (to_int h l) (to_int h r))

  -- `+` behind the lists: text if a side is text, else a number.
  unfoldable pub plus_scalars : Any F → Any F → Any F
  unfolding arith_by
  plus_scalars (text s) r = text (s ++ to_str h r)
  plus_scalars l (text s) = text (to_str h l ++ s)
  plus_scalars l r = arith_by h.add (λ a b. (a + b) % word) l r

  unfoldable pub plus_lists : Any F → Any F → Any F
  unfolding list_elems plus_scalars
  plus_lists l r = elim (list_elems l) [
    | none ↦ plus_scalars l r
    | some xs ↦ elim (list_elems r) [
      | none ↦ plus_scalars l r
      | some ys ↦ items (of_elems (xs ++ ys))
    ]
  ]

  unfoldable pub add_values : Any F → Any F → Any F
  unfolding bytes_of plus_lists
  add_values l r =
      if is_bytes l || is_bytes r
      then elim (bytes_of l) [
        | none ↦ plus_lists l r
        | some bs ↦ elim (bytes_of r) [ none ↦ plus_lists l r | some cs ↦ bytes (bs ++ cs) ]
      ]
      else plus_lists l r

  -- An int of 0 to 255 in a buffer is a search for its byte; any other value meets each element.
  unfoldable pub is_member : Any F → Any F → Bool
  unfolding list_elems
  is_member (int n) (bytes bs) = is_byte n && elem n bs
  is_member l r = elim (list_elems r) [ none ↦ false | some xs ↦ any (λ x. equal h l x) xs ]

  unfoldable pub apply_bin : BinOp → Any F → Any F → Any F
  unfolding add_values is_member compare_by arith_by int_div int_rem int_lt shift_left shift_right
  apply_bin land l r = bool (truthy h l && truthy h r)
  apply_bin lor l r = bool (truthy h l || truthy h r)
  apply_bin plus l r = add_values l r
  apply_bin minus l r = arith_by h.sub (λ a b. (a + word - b) % word) l r
  apply_bin times l r = arith_by h.mul (λ a b. (a * b) % word) l r
  apply_bin over l r = arith_by h.div (λ a b. if b == 0 then 0 else int_div a b) l r
  apply_bin modulo l r = int (if to_int h r == 0 then 0 else int_rem (to_int h l) (to_int h r))
  apply_bin eq l r = bool (equal h l r)
  apply_bin ne l r = bool (not (equal h l r))
  apply_bin lt l r = bool (compare_by text_lt h.lt int_lt l r)
  apply_bin le l r = bool (compare_by (λ s t. not (text_lt t s)) h.le (λ a b. not (int_lt b a)) l r)
  apply_bin gt l r =
      bool (compare_by (λ s t. text_lt t s) (λ a b. h.lt b a) (λ a b. int_lt b a) l r)
  apply_bin ge l r =
      bool (compare_by (λ s t. not (text_lt s t)) (λ a b. h.le b a) (λ a b. not (int_lt a b)) l r)
  apply_bin member l r = bool (is_member l r)
  apply_bin band l r = int (bit_and (to_int h l) (to_int h r))
  apply_bin bor l r = int (bit_or (to_int h l) (to_int h r))
  apply_bin bxor l r = int (bit_xor (to_int h l) (to_int h r))
  apply_bin shl l r = int (shift_left (to_int h l) (to_int h r))
  apply_bin shr l r = int (shift_right (to_int h l) (to_int h r))

  -- negate
  unfoldable pub negate : Any F → Any F
  negate x = if is_float x then float (h.neg (to_float h x)) else int (int_neg (to_int h x))

  -- indexValue: an element of a list, a member of a json object, nil when absent. A negative index is
  -- past the end, as its pattern is.
  unfoldable pub index_value : Any F → Any F → Any F
  index_value (items xs) key = element (get_elem? (elems xs) (to_int h key))
  index_value (row fs) key = member_of fs (to_str h key)
  index_value other key = nil
