-- ===== src/Runtime/U64.antt =====
-- runtime/u64.go: the builtins on 64-bit patterns read as unsigned.
-- An int of the language is its 64-bit pattern, a number below 2 ^ 64; a text is the list of its
-- bytes. u64ToFloat, the one builtin on floats, is not modelled.
pub mod Parse
mod Tests
use fct.Base.{
  ℕ, suc, ◌+◌, ◌-◌, ◌*◌, ◌/◌, ◌%◌, ◌^◌, Bool, true, false, not, Option, none, some, List, [], ◌∷◌,
  ltb, ◌==◌, nat_eq, if◌then◌else◌, String, min, max,
}
use fct.Base.Text.{Text, codes, trim_prefix, cut_prefix, is_digit}
use fct.Base.Decimal.{print_u64}

abbrev pub modulus : ℕ
modulus = 2 ^ 64

-- math.MaxUint64
abbrev pub max_u64 : ℕ
max_u64 = modulus - 1

pub data Builtin : Type 0 where
  cmp min_of max_of sat_sub div rem text parse parse_error : Builtin

pub data Value : Type 0 where
  int : ℕ → Value
  str : Text → Value
  msg : String → Value

pub data ParseResult : Type 0 where
  parsed : ℕ → ParseResult
  failed : String → ParseResult

-- The loop over the digits, with the value read so far.
unfoldable pub parse_digits : ℕ → Text → ParseResult
parse_digits v [] = parsed v
parse_digits v (c ∷ s) =
    let d = c - b'0' in
    let rest = parse_digits (v * 10 + d) s in
    if not (is_digit c)
    then failed "invalid digit found in string"
    else if ltb ((max_u64 - d) / 10) v
    then failed "number too large to fit in target type"
    else rest

abbrev pub parse_rest : Text → ParseResult
parse_rest [] = failed "invalid digit found in string"
parse_rest (c ∷ s) = parse_digits 0 (c ∷ s)

unfoldable pub parse_u64 : Text → ParseResult
parse_u64 [] = failed "cannot parse integer from empty string"
parse_u64 (c ∷ s) = parse_rest (trim_prefix (codes "+") (c ∷ s))

-- A pattern of 64 bits; -1 is all ones.
unfoldable pub u64_cmp : ℕ → ℕ → ℕ
u64_cmp a b = if ltb a b then max_u64 else if ltb b a then 1 else 0

unfoldable pub u64_sat_sub : ℕ → ℕ → ℕ
u64_sat_sub a b = if ltb a b then 0 else a - b

unfoldable pub u64_div : ℕ → ℕ → ℕ
u64_div a b = if b == 0 then 0 else a / b

unfoldable pub u64_rem : ℕ → ℕ → ℕ
u64_rem a b = if b == 0 then 0 else a % b

abbrev pub value_of : ParseResult → ℕ
value_of (parsed v) = v
value_of (failed e) = 0

abbrev pub error_of : ParseResult → String
error_of (parsed v) = ""
error_of (failed e) = e

-- The builtins, on the first two arguments as patterns and the first as a text.
unfoldable pub u64_builtin : Builtin → ℕ → ℕ → Text → Value
unfolding u64_cmp u64_sat_sub u64_div u64_rem parse_u64
u64_builtin cmp a b s = int (u64_cmp a b)
u64_builtin min_of a b s = int (min a b)
u64_builtin max_of a b s = int (max a b)
u64_builtin sat_sub a b s = int (u64_sat_sub a b)
u64_builtin div a b s = int (u64_div a b)
u64_builtin rem a b s = int (u64_rem a b)
u64_builtin text a b s = str (print_u64 a)
u64_builtin parse a b s = int (value_of (parse_u64 s))
u64_builtin parse_error a b s = msg (error_of (parse_u64 s))
