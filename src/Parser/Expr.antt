-- ===== src/Parser/Expr.antt =====
-- internal/parser/expr.go: precedence climbing, from tokens to expressions.
-- The parser's position is the list of the tokens that are left. A literal keeps its token's text, which
-- strconv reads; one that strconv refuses is no error here. The forms that begin with a name before
-- `(` or with an upper-case name before `{`, the literals `[` and `{`, and `asset from` are a
-- parameter, `form`, given the tokens where they begin. An error and fuel that has run out are both
-- `none`; `Job` names the function that is called.
pub mod Yields
pub mod Print
pub mod Reads
pub mod RoundTrip
mod Tests
use fct.Base.{
  ℕ, zero, suc, String, Bool, true, false, ◌||◌, ◌&&◌, Option, none, some, List, [], ◌∷◌, ◌==◌,
  string_eq, if◌then◌else◌, ltb,
}

pub data Token : Type 0 where
  num : String → Token
  str : String → Token
  ident : String → Token
  op : String → Token
  lparen rparen : Token

pub data Ast : Type 0 where
  number text : String → Ast
  boolean : Bool → Ast
  ref : String → Ast
  un : String → Ast → Ast
  bin : String → Ast → Ast → Ast
  get : Ast → String → Ast
  index : Ast → Ast → Ast

-- binPrec
unfoldable pub bin_prec : String → Option ℕ
bin_prec o =
    if o == "||"
    then some 1
    else if o == "&&"
    then some 2
    else if o == "|"
    then some 3
    else if o == "^"
    then some 4
    else if o == "&"
    then some 5
    else if o == "==" || o == "!=" || o == "<" || o == "<=" || o == ">" || o == ">=" || o == "in"
    then some 6
    else if o == "<<" || o == ">>"
    then some 7
    else if o == "+" || o == "-"
    then some 8
    else if o == "*" || o == "/" || o == "%"
    then some 9
    else none

abbrev pub Parse : Type 0
Parse = Option (Ast × List Token)

pub data Job : Type 0 where
  binary : ℕ → Job
  climb : ℕ → Ast → Job
  unary postfix atom : Job
  chain : Ast → Job

-- The operator that comes next, its precedence and what follows it.
abbrev pub with_prec : String → List Token → Option ℕ → Option (String × ℕ × List Token)
with_prec o ts none = none
with_prec o ts (some p) = some (o, p, ts)

unfoldable pub operator : List Token → Option (String × ℕ × List Token)
unfolding bin_prec
operator [] = none
operator (op o ∷ ts) = with_prec o ts (bin_prec o)
operator (ident name ∷ ts) = if name == "in" then with_prec "in" ts (bin_prec "in") else none
operator (num t ∷ ts) = none
operator (str t ∷ ts) = none
operator (lparen ∷ ts) = none
operator (rparen ∷ ts) = none

unfoldable pub is_unary : String → Bool
is_unary o = o == "!" || o == "-" || o == "~"

-- The prefix operator that comes next.
unfoldable pub prefix : List Token → Option (String × List Token)
unfolding is_unary
prefix [] = none
prefix (op o ∷ ts) = if is_unary o then some (o, ts) else none
prefix (ident name ∷ ts) = none
prefix (num t ∷ ts) = none
prefix (str t ∷ ts) = none
prefix (lparen ∷ ts) = none
prefix (rparen ∷ ts) = none

-- What follows an atom.
pub data Suffix : Type 0 where
  dot bracket : List Token → Suffix
  no_suffix : Suffix

unfoldable pub suffix : List Token → Suffix
suffix [] = no_suffix
suffix (op o ∷ ts) = if o == "." then dot ts else if o == "[" then bracket ts else no_suffix
suffix (ident name ∷ ts) = no_suffix
suffix (num t ∷ ts) = no_suffix
suffix (str t ∷ ts) = no_suffix
suffix (lparen ∷ ts) = no_suffix
suffix (rparen ∷ ts) = no_suffix

abbrev pub then_parse : Parse → (Ast → List Token → Parse) → Parse
then_parse none next = none
then_parse (some (e, ts)) next = next e ts

-- expectDotField and fieldName
abbrev pub field_name : List Token → (String → List Token → Parse) → Parse
field_name (ident f ∷ ts) next = next f ts
field_name [] next = none
field_name (num t ∷ ts) next = none
field_name (str t ∷ ts) next = none
field_name (op t ∷ ts) next = none
field_name (lparen ∷ ts) next = none
field_name (rparen ∷ ts) next = none

abbrev pub closing_bracket : List Token → (List Token → Parse) → Parse
closing_bracket (op o ∷ ts) next = if o == "]" then next ts else none
closing_bracket [] next = none
closing_bracket (num t ∷ ts) next = none
closing_bracket (str t ∷ ts) next = none
closing_bracket (ident t ∷ ts) next = none
closing_bracket (lparen ∷ ts) next = none
closing_bracket (rparen ∷ ts) next = none

abbrev pub closing_paren : List Token → (List Token → Parse) → Parse
closing_paren (rparen ∷ ts) next = next ts
closing_paren [] next = none
closing_paren (num t ∷ ts) next = none
closing_paren (str t ∷ ts) next = none
closing_paren (ident t ∷ ts) next = none
closing_paren (op t ∷ ts) next = none
closing_paren (lparen ∷ ts) next = none

-- Whether what follows a name makes it the beginning of a call or of a struct literal.
unfoldable pub opens : Bool → List Token → Bool
opens upper [] = false
opens upper (lparen ∷ ts) = true
opens upper (op o ∷ ts) = o == "{" && upper
opens upper (rparen ∷ ts) = false
opens upper (num t ∷ ts) = false
opens upper (str t ∷ ts) = false
opens upper (ident t ∷ ts) = false

unfoldable pub from_next : List Token → Bool
from_next [] = false
from_next (ident t ∷ ts) = t == "from"
from_next (lparen ∷ ts) = false
from_next (op o ∷ ts) = false
from_next (rparen ∷ ts) = false
from_next (num t ∷ ts) = false
from_next (str t ∷ ts) = false

module _ (is_upper : String → Bool) (form : List Token → Parse) where
  -- The first part of parsePostfix, after the atom.
  unfoldable pub after_atom : Ast → List Token → Parse
  unfolding opens
  after_atom (ref name) ts =
      if opens (is_upper name) ts then form (ident name ∷ ts) else some (ref name, ts)
  after_atom (number t) ts = some (number t, ts)
  after_atom (text t) ts = some (text t, ts)
  after_atom (boolean b) ts = some (boolean b, ts)
  after_atom (un o x) ts = some (un o x, ts)
  after_atom (bin o l r) ts = some (bin o l r, ts)
  after_atom (get e f) ts = some (get e f, ts)
  after_atom (index e i) ts = some (index e i, ts)

  -- parseAtom's names
  unfoldable pub name_atom : String → List Token → Parse
  unfolding from_next
  name_atom name ts =
      if name == "true"
      then some (boolean true, ts)
      else if name == "false"
      then some (boolean false, ts)
      else if name == "asset" && from_next ts
      then form (ident name ∷ ts)
      else some (ref name, ts)

  abbrev pub climb_on :
      (Job → List Token → Parse) → ℕ → Ast → List Token → Option (String × ℕ × List Token) → Parse
  climb_on go least left ts none = some (left, ts)
  climb_on go least left ts (some (o, p, rest)) =
      if ltb p least
      then some (left, ts)
      else then_parse (go (binary (suc p)) rest)
          λ right more. go (climb least (bin o left right)) more

  abbrev pub unary_on :
      (Job → List Token → Parse) → List Token → Option (String × List Token) → Parse
  unary_on go ts none = go postfix ts
  unary_on go ts (some (o, rest)) = then_parse (go unary rest) λ x more. some (un o x, more)

  abbrev pub chain_on : (Job → List Token → Parse) → Ast → List Token → Suffix → Parse
  chain_on go e ts no_suffix = some (e, ts)
  chain_on go e ts (dot rest) = field_name rest λ f more. go (chain (get e f)) more
  chain_on go e ts (bracket rest) =
      then_parse (go (binary 0) rest)
        λ i more. closing_bracket more λ last. go (chain (index e i)) last

  -- parseAtom
  unfoldable pub atom_on : (Job → List Token → Parse) → List Token → Parse
  unfolding name_atom
  atom_on go [] = none
  atom_on go (num t ∷ ts) = some (number t, ts)
  atom_on go (str t ∷ ts) = some (text t, ts)
  atom_on go (ident name ∷ ts) = name_atom name ts
  atom_on go (lparen ∷ ts) =
      then_parse (go (binary 0) ts) λ e more. closing_paren more λ last. some (e, last)
  atom_on go (rparen ∷ ts) = none
  atom_on go (op o ∷ ts) = if o == "[" || o == "{" then form (op o ∷ ts) else none

  -- One call of parseBinary, its loop, parseUnary, parsePostfix, its loop or parseAtom, with the calls
  -- that it makes.
  unfoldable pub step : (Job → List Token → Parse) → Job → List Token → Parse
  unfolding operator prefix suffix after_atom atom_on
  step go (binary least) ts = then_parse (go unary ts) λ e more. go (climb least e) more
  step go (climb least left) ts = climb_on go least left ts (operator ts)
  step go unary ts = unary_on go ts (prefix ts)
  step go postfix ts =
      then_parse (go atom ts) λ a more. then_parse (after_atom a more) λ e last. go (chain e) last
  step go (chain e) ts = chain_on go e ts (suffix ts)
  step go atom ts = atom_on go ts

  unfoldable pub parse : ℕ → Job → List Token → Parse
  unfolding step
  parse zero job ts = none
  parse (suc n) job ts = step (parse n) job ts

  abbrev pub whole : Parse → Option Ast
  whole (some (e, [])) = some e
  whole (some (e, t ∷ ts)) = none
  whole none = none

  -- parseExpr, on the tokens
  unfoldable pub parse_expr : ℕ → List Token → Option Ast
  unfolding parse
  parse_expr n ts = whole (parse n (binary 0) ts)
