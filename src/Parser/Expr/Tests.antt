-- ===== src/Parser/Expr/Tests.antt =====
-- `a - (b - c) * -d.f[0] in e || !g`, with its tokens.
use fct.Base.{ℕ, ◌+◌, ◌≡◌, refl, String, Bool, none, some, List, [], ◌∷◌, ◌==◌, string_eq}
use fct.Parser.Expr.{
  Token, num, ident, op, lparen, rparen, Ast, number, ref, un, bin, get, index, Parse, bin_prec,
  operator, prefix, suffix, is_unary, opens, from_next, after_atom, name_atom, atom_on, step, parse,
  parse_expr,
}
use fct.Parser.Expr.Print.{own, bare, IsAst}
use fct.Parser.Expr.RoundTrip.{parse_expr-bare}

abbrev no_forms : List Token → Parse
no_forms ts = none

abbrev capital : String → Bool
capital name = name == "Post"

abbrev sum_of : Ast
sum_of =
    bin "||"
      (bin "in"
        (bin "-" (ref "a")
          (bin "*" (bin "-" (ref "b") (ref "c")) (un "-" (index (get (ref "d") "f") (number "0")))))
        (ref "e"))
      (un "!" (ref "g"))

-- Only the inner difference has parentheses.
abbrev tokens : List Token
tokens =
    ident "a"
    ∷ op "-"
    ∷ lparen
    ∷ ident "b"
    ∷ op "-"
    ∷ ident "c"
    ∷ rparen
    ∷ op "*"
    ∷ op "-"
    ∷ ident "d"
    ∷ op "."
    ∷ ident "f"
    ∷ op "["
    ∷ num "0"
    ∷ op "]"
    ∷ ident "in"
    ∷ ident "e"
    ∷ op "||"
    ∷ op "!"
    ∷ ident "g"
    ∷ []

printed : bare sum_of [] ≡ tokens
unfolding bare own bin_prec
printed = refl

read_back : parse_expr capital no_forms 40 tokens ≡ some sum_of
unfolding parse_expr parse step operator prefix suffix after_atom atom_on name_atom bin_prec
    is_unary opens from_next
read_back = refl

unclosed : parse_expr capital no_forms 40 (lparen ∷ ident "a" ∷ []) ≡ none
unfolding parse_expr parse step operator prefix suffix after_atom atom_on name_atom bin_prec
    is_unary opens from_next
unclosed = refl

sum_of-IsAst : IsAst sum_of
unfolding bin_prec is_unary
sum_of-IsAst = (
  (1, refl),
  (
    (6, refl),
    (
      (8, refl),
      (refl, refl),
      ((9, refl), ((8, refl), (refl, refl), (refl, refl)), (refl, ((refl, refl), tt))),
    ),
    (refl, refl),
  ),
  (refl, (refl, refl)),
)

parse_expr-bare_example :
    (k : ℕ) × ((more : ℕ) → parse_expr capital no_forms (k + more) (bare sum_of []) ≡ some sum_of)
parse_expr-bare_example = parse_expr-bare capital no_forms sum_of sum_of-IsAst
