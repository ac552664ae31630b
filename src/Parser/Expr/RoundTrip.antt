-- ===== src/Parser/Expr/RoundTrip.antt =====
-- Printing an expression and parsing it again.
use fct.Base.{
  ℕ, suc, ◌+◌, ◌≤◌, String, ◌≡◌, refl, ap, ◌∙◌, Bool, true, false, ◌&&◌, ◌||◌, Option, none, some,
  List, [], ◌∷◌, ◌==◌, string_eq, ltb, arith, if_cases, if_true, if_false,
}
use fct.Parser.Expr.{
  Token, num, str, ident, op, Ast, number, text, boolean, ref, un, bin, get, index, bin_prec,
  operator, prefix, suffix, is_unary, opens, from_next, Parse, unary, atom, name_atom, atom_on,
  parse_expr, whole,
}
use fct.Parser.Expr.Yields.{
  climb_none, climb_go, unary_rule, postfix_rule, chain_dot, chain_bracket, atom_now,
}
use fct.Parser.Expr.Print.{
  level, own, wrapped, token_of, bare, IsAst, Follows, Follows-end, Follows-bracket, Follows-more,
  Follows-token, operator-token,
}
use fct.Parser.Expr.Reads.{
  Gives, Reads, climb-stops, after_atom-same, at_postfix, at_postfix-prefix, at_unary, at_binary,
  operand-binary, tight-Reads,
}

-- No binary operator binds as tightly as a prefix.
bin_prec-bound : (o : String) → level (bin_prec o) ≤ 9
unfolding bin_prec
bin_prec-bound o =
    let P = λ (x : Option ℕ). level x ≤ 9 in
    if_cases P (o == "||") (some 1) _ (λ e. omega arith)
      λ e.
        if_cases P (o == "&&") (some 2) _ (λ e. omega arith)
          λ e.
            if_cases P (o == "|") (some 3) _ (λ e. omega arith)
              λ e.
                if_cases P (o == "^") (some 4) _ (λ e. omega arith)
                  λ e.
                    if_cases P (o == "&") (some 5) _ (λ e. omega arith)
                      λ e.
                        if_cases P
                          (o == "=="
                            || o == "!="
                            || o == "<"
                            || o == "<="
                            || o == ">"
                            || o == ">="
                            || o == "in")
                          (some 6) _ (λ e. omega arith)
                          λ e.
                            if_cases P (o == "<<" || o == ">>") (some 7) _ (λ e. omega arith)
                              λ e.
                                if_cases P (o == "+" || o == "-") (some 8) _ (λ e. omega arith)
                                  λ e.
                                    if_cases P (o == "*" || o == "/" || o == "%") (some 9) none
                                      (λ e. omega arith) λ e. omega arith

module _ (is_upper : String → Bool) (form : List Token → Parse) where
  atom-Reads :
      (e : Ast)
      → ((rest : List Token)
          → from_next rest ≡ false
          → Gives is_upper form atom (bare e rest) e rest)
      → ((rest : List Token) → prefix (bare e rest) ≡ none)
      → Reads is_upper form e
  atom-Reads e read no_prefix =
      tight-Reads is_upper form e
        (λ rest last r o g c.
          postfix_rule is_upper form (bare e rest) rest rest last e e r (read rest g)
            (after_atom-same is_upper form e rest o) c)
        no_prefix

  name-atom :
      (name : String) (rest : List Token)
      → (name == "true") ≡ false
      → (name == "false") ≡ false
      → from_next rest ≡ false
      → name_atom is_upper form name rest ≡ some (ref name, rest)
  unfolding name_atom
  name-atom name rest t f g =
      if_false (name == "true") (some (boolean true, rest)) _ t
      ∙ if_false (name == "false") (some (boolean false, rest)) _ f
      ∙ if_false (name == "asset" && from_next rest) _ (some (ref name, rest)) (ground (arith, g))

  un-Reads :
      (o : String) (x : Ast)
      → is_unary o ≡ true
      → Reads is_upper form x
      → Reads is_upper form (un o x)
  unfolding bare own prefix
  un-Reads o x u k =
      let read : (p : ℕ) (rest : List Token)
          → Follows p rest
          → Gives is_upper form unary (bare (un o x) rest) (un o x) rest =
        λ p rest f.
          unary_rule is_upper form o (bare (un o x) rest) (wrapped (ltb (own x) 10) (bare x) rest)
            rest x (if_true (is_unary o) _ none u)
            (at_unary is_upper form p x rest k f (ltb (own x) 10) refl) in
      record {
        in_binary = λ least rest last r h f c.
            operand-binary is_upper form (un o x) r least 10 rest last read f c;
        in_unary = λ p rest h f. read p rest f;
        in_postfix = λ rest last r h o g c. absurd (omega (arith, h));
        no_prefix = λ rest h. absurd (omega (arith, h));
      }

  bin-Reads :
      (o : String) (l r : Ast) (p : ℕ)
      → bin_prec o ≡ some p
      → Reads is_upper form l
      → Reads is_upper form r
      → Reads is_upper form (bin o l r)
  unfolding bare own
  bin-Reads o l r p e kl kr =
      let q = level (bin_prec o) in
      let same : q ≡ p = ap level e in
      let loose : q ≤ 9 = bin_prec-bound o in
      record {
        in_binary = λ least rest last res h f c.
            let right = wrapped (ltb (own r) (suc q)) (bare r) rest in
            at_binary is_upper form q least l res (token_of o ∷ right) last kl h
              (Follows-token o q p right e (omega (arith, same)))
              (climb_go is_upper form least p o (token_of o ∷ right) right rest last l r res
                (operator-token o p right e) (ground (arith, same, h))
                (at_binary is_upper form (suc q) (suc p) r r rest rest kr (omega (arith, same))
                  (Follows-more q (suc q) rest (omega arith) f)
                  (climb-stops is_upper form q (suc p) rest r (omega (arith, same)) f)
                  (ltb (own r) (suc q)) refl)
                c)
              (ltb (own l) q) refl;
        in_unary = λ p rest h f. absurd (omega (arith, h, loose));
        in_postfix = λ rest last r h o g c. absurd (omega (arith, h, loose));
        no_prefix = λ rest h. absurd (omega (arith, h, loose));
      }

  ast-Reads : (e : Ast) → IsAst e → Reads is_upper form e
  unfolding bare prefix atom_on name_atom suffix opens from_next operator bin_prec
  ast-Reads (number t) w =
      atom-Reads (number t)
        (λ rest g. atom_now is_upper form (num t ∷ rest) rest (number t) λ call. refl) λ rest. refl
  ast-Reads (text t) w =
      atom-Reads (text t)
        (λ rest g. atom_now is_upper form (str t ∷ rest) rest (text t) λ call. refl) λ rest. refl
  ast-Reads (boolean true) w =
      atom-Reads (boolean true)
        (λ rest g. atom_now is_upper form (ident "true" ∷ rest) rest (boolean true) λ call. refl)
        λ rest. refl
  ast-Reads (boolean false) w =
      atom-Reads (boolean false)
        (λ rest g. atom_now is_upper form (ident "false" ∷ rest) rest (boolean false) λ call. refl)
        λ rest. refl
  ast-Reads (ref name) w =
      atom-Reads (ref name)
        (λ rest g.
          atom_now is_upper form (ident name ∷ rest) rest (ref name)
            λ call. name-atom name rest w.0 w.1 g)
        λ rest. refl
  ast-Reads (un o x) w = un-Reads o x w.0 (ast-Reads x w.1)
  ast-Reads (bin o l r) w = bin-Reads o l r w.0.0 w.0.1 (ast-Reads l w.1) (ast-Reads r w.2)
  ast-Reads (get e f) w =
      let k = ast-Reads e w in
      tight-Reads is_upper form (get e f)
        (λ rest last r o g c.
          at_postfix is_upper form e r (op "." ∷ (ident f ∷ rest)) last k (λ u. refl) refl
            (chain_dot is_upper form f (op "." ∷ (ident f ∷ rest)) rest last e r refl c)
            (ltb (own e) 11) refl)
        λ rest.
          at_postfix-prefix is_upper form e (op "." ∷ (ident f ∷ rest)) k (ltb (own e) 11) refl
  ast-Reads (index e i) w =
      let k = ast-Reads e w.0 in
      let ki = ast-Reads i w.1 in
      let tail = λ (rest : List Token). op "[" ∷ bare i (op "]" ∷ rest) in
      tight-Reads is_upper form (index e i)
        (λ rest last r o g c.
          at_postfix is_upper form e r (tail rest) last k (λ u. refl) refl
            (chain_bracket is_upper form (tail rest) (bare i (op "]" ∷ rest)) rest last e i r refl
              (ki.in_binary 0 (op "]" ∷ rest) (op "]" ∷ rest) i (omega arith)
                (Follows-bracket (own i) rest) (climb_none is_upper form 0 (op "]" ∷ rest) i refl))
              c)
            (ltb (own e) 11) refl)
        λ rest. at_postfix-prefix is_upper form e (tail rest) k (ltb (own e) 11) refl

-- An expression of literals, names, prefix and binary operators, fields and indices, printed with
-- parentheses only where its precedences and the left association of its operators want them, is read
-- back as itself, with all fuel from some amount on.
pub parse_expr-bare :
    (is_upper : String → Bool) (form : List Token → Parse) (e : Ast)
    → IsAst e
    → (k : ℕ) × ((more : ℕ) → parse_expr is_upper form (k + more) (bare e []) ≡ some e)
unfolding parse_expr operator
parse_expr-bare is_upper form e w =
    let k = ast-Reads is_upper form e w in
    let read =
      k.in_binary 0 [] [] e (omega arith) (Follows-end (own e))
        (climb_none is_upper form 0 [] e refl) in
    (read.0, λ more. ap (whole is_upper form) (read.1 (read.0 + more) (omega arith)))
