-- ===== src/Parser/Expr/Print.antt =====
-- Expressions as tokens, with the parentheses that their precedence needs, and what may follow them.
use fct.Base.{
  ℕ, suc, ◌≤◌, String, ◌≡◌, refl, sym, ap, ◌∙◌, inl, inr, ◌⊎◌, Bool, true, false, ◌&&◌, Option,
  none, some, List, [], ◌∷◌, ◌==◌, string_eq, if◌then◌else◌, ltb, arith, Bool-cases, if_cases,
  if_false,
}
use fct.Parser.Expr.{
  Token, num, str, ident, op, lparen, rparen, Ast, number, text, boolean, ref, un, bin, get, index,
  bin_prec, with_prec, operator, suffix, no_suffix, is_unary, opens, from_next,
}

abbrev pub level : Option ℕ → ℕ
level none = 0
level (some p) = p

-- How tightly an expression binds.
unfoldable pub own : Ast → ℕ
unfolding bin_prec
own (bin o l r) = level (bin_prec o)
own (un o x) = 10
own (number t) = 11
own (text t) = 11
own (boolean b) = 11
own (ref name) = 11
own (get e f) = 11
own (index e i) = 11

abbrev pub wrapped : Bool → (List Token → List Token) → List Token → List Token
wrapped true print rest = lparen ∷ print (rparen ∷ rest)
wrapped false print rest = print rest

abbrev pub token_of : String → Token
token_of o = if o == "in" then ident "in" else op o

abbrev pub bool_name : Bool → String
bool_name true = "true"
bool_name false = "false"

-- The tokens of an expression, before those that follow it.
unfoldable pub bare : Ast → List Token → List Token
unfolding own bin_prec
bare (number t) rest = num t ∷ rest
bare (text t) rest = str t ∷ rest
bare (boolean b) rest = ident (bool_name b) ∷ rest
bare (ref name) rest = ident name ∷ rest
bare (un o x) rest = op o ∷ wrapped (ltb (own x) 10) (bare x) rest
bare (bin o l r) rest =
    let p = level (bin_prec o) in
    wrapped (ltb (own l) p) (bare l) (token_of o ∷ wrapped (ltb (own r) (suc p)) (bare r) rest)
bare (get e f) rest = wrapped (ltb (own e) 11) (bare e) (op "." ∷ (ident f ∷ rest))
bare (index e i) rest = wrapped (ltb (own e) 11) (bare e) (op "[" ∷ bare i (op "]" ∷ rest))

-- The expressions of these forms that a program can have: known operators, and names that are not
-- literals.
abbrev pub IsAst : Ast → Type 0
IsAst (number t) = Unit
IsAst (text t) = Unit
IsAst (boolean b) = Unit
IsAst (ref name) = ((name == "true") ≡ false) × ((name == "false") ≡ false)
IsAst (un o x) = (is_unary o ≡ true) × IsAst x
IsAst (bin o l r) = ((p : ℕ) × (bin_prec o ≡ some p)) × IsAst l × IsAst r
IsAst (get e f) = IsAst e
IsAst (index e i) = IsAst e × IsAst i

-- What may follow an expression that was printed for the precedence p.
pub record Follows (p : ℕ) (ts : List Token) : Type 0 where
  pub no_chain : suffix ts ≡ no_suffix
  pub no_opening : (u : Bool) → opens u ts ≡ false
  pub no_from : from_next ts ≡ false
  pub stops :
      (operator ts ≡ none)
      ⊎ ((o : String) × (q : ℕ) × (rest : List Token) × (operator ts ≡ some (o, q, rest)) × (q ≤ p))

pub Follows-end : (p : ℕ) → Follows p []
unfolding suffix opens from_next operator
Follows-end p = record { no_chain = refl; no_opening = λ u. refl; no_from = refl; stops = inl refl }

pub Follows-paren : (p : ℕ) (ts : List Token) → Follows p (rparen ∷ ts)
unfolding suffix opens from_next operator
Follows-paren p ts = record {
  no_chain = refl;
  no_opening = λ u. refl;
  no_from = refl;
  stops = inl refl;
}

pub Follows-bracket : (p : ℕ) (ts : List Token) → Follows p (op "]" ∷ ts)
unfolding suffix opens from_next operator bin_prec
Follows-bracket p ts = record {
  no_chain = refl;
  no_opening = λ u. refl;
  no_from = refl;
  stops = inl refl;
}

pub Follows-more : (p q : ℕ) (ts : List Token) → p ≤ q → Follows p ts → Follows q ts
Follows-more p q ts h f = record {
  no_chain = f.no_chain;
  no_opening = f.no_opening;
  no_from = f.no_from;
  stops = elim f.stops [ inl e ↦ inl e | inr s ↦ inr (s.0, s.1, s.2, s.3, omega (arith, h, s.4)) ];
}

differs : (o s : String) (p : ℕ) → bin_prec s ≡ none → bin_prec o ≡ some p → (o == s) ≡ false
differs o s p a b = elim (Bool-cases (o == s)) [
  | inr e ↦ e
  | inl e ↦ absurd (cc (a, b, (string_eq.decides o s).0 e))
]

pub operator-token :
    (o : String) (p : ℕ) (ts : List Token)
    → bin_prec o ≡ some p
    → operator (token_of o ∷ ts) ≡ some (o, p, ts)
unfolding operator
operator-token o p ts h =
    if_cases (λ t. operator (t ∷ ts) ≡ some (o, p, ts)) (o == "in") (ident "in") (op o)
      (λ e.
        let q : o ≡ "in" = (string_eq.decides o "in").0 e in
        ap (with_prec "in" ts) (ap bin_prec (sym q) ∙ h) ∙ ap (λ x. some (x, p, ts)) (sym q))
      λ e. ap (with_prec o ts) h

pub Follows-token :
    (o : String) (p q : ℕ) (ts : List Token)
    → bin_prec o ≡ some q
    → q ≤ p
    → Follows p (token_of o ∷ ts)
unfolding suffix opens from_next bin_prec
Follows-token o p q ts h k = record {
  no_chain =
      if_cases (λ t. suffix (t ∷ ts) ≡ no_suffix) (o == "in") (ident "in") (op o) (λ e. refl)
        λ e.
          if_false (o == ".") _ _ (differs o "." q refl h)
          ∙ if_false (o == "[") _ no_suffix (differs o "[" q refl h);
  no_opening = λ u.
      if_cases (λ t. opens u (t ∷ ts) ≡ false) (o == "in") (ident "in") (op o) (λ e. refl)
        λ e. ap (λ b. b && u) (differs o "{" q refl h);
  no_from =
      if_cases (λ t. from_next (t ∷ ts) ≡ false) (o == "in") (ident "in") (op o) (λ e. refl)
        λ e. refl;
  stops = inr (o, q, ts, operator-token o q ts h, k);
}
