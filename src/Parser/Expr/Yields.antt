-- ===== src/Parser/Expr/Yields.antt =====
-- What the parser answers for all fuel that is large enough, one rule for each of its branches.
use fct.Base.{
  ℕ, zero, suc, ◌+◌, ◌≤◌, String, ◌≡◌, refl, ap, ◌∙◌, Bool, true, false, none, some, List, ◌∷◌,
  string_eq, ltb, arith, if_true, if_false,
}
use fct.Parser.Expr.{
  Token, ident, op, lparen, rparen, Ast, bin, un, get, index, Parse, Job, binary, climb, unary,
  postfix, atom, chain, operator, prefix, suffix, dot, bracket, no_suffix, then_parse,
  closing_bracket, closing_paren, after_atom, atom_on, climb_on, unary_on, chain_on, step, parse,
}

module _ (is_upper : String → Bool) (form : List Token → Parse) where
  abbrev pub Yields : Job → List Token → Ast → List Token → Type 0
  Yields job ts e rest = (k : ℕ) × ((n : ℕ) → k ≤ n → parse is_upper form n job ts ≡ some (e, rest))

  -- A call that a branch answers from two others.
  Yields-step :
      (job : Job) (ts : List Token) (e : Ast) (rest : List Token) (k : ℕ)
      → ((n : ℕ) → k ≤ n → step is_upper form (parse is_upper form n) job ts ≡ some (e, rest))
      → Yields job ts e rest
  unfolding parse
  Yields-step job ts e rest k h = (suc k, λ n m. more n m)
    where
      more : (n : ℕ) → suc k ≤ n → parse is_upper form n job ts ≡ some (e, rest)
      more zero m = absurd (omega (arith, m))
      more (suc n) m = h n (omega (arith, m))

  then-eq :
      (p : Parse) (next : Ast → List Token → Parse) (e : Ast) (ts : List Token) (r : Parse)
      → p ≡ some (e, ts)
      → next e ts ≡ r
      → then_parse p next ≡ r
  then-eq p next e ts r h k = ap (λ p. then_parse p next) h ∙ k

  abbrev go : ℕ → Job → List Token → Parse
  go = parse is_upper form

  pub binary_rule :
      (least : ℕ) (ts more last : List Token) (e r : Ast)
      → Yields unary ts e more
      → Yields (climb least e) more r last
      → Yields (binary least) ts r last
  unfolding step
  binary_rule least ts more last e r a b = Yields-step (binary least) ts r last (a.0 + b.0) λ n m.
      then-eq (go n unary ts) (λ e more. go n (climb least e) more) e more (some (r, last))
        (a.1 n (omega (arith, m))) (b.1 n (omega (arith, m)))

  pub climb_none :
      (least : ℕ) (ts : List Token) (e : Ast) → operator ts ≡ none → Yields (climb least e) ts e ts
  unfolding step
  climb_none least ts e o =
      Yields-step (climb least e) ts e ts 0 λ n m. ap (climb_on is_upper form (go n) least e ts) o

  pub climb_stop :
      (least p : ℕ) (o : String) (ts rest : List Token) (e : Ast)
      → operator ts ≡ some (o, p, rest)
      → ltb p least ≡ true
      → Yields (climb least e) ts e ts
  unfolding step
  climb_stop least p o ts rest e h k = Yields-step (climb least e) ts e ts 0 λ n m.
      ap (climb_on is_upper form (go n) least e ts) h ∙ if_true (ltb p least) (some (e, ts)) _ k

  pub climb_go :
      (least p : ℕ) (o : String) (ts rest more last : List Token) (e right r : Ast)
      → operator ts ≡ some (o, p, rest)
      → ltb p least ≡ false
      → Yields (binary (suc p)) rest right more
      → Yields (climb least (bin o e right)) more r last
      → Yields (climb least e) ts r last
  unfolding step
  climb_go least p o ts rest more last e right r h k a b =
      Yields-step (climb least e) ts r last (a.0 + b.0) λ n m.
        ap (climb_on is_upper form (go n) least e ts) h
        ∙ if_false (ltb p least) (some (e, ts)) _ k
        ∙ then-eq (go n (binary (suc p)) rest)
            (λ right more. go n (climb least (bin o e right)) more) right more (some (r, last))
            (a.1 n (omega (arith, m))) (b.1 n (omega (arith, m)))

  pub unary_rule :
      (o : String) (ts rest more : List Token) (x : Ast)
      → prefix ts ≡ some (o, rest)
      → Yields unary rest x more
      → Yields unary ts (un o x) more
  unfolding step
  unary_rule o ts rest more x h a = Yields-step unary ts (un o x) more a.0 λ n m.
      ap (unary_on is_upper form (go n) ts) h
      ∙ then-eq (go n unary rest) (λ x more. some (un o x, more)) x more (some (un o x, more))
          (a.1 n m) refl

  pub unary_postfix :
      (ts more : List Token) (x : Ast)
      → prefix ts ≡ none
      → Yields postfix ts x more
      → Yields unary ts x more
  unfolding step
  unary_postfix ts more x h a =
      Yields-step unary ts x more a.0 λ n m. ap (unary_on is_upper form (go n) ts) h ∙ a.1 n m

  pub postfix_rule :
      (ts more last fin : List Token) (a e r : Ast)
      → Yields atom ts a more
      → after_atom is_upper form a more ≡ some (e, last)
      → Yields (chain e) last r fin
      → Yields postfix ts r fin
  unfolding step
  postfix_rule ts more last fin a e r x h b = Yields-step postfix ts r fin (x.0 + b.0) λ n m.
      then-eq (go n atom ts)
        (λ a more. then_parse (after_atom is_upper form a more) λ e last. go n (chain e) last) a
        more (some (r, fin)) (x.1 n (omega (arith, m)))
        (then-eq (after_atom is_upper form a more) (λ e last. go n (chain e) last) e last
          (some (r, fin)) h (b.1 n (omega (arith, m))))

  pub chain_stop : (ts : List Token) (e : Ast) → suffix ts ≡ no_suffix → Yields (chain e) ts e ts
  unfolding step
  chain_stop ts e h =
      Yields-step (chain e) ts e ts 0 λ n m. ap (chain_on is_upper form (go n) e ts) h

  pub chain_dot :
      (f : String) (ts more fin : List Token) (e r : Ast)
      → suffix ts ≡ dot (ident f ∷ more)
      → Yields (chain (get e f)) more r fin
      → Yields (chain e) ts r fin
  unfolding step
  chain_dot f ts more fin e r h b =
      Yields-step (chain e) ts r fin b.0 λ n m. ap (chain_on is_upper form (go n) e ts) h ∙ b.1 n m

  pub chain_bracket :
      (ts rest more fin : List Token) (e i r : Ast)
      → suffix ts ≡ bracket rest
      → Yields (binary 0) rest i (op "]" ∷ more)
      → Yields (chain (index e i)) more r fin
      → Yields (chain e) ts r fin
  unfolding step
  chain_bracket ts rest more fin e i r h a b = Yields-step (chain e) ts r fin (a.0 + b.0) λ n m.
      ap (chain_on is_upper form (go n) e ts) h
      ∙ then-eq (go n (binary 0) rest)
          (λ i more. closing_bracket more λ last. go n (chain (index e i)) last) i (op "]" ∷ more)
          (some (r, fin)) (a.1 n (omega (arith, m))) (b.1 n (omega (arith, m)))

  pub atom_paren :
      (ts more : List Token) (e : Ast)
      → Yields (binary 0) ts e (rparen ∷ more)
      → Yields atom (lparen ∷ ts) e more
  unfolding step atom_on
  atom_paren ts more e a = Yields-step atom (lparen ∷ ts) e more a.0 λ n m.
      then-eq (go n (binary 0) ts) (λ e more. closing_paren more λ last. some (e, last)) e
        (rparen ∷ more) (some (e, more)) (a.1 n m) refl

  pub atom_now :
      (ts more : List Token) (e : Ast)
      → ((call : Job → List Token → Parse) → atom_on is_upper form call ts ≡ some (e, more))
      → Yields atom ts e more
  unfolding step
  atom_now ts more e h = Yields-step atom ts e more 0 λ n m. h (go n)
