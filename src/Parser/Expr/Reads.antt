-- ===== src/Parser/Expr/Reads.antt =====
-- The parser reads what was printed, by the precedence and to the left.
use fct.Base.{
  ℕ, suc, ◌≤◌, String, ◌≡◌, refl, inl, inr, Bool, true, false, none, some, List, ◌∷◌, string_eq,
  ltb, arith, if_false,
}
use fct.Parser.Expr.{
  Token, lparen, rparen, Ast, number, text, boolean, ref, un, bin, get, index, operator, prefix,
  opens, from_next, Parse, Job, binary, climb, unary, postfix, chain, after_atom,
}
use fct.Parser.Expr.Yields.{
  Yields, binary_rule, climb_none, climb_stop, unary_postfix, postfix_rule, chain_stop, atom_paren,
}
use fct.Parser.Expr.Print.{level, own, wrapped, bare, Follows, Follows-paren, Follows-more}

module _ (is_upper : String → Bool) (form : List Token → Parse) where
  abbrev pub Gives : Job → List Token → Ast → List Token → Type 0
  Gives = Yields is_upper form

  -- What the parser does with a printed expression, without parentheses around it.
  pub record Reads (e : Ast) : Type 0 where
    pub in_binary :
        (least : ℕ) (rest last : List Token) (r : Ast)
        → least ≤ own e
        → Follows (own e) rest
        → Gives (climb least e) rest r last
        → Gives (binary least) (bare e rest) r last
    pub in_unary :
        (p : ℕ) (rest : List Token) → 10 ≤ own e → Follows p rest → Gives unary (bare e rest) e rest
    pub in_postfix :
        (rest last : List Token) (r : Ast)
        → 11 ≤ own e
        → ((u : Bool) → opens u rest ≡ false)
        → from_next rest ≡ false
        → Gives (chain e) rest r last
        → Gives postfix (bare e rest) r last
    pub no_prefix : (rest : List Token) → 11 ≤ own e → prefix (bare e rest) ≡ none

  pub climb-stops :
      (p least : ℕ) (ts : List Token) (e : Ast)
      → suc p ≤ least
      → Follows p ts
      → Gives (climb least e) ts e ts
  climb-stops p least ts e h f = elim f.stops [
    | inl k ↦ climb_none is_upper form least ts e k
    | inr s ↦ climb_stop is_upper form least s.1 s.0 ts s.2 e s.3 (ground (arith, h, s.4))
  ]

  pub after_atom-same :
      (e : Ast) (rest : List Token)
      → ((u : Bool) → opens u rest ≡ false)
      → after_atom is_upper form e rest ≡ some (e, rest)
  unfolding after_atom
  after_atom-same (number t) rest h = refl
  after_atom-same (text t) rest h = refl
  after_atom-same (boolean b) rest h = refl
  after_atom-same (un o x) rest h = refl
  after_atom-same (bin o l r) rest h = refl
  after_atom-same (get e f) rest h = refl
  after_atom-same (index e i) rest h = refl
  after_atom-same (ref name) rest h =
      if_false (opens (is_upper name) rest) _ (some (ref name, rest)) (h (is_upper name))

  -- An expression in parentheses.
  paren-postfix :
      (e r : Ast) (rest last : List Token)
      → Reads e
      → ((u : Bool) → opens u rest ≡ false)
      → Gives (chain e) rest r last
      → Gives postfix (lparen ∷ bare e (rparen ∷ rest)) r last
  unfolding operator
  paren-postfix e r rest last k h c =
      postfix_rule is_upper form (lparen ∷ bare e (rparen ∷ rest)) rest rest last e e r
        (atom_paren is_upper form (bare e (rparen ∷ rest)) rest e (
          k.in_binary 0 (rparen ∷ rest) (rparen ∷ rest) e (omega arith) (Follows-paren (own e) rest)
            (climb_none is_upper form 0 (rparen ∷ rest) e refl)))
        (after_atom-same e rest h) c

  paren-unary :
      (p : ℕ) (e : Ast) (rest : List Token)
      → Reads e
      → Follows p rest
      → Gives unary (lparen ∷ bare e (rparen ∷ rest)) e rest
  unfolding prefix
  paren-unary p e rest k f =
      unary_postfix is_upper form (lparen ∷ bare e (rparen ∷ rest)) rest e refl
        (paren-postfix e e rest rest k f.no_opening (chain_stop is_upper form rest e f.no_chain))

  pub at_postfix :
      (e r : Ast) (rest last : List Token)
      → Reads e
      → ((u : Bool) → opens u rest ≡ false)
      → from_next rest ≡ false
      → Gives (chain e) rest r last
      → (b : Bool) → ltb (own e) 11 ≡ b
      → Gives postfix (wrapped b (bare e) rest) r last
  at_postfix e r rest last k h g c true q = paren-postfix e r rest last k h c
  at_postfix e r rest last k h g c false q = k.in_postfix rest last r (ground (arith, q)) h g c

  pub at_postfix-prefix :
      (e : Ast) (rest : List Token)
      → Reads e
      → (b : Bool) → ltb (own e) 11 ≡ b
      → prefix (wrapped b (bare e) rest) ≡ none
  unfolding prefix
  at_postfix-prefix e rest k true q = refl
  at_postfix-prefix e rest k false q = k.no_prefix rest (ground (arith, q))

  pub at_unary :
      (p : ℕ) (e : Ast) (rest : List Token)
      → Reads e
      → Follows p rest
      → (b : Bool) → ltb (own e) 10 ≡ b
      → Gives unary (wrapped b (bare e) rest) e rest
  at_unary p e rest k f true q = paren-unary p e rest k f
  at_unary p e rest k f false q = k.in_unary p rest (ground (arith, q)) f

  pub at_binary :
      (level least : ℕ) (e r : Ast) (rest last : List Token)
      → Reads e
      → least ≤ level
      → Follows level rest
      → Gives (climb least e) rest r last
      → (b : Bool) → ltb (own e) level ≡ b
      → Gives (binary least) (wrapped b (bare e) rest) r last
  at_binary level least e r rest last k h f c true q =
      binary_rule is_upper form least (lparen ∷ bare e (rparen ∷ rest)) rest last e r
        (paren-unary level e rest k f) c
  at_binary level least e r rest last k h f c false q =
      let wide : level ≤ own e = ground (arith, q) in
      k.in_binary least rest last r (omega (arith, h, wide))
        (Follows-more level (own e) rest wide f) c

  -- What binds as tightly as a prefix operator is read as an operand.
  pub operand-binary :
      (e r : Ast) (least p : ℕ) (rest last : List Token)
      → ((p : ℕ) (rest : List Token) → Follows p rest → Gives unary (bare e rest) e rest)
      → Follows p rest
      → Gives (climb least e) rest r last
      → Gives (binary least) (bare e rest) r last
  operand-binary e r least p rest last k f c =
      binary_rule is_upper form least (bare e rest) rest last e r (k p rest f) c

  -- What binds most tightly is read by parsePostfix.
  pub tight-Reads :
      (e : Ast)
      → ((rest last : List Token) (r : Ast)
          → ((u : Bool) → opens u rest ≡ false)
          → from_next rest ≡ false
          → Gives (chain e) rest r last
          → Gives postfix (bare e rest) r last)
      → ((rest : List Token) → prefix (bare e rest) ≡ none)
      → Reads e
  tight-Reads e read no_prefix =
      let in_unary : (p : ℕ) (rest : List Token)
          → Follows p rest
          → Gives unary (bare e rest) e rest =
        λ p rest f.
          unary_postfix is_upper form (bare e rest) rest e (no_prefix rest) (
            read rest rest e f.no_opening f.no_from (chain_stop is_upper form rest e f.no_chain)) in
      record {
        in_binary =
            λ least rest last r h f c. operand-binary e r least (own e) rest last in_unary f c;
        in_unary = λ p rest h f. in_unary p rest f;
        in_postfix = λ rest last r h o g c. read rest last r o g c;
        no_prefix = λ rest h. no_prefix rest;
      }
