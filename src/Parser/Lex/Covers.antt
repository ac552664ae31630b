-- ===== src/Parser/Lex/Covers.antt =====
-- The tokens of a text are the text, cut into pieces, without the blanks between them.
use fct.Base.{
  ℕ, zero, suc, ◌≤◌, ◌<◌, ◌≡◌, refl, sym, ap, subst, inl, inr, ◌⊎◌, true, false, ◌||◌, [], ◌∷◌,
  ◌++◌, Option, none, some, ◌==◌, nat_eq, leb, length, length-append, arith, Bool-cases, if_cases,
  if_true,
}
use fct.Base.Text.{Text, is_digit}
use fct.Parser.Lex.{
  Kind, num, ident, op, lparen, rparen, Lexeme, is_ident_start, is_ident_char, span, number_end,
  after_byte, quoted, is_double, byte_text, operator_end, lexeme, string_lexeme, lex_one, Lexed,
  tokens, panics, out_of_fuel, then_tokens, lex_next, tokenize,
}
use fct.Parser.Lex.Pieces.{
  Cut, done, blank, piece, encoded, ends_back, ends-more, ends-append, Took, span-Took, number-Took,
  Quoted, quoted-Quoted,
}

-- What the first token of a text leaves, or why it panics.
abbrev One : ℕ → Text → Option (Lexeme × Text) → Type 0
One c s none = ends_back (c ∷ s) ≡ true
One c s (some (t, rest)) =
    ((more : Text) × (t.text ≡ c ∷ more) × (s ≡ more ++ rest))
    ⊎ ((127 < c) × (t.text ≡ byte_text c) × (rest ≡ s))

lexeme-One : (k : Kind) (c : ℕ) (s : Text) (r : Text × Text) → Took c s r → One c s (lexeme k r)
lexeme-One k c s (p, rest) h = inl (h.0, h.1, h.2)

single-One : (c : ℕ) (s : Text) → One c s (lexeme op (byte_text c, s))
single-One c s = elim (Bool-cases (leb c 127)) [
  | inl e ↦ inl ([], if_true (leb c 127) (c ∷ []) _ e, refl)
  | inr e ↦ inr (ground (arith, e), refl, refl)
]

operator-One : (c : ℕ) (s : Text) → One c s (lexeme op (operator_end c s))
operator-One c [] = single-One c []
operator-One c (d ∷ s) =
    if_cases (λ r. One c (d ∷ s) (lexeme op r)) (is_double c d) (c ∷ d ∷ [], s) (byte_text c, d ∷ s)
      (λ e. inl (d ∷ [], refl, refl)) λ e. single-One c (d ∷ s)

string-One :
    (c : ℕ) (s : Text) (r : Option (Text × Text))
    → Quoted false s r
    → One c s (string_lexeme (after_byte c r))
string-One c s (some (p, rest)) h = inl (p, refl, h)
string-One c s none (inr e) = ends-more c s e
string-One c s none (inl e) = absurd (cc (e.1))

lex_one-One : (c : ℕ) (s : Text) → One c s (lex_one c s)
unfolding lex_one
lex_one-One c s =
    if_cases (One c s) (c == b'(') _ _ (λ e. lexeme-One lparen c s (c ∷ [], s) ([], refl, refl))
      λ e.
        if_cases (One c s) (c == b')') _ _ (λ e. lexeme-One rparen c s (c ∷ [], s) ([], refl, refl))
          λ e.
            if_cases (One c s) (c == b'"') _ _
              (λ e. string-One c s (quoted false s) (quoted-Quoted false s))
              λ e.
                if_cases (One c s) (is_digit c) _ _
                  (λ e. lexeme-One num c s (number_end (c ∷ s)) (number-Took c s e))
                  λ e.
                    if_cases (One c s) (is_ident_start c) _ _
                      (λ e.
                        lexeme-One ident c s (span is_ident_char (c ∷ s))
                          (span-Took is_ident_char c s (ground (arith, e))))
                      λ e. operator-One c s

-- What tokenize answers of a text.
abbrev pub Covers : Text → Lexed → Type 0
Covers s (tokens ts) = Cut s ts
Covers s panics = ends_back s ≡ true
Covers s out_of_fuel = ⊥

blank-Covers :
    (c : ℕ) (s : Text) (r : Lexed)
    → (c == b' ' || c == b'\t') ≡ true
    → Covers s r
    → Covers (c ∷ s) r
blank-Covers c s (tokens ts) e h = blank c s ts e h
blank-Covers c s panics e h = ends-more c s h
blank-Covers c s out_of_fuel e h = h

piece-Covers :
    (t : Lexeme) (c : ℕ) (s more rest : Text) (r : Lexed)
    → t.text ≡ c ∷ more
    → s ≡ more ++ rest
    → Covers rest r
    → Covers (c ∷ s) (then_tokens t r)
piece-Covers t c s more rest (tokens ts) e k h = piece t c s more rest ts e k h
piece-Covers t c s more rest panics e k h =
    ends-more c s (subst (λ x. ends_back x ≡ true) (sym k) (ends-append more rest h))
piece-Covers t c s more rest out_of_fuel e k h = h

encoded-Covers :
    (t : Lexeme) (c : ℕ) (s : Text) (r : Lexed)
    → 127 < c
    → t.text ≡ byte_text c
    → Covers s r
    → Covers (c ∷ s) (then_tokens t r)
encoded-Covers t c s (tokens ts) k e h = encoded t c s ts k e h
encoded-Covers t c s panics k e h = ends-more c s h
encoded-Covers t c s out_of_fuel k e h = h

next-Covers :
    (go : Text → Lexed) (c : ℕ) (s : Text) (r : Option (Lexeme × Text))
    → ((rest : Text) → length rest ≤ length s → Covers rest (go rest))
    → One c s r
    → Covers (c ∷ s) (lex_next go r)
next-Covers go c s none ih h = h
next-Covers go c s (some (t, rest)) ih (inl h) =
    piece-Covers t c s h.0 rest (go rest) h.1 h.2
      (ih rest (omega (arith, ap length h.2, length-append h.0 rest)))
next-Covers go c s (some (t, rest)) ih (inr h) =
    encoded-Covers t c s (go rest) h.0 h.1
      (subst (λ x. Covers x (go rest)) h.2 (ih rest (omega (arith, ap length h.2))))

-- With fuel for one round per byte, the loop over a text comes to its end. It answers tokens whose
-- texts, in order, are all of the text but for blanks between them, where a byte above 127 outside the
-- literals becomes the two bytes that encode it; or it panics, and then the text ends in a backslash.
pub tokenize-Covers : (n : ℕ) (s : Text) → length s ≤ n → Covers s (tokenize n s)
unfolding tokenize
tokenize-Covers n [] h = done
tokenize-Covers zero (c ∷ s) h = absurd (omega (arith, h))
tokenize-Covers (suc n) (c ∷ s) h =
    if_cases (Covers (c ∷ s)) (c == b' ' || c == b'\t') (tokenize n s)
      (lex_next (tokenize n) (lex_one c s))
      (λ e. blank-Covers c s (tokenize n s) e (tokenize-Covers n s (omega (arith, h))))
      λ e.
        next-Covers (tokenize n) c s (lex_one c s)
          (λ rest k. tokenize-Covers n rest (omega (arith, h, k))) (lex_one-One c s)
