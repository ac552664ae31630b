-- ===== src/Parser/Lex/Pieces.antt =====
-- The pieces that are cut off a text, and where a string literal panics.
use fct.Base.{
  ℕ, ◌<◌, ◌≡◌, refl, sym, ap, ◌∙◌, subst, inl, inr, ◌⊎◌, Bool, true, false, ◌&&◌, ◌||◌, List, [],
  ◌∷◌, ◌++◌, append_assoc, Option, none, some, ◌==◌, nat_eq, if_cases, if_true,
}
use fct.Base.Text.{Text, is_digit}
use fct.Parser.Lex.{
  Lexeme, span, joined, starts_digit, fraction, sign, exponent, exponent_digits, number_end,
  after_byte, quoted, byte_text,
}

pub data Cut : Text → List Lexeme → Type 0 where
  done : Cut [] []
  blank :
      (c : ℕ) (s : Text) (ts : List Lexeme)
      → (c == b' ' || c == b'\t') ≡ true
      → Cut s ts
      → Cut (c ∷ s) ts
  piece :
      (t : Lexeme) (c : ℕ) (s more rest : Text) (ts : List Lexeme)
      → t.text ≡ c ∷ more
      → s ≡ more ++ rest
      → Cut rest ts
      → Cut (c ∷ s) (t ∷ ts)
  encoded :
      (t : Lexeme) (c : ℕ) (s : Text) (ts : List Lexeme)
      → 127 < c
      → t.text ≡ byte_text c
      → Cut s ts
      → Cut (c ∷ s) (t ∷ ts)

-- The last byte is a backslash.
abbrev pub ends_back : Text → Bool
ends_back [] = false
ends_back (c ∷ []) = c == b'\\'
ends_back (c ∷ (d ∷ s)) = ends_back (d ∷ s)

pub ends-more : (c : ℕ) (s : Text) → ends_back s ≡ true → ends_back (c ∷ s) ≡ true
ends-more c [] h = absurd (cc)
ends-more c (d ∷ s) h = h

pub ends-append : (p s : Text) → ends_back s ≡ true → ends_back (p ++ s) ≡ true
ends-append [] s h = h
ends-append (c ∷ p) s h = ends-more c (p ++ s) (ends-append p s h)

abbrev pub Splits : Text → Text × Text → Type 0
Splits s r = s ≡ r.0 ++ r.1

-- The first byte and what follows it of a piece.
abbrev pub Took : ℕ → Text → Text × Text → Type 0
Took c s r = (more : Text) × (r.0 ≡ c ∷ more) × (s ≡ more ++ r.1)

span-Splits : (test : ℕ → Bool) (s : Text) → Splits s (span test s)
unfolding span
span-Splits test [] = refl
span-Splits test (c ∷ s) =
    if_cases (Splits (c ∷ s)) (test c) (c ∷ (span test s).0, (span test s).1) ([], c ∷ s)
      (λ e. ap (λ x. c ∷ x) (span-Splits test s)) λ e. refl

pub span-Took : (test : ℕ → Bool) (c : ℕ) (s : Text) → test c ≡ true → Took c s (span test (c ∷ s))
unfolding span
span-Took test c s h =
    subst (Took c s) (sym (if_true (test c) (c ∷ (span test s).0, (span test s).1) ([], c ∷ s) h))
      ((span test s).0, refl, span-Splits test s)

fraction-Splits : (s : Text) → Splits s (fraction s)
unfolding fraction
fraction-Splits [] = refl
fraction-Splits (c ∷ s) =
    if_cases (Splits (c ∷ s)) (c == b'.' && starts_digit s) (joined (c ∷ []) (span is_digit s))
      ([], c ∷ s) (λ e. ap (λ x. c ∷ x) (span-Splits is_digit s)) λ e. refl

sign-Splits : (s : Text) → Splits s (sign s)
sign-Splits [] = refl
sign-Splits (c ∷ s) =
    if_cases (Splits (c ∷ s)) (c == b'+' || c == b'-') (c ∷ [], s) ([], c ∷ s) (λ e. refl) λ e. refl

exponent-Splits : (s : Text) → Splits s (exponent s)
unfolding exponent
exponent-Splits [] = refl
exponent-Splits (c ∷ s) =
    let front = (sign s).0 in
    let digits = (sign s).1 in
    if_cases (Splits (c ∷ s)) (c == b'e' || c == b'E') (exponent_digits (c ∷ s) c s (sign s))
      ([], c ∷ s)
      (λ e.
        if_cases (Splits (c ∷ s)) (starts_digit digits) (joined (c ∷ front) (span is_digit digits))
          ([], c ∷ s)
          (λ k.
            ap (λ x. c ∷ x)
              (sign-Splits s
                ∙ ap (λ x. front ++ x) (span-Splits is_digit digits)
                ∙ sym (append_assoc front (span is_digit digits).0 (span is_digit digits).1)))
          λ k. refl)
      λ e. refl

pub number-Took : (c : ℕ) (s : Text) → is_digit c ≡ true → Took c s (number_end (c ∷ s))
unfolding number_end
number-Took c s h =
    let whole = span is_digit (c ∷ s) in
    let part = fraction whole.1 in
    let power = exponent part.1 in
    let first = span-Took is_digit c s h in
    (
      (first.0 ++ part.0) ++ power.0,
      ap (λ x. (x ++ part.0) ++ power.0) first.1,
      first.2
          ∙ ap (λ x. first.0 ++ x) (fraction-Splits whole.1)
          ∙ ap (λ x. first.0 ++ (part.0 ++ x)) (exponent-Splits part.1)
          ∙ sym (append_assoc first.0 part.0 (power.0 ++ power.1))
          ∙ sym (append_assoc (first.0 ++ part.0) power.0 power.1),
    )

-- What a string literal leaves, or why it panics.
abbrev pub Quoted : Bool → Text → Option (Text × Text) → Type 0
Quoted b s none = ((s ≡ []) × (b ≡ true)) ⊎ (ends_back s ≡ true)
Quoted b s (some r) = Splits s r

after-Quoted :
    (a b : Bool) (c : ℕ) (s : Text) (r : Option (Text × Text))
    → (b ≡ true → (c == b'\\') ≡ true)
    → Quoted b s r
    → Quoted a (c ∷ s) (after_byte c r)
after-Quoted a b c s (some r) back h = ap (λ x. c ∷ x) h
after-Quoted a b c s none back (inr e) = inr (ends-more c s e)
after-Quoted a b c s none back (inl e) =
    inr (subst (λ t. ends_back (c ∷ t) ≡ true) (sym e.0) (back e.1))

pub quoted-Quoted : (b : Bool) (s : Text) → Quoted b s (quoted b s)
unfolding quoted
quoted-Quoted true [] = inl (refl, refl)
quoted-Quoted false [] = refl
quoted-Quoted true (c ∷ s) =
    after-Quoted true false c s (quoted false s) (λ e. absurd (cc)) (quoted-Quoted false s)
quoted-Quoted false (c ∷ s) =
    let back = c == b'\\' in
    if_cases (Quoted false (c ∷ s)) (c == b'"') (some (c ∷ [], s)) (after_byte c (quoted back s))
      (λ e. refl) λ e. after-Quoted false back c s (quoted back s) (λ k. k) (quoted-Quoted back s)
