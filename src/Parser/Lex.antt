-- ===== src/Parser/Lex.antt =====
-- internal/parser/expr.go: the tokens of an expression's text, a list of bytes.
-- A piece that is cut off is returned with the text that follows it. `panics` is the slice out of
-- range of a string literal that ends in a backslash.
pub mod Pieces
pub mod Covers
mod Tests
use fct.Base.{
  ℕ, zero, suc, Bool, true, false, ◌&&◌, ◌||◌, List, [], ◌∷◌, ◌++◌, Option, none, some, ◌==◌,
  nat_eq, ◌+◌, ◌/◌, ◌%◌, if◌then◌else◌, leb,
}
use fct.Base.Text.{Text, is_digit}

pub data Kind : Type 0 where
  num str ident op lparen rparen : Kind

pub record Lexeme : Type 0 where
  pub kind : Kind
  pub text : Text

abbrev pub is_ident_start : ℕ → Bool
is_ident_start c = (leb b'a' c && leb c b'z') || (leb b'A' c && leb c b'Z') || c == b'_'

abbrev pub is_ident_char : ℕ → Bool
is_ident_char c = is_ident_start c || is_digit c

-- The longest piece of bytes that a test accepts.
unfoldable pub span : (ℕ → Bool) → Text → Text × Text
span test [] = ([], [])
span test (c ∷ s) = let rest = span test s in if test c then (c ∷ rest.0, rest.1) else ([], c ∷ s)

abbrev pub joined : Text → Text × Text → Text × Text
joined front rest = (front ++ rest.0, rest.1)

abbrev pub starts_digit : Text → Bool
starts_digit [] = false
starts_digit (c ∷ s) = is_digit c

-- A decimal point with a digit after it, and the digits.
unfoldable pub fraction : Text → Text × Text
unfolding span
fraction [] = ([], [])
fraction (c ∷ s) =
    if c == b'.' && starts_digit s then joined (c ∷ []) (span is_digit s) else ([], c ∷ s)

abbrev pub sign : Text → Text × Text
sign [] = ([], [])
sign (c ∷ s) = if c == b'+' || c == b'-' then (c ∷ [], s) else ([], c ∷ s)

-- exponentEnd
abbrev pub exponent_digits : Text → ℕ → Text → Text × Text → Text × Text
exponent_digits s e after (front, digits) =
    if starts_digit digits then joined (e ∷ front) (span is_digit digits) else ([], s)

unfoldable pub exponent : Text → Text × Text
unfolding span
exponent [] = ([], [])
exponent (c ∷ s) =
    if c == b'e' || c == b'E' then exponent_digits (c ∷ s) c s (sign s) else ([], c ∷ s)

-- A number: digits, a fraction and an exponent.
unfoldable pub number_end : Text → Text × Text
unfolding span fraction exponent
number_end s =
    let whole = span is_digit s in
    let part = fraction whole.1 in
    let power = exponent part.1 in (whole.0 ++ part.0 ++ power.0, power.1)

abbrev pub after_byte : ℕ → Option (Text × Text) → Option (Text × Text)
after_byte c none = none
after_byte c (some (piece, rest)) = some (c ∷ piece, rest)

-- What is left of a string literal; true where the byte before was a backslash.
unfoldable pub quoted : Bool → Text → Option (Text × Text)
quoted true [] = none
quoted false [] = some ([], [])
quoted true (c ∷ s) = after_byte c (quoted false s)
quoted false (c ∷ s) =
    let rest = quoted (c == b'\\') s in if c == b'"' then some (c ∷ [], s) else after_byte c rest

abbrev pub is_double : ℕ → ℕ → Bool
is_double c d =
    (d == b'=' && (c == b'=' || c == b'!' || c == b'<' || c == b'>'))
    || (c == d && (c == b'&' || c == b'|' || c == b'<' || c == b'>'))

-- Go's string of one byte, which is the encoding of that code point.
abbrev pub byte_text : ℕ → Text
byte_text c = if leb c 127 then c ∷ [] else (192 + c / 64) ∷ (128 + c % 64) ∷ []

abbrev pub operator_end : ℕ → Text → Text × Text
operator_end c [] = (byte_text c, [])
operator_end c (d ∷ s) = if is_double c d then (c ∷ d ∷ [], s) else (byte_text c, d ∷ s)

abbrev pub lexeme : Kind → Text × Text → Option (Lexeme × Text)
lexeme k (piece, rest) = some (record { kind = k; text = piece }, rest)

abbrev pub string_lexeme : Option (Text × Text) → Option (Lexeme × Text)
string_lexeme none = none
string_lexeme (some r) = lexeme str r

-- The token that begins with a byte that is no blank.
unfoldable pub lex_one : ℕ → Text → Option (Lexeme × Text)
unfolding span number_end quoted
lex_one c s =
    if c == b'('
    then lexeme lparen (c ∷ [], s)
    else if c == b')'
    then lexeme rparen (c ∷ [], s)
    else if c == b'"'
    then string_lexeme (after_byte c (quoted false s))
    else if is_digit c
    then lexeme num (number_end (c ∷ s))
    else if is_ident_start c
    then lexeme ident (span is_ident_char (c ∷ s))
    else lexeme op (operator_end c s)

pub data Lexed : Type 0 where
  tokens : List Lexeme → Lexed
  panics out_of_fuel : Lexed

abbrev pub then_tokens : Lexeme → Lexed → Lexed
then_tokens t (tokens ts) = tokens (t ∷ ts)
then_tokens t panics = panics
then_tokens t out_of_fuel = out_of_fuel

abbrev pub lex_next : (Text → Lexed) → Option (Lexeme × Text) → Lexed
lex_next go none = panics
lex_next go (some (t, rest)) = then_tokens t (go rest)

-- tokenize
unfoldable pub tokenize : ℕ → Text → Lexed
unfolding lex_one
tokenize n [] = tokens []
tokenize zero (c ∷ s) = out_of_fuel
tokenize (suc n) (c ∷ s) =
    let rest = tokenize n s in
    if c == b' ' || c == b'\t' then rest else lex_next (tokenize n) (lex_one c s)
