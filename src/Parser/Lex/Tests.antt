-- ===== src/Parser/Lex/Tests.antt =====
-- Some expressions, and a literal that ends in a backslash.
use fct.Base.{◌≡◌, refl, [], ◌∷◌, arith}
use fct.Base.Text.{Text, codes}
use fct.Parser.Lex.{
  Kind, num, str, ident, op, lparen, rparen, Lexeme, span, fraction, exponent, number_end, quoted,
  lex_one, tokens, panics, tokenize,
}
use fct.Parser.Lex.Covers.{Covers, tokenize-Covers}

abbrev lex : Kind → Text → Lexeme
lex k t = record { kind = k; text = t }

abbrev source : Text
source = codes "a.b>= 2.5e3*(1e)"

lexed :
    tokenize 16 source
    ≡ tokens (
        lex ident (codes "a")
        ∷ lex op (codes ".")
        ∷ lex ident (codes "b")
        ∷ lex op (codes ">=")
        ∷ lex num (codes "2.5e3")
        ∷ lex op (codes "*")
        ∷ lex lparen (codes "(")
        ∷ lex num (codes "1")
        ∷ lex ident (codes "e")
        ∷ lex rparen (codes ")")
        ∷ [])
unfolding tokenize lex_one span fraction exponent number_end
lexed = refl

-- The bytes of an unfinished escape.
unfinished : tokenize 3 (34 ∷ 97 ∷ 92 ∷ []) ≡ panics
unfolding tokenize lex_one quoted
unfinished = refl

escaped :
    tokenize 5 (34 ∷ 97 ∷ 92 ∷ 34 ∷ 34 ∷ []) ≡ tokens (lex str (34 ∷ 97 ∷ 92 ∷ 34 ∷ 34 ∷ []) ∷ [])
unfolding tokenize lex_one quoted
escaped = refl

tokenize-Covers_example : Covers source (tokenize 16 source)
tokenize-Covers_example = tokenize-Covers 16 source (omega arith)
