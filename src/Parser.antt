-- ===== src/Parser.antt =====
-- The parser (internal/parser).
pub mod Expr
pub mod Lex
