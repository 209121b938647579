-- ===== src/Lexer.antt =====
-- src/lexer.c and src/lexer.h: from the bytes of a pattern to tokens and a table of classes.
pub mod Token
pub mod Escape
pub mod ClassLexer
pub mod Lex
pub mod Progress
pub mod Total
pub mod Numbers
pub mod Ranges
pub mod Intern
pub mod Table
pub mod WellFormed
