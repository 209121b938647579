-- ===== src/Parser.antt =====
-- src/parser.c and src/parser.h: a shift-reduce parser with a stack of operators and one of trees.
-- Both stacks are lists with the top first. The calls of `ALLOC` in the parser itself succeed here;
-- the lexer's may fail.
pub mod Tree
pub mod Within
pub mod Classes
pub mod Reduce
pub mod Parse
pub mod Yield
pub mod Invariant
pub mod Refused
pub mod Correct
pub mod Whole
