-- ===== src/Lex.antt =====
-- compiler/paco-syntax/src/lex.rs: the lexer.
pub mod Kinds
pub mod Scan
pub mod Literals
pub mod Tokens
pub mod Slices
pub mod LiteralSlices
pub mod Covering
