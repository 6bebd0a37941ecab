-- ===== src/Match.antt =====
-- compiler/paco-match/src/lib.rs, and the patterns and literals of
-- compiler/paco-syntax/src/ast.rs that it reads.
pub mod Patterns
pub mod Coverage
pub mod Analysis
pub mod Meaning
pub mod Keys
pub mod Irrefutable
pub mod Agreement
pub mod Covering
pub mod Exhaustive
pub mod Unreachable
pub mod Alternatives
pub mod BareVariants
