-- ===== src/Lib.antt =====
-- Paco: a compiler for a language with closed enumerations, generic and dimension-typed values,
-- and a runtime of tasks and channels. Its crates stand under compiler/ and runtime/.
--
-- The compiler reads files into a source map, which gives every span its line and column; parses
-- and checks types, with dimensions that are integer expressions in parameters; asks, for each `match`, whether its arms are exhaustive and which of them are
-- never taken; and lays out the types it lowers. The development follows those parts:
--
-- - Prelude: Boolean tests, integers and texts over the native natural numbers. A text is the list
--   of its code points.
-- - Types (compiler/paco-types/src/lib.rs): the data type of types, the integer widths with their
--   ranges and their wrapping. An `i64` payload is an integer, and a cast takes it modulo 2 ^ 64.
-- - Dims (compiler/paco-types/src/dims.rs): the arena of dimension expressions. Polys and Arena
--   hold its data and operations: a polynomial is a list in the order of its monomials, as the
--   tree is, and a hash map is a list of pairs of which the first with a key counts; Substitution
--   holds what `any_name`, `touches`, `eval`, `resolve` and `verdict` do, Unifying `unify`. The
--   arena behind the lock is passed on, and an operation that fails returns the arena that it has
--   grown. Each recursion through an opaque atom has `id + 1` rounds, which are enough, since the
--   operands of an atom have smaller ids (`IsRanked`). A type is what the code looks at: a constant
--   dimension, `Dyn`, a generic name, or another. A model gives every parameter an integer and
--   every opaque atom the value of its operation on integers without bounds; division by zero has
--   some value, about which nothing is used.
-- - Layout (compiler/paco-mir/src/layout.rs): `scalar_layout`, `align_up` and `struct_layout`, with
--   `u64` arithmetic modulo 2 ^ 64. The loop over the fields is recursion on them, and the stable
--   sort by alignment is an insertion sort.
-- - Span (compiler/paco-span/src/lib.rs): `SourceMap` and `line_column`, whose loop over
--   `char_indices` is recursion on the text with the byte index of each character.
-- - Lex (compiler/paco-syntax/src/lex.rs): `lex`. Scan holds the lexer's state, in which the
--   source stands in two parts, before and behind `offset`, and its primitive operations; Literals
--   and Tokens the rest. The arms of `scan_token` that are one character, perhaps with another
--   that `match_char` takes, are the table `operators`. The loops are recursion on the rest of the
--   source, and the loop of `run` is recursion on fuel, the number of characters, of which each
--   round takes one at least.
-- - Match (compiler/paco-match/src/lib.rs): `analyze_match`. Patterns follow the syntax tree of
--   compiler/paco-syntax/src/ast.rs, Coverage and Analysis the functions of the crate. Meaning
--   gives patterns a meaning on values, as an independent description of which arm is taken. What
--   Rust's standard library decides (the text of a float, the quoted text of a string, the order
--   in which a hash set gives its keys) is the record Std, and Setting has what the meaning depends
--   on beside the pattern: equality of floats, and which enum declares which variants, since a bare
--   identifier that names a variant of the value's enum is that variant, as in
--   compiler/paco-mir/src/lower.rs, and not a binding. `fits` says which values and patterns the
--   theorems speak of.
-- - Resolve (compiler/paco-resolve/src/lib.rs): the locals that names denote. The innermost scope is
--   the first of the list, a hash map is a list of pairs of which the first with a key counts, and a
--   diagnostic is the name that was not found and its place. `bind_pattern` is recursion on the
--   patterns of Match, and `resolve_expr` on expressions, in which a type is left out, and a quote
--   has the expressions of its splice points.
-- - Channel (runtime/paco-runtime/src/channel.rs, with `Notify` of sync.rs and `Waker` of task.rs
--   beside it): clients call `send`, `recv`, `close` and the clone and drop of a sender, and
--   `advance` takes one client one step further: a region under the queue's lock, which a client
--   that registers still holds in between, an atomic operation, or one `wake_all`. Reaches and Run
--   are the states under any scheduling. A registration has a waker of its own, numbered in order,
--   and a client in `park` goes on once its waker is fired: the scheduler's queue of tasks is
--   taken to run what it is given. For a thread, `park` may also return by chance.
--   `is_ready` is read on one state, though the source of the sender's takes two reads.
-- - Join (runtime/paco-runtime/src/join.rs): the slot of a task's result, with `complete` and `join`
--   as clients' steps in the same way, the return of a thread's `park` by chance included.
-- - Tests: the functions and the theorems at concrete inputs.
--
-- All recursion but that of `run` and that through opaque atoms is structural. There is no bound on
-- sizes but the ones the theorems state, and the ids of Dims and Resolve do not wrap at 2 ^ 32.
-- Not modelled: type inference, lowering, code generation, and whatever runs other
-- programs or the operating system.
pub mod Prelude
pub mod Types
pub mod Dims
pub mod Layout
pub mod Span
pub mod Lex
pub mod Match
pub mod Resolve
pub mod Channel
pub mod Join
pub mod Tests
