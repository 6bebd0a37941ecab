-- ===== src/Dims.antt =====
-- compiler/paco-types/src/dims.rs: dimension expressions as interned polynomials.
pub mod Tables
pub mod Checked
pub mod Polys
pub mod Values
pub mod Products
pub mod Arena
pub mod Invariant
pub mod Interning
pub mod Atoms
pub mod Applying
pub mod Mentions
pub mod Ranks
pub mod Ordered
pub mod Substitution
pub mod Walking
pub mod Evaluating
pub mod Resolving
pub mod Substituting
pub mod Resolved
pub mod Models
pub mod Extending
pub mod Verdicts
pub mod Unifying
pub mod Linear
pub mod Solving
pub mod Rebinding
pub mod Unified
