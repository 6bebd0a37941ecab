-- ===== src/Match/Patterns.antt =====
-- compiler/paco-syntax/src/ast.rs: literals, patterns and match arms. An `f64` is its 64 bits and a
-- `char` its code point; the guard and the body of an arm are of a type that is left open.
use paco.Prelude.{ℕ, Bool, Option, List}
use paco.Prelude.Int.{ℤ}
use paco.Prelude.Text.{Text}
use paco.Span.{Span}

pub data Literal : Type 0 where
  int : ℤ → Literal
  float : ℕ → Literal
  bool : Bool → Literal
  string : Text → Literal
  char : ℕ → Literal

mutual
  pub data Pat : Type 0 where
    ident : Text → Span → Pat
    wildcard : Span → Pat
    literal : Literal → Span → Pat
    tuple : Pats → Span → Pat
    struct : List Text → FieldPats → Bool → Span → Pat
    enum : List Text → Pats → Span → Pat
    range : Pat → Pat → Bool → Span → Pat
    or : Pats → Span → Pat
    binding : Text → Pat → Span → Pat
    reference : Bool → Pat → Span → Pat

  pub data Pats : Type 0 where
    nil : Pats
    cons : Pat → Pats → Pats

  pub data FieldPats : Type 0 where
    no_fields : FieldPats
    field : Text → Pat → FieldPats → FieldPats

pub record MatchArm (Expr : Type 0) : Type 0 where
  pub pattern : Pat
  pub guard : Option Expr
  pub body : Expr
  pub span : Span
