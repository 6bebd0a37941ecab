-- ===== src/Dims/Resolved.antt =====
-- compiler/paco-types/src/dims.rs: `resolve` puts values in for the parameters of an expression,
-- and what the read-only walks say.
use paco.Prelude.{
  if-holds, ℕ, zero, suc, ◌<◌, ◌≡◌, refl, sym, ap₂, ◌∙◌, subst, Option, none, some, arith,
}
use paco.Prelude.Int.{ℤ, pos, ◌+ℤ◌, int_laws}
use paco.Dims.Arena.{PolyId, Arena, poly_at, lit}
use paco.Dims.Values.{poly_value}
use paco.Dims.Invariant.{IsValid, Grows, Grows-refl, Grows-trans, value_at, IsModel-Grows}
use paco.Dims.Interning.{lit-Computes, IsValid-Grows}
use paco.Dims.Mentions.{AllAtoms, AllAtoms-mono}
use paco.Dims.Ranks.{IsBelow, IsRanked}
use paco.Dims.Substitution.{
  Substitutions, touches, eval, Tried, done, or_resolve, resolve_upto, resolve,
}
use paco.Dims.Walking.{AllBound, IsRanked-IsBelow, old_poly, touches_same}
use paco.Dims.Evaluating.{eval_value}
use paco.Dims.Resolving.{Resolves, Gives, as_value, same-Gives, chain-Gives, lit-Gives}
use paco.Dims.Substituting.{resolve_terms-Gives}

module _ (s : Substitutions) (a0 : Arena) (ranked0 : IsRanked a0) (bounds : AllBound s a0) where
  or_resolve-Gives :
      (n : ℕ) (rest : PolyId → Arena → Tried)
      → ((id : PolyId) (a : Arena)
          → id < n
          → IsValid id a0
          → IsRanked a
          → Grows a0 a
          → Gives s a0 a (rest id a) (λ v0 v. value_at v0 id a0))
      → (o : Option ℤ) (id : PolyId) (a : Arena) → eval s id a ≡ o
      → id < suc n
      → IsValid id a0
      → IsRanked a
      → Grows a0 a
      → Gives s a0 a (or_resolve o s rest id a) (λ v0 v. value_at v0 id a0)
  unfolding or_resolve value_at IsBelow poly_value
  or_resolve-Gives n rest inner (some z) id a e lt valid ranked g =
      as_value s a0 a _ (λ v0 v. z) _
        (λ names0 names v0 v m0 m ag.
          eval_value s a0 a ranked0 ranked.good g bounds names0 names v0 v m0
            (IsModel-Grows names v a _ ranked.good (lit-Computes z a ranked.good).grows m) ag id z
            valid e)
        (lit-Gives s a0 z a ranked)
  or_resolve-Gives n rest inner none id a e lt valid ranked g =
      let p = poly_at id a in
      let inside =
        subst (AllAtoms (IsBelow id a0)) (sym (old_poly id a0 a g valid))
          (IsRanked-IsBelow id a0 ranked0 valid) in
      chain-Gives s a0 a (done (lit (pos 0) a)) _ _ _ (lit-Gives s a0 (pos 0) a ranked)
        (λ total a1 ranked1 g1 v1. (
          (λ v0 v. value_at v total a1 +ℤ poly_value v0 p),
          resolve_terms-Gives s a0 ranked0 bounds n rest inner total p a1
              (AllAtoms-mono (IsBelow id a0) _
                (λ k (there, below). (
                  there,
                  λ op left right h.
                      let (b1, b2) = below op left right h in (omega arith, omega arith),
                ))
                p inside)
              v1 ranked1 (Grows-trans a0 a a1 g g1),
          λ v0 v h. ap₂ (λ z q. z +ℤ poly_value v0 q) h (old_poly id a0 a g valid) ∙ omega int_laws,
        ))

  resolve_upto-Gives :
      (n : ℕ) (id : PolyId) (a : Arena)
      → id < n
      → IsValid id a0
      → IsRanked a
      → Grows a0 a
      → Gives s a0 a (resolve_upto n s id a) (λ v0 v. value_at v0 id a0)
  unfolding resolve_upto
  resolve_upto-Gives zero id a lt valid ranked g = absurd (omega arith)
  resolve_upto-Gives (suc n) id a lt valid ranked g =
      if-holds (λ r. Gives s a0 a r (λ v0 v. value_at v0 id a0)) (touches s id a)
        (or_resolve (eval s id a) s (resolve_upto n s) id a) (a, some id)
        (λ _.
          or_resolve-Gives n (resolve_upto n s) (resolve_upto-Gives n) (eval s id a) id a refl lt
            valid ranked g)
        (λ untouched.
          as_value s a0 a _ (λ v0 v. value_at v id a) _
            (λ names0 names v0 v m0 m ag.
              touches_same s a0 a ranked0 g names0 names v0 v m0 m ag id valid untouched)
            (same-Gives s a0 a id ranked (IsValid-Grows id a0 a g valid)))

pub resolve-Gives :
    (s : Substitutions) (a0 : Arena) (id : PolyId) (a : Arena)
    → IsRanked a0
    → AllBound s a0
    → IsValid id a0
    → IsRanked a
    → Grows a0 a
    → Gives s a0 a (resolve s id a) (λ v0 v. value_at v0 id a0)
unfolding resolve
resolve-Gives s a0 id a ranked0 bounds valid ranked g =
    resolve_upto-Gives s a0 ranked0 bounds (suc id) id a (omega arith) valid ranked g

-- On an arena in order that has the expression and the polynomials that names are bound to,
-- `resolve` terminates in `id + 1` nested rounds, keeps the arena in order, only makes it grow, and
-- finds a polynomial unless some name is bound to `Dyn`. The polynomial it finds has, in every model
-- of the grown arena, the value that the expression has in a model of the arena before in which each
-- name has the value its binding gives it: by leaving the expression, evaluating it, or expanding it.
pub resolve-Resolves :
    (s : Substitutions) (id : PolyId) (a : Arena)
    → IsRanked a
    → AllBound s a
    → IsValid id a
    → Resolves s a a (resolve s id a) (λ v0 v. value_at v0 id a)
resolve-Resolves s id a ranked bounds valid =
    resolve-Gives s a id a ranked bounds valid ranked (Grows-refl a)
