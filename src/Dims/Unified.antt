-- ===== src/Dims/Unified.antt =====
-- compiler/paco-types/src/dims.rs: a dimension that `unify` accepts is equal to the other.
use paco.Prelude.{ℕ, ◌≡◌, sym, ◌∙◌, subst, true, Option, none, some}
use paco.Prelude.Int.{ℤ}
use paco.Prelude.Text.{Text}
use paco.Dims.Arena.{PolyId, Arena}
use paco.Dims.Invariant.{
  IsValid, Grows, Grows-refl, Grows-trans, value_at, IsModel, value_at-Grows, IsModel-Grows,
}
use paco.Dims.Interning.{IsValid-Grows, not_some}
use paco.Dims.Ranks.{IsRanked}
use paco.Dims.Substitution.{Substitutions, resolve}
use paco.Dims.Walking.{Agrees, AllBound}
use paco.Dims.Resolved.{resolve-Gives}
use paco.Dims.Unifying.{const_expr, is_unbound, unify_resolved, unify_consts, bind_solved, unify}
use paco.Dims.Rebinding.{bind_solved-Solved, unify_cases, AllBound-Grows, solved-AllBound}
use paco.Dims.Solving.{chain-holds, Solved, unify_resolved-Equates}

-- what the unification of two expressions gives
record Unifies (s : Substitutions) (a : Arena) (expected actual : PolyId)
    (r : Arena × Option (Option (Text × PolyId))) : Type 0 where
  ranked : IsRanked r.0
  grows : Grows a r.0
  bound : (name : Text) (value : PolyId) → r.1 ≡ some (some (name, value)) → IsValid value r.0
  unbound :
      (name : Text) (value : PolyId) → r.1 ≡ some (some (name, value)) → is_unbound name s ≡ true
  values :
      (o : Option (Text × PolyId)) (names0 names : Text → ℤ) (v0 v : ℕ → ℤ)
      → r.1 ≡ some o
      → IsModel names0 v0 a
      → IsModel names v r.0
      → Agrees s a names v names0
      → Solved names v r.0 o
      → value_at v0 expected a ≡ value_at v0 actual a

fails-Unifies :
    (s : Substitutions) (a a' : Arena) (expected actual : PolyId)
    → IsRanked a'
    → Grows a a'
    → Unifies s a expected actual (a', none)
fails-Unifies s a a' expected actual ranked g = record {
  ranked = ranked;
  grows = g;
  bound = λ name value e. absurd (not_some e);
  unbound = λ name value e. absurd (not_some e);
  values = λ o names0 names v0 v e m0 m ag h. absurd (not_some e);
}

unify_consts-Unifies :
    (expected actual : PolyId) (s : Substitutions) (a : Arena)
    → IsRanked a
    → AllBound s a
    → IsValid expected a
    → IsValid actual a
    → Unifies s a expected actual (unify_consts expected actual s a)
unfolding unify_consts
unify_consts-Unifies expected actual s a ranked bounds l r =
    let c1 = resolve-Gives s a expected a ranked bounds l ranked (Grows-refl a) in
    let first = resolve s expected a in
    chain-holds (Unifies s a expected actual) first _
      (λ x hx.
        let c2 = resolve-Gives s a actual first.0 ranked bounds r c1.ranked c1.grows in
        let second = resolve s actual first.0 in
        let g2 = Grows-trans a first.0 second.0 c1.grows c2.grows in
        chain-holds (Unifies s a expected actual) second _
          (λ y hy.
            let u =
              unify_resolved-Equates x y s second.0 c2.ranked
                (IsValid-Grows x first.0 second.0 c2.grows (c1.valid x hx)) (c2.valid y hy) in
            let final = unify_resolved x y s second.0 in
            record {
              ranked = u.ranked;
              grows = Grows-trans a second.0 final.0 g2 u.grows;
              bound = u.bound;
              unbound = u.unbound;
              values = λ o names0 names v0 v e m0 m ag h.
                  let m2 = IsModel-Grows names v second.0 final.0 c2.ranked.good u.grows m in
                  let m1 = IsModel-Grows names v first.0 second.0 c1.ranked.good c2.grows m2 in
                  sym (c1.values x names0 names v0 v hx m0 m1 ag)
                  ∙ sym (value_at-Grows v x first.0 second.0 (c1.valid x hx) c2.grows)
                  ∙ u.values o names v e m h
                  ∙ c2.values y names0 names v0 v hy m0 m2 ag;
            })
          (fails-Unifies s a second.0 expected actual c2.ranked g2))
      (fails-Unifies s a first.0 expected actual c1.ranked c1.grows)

-- On an arena in order that has two constant dimensions and the polynomials that names are bound
-- to, when `unify` accepts the two, they are equal: they have the same value in every model of the
-- arena in which each name has the value that the given substitutions and the returned ones bind it
-- to, the names that are left having those of a model of the returned arena.
pub unify-equates :
    (expected actual : PolyId) (s : Substitutions) (a : Arena) (names0 names : Text → ℤ)
    (v0 v : ℕ → ℤ)
    → IsRanked a
    → AllBound s a
    → IsValid expected a
    → IsValid actual a
    → (unify (const_expr expected) (const_expr actual) s a).2 ≡ true
    → IsModel names0 v0 a
    → IsModel names v (unify (const_expr expected) (const_expr actual) s a).0
    → Agrees s a names v names0
    → Agrees
        (unify (const_expr expected) (const_expr actual) s a).1
        (unify (const_expr expected) (const_expr actual) s a).0
        names
        v
        names0
    → value_at v0 expected a ≡ value_at v0 actual a
unfolding unify
unify-equates expected actual s a names0 names v0 v ranked bounds l r accepted m0 m ag ag' =
    let u = unify_consts-Unifies expected actual s a ranked bounds l r in
    let r = unify_consts expected actual s a in
    let (o, e) = unify_cases s r.0 r.1 accepted in
    u.values o names0 names v0 v e m0 m ag (
      bind_solved-Solved s a r.0 names0 names v o (λ name value h. u.unbound name value (e ∙ h)) m
        ag (subst (λ q. Agrees (bind_solved q s r.0).0 r.0 names v names0) e ag'))

-- On an arena in order that has two dimensions and the polynomials that names are bound to,
-- `unify` keeps the arena in order and only makes it grow, and the polynomials that the substitutions
-- it returns bind names to are in it, whether it accepts or not.
pub unify-keeps :
    (expected actual : PolyId) (s : Substitutions) (a : Arena)
    → IsRanked a
    → AllBound s a
    → IsValid expected a
    → IsValid actual a
    → IsRanked (unify (const_expr expected) (const_expr actual) s a).0
      × Grows a (unify (const_expr expected) (const_expr actual) s a).0
      × AllBound
          (unify (const_expr expected) (const_expr actual) s a).1
          (unify (const_expr expected) (const_expr actual) s a).0
unfolding unify
unify-keeps expected actual s a ranked bounds l r =
    let u = unify_consts-Unifies expected actual s a ranked bounds l r in
    let q = unify_consts expected actual s a in
    (u.ranked, u.grows, solved-AllBound s q.0 q.1 u.bound (AllBound-Grows s a q.0 u.grows bounds))
