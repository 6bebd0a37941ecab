-- ===== src/Tests/Unifications.antt =====
-- compiler/paco-types/src/dims.rs: `unify`, run on `n` and `5`.
use paco.Prelude.{
  ℕ, ◌≡◌, refl, sym, ap, ◌∙◌, subst, ◌⊎◌, inl, inr, Bool, Option, none, some, [], ◌∷◌, arith,
  ℕ_discrete,
}
use paco.Prelude.Int.{ℤ, pos, ◌+ℤ◌, ◌-ℤ◌, ◌*ℤ◌}
use paco.Prelude.Text.{Text}
use paco.Dims.Tables.{find, find-same, find-other}
use paco.Dims.Arena.{PolyId, Arena, Text_discrete, empty_arena, lit, param}
use paco.Dims.Invariant.{Grows, value_at}
use paco.Dims.Interning.{not_some}
use paco.Dims.Ranks.{IsRanked}
use paco.Dims.Substitution.{
  Binding, keep, dyn, to, rename, Bound, const_dim, generic, Substitutions, binding, binding_of,
}
use paco.Dims.Walking.{BindingAgrees, Agrees, AllBound}
use paco.Dims.Unifying.{const_expr, unify}
use paco.Dims.Unified.{unify-equates, unify-keeps}
use paco.Tests.Dimensions.{
  n, n_id, five_arena, five_id, five_arena-IsRanked, n_id-IsValid, five_id-IsValid,
  one_atom-IsModel,
}

abbrev n_unbound : Substitutions
n_unbound = (n, generic n) ∷ []

not_bound :
    (name : Text) (o : Option Bound) (p : PolyId)
    → ((o ≡ none) ⊎ (o ≡ some (generic n)))
    → binding_of name o ≡ to p
    → ⊥
unfolding binding_of
not_bound name o p (inl e) h = ground arith
not_bound name o p (inr e) h =
    elim (Text_discrete n name) as (λ d. elim d [ yes _ ↦ keep | no _ ↦ rename n ] ≡ to p → ⊥) [
      | yes _ ↦ (λ k. ground arith)
      | no _ ↦ (λ k. ground arith)
    ]
      (sym (ap (binding_of name) e) ∙ h)

n_unbound-AllBound : (a : Arena) → AllBound n_unbound a
unfolding AllBound binding find
n_unbound-AllBound a name p h = absurd (
    not_bound name (find Text_discrete name n_unbound) p
      (elim (Text_discrete name n)
        as (λ d.
          ((elim d [ yes _ ↦ some (generic n) | no _ ↦ none ] ≡ none)
            ⊎ (elim d [ yes _ ↦ some (generic n) | no _ ↦ none ] ≡ some (generic n)))) [
              | yes _ ↦ inr refl
              | no _ ↦ inl refl
            ])
      h)

to_same : (p q : PolyId) → to p ≡ to q → p ≡ q
to_same p q h = cc

-- only the front binding of `n` is one to a polynomial
bound_in_front :
    (name : Text) (p q : PolyId) → binding name ((n, const_dim q) ∷ n_unbound) ≡ to p → q ≡ p
unfolding binding binding_of AllBound
bound_in_front name p q h = elim (Text_discrete name n) [
  | yes same ↦ to_same q p (
      sym (
        ap (binding_of name) (
          ap (λ x. find Text_discrete x ((n, const_dim q) ∷ n_unbound)) same
          ∙ find-same Text_discrete n (const_dim q) n_unbound))
      ∙ h)
  | no other ↦
      let (_, never) = n_unbound-AllBound empty_arena name p (
        sym (ap (binding_of name) (find-other Text_discrete name n (const_dim q) n_unbound other))
        ∙ h) in
      absurd (not_some never)
]

same_everywhere :
    (a : Arena) (x : ℤ) (v : ℕ → ℤ) (name : Text) (b : Binding)
    → ((p : PolyId) → b ≡ to p → value_at v p a ≡ x)
    → BindingAgrees a (λ _. x) v (λ _. x) name b
unfolding BindingAgrees
same_everywhere a x v name keep h = refl
same_everywhere a x v name dyn h = tt
same_everywhere a x v name (to p) h = sym (h p refl)
same_everywhere a x v name (rename other) h = refl

n_unbound-Agrees : (a : Arena) (x : ℤ) (v : ℕ → ℤ) → Agrees n_unbound a (λ _. x) v (λ _. x)
unfolding Agrees AllBound
n_unbound-Agrees a x v name =
    same_everywhere a x v name (binding name n_unbound)
      (λ p h. let (_, never) = n_unbound-AllBound empty_arena name p h in absurd (not_some never))

unify-keeps_example :
    IsRanked (unify (const_expr n_id) (const_expr five_id) n_unbound five_arena).0
    × Grows five_arena (unify (const_expr n_id) (const_expr five_id) n_unbound five_arena).0
    × AllBound
        (unify (const_expr n_id) (const_expr five_id) n_unbound five_arena).1
        (unify (const_expr n_id) (const_expr five_id) n_unbound five_arena).0
unify-keeps_example =
    unify-keeps n_id five_id n_unbound five_arena five_arena-IsRanked
      (n_unbound-AllBound five_arena) n_id-IsValid five_id-IsValid

abbrev unified : Arena × Substitutions × Bool
unified = unify (const_expr n_id) (const_expr five_id) n_unbound five_arena

n_is_solved : unified.1 ≡ (n, const_dim five_id) ∷ n_unbound
unfolding unify lit param ◌*ℤ◌ ◌+ℤ◌ ◌-ℤ◌ ℕ_discrete
n_is_solved = refl

solved-Agrees : Agrees unified.1 unified.0 (λ _. pos 5) (λ _. pos 5) (λ _. pos 5)
unfolding Agrees unify lit param ◌*ℤ◌ ◌+ℤ◌ ◌-ℤ◌ ℕ_discrete value_at
solved-Agrees name =
    same_everywhere unified.0 (pos 5) (λ _. pos 5) name (binding name unified.1)
      (λ p h.
        subst (λ i. value_at (λ _. pos 5) i unified.0 ≡ pos 5)
          (bound_in_front name p five_id (ap (binding name) (sym n_is_solved) ∙ h)) refl)

-- `n` is unified with `5`
unify-equates_example :
    value_at (λ _. pos 5) n_id five_arena ≡ value_at (λ _. pos 5) five_id five_arena
unfolding unify lit param ◌*ℤ◌ ◌+ℤ◌ ◌-ℤ◌ ℕ_discrete
unify-equates_example =
    unify-equates n_id five_id n_unbound five_arena (λ _. pos 5) (λ _. pos 5) (λ _. pos 5)
      (λ _. pos 5) five_arena-IsRanked (n_unbound-AllBound five_arena) n_id-IsValid five_id-IsValid
      refl (one_atom-IsModel five_arena (pos 5) refl) (one_atom-IsModel unified.0 (pos 5) refl)
      (n_unbound-Agrees five_arena (pos 5) (λ _. pos 5)) solved-Agrees
