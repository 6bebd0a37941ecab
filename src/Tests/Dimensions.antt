-- ===== src/Tests/Dimensions.antt =====
-- compiler/paco-types/src/dims.rs: dimensions in `n`, run on examples.
use paco.Prelude.{
  zero, suc, ◌≡◌, ◌≢◌, refl, sym, ap, ◌∙◌, subst, some, [], ◌∷◌, arith, ℕ_discrete, get_elem?,
}
use paco.Prelude.Int.{ℤ, pos, ◌+ℤ◌, ◌*ℤ◌}
use paco.Prelude.Text.{Text, codes}
use paco.Dims.Tables.{find}
use paco.Dims.Arena.{add, div, PolyId, param_atom, Arena, empty_arena, lit_of, lit, param, apply}
use paco.Dims.Values.{some_injective}
use paco.Dims.Invariant.{IsValid, op_value, value_at, atom_value, IsModel, Computes}
use paco.Dims.Interning.{lit-Computes, IsValid-Grows, not_some}
use paco.Dims.Applying.{apply-Computes}
use paco.Dims.Ranks.{IsRanked, lit-IsRanked, param-IsRanked}
use paco.Dims.Ordered.{apply-IsRanked}
use paco.Dims.Substitution.{
  different, cannot_prove, const_dim, Substitutions, binding, resolve, verdict, is_ground,
}
use paco.Dims.Walking.{AllBound, is_ground-closed}
use paco.Dims.Resolving.{Resolves}
use paco.Dims.Resolved.{resolve-Resolves}
use paco.Dims.Substituting.{param-Computes-atom}
use paco.Dims.Models.{Extends}
use paco.Dims.Extending.{apply-Extends}
use paco.Dims.Verdicts.{IsRight, verdict-IsRight}
use paco.Dims.Unifying.{bind_solved}
use paco.Dims.Rebinding.{AllBound-Grows, solved-AllBound}

abbrev pub n : Text
n = codes "n"

pub empty-IsRanked : IsRanked empty_arena
unfolding find
empty-IsRanked = record {
  good = record {
    ids = λ p id h. absurd (not_some h);
    unique = λ id e h. absurd (not_some h);
    literals = λ value id h. absurd (not_some h);
    constants = λ id e h. absurd (not_some h);
    names = λ name atom h. absurd (not_some h);
    keys = λ key atom h. absurd (not_some h);
    operands = λ atom op left right h. absurd (not_some h);
  };
  ranked = λ id e h. absurd (not_some h);
}

-- `n` and then `5`
abbrev pub n_arena : Arena
n_arena = (param n empty_arena).0

abbrev pub n_id : PolyId
n_id = (param n empty_arena).1

abbrev pub five_arena : Arena
five_arena = (lit (pos 5) n_arena).0

abbrev pub five_id : PolyId
five_id = (lit (pos 5) n_arena).1

n_arena-IsRanked : IsRanked n_arena
n_arena-IsRanked = param-IsRanked n empty_arena empty-IsRanked

pub five_arena-IsRanked : IsRanked five_arena
five_arena-IsRanked = lit-IsRanked (pos 5) n_arena n_arena-IsRanked

pub n_id-IsValid : IsValid n_id five_arena
n_id-IsValid =
    IsValid-Grows n_id n_arena five_arena (lit-Computes (pos 5) n_arena n_arena-IsRanked.good).grows
      (param-Computes-atom n empty_arena empty-IsRanked.good).valid

pub five_id-IsValid : IsValid five_id five_arena
five_id-IsValid = (lit-Computes (pos 5) n_arena n_arena-IsRanked.good).valid

five_everywhere : Text → ℤ
five_everywhere _ = pos 5

-- where the one atom is `n`, and every name is 5
pub one_atom-IsModel :
    (a : Arena) (x : ℤ) → a.atoms ≡ param_atom n ∷ [] → IsModel (λ _. x) (λ _. x) a
unfolding IsModel atom_value
one_atom-IsModel a x e zero t h =
    let e' = some_injective (sym h ∙ ap (λ ts. get_elem? ts 0) e) in
    subst (λ t. x ≡ atom_value (λ _. x) (λ _. x) a t) (sym e') refl
one_atom-IsModel a x e (suc k) t h = absurd (not_some (sym (ap (λ ts. get_elem? ts (suc k)) e) ∙ h))

apply-Computes_example :
    Computes five_arena
      (apply add n_id n_id five_arena)
      (λ v. op_value add (value_at v n_id five_arena) (value_at v n_id five_arena))
apply-Computes_example =
    apply-Computes add n_id n_id five_arena five_arena-IsRanked.good n_id-IsValid n_id-IsValid

apply-IsRanked_example : IsRanked (apply div n_id five_id five_arena).0
apply-IsRanked_example =
    apply-IsRanked div n_id five_id five_arena n_id-IsValid five_id-IsValid five_arena-IsRanked

apply-Extends_example : Extends five_everywhere five_arena (apply div n_id five_id five_arena).0
apply-Extends_example =
    apply-Extends five_everywhere div n_id five_id five_arena n_id-IsValid five_id-IsValid
      five_arena-IsRanked

-- `n` and `5` may be equal, `n` and `n + 5` are not, and `5 + n` and `n + 5` are equal
verdicts_of_five : (verdict n_id five_id five_arena).1 ≡ cannot_prove
unfolding verdict param ◌*ℤ◌ ◌+ℤ◌ ℕ_discrete
verdicts_of_five = refl

abbrev sum_arena : Arena
sum_arena = (apply add n_id five_id five_arena).0

abbrev sum_id : PolyId
sum_id = (apply add n_id five_id five_arena).1

shifted_is_different : (verdict n_id sum_id sum_arena).1 ≡ different
unfolding verdict param ◌*ℤ◌ ◌+ℤ◌ ℕ_discrete
shifted_is_different = refl

sum_computed :
    Computes five_arena
      (apply add n_id five_id five_arena)
      (λ v. op_value add (value_at v n_id five_arena) (value_at v five_id five_arena))
sum_computed =
    apply-Computes add n_id five_id five_arena five_arena-IsRanked.good n_id-IsValid five_id-IsValid

sum_arena-IsRanked : IsRanked sum_arena
sum_arena-IsRanked =
    apply-IsRanked add n_id five_id five_arena n_id-IsValid five_id-IsValid five_arena-IsRanked

sum-IsModel : IsModel five_everywhere (λ _. pos 5) sum_arena
unfolding five_everywhere apply lit param ◌*ℤ◌ ◌+ℤ◌ ℕ_discrete
sum-IsModel = one_atom-IsModel sum_arena (pos 5) refl

-- The verdict on `n` and `n + 5` is that they are different, and so they are where `n` is 5.
verdict-IsRight_example :
    value_at (λ _. pos 5) n_id sum_arena ≢ value_at (λ _. pos 5) sum_id sum_arena
unfolding verdict param IsRight ◌*ℤ◌ ◌+ℤ◌ ℕ_discrete
verdict-IsRight_example =
    verdict-IsRight n_id sum_id sum_arena five_everywhere (λ _. pos 5) sum_arena-IsRanked
      (IsValid-Grows n_id five_arena sum_arena sum_computed.grows n_id-IsValid) sum_computed.valid
      sum-IsModel

sum_commutes : (apply add five_id n_id sum_arena).1 ≡ sum_id
unfolding apply param ◌*ℤ◌ ◌+ℤ◌ ℕ_discrete
sum_commutes = refl

is_ground-closed_example :
    value_at (λ _. pos 5) five_id five_arena ≡ value_at (λ _. pos 7) five_id five_arena
unfolding is_ground five_everywhere lit param
is_ground-closed_example =
    is_ground-closed five_id five_arena (λ _. pos 7) (λ _. pos 5) (λ _. pos 7) (λ _. pos 5)
      five_arena-IsRanked five_id-IsValid refl (one_atom-IsModel five_arena (pos 7) refl)
      (one_atom-IsModel five_arena (pos 5) refl)

abbrev nothing_bound : Substitutions
nothing_bound = []

nothing-AllBound : (a : Arena) → AllBound [] a
unfolding AllBound binding
nothing-AllBound a name bound h = ground arith

abbrev n_is_five : Substitutions
n_is_five = (n, const_dim five_id) ∷ []

n_is_five-AllBound : AllBound n_is_five five_arena
unfolding bind_solved lit param ◌*ℤ◌ ◌+ℤ◌ ℕ_discrete
n_is_five-AllBound =
    solved-AllBound [] five_arena (some (some (n, five_id)))
      (λ name value h.
        subst (λ (p : Text × PolyId). IsValid p.1 five_arena) (some_injective (some_injective h))
          five_id-IsValid)
      (nothing-AllBound five_arena)

resolve-Resolves_example :
    Resolves n_is_five sum_arena sum_arena
      (resolve n_is_five sum_id sum_arena)
      (λ v0 v. value_at v0 sum_id sum_arena)
resolve-Resolves_example =
    resolve-Resolves n_is_five sum_id sum_arena sum_arena-IsRanked
      (AllBound-Grows n_is_five five_arena sum_arena sum_computed.grows n_is_five-AllBound)
      sum_computed.valid

ten : lit_of 3 (resolve n_is_five sum_id sum_arena).0 ≡ some (pos 10)
unfolding resolve lit_of ◌*ℤ◌ ◌+ℤ◌ ℕ_discrete
ten = refl
