-- ===== src/Dims/Unifying.antt =====
-- compiler/paco-types/src/dims.rs: `unify` solves for a parameter that nothing is bound to yet.
use paco.Prelude.{
  ℕ, zero, suc, Bool, true, false, not, ◌&&◌, ◌||◌, Option, none, some, List, [], ◌∷◌, ◌++◌, ◌==◌,
  if◌then◌else◌, ◌>>=◌, get_elem?,
}
use paco.Prelude.Int.{eqb_ℤ, ℤ, pos, negsuc}
use paco.Prelude.Text.{Text}
use paco.Dims.Tables.{find}
use paco.Dims.Polys.{Monomial, Poly, get, remove}
use paco.Dims.Arena.{
  sub, PolyId, DimVarId, Atom, param_atom, opaque_atom, Arena, Text_discrete, intern, poly_at, lit,
  apply,
}
use paco.Dims.Substitution.{
  Bound, const_dim, dyn_dim, generic, other_type, Substitutions, Tried, chain, done, resolve,
}

pub data Dim : Type 0 where
  const_expr : PolyId → Dim
  dyn_expr : Dim

-- a name that is bound to itself
unfoldable pub is_unbound_in : Text → Option Bound → Bool
unfolding Text_discrete
is_unbound_in name (some (generic other)) = elim (Text_discrete other name) [
  | yes _ ↦ true
  | no _ ↦ false
]
is_unbound_in name (some (const_dim _)) = false
is_unbound_in name (some dyn_dim) = false
is_unbound_in name (some other_type) = false
is_unbound_in name none = false

unfoldable pub is_unbound : Text → Substitutions → Bool
unfolding is_unbound_in find Text_discrete
is_unbound name s = is_unbound_in name (find Text_discrete name s)

unfoldable pub contains_atom : DimVarId → List DimVarId → Bool
contains_atom k [] = false
contains_atom k (x ∷ xs) = k == x || contains_atom k xs

unfoldable pub unbound_atom :
    Substitutions
    → (PolyId → List DimVarId → List DimVarId)
    → DimVarId
    → Option Atom
    → List DimVarId
    → List DimVarId
unfolding is_unbound contains_atom
unbound_atom s rest k none out = out
unbound_atom s rest k (some (param_atom name)) out =
    if is_unbound name s && not (contains_atom k out) then out ++ k ∷ [] else out
unbound_atom s rest k (some (opaque_atom op left right)) out = rest right (rest left out)

unfoldable pub unbound_factors :
    Substitutions
    → (PolyId → List DimVarId → List DimVarId)
    → Arena
    → Monomial
    → List DimVarId
    → List DimVarId
unfolding unbound_atom
unbound_factors s rest a [] out = out
unbound_factors s rest a ((k, _) ∷ m) out =
    unbound_factors s rest a m (unbound_atom s rest k (get_elem? a.atoms k) out)

unfoldable pub unbound_terms :
    Substitutions
    → (PolyId → List DimVarId → List DimVarId)
    → Arena
    → Poly
    → List DimVarId
    → List DimVarId
unfolding unbound_factors
unbound_terms s rest a [] out = out
unbound_terms s rest a ((m, _) ∷ p) out = unbound_terms s rest a p (unbound_factors s rest a m out)

unfoldable pub unbound_upto : ℕ → Substitutions → Arena → PolyId → List DimVarId → List DimVarId
unfolding unbound_terms poly_at
unbound_upto zero s a id out = out
unbound_upto (suc n) s a id out = unbound_terms s (unbound_upto n s a) a (poly_at id a) out

unfoldable pub unbound_params : Substitutions → PolyId → Arena → List DimVarId
unfolding unbound_upto
unbound_params s id a = unbound_upto (suc id) s a id []

-- `coeff` times the parameter, and `rest`
pub record Linear : Type 0 where
  pub variable : DimVarId
  pub coeff : ℤ
  pub rest : PolyId

abbrev pub linear_term : DimVarId → Monomial
linear_term k = (k, 1) ∷ []

unfoldable pub when_empty : List DimVarId → Linear → Option Linear
when_empty [] l = some l
when_empty (_ ∷ _) l = none

unfoldable pub linear_rest :
    Option ℤ → DimVarId → PolyId → Substitutions → Arena → Arena × Option Linear
unfolding intern remove unbound_params when_empty poly_at
linear_rest none k difference s a = (a, none)
linear_rest (some coeff) k difference s a =
    let (a', rest) = intern (remove (linear_term k) (poly_at difference a)) a in
    (
      a',
      when_empty (unbound_params s rest a') (record { variable = k; coeff = coeff; rest = rest }),
    )

unfoldable pub linear_part : List DimVarId → PolyId → Substitutions → Arena → Arena × Option Linear
unfolding linear_rest get poly_at
linear_part [] difference s a = (a, none)
linear_part (k ∷ []) difference s a =
    linear_rest (get (linear_term k) (poly_at difference a)) k difference s a
linear_part (_ ∷ _ ∷ _) difference s a = (a, none)

unfoldable pub linear_in_unbound : PolyId → PolyId → Substitutions → Arena → Arena × Option Linear
unfolding linear_part apply unbound_params
linear_in_unbound expected actual s a =
    let (a', difference) = apply sub expected actual a in
    linear_part (unbound_params s difference a') difference s a'

-- `none` on an opaque atom, at which the source panics
unfoldable pub param_name_of : Option Atom → Option Text
param_name_of (some (param_atom name)) = some name
param_name_of (some (opaque_atom _ _ _)) = none
param_name_of none = none

unfoldable pub param_name : DimVarId → Arena → Option Text
unfolding param_name_of
param_name k a = param_name_of (get_elem? a.atoms k)

-- the value at which `coeff` times the parameter, and `rest`, is zero
unfoldable pub solve : ℤ → PolyId → Arena → Tried
unfolding chain done lit apply
solve (pos (suc zero)) rest a =
    chain (done (lit (pos 0) a)) (λ zero_id a1. done (apply sub zero_id rest a1))
solve (negsuc zero) rest a = (a, some rest)
solve _ rest a = (a, none)

unfoldable pub unify_difference :
    PolyId → PolyId → Substitutions → Arena → Arena × Option (Option (Text × PolyId))
unfolding chain linear_in_unbound solve param_name
unify_difference expected actual s a = chain (linear_in_unbound expected actual s a) (λ l a1.
    chain (solve l.coeff l.rest a1)
      (λ value a2. (a2, param_name l.variable a2 >>= λ name. some (some (name, value)))))

unfoldable pub unify_resolved :
    PolyId → PolyId → Substitutions → Arena → Arena × Option (Option (Text × PolyId))
unfolding unify_difference
unify_resolved expected actual s a =
    if expected == actual then (a, some none) else unify_difference expected actual s a

unfoldable pub unify_consts :
    PolyId → PolyId → Substitutions → Arena → Arena × Option (Option (Text × PolyId))
unfolding chain resolve unify_resolved
unify_consts expected actual s a = chain (resolve s expected a) (λ expected' a1.
    chain (resolve s actual a1) (λ actual' a2. unify_resolved expected' actual' s a2))

-- the atom that a polynomial is
unfoldable pub lone_atom : Poly → Option DimVarId
lone_atom (((k, exp) ∷ [], coeff) ∷ []) = if exp == 1 && eqb_ℤ coeff (pos 1) then some k else none
lone_atom _ = none

unfoldable pub as_param : PolyId → Arena → Option Text
unfolding lone_atom param_name poly_at
as_param id a = lone_atom (poly_at id a) >>= λ k. param_name k a

unfoldable pub bound_of : Option Text → PolyId → Bound
bound_of (some name) id = generic name
bound_of none id = const_dim id

-- `dim_type` of an expression
unfoldable pub dim_type : PolyId → Arena → Bound
unfolding bound_of as_param
dim_type id a = bound_of (as_param id a) id

unfoldable pub bind_solved :
    Option (Option (Text × PolyId)) → Substitutions → Arena → Substitutions × Bool
unfolding dim_type
bind_solved none s a = (s, false)
bind_solved (some none) s a = (s, true)
bind_solved (some (some (name, value))) s a = ((name, dim_type value a) ∷ s, true)

unfoldable pub unify : Dim → Dim → Substitutions → Arena → Arena × Substitutions × Bool
unfolding unify_consts bind_solved
unify dyn_expr dyn_expr s a = (a, s, true)
unify (const_expr expected) (const_expr actual) s a =
    let (a', solved) = unify_consts expected actual s a in
    let (s', unified) = bind_solved solved s a' in (a', s', unified)
unify dyn_expr (const_expr _) s a = (a, s, false)
unify (const_expr _) dyn_expr s a = (a, s, false)
