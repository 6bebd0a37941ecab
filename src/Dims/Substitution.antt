-- ===== src/Dims/Substitution.antt =====
-- compiler/paco-types/src/dims.rs: what is read off an expression, and what is put in for its
-- parameters.
use paco.Prelude.{
  ℕ, zero, suc, Bool, true, false, not, ◌||◌, Option, none, some, List, [], ◌∷◌, ◌==◌,
  if◌then◌else◌, ◌>>=◌, get_elem?,
}
use paco.Prelude.Int.{ℤ, pos, eqb_ℤ}
use paco.Prelude.Text.{Text}
use paco.Dims.Tables.{find}
use paco.Dims.Checked.{checked, checked_add, checked_mul}
use paco.Dims.Polys.{Monomial, Poly}
use paco.Dims.Arena.{
  add, sub, mul, PolyId, DimVarId, Atom, param_atom, opaque_atom, Arena, Text_discrete, poly_at,
  lit_of, lit, atom_poly, param, fold, apply,
}
use paco.Dims.Values.{power}

pub data Verdict : Type 0 where
  equal different cannot_prove : Verdict

-- A type that a name is bound to: `Type::Dim` of a constant or of `Dyn`, `Type::Generic`, or any
-- other.
pub data Bound : Type 0 where
  const_dim : PolyId → Bound
  dyn_dim : Bound
  generic : Text → Bound
  other_type : Bound

pub data Binding : Type 0 where
  keep dyn : Binding
  to : PolyId → Binding
  rename : Text → Binding

abbrev pub Substitutions : Type 0
Substitutions = List (Text × Bound)

unfoldable pub binding_of : Text → Option Bound → Binding
unfolding Text_discrete
binding_of name (some (const_dim p)) = to p
binding_of name (some dyn_dim) = dyn
binding_of name (some (generic other)) = elim (Text_discrete other name) [
  | yes _ ↦ keep
  | no _ ↦ rename other
]
binding_of name (some other_type) = keep
binding_of name none = keep

unfoldable pub binding : Text → Substitutions → Binding
unfolding binding_of find Text_discrete
binding name s = binding_of name (find Text_discrete name s)

unfoldable pub is_keep : Binding → Bool
is_keep keep = true
is_keep dyn = false
is_keep (to _) = false
is_keep (rename _) = false

unfoldable pub any_in : (DimVarId → Bool) → Monomial → Bool
any_in test [] = false
any_in test ((atom, _) ∷ m) = test atom || any_in test m

unfoldable pub any_atom : (DimVarId → Bool) → Poly → Bool
unfolding any_in
any_atom test [] = false
any_atom test ((m, _) ∷ p) = any_in test m || any_atom test p

unfoldable pub walk_atom : (Text → Bool) → (PolyId → Bool) → Option Atom → Bool
walk_atom test rest none = false
walk_atom test rest (some (param_atom name)) = test name
walk_atom test rest (some (opaque_atom op left right)) = rest left || rest right

unfoldable pub walk : ℕ → (Text → Bool) → Arena → PolyId → Bool
unfolding any_atom walk_atom poly_at
walk zero test a id = false
walk (suc n) test a id =
    any_atom (λ k. walk_atom test (walk n test a) (get_elem? a.atoms k)) (poly_at id a)

-- The operands of an atom stand before the polynomial that mentions it, so that `id + 1` rounds
-- are enough.
unfoldable pub any_name : (Text → Bool) → PolyId → Arena → Bool
unfolding walk
any_name test id a = walk (suc id) test a id

unfoldable pub touches : Substitutions → PolyId → Arena → Bool
unfolding any_name binding is_keep
touches s id a = any_name (λ name. not (is_keep (binding name s))) id a

unfoldable pub is_ground : PolyId → Arena → Bool
unfolding any_name
is_ground id a = not (any_name (λ name. true) id a)

-- `i64::checked_pow`
unfoldable pub checked_pow : ℤ → ℕ → Option ℤ
unfolding checked power
checked_pow x exp = checked (power x exp)

unfoldable pub eval_bound : Arena → Binding → Option ℤ
unfolding lit_of
eval_bound a (to bound) = lit_of bound a
eval_bound a keep = none
eval_bound a dyn = none
eval_bound a (rename _) = none

unfoldable pub eval_atom : Substitutions → Arena → (PolyId → Option ℤ) → Option Atom → Option ℤ
unfolding eval_bound binding fold
eval_atom s a rest none = none
eval_atom s a rest (some (param_atom name)) = eval_bound a (binding name s)
eval_atom s a rest (some (opaque_atom op left right)) =
    rest left >>= λ x. rest right >>= λ y. fold op x y

unfoldable pub eval_factors : (DimVarId → Option ℤ) → ℤ → Monomial → Option ℤ
unfolding checked_pow checked_mul
eval_factors value term [] = some term
eval_factors value term ((atom, exp) ∷ m) = value atom >>= λ x.
    checked_pow x exp >>= λ y. checked_mul term y >>= λ term'. eval_factors value term' m

unfoldable pub eval_terms : (DimVarId → Option ℤ) → ℤ → Poly → Option ℤ
unfolding eval_factors checked_add
eval_terms value total [] = some total
eval_terms value total ((m, c) ∷ p) = eval_factors value c m >>= λ term.
    checked_add total term >>= λ total'. eval_terms value total' p

unfoldable pub eval_upto : ℕ → Substitutions → Arena → PolyId → Option ℤ
unfolding eval_atom eval_terms poly_at
eval_upto zero s a id = none
eval_upto (suc n) s a id =
    eval_terms (λ k. eval_atom s a (eval_upto n s a) (get_elem? a.atoms k)) (pos 0) (poly_at id a)

unfoldable pub eval : Substitutions → PolyId → Arena → Option ℤ
unfolding eval_upto
eval s id a = eval_upto (suc id) s a id

unfoldable pub verdict_of : Option ℤ → Verdict
verdict_of none = cannot_prove
verdict_of (some z) = if eqb_ℤ z (pos 0) then equal else different

unfoldable pub verdict : PolyId → PolyId → Arena → Arena × Verdict
unfolding verdict_of apply lit_of
verdict expected actual a =
    if expected == actual
    then (a, equal)
    else let (a', difference) = apply sub expected actual a in
      (a', verdict_of (lit_of difference a'))

-- An operation that may fail keeps the arena that it has grown.
abbrev pub Tried : Type 0
Tried = Arena × Option PolyId

unfoldable pub chain :
    {A B : Type 0} → Arena × Option A → (A → Arena → Arena × Option B) → Arena × Option B
chain (a, none) next = (a, none)
chain (a, some x) next = next x a

unfoldable pub done : Arena × PolyId → Tried
done (a, id) = (a, some id)

-- `term` times the `exp`th power of `value`
unfoldable pub times : ℕ → PolyId → PolyId → Arena → Tried
unfolding chain done apply
times zero term value a = (a, some term)
times (suc exp) term value a =
    chain (done (apply mul term value a)) (λ term' a'. times exp term' value a')

unfoldable pub resolve_param : Binding → DimVarId → Arena → Tried
unfolding done atom_poly param
resolve_param keep atom a = done (atom_poly atom a)
resolve_param dyn atom a = (a, none)
resolve_param (to bound) atom a = (a, some bound)
resolve_param (rename other) atom a = done (param other a)

unfoldable pub resolve_atom :
    Substitutions → (PolyId → Arena → Tried) → DimVarId → Option Atom → Arena → Tried
unfolding resolve_param binding chain done apply
resolve_atom s rest atom none a = (a, none)
resolve_atom s rest atom (some (param_atom name)) a = resolve_param (binding name s) atom a
resolve_atom s rest atom (some (opaque_atom op left right)) a =
    chain (rest left a)
      (λ left' a1. chain (rest right a1) (λ right' a2. done (apply op left' right' a2)))

unfoldable pub resolve_factors :
    Substitutions → (PolyId → Arena → Tried) → PolyId → Monomial → Arena → Tried
unfolding resolve_atom times chain
resolve_factors s rest term [] a = (a, some term)
resolve_factors s rest term ((atom, exp) ∷ m) a =
    chain (resolve_atom s rest atom (get_elem? a.atoms atom) a)
      (λ value a1. chain (times exp term value a1) (λ term' a2. resolve_factors s rest term' m a2))

unfoldable pub resolve_terms :
    Substitutions → (PolyId → Arena → Tried) → PolyId → Poly → Arena → Tried
unfolding resolve_factors chain done lit apply
resolve_terms s rest total [] a = (a, some total)
resolve_terms s rest total ((m, c) ∷ p) a = chain (done (lit c a)) (λ one a1.
    chain (resolve_factors s rest one m a1) (λ term a2.
      chain (done (apply add total term a2)) (λ total' a3. resolve_terms s rest total' p a3)))

unfoldable pub or_resolve :
    Option ℤ → Substitutions → (PolyId → Arena → Tried) → PolyId → Arena → Tried
unfolding resolve_terms lit poly_at chain done
or_resolve (some value) s rest id a = done (lit value a)
or_resolve none s rest id a =
    let p = poly_at id a in
    chain (done (lit (pos 0) a)) (λ total a1. resolve_terms s rest total p a1)

unfoldable pub resolve_upto : ℕ → Substitutions → PolyId → Arena → Tried
unfolding or_resolve touches eval
resolve_upto zero s id a = (a, none)
resolve_upto (suc n) s id a =
    let expanded = or_resolve (eval s id a) s (resolve_upto n s) id a in
    if touches s id a then expanded else (a, some id)

-- `ConstExpr::substitute`, whose text is not modelled, returns the same polynomial
unfoldable pub resolve : Substitutions → PolyId → Arena → Tried
unfolding resolve_upto
resolve s id a = resolve_upto (suc id) s id a
