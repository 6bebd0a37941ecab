-- ===== src/Dims/Rebinding.antt =====
-- compiler/paco-types/src/dims.rs: the bound that `unify` writes for the parameter it has solved for.
use paco.Prelude.{
  if-holds, ℕ, ◌≡◌, refl, sym, ap, ap₂, ◌∙◌, subst, true, false, ◌&&◌, Option, none, some, [], ◌∷◌,
  arith, ◌==◌, ==_iff, &&-split, >>=-eq-some, get_elem?,
}
use paco.Prelude.Int.{ℤ, pos, parts, ◌+ℤ◌, ◌*ℤ◌, eqb_ℤ, eqb_ℤ_iff, int_laws, *ℤ_comm, pos_one-*ℤ}
use paco.Prelude.Text.{Text}
use paco.Dims.Tables.{find, find-same, find-other}
use paco.Dims.Polys.{Poly}
use paco.Dims.Arena.{PolyId, DimVarId, Atom, param_atom, opaque_atom, Arena, Text_discrete, poly_at}
use paco.Dims.Values.{power, monomial_value, poly_value, some_injective}
use paco.Dims.Invariant.{IsValid, Grows, value_at, atom_value, IsModel}
use paco.Dims.Interning.{IsValid-Grows, not_some}
use paco.Dims.Substitution.{
  Bound, const_dim, dyn_dim, generic, other_type, Substitutions, keep, to, rename, binding,
  binding_of,
}
use paco.Dims.Walking.{BindingAgrees, Agrees, AllBound}
use paco.Dims.Unifying.{
  is_unbound, is_unbound_in, param_name, param_name_of, lone_atom, as_param, bound_of, dim_type,
  bind_solved,
}
use paco.Dims.Solving.{Solved}

unbound_is_kept :
    (name : Text) (o : Option Bound) → is_unbound_in name o ≡ true → binding_of name o ≡ keep
unfolding is_unbound_in binding_of
unbound_is_kept name none h = ground arith
unbound_is_kept name (some (const_dim p)) h = ground arith
unbound_is_kept name (some dyn_dim) h = ground arith
unbound_is_kept name (some other_type) h = ground arith
unbound_is_kept name (some (generic other)) h =
    elim (Text_discrete other name)
        as (λ d.
          elim d [ yes _ ↦ true | no _ ↦ false ] ≡ true
          → elim d [ yes _ ↦ keep | no _ ↦ rename other ] ≡ keep) [
            | yes e ↦ (λ _. refl)
            | no n ↦ (λ k. ground arith)
          ]
      h

power_one : (x : ℤ) → pos 1 *ℤ ((x *ℤ pos 1) *ℤ pos 1) +ℤ pos 0 ≡ x
power_one x =
    let e =
      pos_one-*ℤ ((x *ℤ pos 1) *ℤ pos 1)
      ∙ *ℤ_comm (x *ℤ pos 1) (pos 1)
      ∙ pos_one-*ℤ (x *ℤ pos 1)
      ∙ *ℤ_comm x (pos 1)
      ∙ pos_one-*ℤ x in
    omega (int_laws, parts e)

lone_atom_value :
    (v : ℕ → ℤ) (p : Poly) (k : DimVarId) → lone_atom p ≡ some k → poly_value v p ≡ v k
unfolding lone_atom poly_value monomial_value power
lone_atom_value v [] k h = absurd (not_some h)
lone_atom_value v (([], c) ∷ p) k h = absurd (not_some h)
lone_atom_value v (((j, exp) ∷ [], c) ∷ []) k h =
    if-holds (λ o. o ≡ some k → poly_value v (((j, exp) ∷ [], c) ∷ []) ≡ v k)
      (exp == 1 && eqb_ℤ c (pos 1)) (some j) none
      (λ test same.
        let (e1, e2) = &&-split (exp == 1) (eqb_ℤ c (pos 1)) test in
        ap₂ (λ e c. poly_value v (((j, e) ∷ [], c) ∷ [])) ((==_iff exp 1).0 e1)
          ((eqb_ℤ_iff c (pos 1)).0 e2)
        ∙ power_one (v j)
        ∙ ap v (some_injective same))
      (λ _ no. absurd (not_some no)) h
lone_atom_value v (((j, exp) ∷ [], c) ∷ q ∷ p) k h = absurd (not_some h)
lone_atom_value v (((j, exp) ∷ f ∷ m, c) ∷ p) k h = absurd (not_some h)

named_atom :
    (t : Option Atom) (name : Text) → param_name_of t ≡ some name → t ≡ some (param_atom name)
unfolding param_name_of
named_atom none name h = absurd (not_some h)
named_atom (some (param_atom other)) name h = ap (λ x. some (param_atom x)) (some_injective h)
named_atom (some (opaque_atom _ _ _)) name h = absurd (not_some h)

as_param_value :
    (id : PolyId) (a : Arena) (name : Text) (names : Text → ℤ) (v : ℕ → ℤ)
    → as_param id a ≡ some name
    → IsModel names v a
    → value_at v id a ≡ names name
unfolding as_param param_name IsModel atom_value value_at
as_param_value id a name names v h m =
    let (k, hk, h1) = >>=-eq-some (lone_atom (poly_at id a)) _ h in
    lone_atom_value v (poly_at id a) k hk
    ∙ m k (param_atom name) (named_atom (get_elem? a.atoms k) name h1)

-- what the bound that is written for a name says of its value
bound_value :
    (name : Text) (o : Option Text) (id : PolyId) (a : Arena) (names0 names : Text → ℤ) (v : ℕ → ℤ)
    → as_param id a ≡ o
    → IsModel names v a
    → names0 name ≡ names name
    → BindingAgrees a names v names0 name (binding_of name (some (bound_of o id)))
    → names name ≡ value_at v id a
unfolding bound_of binding_of BindingAgrees
bound_value name none id a names0 names v e m kept h = sym kept ∙ h
bound_value name (some other) id a names0 names v e m kept h =
    elim (Text_discrete other name)
        as (λ d.
          BindingAgrees a names v names0 name (elim d [ yes _ ↦ keep | no _ ↦ rename other ])
          → names name ≡ value_at v id a) [
            | yes same ↦ (λ _. sym (as_param_value id a other names v e m ∙ ap names same))
            | no _ ↦ (λ g. sym kept ∙ g ∙ sym (as_param_value id a other names v e m))
          ]
      h

pub bind_solved-Solved :
    (s : Substitutions) (a a' : Arena) (names0 names : Text → ℤ) (v : ℕ → ℤ)
    (o : Option (Text × PolyId))
    → ((name : Text) (value : PolyId)
        → some o ≡ some (some (name, value))
        → is_unbound name s ≡ true)
    → IsModel names v a'
    → Agrees s a names v names0
    → Agrees (bind_solved (some o) s a').0 a' names v names0
    → Solved names v a' o
unfolding Solved Agrees bind_solved is_unbound binding BindingAgrees binding_of dim_type
bind_solved-Solved s a a' names0 names v none u m ag ag' = tt
bind_solved-Solved s a a' names0 names v (some (name, value)) u m ag ag' =
    let kept =
      subst (BindingAgrees a names v names0 name)
        (unbound_is_kept name (find Text_discrete name s) (u name value refl)) (ag name) in
    bound_value name (as_param value a') value a' names0 names v refl m kept (
      subst (λ o. BindingAgrees a' names v names0 name (binding_of name o))
        (find-same Text_discrete name (dim_type value a') s) (ag' name))

pub unify_cases :
    (s : Substitutions) (a : Arena) (o : Option (Option (Text × PolyId)))
    → (bind_solved o s a).1 ≡ true
    → (p : Option (Text × PolyId)) × (o ≡ some p)
unfolding bind_solved
unify_cases s a none h = ground arith
unify_cases s a (some p) h = (p, refl)

pub AllBound-Grows : (s : Substitutions) (a a' : Arena) → Grows a a' → AllBound s a → AllBound s a'
unfolding AllBound
AllBound-Grows s a a' g bounds name bound e = IsValid-Grows bound a a' g (bounds name bound e)

to_injective : (p q : PolyId) → to p ≡ to q → p ≡ q
to_injective p q h = cc

bound_to :
    (n : Text) (o : Option Text) (value p : PolyId)
    → binding_of n (some (bound_of o value)) ≡ to p
    → value ≡ p
unfolding bound_of binding_of
bound_to n none value p h = to_injective value p h
bound_to n (some other) value p h =
    elim (Text_discrete other n)
        as (λ d. elim d [ yes _ ↦ keep | no _ ↦ rename other ] ≡ to p → value ≡ p) [
          | yes _ ↦ (λ k. ground arith)
          | no _ ↦ (λ k. ground arith)
        ]
      h

pub solved-AllBound :
    (s : Substitutions) (a : Arena) (o : Option (Option (Text × PolyId)))
    → ((name : Text) (value : PolyId) → o ≡ some (some (name, value)) → IsValid value a)
    → AllBound s a
    → AllBound (bind_solved o s a).0 a
unfolding AllBound bind_solved binding binding_of dim_type
solved-AllBound s a none valid bounds = bounds
solved-AllBound s a (some none) valid bounds = bounds
solved-AllBound s a (some (some (name, value))) valid bounds = λ n bound e.
    elim (Text_discrete n name) [
      | yes same ↦
          let now =
            sym (
              ap (binding_of n) (
                ap (λ x. find Text_discrete x ((name, dim_type value a) ∷ s)) same
                ∙ find-same Text_discrete name (dim_type value a) s))
            ∙ e in
          subst (λ i. IsValid i a) (bound_to n (as_param value a) value bound now)
            (valid name value refl)
      | no other ↦
          bounds n bound (
            sym (ap (binding_of n) (find-other Text_discrete n name (dim_type value a) s other))
            ∙ e)
    ]
