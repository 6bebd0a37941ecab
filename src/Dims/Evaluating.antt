-- ===== src/Dims/Evaluating.antt =====
-- compiler/paco-types/src/dims.rs: the integer that `eval` finds for an expression.
use paco.Prelude.{
  ℕ, zero, suc, ◌≡◌, refl, sym, ap, ap₂, ◌∙◌, Option, some, [], ◌∷◌, >>=-eq-some, get_elem?,
}
use paco.Prelude.Int.{ℤ, pos, parts, ◌+ℤ◌, ◌*ℤ◌, int_laws, *ℤ_comm, *ℤ_assoc, pos_one-*ℤ}
use paco.Prelude.Text.{Text}
use paco.Dims.Checked.{checked_add, checked_mul, checked-some}
use paco.Dims.Polys.{Monomial, Poly}
use paco.Dims.Arena.{DimOp, PolyId, DimVarId, Atom, param_atom, opaque_atom, Arena, poly_at}
use paco.Dims.Values.{power, monomial_value, poly_value, some_injective}
use paco.Dims.Invariant.{
  IsValid, IsGood, Grows, op_value, value_at, atom_value, IsModel, value_at-Grows,
}
use paco.Dims.Interning.{IsValid-Grows, not_some}
use paco.Dims.Applying.{lit_of_value, fold_value}
use paco.Dims.Mentions.{AllAtoms, AllIn, AllAtoms-mono}
use paco.Dims.Ranks.{IsBelow, IsRanked}
use paco.Dims.Substitution.{
  Substitutions, Binding, keep, dyn, to, rename, binding, checked_pow, eval_bound, eval_atom,
  eval_factors, eval_terms, eval_upto, eval,
}
use paco.Dims.Walking.{BindingAgrees, Agrees, AllBound, atom_there, IsRanked-IsBelow, old_poly}

module _ (value : DimVarId → Option ℤ) (v : ℕ → ℤ) where
  abbrev Sound : DimVarId → Type 0
  Sound k = (z : ℤ) → value k ≡ some z → z ≡ v k

  eval_factors_value :
      (term : ℤ) (m : Monomial) (z : ℤ)
      → AllIn Sound m
      → eval_factors value term m ≡ some z
      → z ≡ term *ℤ monomial_value v m
  unfolding eval_factors monomial_value AllIn checked_pow checked_mul
  eval_factors_value term [] z sound h =
      sym (some_injective h) ∙ sym (*ℤ_comm term (pos 1) ∙ pos_one-*ℤ term)
  eval_factors_value term ((k, e) ∷ m) z (sound, sounds) h =
      let (x, hx, h1) = >>=-eq-some (value k) _ h in
      let (y, hy, h2) = >>=-eq-some (checked_pow x e) _ h1 in
      let (t, ht, h3) = >>=-eq-some (checked_mul term y) _ h2 in
      let y_is : y ≡ power (v k) e =
        checked-some (power x e) y hy ∙ ap (λ b. power b e) (sound x hx) in
      eval_factors_value t m z sounds h3
      ∙ ap (λ b. b *ℤ monomial_value v m) (checked-some (term *ℤ y) t ht ∙ ap (λ b. term *ℤ b) y_is)
      ∙ *ℤ_assoc term (power (v k) e) (monomial_value v m)

  pub eval_terms_value :
      (total : ℤ) (p : Poly) (z : ℤ)
      → AllAtoms Sound p
      → eval_terms value total p ≡ some z
      → z ≡ total +ℤ poly_value v p
  unfolding eval_terms poly_value AllAtoms
  eval_terms_value total [] z sound h = sym (some_injective h) ∙ omega int_laws
  eval_terms_value total ((m, c) ∷ p) z (sound, sounds) h =
      let (t, ht, h1) = >>=-eq-some (eval_factors value c m) _ h in
      let (u, hu, h2) = >>=-eq-some (checked_add total t) _ h1 in
      omega (
        int_laws,
        parts (eval_terms_value u p z sounds h2),
        parts (checked-some (total +ℤ t) u hu),
        parts (eval_factors_value c m t sound ht),
      )

module _ (s : Substitutions) (a0 a : Arena) (ranked : IsRanked a0) (good : IsGood a)
    (grows : Grows a0 a) (bounds : AllBound s a0) (names0 names : Text → ℤ) (v0 v : ℕ → ℤ)
    (m0 : IsModel names0 v0 a0) (m : IsModel names v a) (agrees : Agrees s a0 names v names0) where
  eval_bound_value :
      (name : Text) (b : Binding) (z : ℤ)
      → binding name s ≡ b
      → BindingAgrees a0 names v names0 name b
      → eval_bound a b ≡ some z
      → z ≡ names0 name
  unfolding eval_bound BindingAgrees AllBound
  eval_bound_value name keep z e g h = absurd (not_some h)
  eval_bound_value name dyn z e g h = absurd (not_some h)
  eval_bound_value name (rename _) z e g h = absurd (not_some h)
  eval_bound_value name (to bound) z e g h =
      let there = bounds name bound e in
      sym (lit_of_value v bound a z good (IsValid-Grows bound a0 a grows there) h)
      ∙ value_at-Grows v bound a0 a there grows
      ∙ sym g

  eval_atom_value :
      (k : DimVarId) (t : Atom) (rest : PolyId → Option ℤ) (z : ℤ)
      → get_elem? a0.atoms k ≡ some t
      → eval_atom s a rest (some t) ≡ some z
      → ((op : DimOp) (left right : PolyId) (x y : ℤ)
          → t ≡ opaque_atom op left right
          → rest left ≡ some x
          → rest right ≡ some y
          → (x ≡ value_at v0 left a0) × (y ≡ value_at v0 right a0))
      → z ≡ v0 k
  unfolding eval_atom IsModel atom_value Agrees
  eval_atom_value k (param_atom name) rest z h e values =
      eval_bound_value name (binding name s) z refl (agrees name) e ∙ sym (m0 k (param_atom name) h)
  eval_atom_value k (opaque_atom op left right) rest z h e values =
      let (x, hx, h1) = >>=-eq-some (rest left) _ e in
      let (y, hy, h2) = >>=-eq-some (rest right) _ h1 in
      let (ex, ey) = values op left right x y refl hx hy in
      fold_value op x y z h2 ∙ ap₂ (op_value op) ex ey ∙ sym (m0 k (opaque_atom op left right) h)

  eval_upto_value :
      (n : ℕ) (id : PolyId) (z : ℤ)
      → IsValid id a0
      → eval_upto n s a id ≡ some z
      → z ≡ value_at v0 id a0
  unfolding eval_upto value_at IsBelow
  eval_upto_value zero id z valid h = absurd (not_some h)
  eval_upto_value (suc n) id z valid h =
      let value : DimVarId → Option ℤ =
        λ k. eval_atom s a (eval_upto n s a) (get_elem? a.atoms k) in
      let sum =
        eval_terms_value value v0 (pos 0) (poly_at id a0) z
          (AllAtoms-mono (IsBelow id a0) (λ k. (y : ℤ) → value k ≡ some y → y ≡ v0 k)
            (λ k (there, below) y found.
              let (t, ht) = atom_there a0.atoms k there in
              eval_atom_value k t (eval_upto n s a) y ht
                (ap (eval_atom s a (eval_upto n s a)) (sym (grows.atoms_stay k t ht)) ∙ found)
                (λ op left right x y' e hx hy.
                  let (l, r) = ranked.good.operands k op left right (ht ∙ ap some e) in
                  (eval_upto_value n left x l hx, eval_upto_value n right y' r hy)))
            (poly_at id a0) (IsRanked-IsBelow id a0 ranked valid))
          (ap (eval_terms value (pos 0)) (sym (old_poly id a0 a grows valid)) ∙ h) in
      sum ∙ omega int_laws

  pub eval_value :
      (id : PolyId) (z : ℤ) → IsValid id a0 → eval s id a ≡ some z → z ≡ value_at v0 id a0
  unfolding eval
  eval_value id z valid h = eval_upto_value (suc id) id z valid h
