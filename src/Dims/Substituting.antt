-- ===== src/Dims/Substituting.antt =====
-- compiler/paco-types/src/dims.rs: `resolve` puts values in for the parameters of an expression.
use paco.Prelude.{ℕ, ◌<◌, ◌≡◌, refl, sym, ap, ap₂, ◌∙◌, subst, some, [], ◌∷◌, length, get_elem?}
use paco.Prelude.Int.{pos, ◌+ℤ◌, ◌*ℤ◌, int_laws, +ℤ_assoc, *ℤ_comm, *ℤ_assoc, pos_one-*ℤ}
use paco.Prelude.Text.{Text}
use paco.Dims.Tables.{find}
use paco.Dims.Polys.{Monomial, Poly}
use paco.Dims.Arena.{
  DimOp, add, PolyId, DimVarId, Atom, param_atom, opaque_atom, Arena, Text_discrete, lit, atom_poly,
  param_id, param, apply,
}
use paco.Dims.Values.{power, monomial_value, poly_value}
use paco.Dims.Invariant.{
  IsValid, IsGood, Grows, Grows-trans, op_value, value_at, atom_value, IsModel, value_at-Grows,
  Computes,
}
use paco.Dims.Interning.{atom_poly-Computes, IsValid-Grows}
use paco.Dims.Atoms.{or_new_param-Finds, param-Computes}
use paco.Dims.Mentions.{AllAtoms, AllIn}
use paco.Dims.Ranks.{IsRanked, get_elem?-lt, atom_poly-IsRanked, param-IsRanked}
use paco.Dims.Substitution.{
  Substitutions, Binding, keep, dyn, to, rename, binding, Tried, done, times, resolve_param,
  resolve_atom, resolve_factors, resolve_terms,
}
use paco.Dims.Walking.{BindingAgrees, Agrees, AllBound, atom_there}
use paco.Dims.Resolving.{
  NoDyn, Gives, as_value, done-Gives, same-Gives, fail-Gives, chain-Gives, apply-Gives, lit-Gives,
  times-Gives,
}

pub param-Computes-atom :
    (name : Text) (a : Arena) → IsGood a → Computes a (param name a) (λ v. v (param_id name a).1)
unfolding param param_id
param-Computes-atom name a good =
    let f = or_new_param-Finds (find Text_discrete name a.params) name a refl good in
    let (a', atom) = param_id name a in
    let c = atom_poly-Computes atom a' f.good in
    record {
      good = c.good;
      grows = Grows-trans a a' (param name a).0 f.grows c.grows;
      valid = c.valid;
      values = c.values;
    }

module _ (s : Substitutions) (a0 : Arena) (ranked0 : IsRanked a0) (bounds : AllBound s a0) where
  resolve_param-Gives :
      (name : Text) (b : Binding) (k : DimVarId) (a : Arena)
      → binding name s ≡ b
      → get_elem? a0.atoms k ≡ some (param_atom name)
      → IsRanked a
      → Grows a0 a
      → Gives s a0 a (resolve_param b k a) (λ v0 v. v0 k)
  unfolding resolve_param IsModel atom_value Agrees BindingAgrees AllBound NoDyn
  resolve_param-Gives name keep k a e h ranked g =
      let there = g.atoms_stay k (param_atom name) h in
      let c = atom_poly-Computes k a ranked.good in
      as_value s a0 a _ (λ v0 v. v k) _
        (λ names0 names v0 v m0 m ag.
          m k (param_atom name) (c.grows.atoms_stay k (param_atom name) there)
          ∙ sym (subst (BindingAgrees a0 names v names0 name) e (ag name))
          ∙ sym (m0 k (param_atom name) h))
        (done-Gives s a0 a (atom_poly k a) (λ v. v k)
          (atom_poly-IsRanked k a (get_elem?-lt a.atoms k (param_atom name) there) ranked) c)
  resolve_param-Gives name dyn k a e h ranked g = fail-Gives s a0 a _ ranked (λ free. free name e)
  resolve_param-Gives name (to bound) k a e h ranked g =
      let there = bounds name bound e in
      as_value s a0 a _ (λ v0 v. value_at v bound a) _
        (λ names0 names v0 v m0 m ag.
          value_at-Grows v bound a0 a there g
          ∙ sym (subst (BindingAgrees a0 names v names0 name) e (ag name))
          ∙ sym (m0 k (param_atom name) h))
        (same-Gives s a0 a bound ranked (IsValid-Grows bound a0 a g there))
  resolve_param-Gives name (rename other) k a e h ranked g =
      let c = param-Computes-atom other a ranked.good in
      as_value s a0 a _ (λ v0 v. v (param_id other a).1) _
        (λ names0 names v0 v m0 m ag.
          sym (c.values names v m)
          ∙ param-Computes other a ranked.good names v m
          ∙ sym (subst (BindingAgrees a0 names v names0 name) e (ag name))
          ∙ sym (m0 k (param_atom name) h))
        (done-Gives s a0 a (param other a) _ (param-IsRanked other a ranked) c)

  module _ (n : ℕ) (rest : PolyId → Arena → Tried)
      (inner : (id : PolyId) (a : Arena)
        → id < n
        → IsValid id a0
        → IsRanked a
        → Grows a0 a
        → Gives s a0 a (rest id a) (λ v0 v. value_at v0 id a0)) where
    resolve_atom-Gives :
        (k : DimVarId) (t : Atom) (a : Arena)
        → get_elem? a0.atoms k ≡ some t
        → ((op : DimOp) (left right : PolyId)
            → t ≡ opaque_atom op left right
            → (left < n) × (right < n))
        → IsRanked a
        → Grows a0 a
        → Gives s a0 a (resolve_atom s rest k (some t) a) (λ v0 v. v0 k)
    unfolding resolve_atom IsModel atom_value
    resolve_atom-Gives k (param_atom name) a h below ranked g =
        resolve_param-Gives name (binding name s) k a refl h ranked g
    resolve_atom-Gives k (opaque_atom op left right) a h below ranked g =
        let (b1, b2) = below op left right refl in
        let (l, r) = ranked0.good.operands k op left right h in
        as_value s a0 a _ (λ v0 v. op_value op (value_at v0 left a0) (value_at v0 right a0)) _
          (λ names0 names v0 v m0 m ag. sym (m0 k (opaque_atom op left right) h))
          (chain-Gives s a0 a (rest left a) _ _ _ (inner left a b1 l ranked g)
            (λ x a1 ranked1 g1 vx. (
              (λ v0 v. op_value op (value_at v x a1) (value_at v0 right a0)),
              chain-Gives s a0 a1 (rest right a1) _ _ _
                  (inner right a1 b2 r ranked1 (Grows-trans a0 a a1 g g1))
                  (λ y a2 ranked2 g2 vy. (
                    (λ v0 v. op_value op (value_at v x a2) (value_at v y a2)),
                    apply-Gives s a0 op x y a2 ranked2 (IsValid-Grows x a1 a2 g2 vx) vy,
                    λ v0 v e. ap₂ (op_value op) (value_at-Grows v x a1 a2 vx g2) e,
                  )),
              λ v0 v e. ap (λ z. op_value op z (value_at v0 right a0)) e,
            )))

    abbrev IsInner : DimVarId → Type 0
    IsInner k =
        (k < length a0.atoms)
        × ((op : DimOp) (left right : PolyId)
            → get_elem? a0.atoms k ≡ some (opaque_atom op left right)
            → (left < n) × (right < n))

    resolve_factors-Gives :
        (term : PolyId) (m : Monomial) (a : Arena)
        → AllIn IsInner m
        → IsValid term a
        → IsRanked a
        → Grows a0 a
        → Gives s a0 a
            (resolve_factors s rest term m a)
            (λ v0 v. value_at v term a *ℤ monomial_value v0 m)
    unfolding resolve_factors monomial_value AllIn
    resolve_factors-Gives term [] a inside valid ranked g =
        as_value s a0 a _ (λ v0 v. value_at v term a) _
          (λ names0 names v0 v m0 m ag.
            sym (*ℤ_comm (value_at v term a) (pos 1) ∙ pos_one-*ℤ (value_at v term a)))
          (same-Gives s a0 a term ranked valid)
    resolve_factors-Gives term ((k, exp) ∷ m) a ((there, below), inside) valid ranked g =
        let (t, ht) = atom_there a0.atoms k there in
        let first =
          subst (λ o. Gives s a0 a (resolve_atom s rest k o a) (λ v0 v. v0 k))
            (sym (g.atoms_stay k t ht))
            (resolve_atom-Gives k t a ht (λ op left right e. below op left right (ht ∙ ap some e))
              ranked g) in
        chain-Gives s a0 a (resolve_atom s rest k (get_elem? a.atoms k) a) _ _ _ first
          (λ x a1 ranked1 g1 vx. (
            (λ v0 v. (value_at v term a1 *ℤ power (value_at v x a1) exp) *ℤ monomial_value v0 m),
            chain-Gives s a0 a1 (times exp term x a1) _ _ _
                (times-Gives s a0 exp term x a1 ranked1 (IsValid-Grows term a a1 g1 valid) vx)
                (λ y a2 ranked2 g2 vy. (
                  (λ v0 v. value_at v y a2 *ℤ monomial_value v0 m),
                  resolve_factors-Gives y m a2 inside vy ranked2
                      (Grows-trans a0 a1 a2 (Grows-trans a0 a a1 g g1) g2),
                  λ v0 v e. ap (λ z. z *ℤ monomial_value v0 m) e,
                )),
            λ v0 v e.
                ap₂ (λ z w. (z *ℤ power w exp) *ℤ monomial_value v0 m)
                  (value_at-Grows v term a a1 valid g1) e
                ∙ *ℤ_assoc (value_at v term a) (power (v0 k) exp) (monomial_value v0 m),
          ))

    pub resolve_terms-Gives :
        (total : PolyId) (p : Poly) (a : Arena)
        → AllAtoms IsInner p
        → IsValid total a
        → IsRanked a
        → Grows a0 a
        → Gives s a0 a
            (resolve_terms s rest total p a)
            (λ v0 v. value_at v total a +ℤ poly_value v0 p)
    unfolding resolve_terms poly_value AllAtoms op_value
    resolve_terms-Gives total [] a inside valid ranked g =
        as_value s a0 a _ (λ v0 v. value_at v total a) _
          (λ names0 names v0 v m0 m ag. omega int_laws) (same-Gives s a0 a total ranked valid)
    resolve_terms-Gives total ((m, c) ∷ p) a (inside, insides) valid ranked g =
        chain-Gives s a0 a (done (lit c a)) _ _ _ (lit-Gives s a0 c a ranked)
          (λ one a1 ranked1 g1 v1. (
            (λ v0 v.
                value_at v total a1
                +ℤ (value_at v one a1 *ℤ monomial_value v0 m +ℤ poly_value v0 p)),
            chain-Gives s a0 a1 (resolve_factors s rest one m a1) _ _ _
                (resolve_factors-Gives one m a1 inside v1 ranked1 (Grows-trans a0 a a1 g g1))
                (λ term a2 ranked2 g2 v2. (
                  (λ v0 v. (value_at v total a2 +ℤ value_at v term a2) +ℤ poly_value v0 p),
                  chain-Gives s a0 a2 (done (apply add total term a2)) _ _ _
                      (apply-Gives s a0 add total term a2 ranked2
                        (IsValid-Grows total a1 a2 g2 (IsValid-Grows total a a1 g1 valid)) v2)
                      (λ total' a3 ranked3 g3 v3. (
                        (λ v0 v. value_at v total' a3 +ℤ poly_value v0 p),
                        resolve_terms-Gives total' p a3 insides v3 ranked3 (
                            Grows-trans a0 a2 a3
                              (Grows-trans a0 a1 a2 (Grows-trans a0 a a1 g g1) g2) g3),
                        λ v0 v e. ap (λ z. z +ℤ poly_value v0 p) e,
                      )),
                  λ v0 v e.
                      ap₂ (λ z w. (z +ℤ w) +ℤ poly_value v0 p)
                        (value_at-Grows v total a1 a2 (IsValid-Grows total a a1 g1 valid) g2) e
                      ∙ +ℤ_assoc (value_at v total a1) (value_at v one a1 *ℤ monomial_value v0 m)
                          (poly_value v0 p),
                )),
            λ v0 v e.
                ap₂ (λ z w. z +ℤ (w *ℤ monomial_value v0 m +ℤ poly_value v0 p))
                  (value_at-Grows v total a a1 valid g1) e,
          ))
