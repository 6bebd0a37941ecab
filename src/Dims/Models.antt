-- ===== src/Dims/Models.antt =====
-- compiler/paco-types/src/dims.rs: every model of an arena extends to one of the arena that an
-- operation returns.
use paco.Prelude.{
  ℕ, ◌≤◌, ◌<◌, ◌≡◌, refl, sym, ap, ap₂, ◌∙◌, subst, inl, inr, some, [], ◌∷◌, ◌++◌, arith, ltb,
  if◌then◌else◌, length, get_elem?, length-append,
}
use paco.Prelude.Int.{ℤ}
use paco.Prelude.Text.{Text}
use paco.Dims.Arena.{PolyId, DimVarId, Atom, param_atom, opaque_atom, Arena, poly_at}
use paco.Dims.Invariant.{
  get_elem?-cases, IsValid, IsGood, Grows, op_value, value_at, atom_value, IsModel, value_at-Grows,
}
use paco.Dims.Mentions.{AllAtoms-mono}
use paco.Dims.Ranks.{IsRanked, get_elem?-lt, poly_at-Knows}
use paco.Dims.Walking.{poly_value_same}

-- a model of the arena goes on as one of the arena after, with the same values of its atoms
pub record Extends (names : Text → ℤ) (a a' : Arena) : Type 0 where
  pub more : length a.atoms ≤ length a'.atoms
  pub model :
      (v : ℕ → ℤ)
      → IsModel names v a
      → (v' : ℕ → ℤ) × IsModel names v' a' × ((k : DimVarId) → k < length a.atoms → v' k ≡ v k)

pub value_at_same :
    (v' v : ℕ → ℤ) (id : PolyId) (a : Arena)
    → IsRanked a
    → IsValid id a
    → ((k : DimVarId) → k < length a.atoms → v' k ≡ v k)
    → value_at v' id a ≡ value_at v id a
unfolding value_at
value_at_same v' v id a ranked valid same = poly_value_same v' v (poly_at id a) (
    AllAtoms-mono (λ k. k < length a.atoms) (λ k. v' k ≡ v k) same (poly_at id a)
      (poly_at-Knows id a ranked valid))

atom_value-Grows :
    (names : Text → ℤ) (v : ℕ → ℤ) (a a' : Arena) (k : DimVarId) (t : Atom)
    → IsGood a
    → Grows a a'
    → get_elem? a.atoms k ≡ some t
    → atom_value names v a t ≡ atom_value names v a' t
unfolding atom_value
atom_value-Grows names v a a' k (param_atom name) good g h = refl
atom_value-Grows names v a a' k (opaque_atom op left right) good g h =
    let (l, r) = good.operands k op left right h in
    sym (ap₂ (op_value op) (value_at-Grows v left a a' l g) (value_at-Grows v right a a' r g))

module _ (names : Text → ℤ) where
  pub Extends-trans : (a b c : Arena) → Extends names a b → Extends names b c → Extends names a c
  Extends-trans a b c f g =
      let fm = f.more in
      let gm = g.more in
      record {
        more = omega arith;
        model = λ v m.
            let (v1, m1, same1) = f.model v m in
            let (v2, m2, same2) = g.model v1 m1 in
            (v2, m2, λ k lt. same2 k (omega arith) ∙ same1 k lt);
      }

  -- no new atom
  pub same_atoms-Extends :
      (a a' : Arena) → a'.atoms ≡ a.atoms → IsGood a → Grows a a' → Extends names a a'
  unfolding IsModel
  same_atoms-Extends a a' e good g = record {
    more = subst (λ n. length a.atoms ≤ n) (ap length (sym e)) (omega arith);
    model = λ v m. (
      v,
      λ k t h.
          let old = subst (λ ts. get_elem? ts k ≡ some t) e h in
          m k t old ∙ atom_value-Grows names v a a' k t good g old,
      λ k lt. refl,
    );
  }

  -- one new atom, whose operands were there
  module _ (a a' : Arena) (t : Atom) (same_polys : a'.polys ≡ a.polys)
      (more_atoms : a'.atoms ≡ a.atoms ++ t ∷ []) (ranked : IsRanked a) (good' : IsGood a')
      (grows : Grows a a') where
    with_atom : (ℕ → ℤ) → ℕ → ℤ
    with_atom v k = if ltb k (length a.atoms) then v k else atom_value names v a t

    with_atom_old : (v : ℕ → ℤ) (k : DimVarId) → k < length a.atoms → with_atom v k ≡ v k
    unfolding with_atom
    with_atom_old v k lt = ground arith

    with_atom_new :
        (v : ℕ → ℤ) (k : DimVarId) → k ≡ length a.atoms → with_atom v k ≡ atom_value names v a t
    unfolding with_atom
    with_atom_new v k e = ground arith

    back : (id : PolyId) → IsValid id a' → IsValid id a
    back id (e, h) = (e, subst (λ ps. get_elem? ps id ≡ some e) same_polys h)

    operand_same :
        (v : ℕ → ℤ) (id : PolyId) → IsValid id a' → value_at (with_atom v) id a' ≡ value_at v id a
    operand_same v id valid =
        value_at-Grows (with_atom v) id a a' (back id valid) grows
        ∙ value_at_same (with_atom v) v id a ranked (back id valid) (with_atom_old v)

    with_atom_value :
        (v : ℕ → ℤ) (k : DimVarId) (u : Atom)
        → get_elem? a'.atoms k ≡ some u
        → atom_value names (with_atom v) a' u ≡ atom_value names v a u
    unfolding atom_value
    with_atom_value v k (param_atom name) h = refl
    with_atom_value v k (opaque_atom op left right) h =
        let (l, r) = good'.operands k op left right h in
        ap₂ (op_value op) (operand_same v left l) (operand_same v right r)

    pub add_atom-Extends : Extends names a a'
    unfolding IsModel
    add_atom-Extends = record {
      more =
          subst (λ ts. length a.atoms ≤ length ts) (sym more_atoms)
            (rw (length-append a.atoms (t ∷ [])) (omega arith));
      model = λ v m. (
        with_atom v,
        λ k u h.
            elim (get_elem?-cases a.atoms t u k
              (subst (λ ts. get_elem? ts k ≡ some u) more_atoms h)) [
                | inl old ↦
                    with_atom_old v k (get_elem?-lt a.atoms k u old)
                    ∙ m k u old
                    ∙ sym (with_atom_value v k u h)
                | inr (last, is) ↦
                    with_atom_new v k last
                    ∙ ap (atom_value names v a) is
                    ∙ sym (with_atom_value v k u h)
              ],
        with_atom_old v,
      );
    }
