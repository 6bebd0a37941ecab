-- ===== src/Dims/Atoms.antt =====
-- compiler/paco-types/src/dims.rs: `param`, `opaque` and `apply` compute what they stand for.
use paco.Prelude.{
  ℕ, ◌≡◌, refl, sym, ap, ap₂, ◌∙◌, subst, ◌≢◌, inl, inr, Option, none, some, [], ◌∷◌, ◌++◌, length,
  get_elem?,
}
use paco.Prelude.Int.{ℤ}
use paco.Prelude.Text.{Text}
use paco.Dims.Tables.{find, find-cases}
use paco.Dims.Arena.{
  DimOp, PolyId, DimVarId, Atom, param_atom, opaque_atom, OpaqueKey, Arena, Text_discrete,
  OpaqueKey_discrete, or_new_param, param_id, param, or_new_opaque, opaque_id, opaque,
}
use paco.Dims.Invariant.{
  get_elem?-kept, get_elem?-last, get_elem?-cases, IsValid, IsGood, Grows, Grows-refl, Grows-trans,
  op_value, value_at, atom_value, IsModel, value_at-Grows, Computes,
}
use paco.Dims.Interning.{atom_poly-Computes}

param-≢-opaque :
    (name : Text) (op : DimOp) (left right : PolyId) → param_atom name ≢ opaque_atom op left right
param-≢-opaque name op left right h = cc

atom_left : Atom → PolyId
atom_left (param_atom _) = 0
atom_left (opaque_atom _ left _) = left

atom_right : Atom → PolyId
atom_right (param_atom _) = 0
atom_right (opaque_atom _ _ right) = right

-- an atom that an operation returns
pub record Finds (a : Arena) (r : Arena × DimVarId) (t : Atom) : Type 0 where
  pub good : IsGood r.0
  pub grows : Grows a r.0
  pub found : get_elem? r.0.atoms r.1 ≡ some t

add_atom-Grows :
    (a a' : Arena) (t : Atom) → a'.polys ≡ a.polys → a'.atoms ≡ a.atoms ++ t ∷ [] → Grows a a'
add_atom-Grows a a' t same more = record {
  polys_stay = λ id e h. subst (λ ps. get_elem? ps id ≡ some e) (sym same) h;
  atoms_stay = λ atom u h.
      subst (λ ts. get_elem? ts atom ≡ some u) (sym more) (get_elem?-kept a.atoms t u atom h);
}

pub or_new_param-Finds :
    (known : Option DimVarId) (name : Text) (a : Arena)
    → find Text_discrete name a.params ≡ known
    → IsGood a
    → Finds a (or_new_param known name a) (param_atom name)
unfolding or_new_param
or_new_param-Finds (some id) name a h good = record {
  good = good;
  grows = Grows-refl a;
  found = good.names name id h;
}
or_new_param-Finds none name a h good =
    let t = param_atom name in
    let a' = (or_new_param none name a).0 in
    let grows = add_atom-Grows a a' t refl refl in
    record {
      good = record {
        ids = good.ids;
        unique = good.unique;
        literals = good.literals;
        constants = good.constants;
        names = λ n atom h'.
            elim (find-cases Text_discrete n name (length a.atoms) atom a.params h') [
              | inl (e, same) ↦
                  subst (λ k. get_elem? a'.atoms k ≡ some (param_atom n)) same
                    (get_elem?-last a.atoms t ∙ ap (λ x. some (param_atom x)) (sym e))
              | inr old ↦ grows.atoms_stay atom (param_atom n) (good.names n atom old)
            ];
        keys = λ key atom h'. grows.atoms_stay atom _ (good.keys key atom h');
        operands = λ atom op left right h'.
            elim (get_elem?-cases a.atoms t (opaque_atom op left right) atom h') [
              | inl old ↦ good.operands atom op left right old
              | inr (_, same) ↦ absurd (param-≢-opaque name op left right same)
            ];
      };
      grows = grows;
      found = get_elem?-last a.atoms t;
    }

pub param-Computes :
    (name : Text) (a : Arena)
    → IsGood a
    → (names : Text → ℤ) (v : ℕ → ℤ) → IsModel names v (param name a).0
    → value_at v (param name a).1 (param name a).0 ≡ names name
unfolding param param_id IsModel atom_value
param-Computes name a good names v m =
    let f = or_new_param-Finds (find Text_discrete name a.params) name a refl good in
    let (a', atom) = param_id name a in
    let c = atom_poly-Computes atom a' f.good in
    c.values names v m
    ∙ m atom (param_atom name) (c.grows.atoms_stay atom (param_atom name) f.found)

pub or_new_opaque-Finds :
    (known : Option DimVarId) (key : OpaqueKey) (a : Arena)
    → find OpaqueKey_discrete key a.opaques ≡ known
    → IsValid key.left a
    → IsValid key.right a
    → IsGood a
    → Finds a (or_new_opaque known key a) (opaque_atom key.op key.left key.right)
unfolding or_new_opaque atom_left atom_right
or_new_opaque-Finds (some id) key a h l r good = record {
  good = good;
  grows = Grows-refl a;
  found = good.keys key id h;
}
or_new_opaque-Finds none key a h l r good =
    let t = opaque_atom key.op key.left key.right in
    let a' = (or_new_opaque none key a).0 in
    let grows = add_atom-Grows a a' t refl refl in
    record {
      good = record {
        ids = good.ids;
        unique = good.unique;
        literals = good.literals;
        constants = good.constants;
        names = λ n atom h'. grows.atoms_stay atom _ (good.names n atom h');
        keys = λ k atom h'.
            elim (find-cases OpaqueKey_discrete k key (length a.atoms) atom a.opaques h') [
              | inl (e, same) ↦
                  subst (λ j. get_elem? a'.atoms j ≡ some (opaque_atom k.op k.left k.right)) same
                    (get_elem?-last a.atoms t
                      ∙ ap (λ (x : OpaqueKey). some (opaque_atom x.op x.left x.right)) (sym e))
              | inr old ↦ grows.atoms_stay atom _ (good.keys k atom old)
            ];
        operands = λ atom op left right h'.
            elim (get_elem?-cases a.atoms t (opaque_atom op left right) atom h') [
              | inl old ↦ good.operands atom op left right old
              | inr (_, same) ↦ (
                subst (λ k. IsValid k a) (ap atom_left same) l,
                subst (λ k. IsValid k a) (ap atom_right same) r,
              )
            ];
      };
      grows = grows;
      found = get_elem?-last a.atoms t;
    }

opaque-IsModel :
    (names : Text → ℤ) (v : ℕ → ℤ) (atom : DimVarId) (op : DimOp) (left right : PolyId) (a : Arena)
    → IsModel names v a
    → get_elem? a.atoms atom ≡ some (opaque_atom op left right)
    → v atom ≡ op_value op (value_at v left a) (value_at v right a)
unfolding IsModel atom_value
opaque-IsModel names v atom op left right a m h = m atom (opaque_atom op left right) h

pub opaque-Computes :
    (op : DimOp) (left right : PolyId) (a : Arena)
    → IsGood a
    → IsValid left a
    → IsValid right a
    → Computes a
        (opaque op left right a)
        (λ v. op_value op (value_at v left a) (value_at v right a))
unfolding opaque opaque_id
opaque-Computes op left right a good l r =
    let key : OpaqueKey = record { op = op; left = left; right = right } in
    let f = or_new_opaque-Finds (find OpaqueKey_discrete key a.opaques) key a refl l r good in
    let (a', atom) = opaque_id key a in
    let c = atom_poly-Computes atom a' f.good in
    let grows = Grows-trans a a' _ f.grows c.grows in
    record {
      good = c.good;
      grows = grows;
      valid = c.valid;
      values = λ names v m.
          c.values names v m
          ∙ opaque-IsModel names v atom op left right _ m
              (c.grows.atoms_stay atom (opaque_atom op left right) f.found)
          ∙ ap₂ (op_value op) (value_at-Grows v left a _ l grows)
              (value_at-Grows v right a _ r grows);
    }
