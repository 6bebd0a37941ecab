-- ===== src/Dims/Extending.antt =====
-- compiler/paco-types/src/dims.rs: every model of an arena extends to one of the arena that `apply`
-- returns.
use paco.Prelude.{◌≡◌, refl, Option, none, some, [], ◌∷◌}
use paco.Prelude.Int.{ℤ, pos}
use paco.Prelude.Text.{Text}
use paco.Dims.Tables.{find}
use paco.Dims.Polys.{Poly}
use paco.Dims.Arena.{
  DimOp, PolyId, DimVarId, param_atom, opaque_atom, OpaqueKey, Arena, Text_discrete,
  OpaqueKey_discrete, add_poly, or_add_poly, intern, lit_of, constant_poly, or_intern, lit,
  atom_poly, or_new_param, param_id, param, or_new_opaque, opaque_id, opaque, fold, lit_or_opaque,
  intern_or_opaque, apply_to, apply,
}
use paco.Dims.Invariant.{IsValid, IsGood, Grows-refl}
use paco.Dims.Interning.{intern-Computes, lit-Computes}
use paco.Dims.Atoms.{or_new_param-Finds, or_new_opaque-Finds}
use paco.Dims.Ranks.{IsRanked}
use paco.Dims.Models.{Extends, Extends-trans, same_atoms-Extends, add_atom-Extends}

module _ (names : Text → ℤ) where
  or_add_poly-atoms :
      (found : Option PolyId) (p : Poly) (a : Arena) → (or_add_poly found p a).0.atoms ≡ a.atoms
  unfolding or_add_poly add_poly
  or_add_poly-atoms (some _) p a = refl
  or_add_poly-atoms none p a = refl

  intern-Extends : (p : Poly) (a : Arena) → IsGood a → Extends names a (intern p a).0
  unfolding intern
  intern-Extends p a good =
      same_atoms-Extends names a (intern p a).0 (or_add_poly-atoms _ p a) good
        (intern-Computes p a good).grows

  or_intern-atoms :
      (found : Option PolyId) (p : Poly) (a : Arena) → (or_intern found p a).0.atoms ≡ a.atoms
  unfolding or_intern intern
  or_intern-atoms (some _) p a = refl
  or_intern-atoms none p a = or_add_poly-atoms _ p a

  lit-Extends : (z : ℤ) (a : Arena) → IsGood a → Extends names a (lit z a).0
  unfolding lit
  lit-Extends z a good =
      same_atoms-Extends names a (lit z a).0 (or_intern-atoms _ (constant_poly z) a) good
        (lit-Computes z a good).grows

  atom_poly-Extends : (k : DimVarId) (a : Arena) → IsGood a → Extends names a (atom_poly k a).0
  unfolding atom_poly
  atom_poly-Extends k a good = intern-Extends (((k, 1) ∷ [], pos 1) ∷ []) a good

  unchanged-Extends : (a : Arena) → IsGood a → Extends names a a
  unchanged-Extends a good = same_atoms-Extends names a a refl good (Grows-refl a)

  or_new_param-Extends :
      (known : Option DimVarId) (name : Text) (a : Arena)
      → find Text_discrete name a.params ≡ known
      → IsRanked a
      → Extends names a (or_new_param known name a).0
  unfolding or_new_param
  or_new_param-Extends (some id) name a e ranked = unchanged-Extends a ranked.good
  or_new_param-Extends none name a e ranked =
      let f = or_new_param-Finds none name a e ranked.good in
      add_atom-Extends names a (or_new_param none name a).0 (param_atom name) refl refl ranked
        f.good f.grows

  pub param-Extends : (name : Text) (a : Arena) → IsRanked a → Extends names a (param name a).0
  unfolding param param_id
  param-Extends name a ranked =
      let f = or_new_param-Finds (find Text_discrete name a.params) name a refl ranked.good in
      Extends-trans names a (param_id name a).0 (param name a).0
        (or_new_param-Extends (find Text_discrete name a.params) name a refl ranked)
        (atom_poly-Extends (param_id name a).1 (param_id name a).0 f.good)

  or_new_opaque-Extends :
      (known : Option DimVarId) (key : OpaqueKey) (a : Arena)
      → find OpaqueKey_discrete key a.opaques ≡ known
      → IsValid key.left a
      → IsValid key.right a
      → IsRanked a
      → Extends names a (or_new_opaque known key a).0
  unfolding or_new_opaque
  or_new_opaque-Extends (some id) key a e l r ranked = unchanged-Extends a ranked.good
  or_new_opaque-Extends none key a e l r ranked =
      let f = or_new_opaque-Finds none key a e l r ranked.good in
      add_atom-Extends names a (or_new_opaque none key a).0 (opaque_atom key.op key.left key.right)
        refl refl ranked f.good f.grows

  opaque-Extends :
      (op : DimOp) (left right : PolyId) (a : Arena)
      → IsValid left a
      → IsValid right a
      → IsRanked a
      → Extends names a (opaque op left right a).0
  unfolding opaque opaque_id
  opaque-Extends op left right a l r ranked =
      let key : OpaqueKey = record { op = op; left = left; right = right } in
      let known = find OpaqueKey_discrete key a.opaques in
      let f = or_new_opaque-Finds known key a refl l r ranked.good in
      Extends-trans names a (opaque_id key a).0 (opaque op left right a).0
        (or_new_opaque-Extends known key a refl l r ranked)
        (atom_poly-Extends (opaque_id key a).1 (opaque_id key a).0 f.good)

  intern_or_opaque-Extends :
      (combined : Option Poly) (op : DimOp) (left right : PolyId) (a : Arena)
      → IsValid left a
      → IsValid right a
      → IsRanked a
      → Extends names a (intern_or_opaque combined op left right a).0
  unfolding intern_or_opaque
  intern_or_opaque-Extends (some p) op left right a l r ranked = intern-Extends p a ranked.good
  intern_or_opaque-Extends none op left right a l r ranked =
      opaque-Extends op left right a l r ranked

  lit_or_opaque-Extends :
      (folded : Option ℤ) (op : DimOp) (left right : PolyId) (a : Arena)
      → IsValid left a
      → IsValid right a
      → IsRanked a
      → Extends names a (lit_or_opaque folded op left right a).0
  unfolding lit_or_opaque
  lit_or_opaque-Extends (some z) op left right a l r ranked = lit-Extends z a ranked.good
  lit_or_opaque-Extends none op left right a l r ranked = opaque-Extends op left right a l r ranked

  apply_to-Extends :
      (x y : Option ℤ) (op : DimOp) (left right : PolyId) (a : Arena)
      → IsValid left a
      → IsValid right a
      → IsRanked a
      → Extends names a (apply_to x y op left right a).0
  unfolding apply_to
  apply_to-Extends (some x) (some y) op left right a l r ranked =
      lit_or_opaque-Extends (fold op x y) op left right a l r ranked
  apply_to-Extends none y op left right a l r ranked =
      intern_or_opaque-Extends _ op left right a l r ranked
  apply_to-Extends (some x) none op left right a l r ranked =
      intern_or_opaque-Extends _ op left right a l r ranked

  -- On an arena in order and two ids of it, every model of the arena goes on as a model of the arena
  -- that `apply` returns: the atoms it had keep their values, and a new opaque atom has the value of
  -- its operation.
  pub apply-Extends :
      (op : DimOp) (left right : PolyId) (a : Arena)
      → IsValid left a
      → IsValid right a
      → IsRanked a
      → Extends names a (apply op left right a).0
  unfolding apply
  apply-Extends op left right a l r ranked =
      apply_to-Extends (lit_of left a) (lit_of right a) op left right a l r ranked
