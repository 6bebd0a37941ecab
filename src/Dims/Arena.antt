-- ===== src/Dims/Arena.antt =====
-- compiler/paco-types/src/dims.rs: the arena, in which equal polynomials share one id.
use paco.Prelude.{
  ℕ, Option, none, some, List, [], ◌∷◌, ◌++◌, ℕ_discrete, if◌then◌else◌, ◌>>=◌, length, get_elem?,
}
use paco.Prelude.Int.{ℤ, pos, negsuc, ℤ_discrete, eqb_ℤ}
use paco.Prelude.Text.{Text}
use paco.Dims.Tables.{find}
use paco.Dims.Checked.{checked_add, checked_sub, checked_mul, checked_div, checked_rem}
use paco.Dims.Polys.{Poly, get, combine_terms, product_terms, retain_nonzero}

pub data DimOp : Type 0 where
  add sub mul div rem : DimOp

-- an index of `polys`, and one of `atoms`
abbrev pub PolyId : Type 0
PolyId = ℕ

abbrev pub DimVarId : Type 0
DimVarId = ℕ

pub data Atom : Type 0 where
  param_atom : Text → Atom
  opaque_atom : DimOp → PolyId → PolyId → Atom

-- an interned polynomial, and its value if it is constant
pub record Interned : Type 0 where
  pub poly : Poly
  pub constant : Option ℤ

pub record OpaqueKey : Type 0 where
  pub op : DimOp
  pub left : PolyId
  pub right : PolyId

pub record Arena : Type 0 where
  pub atoms : List Atom
  pub params : List (Text × DimVarId)
  pub opaques : List (OpaqueKey × DimVarId)
  pub polys : List Interned
  pub poly_ids : List (Poly × PolyId)
  pub lits : List (ℤ × PolyId)

unfoldable pub Text_discrete : Discrete Text
Text_discrete = hlevel ℕ_discrete

unfoldable pub Poly_discrete : Discrete Poly
Poly_discrete = hlevel (ℕ_discrete, ℤ_discrete)

unfoldable pub OpaqueKey_discrete : Discrete OpaqueKey
OpaqueKey_discrete = hlevel ℕ_discrete

abbrev pub empty_arena : Arena
empty_arena = record { atoms = []; params = []; opaques = []; polys = []; poly_ids = []; lits = [] }

unfoldable pub constant_of : Poly → Option ℤ
unfolding get
constant_of [] = some (pos 0)
constant_of (t ∷ []) = get [] (t ∷ [])
constant_of _ = none

unfoldable pub note_lit : Option ℤ → PolyId → List (ℤ × PolyId) → List (ℤ × PolyId)
note_lit none id lits = lits
note_lit (some value) id lits = (value, id) ∷ lits

unfoldable pub add_poly : Poly → Arena → Arena × PolyId
unfolding constant_of note_lit
add_poly p a =
    let id = length a.polys in
    (
      record a {
        polys = a.polys ++ record { poly = p; constant = constant_of p } ∷ [];
        poly_ids = (p, id) ∷ a.poly_ids;
        lits = note_lit (constant_of p) id a.lits;
      },
      id,
    )

unfoldable pub or_add_poly : Option PolyId → Poly → Arena → Arena × PolyId
unfolding add_poly
or_add_poly (some id) p a = (a, id)
or_add_poly none p a = add_poly p a

unfoldable pub intern : Poly → Arena → Arena × PolyId
unfolding or_add_poly find Poly_discrete
intern p a = or_add_poly (find Poly_discrete p a.poly_ids) p a

unfoldable pub poly_at : PolyId → Arena → Poly
poly_at id a = elim (get_elem? a.polys id) [ some e ↦ e.poly | none ↦ [] ]

unfoldable pub lit_of : PolyId → Arena → Option ℤ
lit_of id a = elim (get_elem? a.polys id) [ some e ↦ e.constant | none ↦ none ]

unfoldable pub constant_poly : ℤ → Poly
constant_poly value = if eqb_ℤ value (pos 0) then [] else ([], value) ∷ []

unfoldable pub or_intern : Option PolyId → Poly → Arena → Arena × PolyId
unfolding intern
or_intern (some id) p a = (a, id)
or_intern none p a = intern p a

unfoldable pub lit : ℤ → Arena → Arena × PolyId
unfolding or_intern find ℤ_discrete constant_poly
lit value a = or_intern (find ℤ_discrete value a.lits) (constant_poly value) a

unfoldable pub atom_poly : DimVarId → Arena → Arena × PolyId
unfolding intern
atom_poly atom a = intern (((atom, 1) ∷ [], pos 1) ∷ []) a

unfoldable pub or_new_param : Option DimVarId → Text → Arena → Arena × DimVarId
or_new_param (some id) name a = (a, id)
or_new_param none name a =
    let id = length a.atoms in
    (record a { atoms = a.atoms ++ param_atom name ∷ []; params = (name, id) ∷ a.params }, id)

-- `param_atom`
unfoldable pub param_id : Text → Arena → Arena × DimVarId
unfolding or_new_param find Text_discrete
param_id name a = or_new_param (find Text_discrete name a.params) name a

unfoldable pub param : Text → Arena → Arena × PolyId
unfolding param_id atom_poly
param name a = let (a', atom) = param_id name a in atom_poly atom a'

unfoldable pub or_new_opaque : Option DimVarId → OpaqueKey → Arena → Arena × DimVarId
or_new_opaque (some id) key a = (a, id)
or_new_opaque none key a =
    let id = length a.atoms in
    (
      record a {
        atoms = a.atoms ++ opaque_atom key.op key.left key.right ∷ [];
        opaques = (key, id) ∷ a.opaques;
      },
      id,
    )

unfoldable pub opaque_id : OpaqueKey → Arena → Arena × DimVarId
unfolding or_new_opaque find OpaqueKey_discrete
opaque_id key a = or_new_opaque (find OpaqueKey_discrete key a.opaques) key a

unfoldable pub opaque : DimOp → PolyId → PolyId → Arena → Arena × PolyId
unfolding opaque_id atom_poly
opaque op left right a =
    let (a', atom) = opaque_id (record { op = op; left = left; right = right }) a in
    atom_poly atom a'

unfoldable pub fold : DimOp → ℤ → ℤ → Option ℤ
unfolding checked_add checked_sub checked_mul checked_div checked_rem
fold add x y = checked_add x y
fold sub x y = checked_sub x y
fold mul x y = checked_mul x y
fold div x y = checked_div x y
fold rem x y = checked_rem x y

-- `combine` and `product` up to their call of `intern`
unfoldable pub combine_op : DimOp → Poly → Poly → Option Poly
unfolding combine_terms product_terms retain_nonzero
combine_op add p q = combine_terms (pos 1) p q
combine_op sub p q = combine_terms (negsuc 0) p q
combine_op mul p q = product_terms [] p q >>= λ r. some (retain_nonzero r)
combine_op div p q = none
combine_op rem p q = none

unfoldable pub lit_or_opaque : Option ℤ → DimOp → PolyId → PolyId → Arena → Arena × PolyId
unfolding lit opaque
lit_or_opaque (some value) op left right a = lit value a
lit_or_opaque none op left right a = opaque op left right a

unfoldable pub intern_or_opaque : Option Poly → DimOp → PolyId → PolyId → Arena → Arena × PolyId
unfolding intern opaque
intern_or_opaque (some p) op left right a = intern p a
intern_or_opaque none op left right a = opaque op left right a

unfoldable pub apply_to : Option ℤ → Option ℤ → DimOp → PolyId → PolyId → Arena → Arena × PolyId
unfolding fold lit_or_opaque combine_op intern_or_opaque poly_at
apply_to (some x) (some y) op left right a = lit_or_opaque (fold op x y) op left right a
apply_to _ _ op left right a =
    intern_or_opaque (combine_op op (poly_at left a) (poly_at right a)) op left right a

unfoldable pub apply : DimOp → PolyId → PolyId → Arena → Arena × PolyId
unfolding apply_to lit_of
apply op left right a = apply_to (lit_of left a) (lit_of right a) op left right a
