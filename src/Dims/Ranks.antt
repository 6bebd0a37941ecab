-- ===== src/Dims/Ranks.antt =====
-- compiler/paco-types/src/dims.rs: an atom of a polynomial stands on polynomials before it.
use paco.Prelude.{
  if-holds, ℕ, zero, suc, ◌<◌, ◌≡◌, refl, sym, subst, inl, inr, Option, none, some, List, [], ◌∷◌,
  ◌++◌, arith, length, get_elem?, length-append,
}
use paco.Prelude.Int.{ℤ, pos, ℤ_discrete, eqb_ℤ}
use paco.Prelude.Text.{Text}
use paco.Dims.Tables.{find}
use paco.Dims.Polys.{Poly}
use paco.Dims.Arena.{
  DimOp, PolyId, DimVarId, Atom, param_atom, opaque_atom, Interned, OpaqueKey, Arena, Text_discrete,
  Poly_discrete, OpaqueKey_discrete, add_poly, or_add_poly, intern, poly_at, constant_poly,
  or_intern, lit, atom_poly, or_new_param, param_id, param, or_new_opaque, opaque_id, opaque,
}
use paco.Dims.Invariant.{get_elem?-cases, At, IsValid, IsGood, poly_at-At}
use paco.Dims.Interning.{intern-Computes}
use paco.Dims.Atoms.{or_new_param-Finds, or_new_opaque-Finds}
use paco.Dims.Mentions.{AllAtoms, AllIn, AllAtoms-mono}

-- an atom that the arena has, whose operands stand before the polynomial
unfoldable pub IsBelow : PolyId → Arena → DimVarId → Type 0
IsBelow id a atom =
    (atom < length a.atoms)
    × ((op : DimOp) (left right : PolyId)
        → get_elem? a.atoms atom ≡ some (opaque_atom op left right)
        → (left < id) × (right < id))

abbrev pub Knows : Arena → Poly → Type 0
Knows a p = AllAtoms (λ k. k < length a.atoms) p

pub record IsRanked (a : Arena) : Type 0 where
  pub good : IsGood a
  pub ranked : (id : PolyId) (e : Interned) → At id e a → AllAtoms (IsBelow id a) e.poly

pub get_elem?-lt :
    {A : Type 0} (xs : List A) (i : ℕ) (x : A) → get_elem? xs i ≡ some x → i < length xs
get_elem?-lt [] i x h = ground arith
get_elem?-lt (y ∷ xs) zero x h = omega arith
get_elem?-lt (y ∷ xs) (suc i) x h = let lt = get_elem?-lt xs i x h in omega arith

pub IsRanked-Knows :
    (a : Arena) (id : PolyId) (e : Interned) → IsRanked a → At id e a → Knows a e.poly
unfolding IsBelow
IsRanked-Knows a id e r at =
    AllAtoms-mono (IsBelow id a) (λ k. k < length a.atoms) (λ k h. h.0) e.poly (r.ranked id e at)

-- a new polynomial stands behind every operand
IsBelow-new :
    (a : Arena) (k : DimVarId) → IsGood a → k < length a.atoms → IsBelow (length a.polys) a k
unfolding IsBelow
IsBelow-new a k good lt = (
  lt,
  λ op left right h.
      let ((e, at), (f, at')) = good.operands k op left right h in
      (get_elem?-lt a.polys left e at, get_elem?-lt a.polys right f at'),
)

add_poly-IsRanked :
    (p : Poly) (a : Arena)
    → IsGood (add_poly p a).0
    → Knows a p
    → IsRanked a
    → IsRanked (add_poly p a).0
unfolding add_poly IsBelow
add_poly-IsRanked p a good' knows r = record {
  good = good';
  ranked = λ id e h. elim (get_elem?-cases a.polys _ e id h) [
    | inl old ↦ r.ranked id e old
    | inr (last, same) ↦
        subst (λ (x : Interned). AllAtoms (IsBelow id a) x.poly) same
          (subst (λ k. AllAtoms (IsBelow k a) p) (sym last)
            (AllAtoms-mono (λ k. k < length a.atoms) (IsBelow (length a.polys) a)
              (λ k lt. IsBelow-new a k r.good lt) p knows))
  ];
}

or_add_poly-IsRanked :
    (found : Option PolyId) (p : Poly) (a : Arena)
    → IsGood (or_add_poly found p a).0
    → Knows a p
    → IsRanked a
    → IsRanked (or_add_poly found p a).0
unfolding or_add_poly
or_add_poly-IsRanked (some id) p a good' knows r = r
or_add_poly-IsRanked none p a good' knows r = add_poly-IsRanked p a good' knows r

pub intern-IsRanked : (p : Poly) (a : Arena) → Knows a p → IsRanked a → IsRanked (intern p a).0
unfolding intern
intern-IsRanked p a knows r =
    or_add_poly-IsRanked (find Poly_discrete p a.poly_ids) p a (intern-Computes p a r.good).good
      knows r

constant_poly-Knows : (value : ℤ) (a : Arena) → Knows a (constant_poly value)
unfolding constant_poly AllAtoms AllIn
constant_poly-Knows value a =
    if-holds (Knows a) (eqb_ℤ value (pos 0)) [] (([], value) ∷ []) (λ _. tt) (λ _. (tt, tt))

or_intern-IsRanked :
    (found : Option PolyId) (value : ℤ) (a : Arena)
    → IsRanked a
    → IsRanked (or_intern found (constant_poly value) a).0
unfolding or_intern
or_intern-IsRanked (some id) value a r = r
or_intern-IsRanked none value a r =
    intern-IsRanked (constant_poly value) a (constant_poly-Knows value a) r

pub lit-IsRanked : (value : ℤ) (a : Arena) → IsRanked a → IsRanked (lit value a).0
unfolding lit
lit-IsRanked value a r = or_intern-IsRanked (find ℤ_discrete value a.lits) value a r

pub atom_poly-IsRanked :
    (atom : DimVarId) (a : Arena)
    → atom < length a.atoms
    → IsRanked a
    → IsRanked (atom_poly atom a).0
unfolding atom_poly AllAtoms AllIn
atom_poly-IsRanked atom a lt r = intern-IsRanked (((atom, 1) ∷ [], pos 1) ∷ []) a ((lt, tt), tt) r

-- one more atom
add_atom-IsRanked :
    (a a' : Arena) (t : Atom)
    → a'.polys ≡ a.polys
    → a'.atoms ≡ a.atoms ++ t ∷ []
    → IsGood a'
    → IsRanked a
    → IsRanked a'
unfolding IsBelow
add_atom-IsRanked a a' t same more good' r = record {
  good = good';
  ranked = λ id e h.
      AllAtoms-mono (IsBelow id a) (IsBelow id a')
        (λ k (lt, below). (
          rw (more, length-append a.atoms (t ∷ [])) (omega arith),
          λ op left right h'.
              elim (get_elem?-cases a.atoms t (opaque_atom op left right) k
                (subst (λ ts. get_elem? ts k ≡ some (opaque_atom op left right)) more h')) [
                  | inl old ↦ below op left right old
                  | inr (last, _) ↦ absurd (omega arith)
                ],
        ))
        e.poly (r.ranked id e (subst (λ ps. get_elem? ps id ≡ some e) same h));
}

or_new_param-IsRanked :
    (known : Option DimVarId) (name : Text) (a : Arena)
    → find Text_discrete name a.params ≡ known
    → IsRanked a
    → IsRanked (or_new_param known name a).0
unfolding or_new_param
or_new_param-IsRanked (some id) name a h r = r
or_new_param-IsRanked none name a h r =
    add_atom-IsRanked a (or_new_param none name a).0 (param_atom name) refl refl
      (or_new_param-Finds none name a h r.good).good r

pub param-IsRanked : (name : Text) (a : Arena) → IsRanked a → IsRanked (param name a).0
unfolding param param_id
param-IsRanked name a r =
    let known = find Text_discrete name a.params in
    let f = or_new_param-Finds known name a refl r.good in
    atom_poly-IsRanked (param_id name a).1 (param_id name a).0
      (get_elem?-lt (param_id name a).0.atoms (param_id name a).1 (param_atom name) f.found)
      (or_new_param-IsRanked known name a refl r)

or_new_opaque-IsRanked :
    (known : Option DimVarId) (key : OpaqueKey) (a : Arena)
    → find OpaqueKey_discrete key a.opaques ≡ known
    → IsValid key.left a
    → IsValid key.right a
    → IsRanked a
    → IsRanked (or_new_opaque known key a).0
unfolding or_new_opaque
or_new_opaque-IsRanked (some id) key a h left right r = r
or_new_opaque-IsRanked none key a h left right r =
    add_atom-IsRanked a (or_new_opaque none key a).0 (opaque_atom key.op key.left key.right) refl
      refl (or_new_opaque-Finds none key a h left right r.good).good r

pub opaque-IsRanked :
    (op : DimOp) (left right : PolyId) (a : Arena)
    → IsValid left a
    → IsValid right a
    → IsRanked a
    → IsRanked (opaque op left right a).0
unfolding opaque opaque_id
opaque-IsRanked op left right a l r ranked =
    let key : OpaqueKey = record { op = op; left = left; right = right } in
    let known = find OpaqueKey_discrete key a.opaques in
    let f = or_new_opaque-Finds known key a refl l r ranked.good in
    atom_poly-IsRanked (opaque_id key a).1 (opaque_id key a).0
      (get_elem?-lt (opaque_id key a).0.atoms (opaque_id key a).1 (opaque_atom op left right)
        f.found)
      (or_new_opaque-IsRanked known key a refl l r ranked)

pub poly_at-Knows : (id : PolyId) (a : Arena) → IsRanked a → IsValid id a → Knows a (poly_at id a)
poly_at-Knows id a r (e, at) =
    subst (Knows a) (sym (poly_at-At id e a at)) (IsRanked-Knows a id e r at)
