-- ===== src/Dims/Invariant.antt =====
-- compiler/paco-types/src/dims.rs: what the arena keeps, and the values that its polynomials have.
use paco.Prelude.{
  ℕ, zero, suc, ◌≡◌, refl, sym, ap, ap₂, ◌∙◌, ◌⊎◌, inl, inr, some, List, [], ◌∷◌, ◌++◌, arith,
  length, get_elem?,
}
use paco.Prelude.Int.{ℤ, ◌+ℤ◌, ◌-ℤ◌, ◌*ℤ◌, ℤ_discrete}
use paco.Prelude.Text.{Text}
use paco.Dims.Tables.{find}
use paco.Dims.Checked.{quotient, remainder}
use paco.Dims.Polys.{Poly}
use paco.Dims.Arena.{
  DimOp, add, sub, mul, div, rem, PolyId, DimVarId, Atom, param_atom, opaque_atom, Interned,
  OpaqueKey, Arena, Text_discrete, Poly_discrete, OpaqueKey_discrete, constant_of, poly_at,
}
use paco.Dims.Values.{poly_value, some_injective}

module _ {A : Type 0} where
  pub get_elem?-kept :
      (xs : List A) (y x : A) (i : ℕ)
      → get_elem? xs i ≡ some x
      → get_elem? (xs ++ y ∷ []) i ≡ some x
  get_elem?-kept [] y x i h = ground arith
  get_elem?-kept (z ∷ xs) y x zero h = h
  get_elem?-kept (z ∷ xs) y x (suc i) h = get_elem?-kept xs y x i h

  pub get_elem?-last : (xs : List A) (y : A) → get_elem? (xs ++ y ∷ []) (length xs) ≡ some y
  get_elem?-last [] y = refl
  get_elem?-last (z ∷ xs) y = get_elem?-last xs y

  -- the element of a list with one more at the end
  pub get_elem?-cases :
      (xs : List A) (y x : A) (i : ℕ)
      → get_elem? (xs ++ y ∷ []) i ≡ some x
      → (get_elem? xs i ≡ some x) ⊎ ((i ≡ length xs) × (y ≡ x))
  get_elem?-cases [] y x zero h = inr (refl, some_injective h)
  get_elem?-cases [] y x (suc i) h = ground arith
  get_elem?-cases (z ∷ xs) y x zero h = inl h
  get_elem?-cases (z ∷ xs) y x (suc i) h = elim (get_elem?-cases xs y x i h) [
    | inl old ↦ inl old
    | inr (e, same) ↦ inr (ap suc e, same)
  ]

abbrev pub At : PolyId → Interned → Arena → Type 0
At id e a = get_elem? a.polys id ≡ some e

abbrev pub IsValid : PolyId → Arena → Type 0
IsValid id a = (e : Interned) × At id e a

-- The tables agree with the lists that they are indices of, a polynomial has one id, and the
-- operands of an opaque atom are there.
pub record IsGood (a : Arena) : Type 0 where
  pub ids :
      (p : Poly) (id : PolyId)
      → find Poly_discrete p a.poly_ids ≡ some id
      → (e : Interned) × At id e a × (e.poly ≡ p)
  pub unique :
      (id : PolyId) (e : Interned) → At id e a → find Poly_discrete e.poly a.poly_ids ≡ some id
  pub literals :
      (value : ℤ) (id : PolyId)
      → find ℤ_discrete value a.lits ≡ some id
      → (e : Interned) × At id e a × (constant_of e.poly ≡ some value)
  pub constants : (id : PolyId) (e : Interned) → At id e a → e.constant ≡ constant_of e.poly
  pub names :
      (name : Text) (atom : DimVarId)
      → find Text_discrete name a.params ≡ some atom
      → get_elem? a.atoms atom ≡ some (param_atom name)
  pub keys :
      (key : OpaqueKey) (atom : DimVarId)
      → find OpaqueKey_discrete key a.opaques ≡ some atom
      → get_elem? a.atoms atom ≡ some (opaque_atom key.op key.left key.right)
  pub operands :
      (atom : DimVarId) (op : DimOp) (left right : PolyId)
      → get_elem? a.atoms atom ≡ some (opaque_atom op left right)
      → IsValid left a × IsValid right a

-- an arena only grows
pub record Grows (a a' : Arena) : Type 0 where
  pub polys_stay : (id : PolyId) (e : Interned) → At id e a → At id e a'
  pub atoms_stay :
      (atom : DimVarId) (t : Atom)
      → get_elem? a.atoms atom ≡ some t
      → get_elem? a'.atoms atom ≡ some t

pub Grows-refl : (a : Arena) → Grows a a
Grows-refl a = record { polys_stay = λ id e h. h; atoms_stay = λ atom t h. h }

pub Grows-trans : (a b c : Arena) → Grows a b → Grows b c → Grows a c
Grows-trans a b c f g = record {
  polys_stay = λ id e h. g.polys_stay id e (f.polys_stay id e h);
  atoms_stay = λ atom t h. g.atoms_stay atom t (f.atoms_stay atom t h);
}

-- The operations on integers that the five operators stand for.
unfoldable pub op_value : DimOp → ℤ → ℤ → ℤ
unfolding quotient remainder
op_value add x y = x +ℤ y
op_value sub x y = x -ℤ y
op_value mul x y = x *ℤ y
op_value div x y = quotient x y
op_value rem x y = remainder x y

unfoldable pub value_at : (ℕ → ℤ) → PolyId → Arena → ℤ
unfolding poly_value poly_at
value_at v id a = poly_value v (poly_at id a)

unfoldable pub atom_value : (Text → ℤ) → (ℕ → ℤ) → Arena → Atom → ℤ
unfolding op_value value_at
atom_value names v a (param_atom name) = names name
atom_value names v a (opaque_atom op left right) =
    op_value op (value_at v left a) (value_at v right a)

-- `v` gives the atoms of the arena the values that they have when the parameters have `names`'.
unfoldable pub IsModel : (Text → ℤ) → (ℕ → ℤ) → Arena → Type 0
unfolding atom_value
IsModel names v a =
    (atom : DimVarId) (t : Atom) → get_elem? a.atoms atom ≡ some t → v atom ≡ atom_value names v a t

pub poly_at-At : (id : PolyId) (e : Interned) (a : Arena) → At id e a → poly_at id a ≡ e.poly
unfolding poly_at
poly_at-At id e a h = ground arith

pub value_at-Grows :
    (v : ℕ → ℤ) (id : PolyId) (a a' : Arena)
    → IsValid id a
    → Grows a a'
    → value_at v id a' ≡ value_at v id a
unfolding value_at
value_at-Grows v id a a' (e, h) g =
    ap (poly_value v) (poly_at-At id e a' (g.polys_stay id e h) ∙ sym (poly_at-At id e a h))

-- a model of what an arena grows to is one of the arena
pub IsModel-Grows :
    (names : Text → ℤ) (v : ℕ → ℤ) (a a' : Arena)
    → IsGood a
    → Grows a a'
    → IsModel names v a'
    → IsModel names v a
unfolding IsModel atom_value
IsModel-Grows names v a a' good g m atom (param_atom name) h =
    m atom (param_atom name) (g.atoms_stay atom (param_atom name) h)
IsModel-Grows names v a a' good g m atom (opaque_atom op left right) h =
    let (l, r) = good.operands atom op left right h in
    m atom (opaque_atom op left right) (g.atoms_stay atom (opaque_atom op left right) h)
    ∙ ap₂ (op_value op) (value_at-Grows v left a a' l g) (value_at-Grows v right a a' r g)

-- what an operation that returns an id gives: the value of its polynomial in every model
pub record Computes (a : Arena) (r : Arena × PolyId) (value : (ℕ → ℤ) → ℤ) : Type 0 where
  pub good : IsGood r.0
  pub grows : Grows a r.0
  pub valid : IsValid r.1 r.0
  pub values : (names : Text → ℤ) (v : ℕ → ℤ) → IsModel names v r.0 → value_at v r.1 r.0 ≡ value v
