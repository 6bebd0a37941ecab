-- ===== src/Dims/Interning.antt =====
-- compiler/paco-types/src/dims.rs: interning keeps the arena in order.
use paco.Prelude.{
  if-holds, ℕ, ◌≡◌, refl, sym, ap, ◌∙◌, subst, ◌⊎◌, inl, inr, Option, none, some, List, [], ◌∷◌,
  arith, length,
}
use paco.Prelude.Int.{
  ℤ, pos, parts, ◌+ℤ◌, ◌*ℤ◌, ℤ_discrete, eqb_ℤ, eqb_ℤ_iff, int_laws, *ℤ_comm, pos_one-*ℤ,
}
use paco.Dims.Tables.{find, find-same, find-other, find-cases}
use paco.Dims.Polys.{Poly, get}
use paco.Dims.Arena.{
  PolyId, DimVarId, Interned, Arena, Poly_discrete, constant_of, note_lit, add_poly, or_add_poly,
  intern, constant_poly, or_intern, lit, atom_poly,
}
use paco.Dims.Values.{power, monomial_value, poly_value, some_injective}
use paco.Dims.Invariant.{
  get_elem?-kept, get_elem?-last, get_elem?-cases, At, IsValid, IsGood, Grows, Grows-refl, value_at,
  poly_at-At, Computes,
}

new_entry : Poly → Interned
new_entry p = record { poly = p; constant = constant_of p }

add_poly-Grows : (p : Poly) (a : Arena) → Grows a (add_poly p a).0
unfolding add_poly
add_poly-Grows p a = record {
  polys_stay = λ id e h. get_elem?-kept a.polys _ e id h;
  atoms_stay = λ atom t h. h;
}

pub IsValid-Grows : (id : PolyId) (a a' : Arena) → Grows a a' → IsValid id a → IsValid id a'
IsValid-Grows id a a' g (e, h) = (e, g.polys_stay id e h)

add_poly-At : (p : Poly) (a : Arena) → At (add_poly p a).1 (new_entry p) (add_poly p a).0
unfolding add_poly new_entry
add_poly-At p a = get_elem?-last a.polys _

note_lit-cases :
    (o : Option ℤ) (id : PolyId) (lits : List (ℤ × PolyId)) (value : ℤ) (k : PolyId)
    → find ℤ_discrete value (note_lit o id lits) ≡ some k
    → (find ℤ_discrete value lits ≡ some k) ⊎ ((o ≡ some value) × (id ≡ k))
unfolding note_lit
note_lit-cases none id lits value k h = inl h
note_lit-cases (some u) id lits value k h = elim (find-cases ℤ_discrete value u id k lits h) [
  | inl (e, same) ↦ inr (ap some (sym e), same)
  | inr old ↦ inl old
]

pub not_some : {A : Type 0} {x : A} → none ≡ some x → ⊥
not_some h = cc

not_both :
    (p q : Poly) (id : PolyId) (a : Arena)
    → find Poly_discrete p a.poly_ids ≡ none
    → q ≡ p
    → find Poly_discrete q a.poly_ids ≡ some id
    → ⊥
not_both p q id a fresh same known =
    not_some (sym fresh ∙ ap (λ x. find Poly_discrete x a.poly_ids) (sym same) ∙ known)

add_poly-IsGood :
    (p : Poly) (a : Arena)
    → find Poly_discrete p a.poly_ids ≡ none
    → IsGood a
    → IsGood (add_poly p a).0
unfolding add_poly new_entry
add_poly-IsGood p a fresh good =
    let a' = (add_poly p a).0 in
    let grows = add_poly-Grows p a in
    record {
      ids = λ q id h. elim (find-cases Poly_discrete q p (length a.polys) id a.poly_ids h) [
        | inl (e, same) ↦
            (new_entry p, subst (λ k. At k (new_entry p) a') same (add_poly-At p a), sym e)
        | inr old ↦ (let (e, at, same) = good.ids q id old in (e, grows.polys_stay id e at, same))
      ];
      unique = λ id e h. elim (get_elem?-cases a.polys (new_entry p) e id h) [
        | inl old ↦
            (let known = good.unique id e old in
              find-other Poly_discrete e.poly p (length a.polys) a.poly_ids
                (λ same. not_both p e.poly id a fresh same known)
              ∙ known)
        | inr (last, same) ↦
            subst (λ f. find Poly_discrete f.poly a'.poly_ids ≡ some id) same
              (find-same Poly_discrete p (length a.polys) a.poly_ids ∙ ap some (sym last))
      ];
      literals = λ value id h.
          elim (note_lit-cases (constant_of p) (length a.polys) a.lits value id h) [
            | inl old ↦
                (let (e, at, same) = good.literals value id old in
                  (e, grows.polys_stay id e at, same))
            | inr (c, same) ↦
                (new_entry p, subst (λ k. At k (new_entry p) a') same (add_poly-At p a), c)
          ];
      constants = λ id e h. elim (get_elem?-cases a.polys (new_entry p) e id h) [
        | inl old ↦ good.constants id e old
        | inr (last, same) ↦ subst (λ f. f.constant ≡ constant_of f.poly) same refl
      ];
      names = good.names;
      keys = good.keys;
      operands = λ atom op left right h.
          let (l, r) = good.operands atom op left right h in
          (IsValid-Grows left a a' grows l, IsValid-Grows right a a' grows r);
    }

one_factor : (x : ℤ) → pos 1 *ℤ ((x *ℤ pos 1) *ℤ pos 1) +ℤ pos 0 ≡ x
one_factor x =
    let one = λ (y : ℤ). *ℤ_comm y (pos 1) ∙ pos_one-*ℤ y in
    omega (int_laws, parts (pos_one-*ℤ ((x *ℤ pos 1) *ℤ pos 1) ∙ one (x *ℤ pos 1) ∙ one x))

or_add_poly-At :
    (found : Option PolyId) (p : Poly) (a : Arena)
    → find Poly_discrete p a.poly_ids ≡ found
    → IsGood a
    → IsGood (or_add_poly found p a).0
      × Grows a (or_add_poly found p a).0
      × ((e : Interned) × At (or_add_poly found p a).1 e (or_add_poly found p a).0 × (e.poly ≡ p))
unfolding or_add_poly new_entry
or_add_poly-At (some id) p a h good = (good, Grows-refl a, good.ids p id h)
or_add_poly-At none p a h good =
    (add_poly-IsGood p a h good, add_poly-Grows p a, (new_entry p, add_poly-At p a, refl))

-- The id of a polynomial is one of its entries.
pub intern-At :
    (p : Poly) (a : Arena)
    → IsGood a
    → IsGood (intern p a).0
      × Grows a (intern p a).0
      × ((e : Interned) × At (intern p a).1 e (intern p a).0 × (e.poly ≡ p))
unfolding intern
intern-At p a good = or_add_poly-At (find Poly_discrete p a.poly_ids) p a refl good

pub intern-Computes :
    (p : Poly) (a : Arena) → IsGood a → Computes a (intern p a) (λ v. poly_value v p)
unfolding value_at
intern-Computes p a good =
    let (good', grows, (e, at, same)) = intern-At p a good in
    record {
      good = good';
      grows = grows;
      valid = (e, at);
      values =
          λ names v m. ap (poly_value v) (poly_at-At (intern p a).1 e (intern p a).0 at ∙ same);
    }

constant_poly_value : (v : ℕ → ℤ) (value : ℤ) → poly_value v (constant_poly value) ≡ value
unfolding constant_poly poly_value monomial_value
constant_poly_value v value =
    if-holds (λ p. poly_value v p ≡ value) (eqb_ℤ value (pos 0)) [] (([], value) ∷ [])
      (λ z. sym ((eqb_ℤ_iff value (pos 0)).0 z))
      (λ _. omega (int_laws, parts (*ℤ_comm value (pos 1) ∙ pos_one-*ℤ value)))

-- the value of a constant polynomial
pub constant_of_value :
    (v : ℕ → ℤ) (p : Poly) (value : ℤ) → constant_of p ≡ some value → poly_value v p ≡ value
unfolding constant_of get poly_value monomial_value
constant_of_value v [] value h = some_injective h
constant_of_value v (([], c) ∷ []) value h =
    omega (int_laws, parts (*ℤ_comm c (pos 1) ∙ pos_one-*ℤ c), parts (some_injective h))
constant_of_value v ((_ ∷ _, c) ∷ []) value h = ground arith
constant_of_value v (_ ∷ _ ∷ _) value h = ground arith

or_intern-Computes :
    (found : Option PolyId) (value : ℤ) (a : Arena)
    → find ℤ_discrete value a.lits ≡ found
    → IsGood a
    → Computes a (or_intern found (constant_poly value) a) (λ v. value)
unfolding or_intern value_at
or_intern-Computes (some id) value a h good =
    let (e, at, same) = good.literals value id h in
    record {
      good = good;
      grows = Grows-refl a;
      valid = (e, at);
      values = λ names v m.
          ap (poly_value v) (poly_at-At id e a at) ∙ constant_of_value v e.poly value same;
    }
or_intern-Computes none value a h good =
    let c = intern-Computes (constant_poly value) a good in
    record {
      good = c.good;
      grows = c.grows;
      valid = c.valid;
      values = λ names v m. c.values names v m ∙ constant_poly_value v value;
    }

pub lit-Computes : (value : ℤ) (a : Arena) → IsGood a → Computes a (lit value a) (λ v. value)
unfolding lit
lit-Computes value a good = or_intern-Computes (find ℤ_discrete value a.lits) value a refl good

pub atom_poly-Computes :
    (atom : DimVarId) (a : Arena) → IsGood a → Computes a (atom_poly atom a) (λ v. v atom)
unfolding atom_poly poly_value monomial_value power
atom_poly-Computes atom a good =
    let c = intern-Computes (((atom, 1) ∷ [], pos 1) ∷ []) a good in
    record {
      good = c.good;
      grows = c.grows;
      valid = c.valid;
      values = λ names v m. c.values names v m ∙ one_factor (v atom);
    }
