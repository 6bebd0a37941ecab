-- ===== src/Dims/Walking.antt =====
-- compiler/paco-types/src/dims.rs: what `touches` and `eval` say of the value of an expression
-- whose parameters are replaced.
use paco.Prelude.{
  ℕ, zero, suc, ◌<◌, ◌≡◌, refl, sym, ap, ap₂, ◌∙◌, subst, Bool, true, false, not, ◌||◌, some, List,
  [], ◌∷◌, arith, length, get_elem?,
}
use paco.Prelude.Int.{ℤ, ◌+ℤ◌, ◌*ℤ◌}
use paco.Prelude.Text.{Text}
use paco.Dims.Polys.{Monomial, Poly}
use paco.Dims.Arena.{DimOp, PolyId, DimVarId, Atom, param_atom, opaque_atom, Arena, poly_at}
use paco.Dims.Values.{power, monomial_value, poly_value}
use paco.Dims.Invariant.{
  IsValid, Grows, Grows-refl, op_value, value_at, atom_value, IsModel, poly_at-At,
}
use paco.Dims.Mentions.{AllAtoms, AllIn}
use paco.Dims.Ranks.{IsBelow, IsRanked}
use paco.Dims.Substitution.{
  Substitutions, Binding, keep, dyn, to, rename, binding, is_keep, any_in, any_atom, walk_atom,
  walk, any_name, touches, is_ground,
}

-- `names0` gives a name the value that its binding has when the names that are left have `names`
unfoldable pub BindingAgrees : Arena → (Text → ℤ) → (ℕ → ℤ) → (Text → ℤ) → Text → Binding → Type 0
unfolding value_at
BindingAgrees a names v names0 name keep = names0 name ≡ names name
BindingAgrees a names v names0 name dyn = Unit {0}
BindingAgrees a names v names0 name (to bound) = names0 name ≡ value_at v bound a
BindingAgrees a names v names0 name (rename other) = names0 name ≡ names other

unfoldable pub Agrees : Substitutions → Arena → (Text → ℤ) → (ℕ → ℤ) → (Text → ℤ) → Type 0
unfolding BindingAgrees binding
Agrees s a names v names0 = (name : Text) → BindingAgrees a names v names0 name (binding name s)

-- the polynomials that names are bound to are there
unfoldable pub AllBound : Substitutions → Arena → Type 0
unfolding binding
AllBound s a = (name : Text) (bound : PolyId) → binding name s ≡ to bound → IsValid bound a

module _ (P Q R : ℕ → Type 0) (f : (k : ℕ) → P k → Q k → R k) where
  AllIn-zip : (m : Monomial) → AllIn P m → AllIn Q m → AllIn R m
  unfolding AllIn
  AllIn-zip [] h k = tt
  AllIn-zip ((a, _) ∷ m) (h, hs) (k, ks) = (f a h k, AllIn-zip m hs ks)

  pub AllAtoms-zip : (p : Poly) → AllAtoms P p → AllAtoms Q p → AllAtoms R p
  unfolding AllAtoms
  AllAtoms-zip [] h k = tt
  AllAtoms-zip ((m, _) ∷ p) (h, hs) (k, ks) = (AllIn-zip m h k, AllAtoms-zip p hs ks)

||-none : (a b : Bool) → (a || b) ≡ false → (a ≡ false) × (b ≡ false)
||-none true b h = ground arith
||-none false b h = (refl, h)

module _ (test : DimVarId → Bool) where
  any_in-none : (m : Monomial) → any_in test m ≡ false → AllIn (λ k. test k ≡ false) m
  unfolding any_in AllIn
  any_in-none [] h = tt
  any_in-none ((k, _) ∷ m) h =
      let (h1, h2) = ||-none (test k) (any_in test m) h in (h1, any_in-none m h2)

  any_atom-none : (p : Poly) → any_atom test p ≡ false → AllAtoms (λ k. test k ≡ false) p
  unfolding any_atom AllAtoms
  any_atom-none [] h = tt
  any_atom-none ((m, _) ∷ p) h =
      let (h1, h2) = ||-none (any_in test m) (any_atom test p) h in
      (any_in-none m h1, any_atom-none p h2)

module _ (v w : ℕ → ℤ) where
  monomial_value_same :
      (m : Monomial) → AllIn (λ k. v k ≡ w k) m → monomial_value v m ≡ monomial_value w m
  unfolding monomial_value AllIn
  monomial_value_same [] h = refl
  monomial_value_same ((k, e) ∷ m) (h, hs) =
      ap₂ (λ x y. power x e *ℤ y) h (monomial_value_same m hs)

  -- a polynomial's value is that of its own atoms
  pub poly_value_same : (p : Poly) → AllAtoms (λ k. v k ≡ w k) p → poly_value v p ≡ poly_value w p
  unfolding poly_value AllAtoms
  poly_value_same [] h = refl
  poly_value_same ((m, c) ∷ p) (h, hs) =
      ap₂ (λ x y. c *ℤ x +ℤ y) (monomial_value_same m h) (poly_value_same p hs)

pub atom_there :
    {A : Type 0} (xs : List A) (i : ℕ) → i < length xs → (x : A) × (get_elem? xs i ≡ some x)
atom_there [] i h = absurd (omega arith)
atom_there (x ∷ xs) zero h = (x, refl)
atom_there (x ∷ xs) (suc i) h = atom_there xs i (omega arith)

pub IsRanked-IsBelow :
    (id : PolyId) (a : Arena) → IsRanked a → IsValid id a → AllAtoms (IsBelow id a) (poly_at id a)
IsRanked-IsBelow id a r (e, at) =
    subst (AllAtoms (IsBelow id a)) (sym (poly_at-At id e a at)) (r.ranked id e at)

pub old_poly :
    (id : PolyId) (a0 a : Arena) → Grows a0 a → IsValid id a0 → poly_at id a ≡ poly_at id a0
old_poly id a0 a grows (e, at) =
    poly_at-At id e a (grows.polys_stay id e at) ∙ sym (poly_at-At id e a0 at)

negated_true : (b : Bool) → not b ≡ true → b ≡ false
negated_true b h = ground arith

-- What an expression is worth in two models, of the arena `a0` in which it was built and of the one
-- `a` that it has grown to, which give the same values to the names that a test leaves out.
module _ (test : Text → Bool) (a0 a : Arena) (ranked : IsRanked a0) (grows : Grows a0 a)
    (names0 names : Text → ℤ) (v0 v : ℕ → ℤ) (m0 : IsModel names0 v0 a0) (m : IsModel names v a)
    (kept : (name : Text) → test name ≡ false → names name ≡ names0 name) where
  walk_atom_same :
      (k : DimVarId) (t : Atom) (rest : PolyId → Bool)
      → get_elem? a0.atoms k ≡ some t
      → walk_atom test rest (some t) ≡ false
      → ((op : DimOp) (left right : PolyId)
          → t ≡ opaque_atom op left right
          → rest left ≡ false
          → rest right ≡ false
          → (value_at v left a ≡ value_at v0 left a0) × (value_at v right a ≡ value_at v0 right a0))
      → v k ≡ v0 k
  unfolding walk_atom IsModel atom_value
  walk_atom_same k (param_atom name) rest h left_out same =
      m k (param_atom name) (grows.atoms_stay k (param_atom name) h)
      ∙ kept name left_out
      ∙ sym (m0 k (param_atom name) h)
  walk_atom_same k (opaque_atom op left right) rest h left_out same =
      let (h1, h2) = ||-none (rest left) (rest right) left_out in
      let (e1, e2) = same op left right refl h1 h2 in
      m k (opaque_atom op left right) (grows.atoms_stay k (opaque_atom op left right) h)
      ∙ ap₂ (op_value op) e1 e2
      ∙ sym (m0 k (opaque_atom op left right) h)

  pub walk_same :
      (n : ℕ) (id : PolyId)
      → id < n
      → IsValid id a0
      → walk n test a id ≡ false
      → value_at v id a ≡ value_at v0 id a0
  unfolding walk value_at IsBelow
  walk_same zero id lt valid h = absurd (omega arith)
  walk_same (suc n) id lt valid h =
      let there_is : DimVarId → Bool = λ k. walk_atom test (walk n test a) (get_elem? a.atoms k) in
      ap (poly_value v) (old_poly id a0 a grows valid)
      ∙ poly_value_same v v0 (poly_at id a0) (
          AllAtoms-zip (IsBelow id a0) (λ k. there_is k ≡ false) (λ k. v k ≡ v0 k)
            (λ k (there, below) no.
              let (t, ht) = atom_there a0.atoms k there in
              walk_atom_same k t (walk n test a) ht
                (ap (walk_atom test (walk n test a)) (sym (grows.atoms_stay k t ht)) ∙ no)
                (λ op left right e h1 h2.
                  let at : get_elem? a0.atoms k ≡ some (opaque_atom op left right) =
                    ht ∙ ap some e in
                  let (b1, b2) = below op left right at in
                  let (l, r) = ranked.good.operands k op left right at in
                  (walk_same n left (omega arith) l h1, walk_same n right (omega arith) r h2)))
            (poly_at id a0) (IsRanked-IsBelow id a0 ranked valid)
            (any_atom-none there_is (poly_at id a0)
              (ap (any_atom there_is) (sym (old_poly id a0 a grows valid)) ∙ h)))

-- An expression that mentions no parameter has one value: the same in all models of an arena in
-- order that has it, whatever values they give to the parameters.
pub is_ground-closed :
    (id : PolyId) (a : Arena) (names0 names : Text → ℤ) (v0 v : ℕ → ℤ)
    → IsRanked a
    → IsValid id a
    → is_ground id a ≡ true
    → IsModel names0 v0 a
    → IsModel names v a
    → value_at v id a ≡ value_at v0 id a
unfolding is_ground any_name
is_ground-closed id a names0 names v0 v ranked valid h m0 m =
    walk_same (λ name. true) a a ranked (Grows-refl a) names0 names v0 v m0 m
      (λ name impossible. ground arith) (suc id) id (omega arith) valid
      (negated_true (walk (suc id) (λ name. true) a id) h)

kept_param :
    (a0 : Arena) (names0 names : Text → ℤ) (v : ℕ → ℤ) (name : Text) (b : Binding)
    → not (is_keep b) ≡ false
    → BindingAgrees a0 names v names0 name b
    → names name ≡ names0 name
unfolding is_keep BindingAgrees
kept_param a0 names0 names v name keep h g = sym g
kept_param a0 names0 names v name dyn h g = ground arith
kept_param a0 names0 names v name (to _) h g = ground arith
kept_param a0 names0 names v name (rename _) h g = ground arith

pub touches_same :
    (s : Substitutions) (a0 a : Arena)
    → IsRanked a0
    → Grows a0 a
    → (names0 names : Text → ℤ) (v0 v : ℕ → ℤ) → IsModel names0 v0 a0
    → IsModel names v a
    → Agrees s a0 names v names0
    → (id : PolyId) → IsValid id a0
    → touches s id a ≡ false
    → value_at v id a ≡ value_at v0 id a0
unfolding touches any_name Agrees
touches_same s a0 a ranked grows names0 names v0 v m0 m agrees id valid h =
    walk_same (λ name. not (is_keep (binding name s))) a0 a ranked grows names0 names v0 v m0 m
      (λ name left_out. kept_param a0 names0 names v name (binding name s) left_out (agrees name))
      (suc id) id (omega arith) valid h
