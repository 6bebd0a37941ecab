-- ===== src/Dims/Linear.antt =====
-- compiler/paco-types/src/dims.rs: what `unify` solves makes both dimensions equal.
use paco.Prelude.{
  if-holds, ℕ, zero, suc, ◌<◌, ◌≡◌, refl, sym, ap, ap₂, ◌∙◌, subst, true, not, ◌&&◌, Option, none,
  some, List, [], ◌∷◌, ◌++◌, &&-split, length, get_elem?,
}
use paco.Prelude.Int.{ℤ, pos, parts, ◌+ℤ◌, ◌-ℤ◌, ◌*ℤ◌, int_laws, *ℤ_comm, pos_one-*ℤ}
use paco.Prelude.Text.{Text}
use paco.Dims.Polys.{Monomial, Poly, get, remove, or_zero}
use paco.Dims.Arena.{
  sub, PolyId, DimVarId, Atom, param_atom, opaque_atom, Arena, intern, poly_at, apply,
}
use paco.Dims.Values.{power, monomial_value, poly_value, some_injective}
use paco.Dims.Invariant.{
  IsValid, Grows, Grows-refl, Grows-trans, op_value, value_at, IsModel, IsModel-Grows,
}
use paco.Dims.Interning.{intern-Computes, not_some}
use paco.Dims.Applying.{apply-Computes}
use paco.Dims.Ranks.{IsRanked, poly_at-Knows, intern-IsRanked}
use paco.Dims.Ordered.{apply-IsRanked}
use paco.Dims.Values.{remove_value}
use paco.Dims.Mentions.{remove-AllAtoms}
use paco.Dims.Substitution.{Substitutions}
use paco.Dims.Unifying.{
  is_unbound, contains_atom, unbound_atom, unbound_factors, unbound_terms, unbound_upto,
  unbound_params, Linear, linear_term, when_empty, linear_rest, linear_part, linear_in_unbound,
}

-- a parameter that is bound to itself
unfoldable pub IsUnbound : Substitutions → Arena → DimVarId → Type 0
unfolding is_unbound
IsUnbound s a k =
    (name : Text) × (get_elem? a.atoms k ≡ some (param_atom name)) × (is_unbound name s ≡ true)

unfoldable AllUnbound : Substitutions → Arena → List DimVarId → Type 0
unfolding IsUnbound
AllUnbound s a [] = Unit {0}
AllUnbound s a (k ∷ ks) = IsUnbound s a k × AllUnbound s a ks

module _ (s : Substitutions) (a : Arena) where
  one_more :
      (ks : List DimVarId) (k : DimVarId)
      → AllUnbound s a ks
      → IsUnbound s a k
      → AllUnbound s a (ks ++ k ∷ [])
  unfolding AllUnbound
  one_more [] k hs h = (h, tt)
  one_more (x ∷ ks) k (hx, hs) h = (hx, one_more ks k hs h)

  module _ (rest : PolyId → List DimVarId → List DimVarId)
      (keeps : (id : PolyId) (out : List DimVarId)
        → AllUnbound s a out
        → AllUnbound s a (rest id out)) where
    unbound_atom-AllUnbound :
        (k : DimVarId) (t : Option Atom) (out : List DimVarId)
        → get_elem? a.atoms k ≡ t
        → AllUnbound s a out
        → AllUnbound s a (unbound_atom s rest k t out)
    unfolding unbound_atom IsUnbound
    unbound_atom-AllUnbound k none out e h = h
    unbound_atom-AllUnbound k (some (param_atom name)) out e h =
        if-holds (AllUnbound s a) (is_unbound name s && not (contains_atom k out)) (out ++ k ∷ [])
          out
          (λ test.
            one_more out k h
              (name, e, (&&-split (is_unbound name s) (not (contains_atom k out)) test).0))
          (λ _. h)
    unbound_atom-AllUnbound k (some (opaque_atom op left right)) out e h =
        keeps right (rest left out) (keeps left out h)

    unbound_factors-AllUnbound :
        (m : Monomial) (out : List DimVarId)
        → AllUnbound s a out
        → AllUnbound s a (unbound_factors s rest a m out)
    unfolding unbound_factors
    unbound_factors-AllUnbound [] out h = h
    unbound_factors-AllUnbound ((k, _) ∷ m) out h =
        unbound_factors-AllUnbound m _ (unbound_atom-AllUnbound k (get_elem? a.atoms k) out refl h)

    unbound_terms-AllUnbound :
        (p : Poly) (out : List DimVarId)
        → AllUnbound s a out
        → AllUnbound s a (unbound_terms s rest a p out)
    unfolding unbound_terms
    unbound_terms-AllUnbound [] out h = h
    unbound_terms-AllUnbound ((m, _) ∷ p) out h =
        unbound_terms-AllUnbound p _ (unbound_factors-AllUnbound m out h)

  unbound_upto-AllUnbound :
      (n : ℕ) (id : PolyId) (out : List DimVarId)
      → AllUnbound s a out
      → AllUnbound s a (unbound_upto n s a id out)
  unfolding unbound_upto
  unbound_upto-AllUnbound zero id out h = h
  unbound_upto-AllUnbound (suc n) id out h =
      unbound_terms-AllUnbound (unbound_upto n s a) (unbound_upto-AllUnbound n) (poly_at id a) out h

  unbound_params-AllUnbound : (id : PolyId) → AllUnbound s a (unbound_params s id a)
  unfolding unbound_params AllUnbound
  unbound_params-AllUnbound id = unbound_upto-AllUnbound (suc id) id [] tt

-- What `linear_in_unbound` finds: an arena in order that has grown, and the difference as a
-- multiple of an unbound parameter and a rest.
pub record IsLinear (s : Substitutions) (a : Arena) (r : Arena × Option Linear)
    (difference : (ℕ → ℤ) → ℤ) : Type 0 where
  pub ranked : IsRanked r.0
  pub grows : Grows a r.0
  pub valid : (l : Linear) → r.1 ≡ some l → IsValid l.rest r.0
  pub unbound : (l : Linear) → r.1 ≡ some l → IsUnbound s r.0 l.variable
  pub values :
      (l : Linear) (names : Text → ℤ) (v : ℕ → ℤ)
      → r.1 ≡ some l
      → IsModel names v r.0
      → difference v ≡ l.coeff *ℤ v l.variable +ℤ value_at v l.rest r.0

none-IsLinear :
    (s : Substitutions) (a : Arena) (difference : (ℕ → ℤ) → ℤ)
    → IsRanked a
    → IsLinear s a (a, none) difference
none-IsLinear s a difference ranked = record {
  ranked = ranked;
  grows = Grows-refl a;
  valid = λ l e. absurd (not_some e);
  unbound = λ l e. absurd (not_some e);
  values = λ l names v e m. absurd (not_some e);
}

when_empty-some : (ks : List DimVarId) (l l' : Linear) → when_empty ks l ≡ some l' → l ≡ l'
unfolding when_empty
when_empty-some [] l l' h = some_injective h
when_empty-some (_ ∷ _) l l' h = absurd (not_some h)

linear_term_value : (v : ℕ → ℤ) (k : DimVarId) → monomial_value v (linear_term k) ≡ v k
unfolding monomial_value power
linear_term_value v k =
    *ℤ_comm (v k *ℤ pos 1) (pos 1)
    ∙ pos_one-*ℤ (v k *ℤ pos 1)
    ∙ *ℤ_comm (v k) (pos 1)
    ∙ pos_one-*ℤ (v k)

-- a polynomial is its linear term in one atom, and the rest
split_term :
    (v : ℕ → ℤ) (k : DimVarId) (c : ℤ) (p : Poly)
    → get (linear_term k) p ≡ some c
    → poly_value v p ≡ c *ℤ v k +ℤ poly_value v (remove (linear_term k) p)
unfolding or_zero
split_term v k c p h =
    let whole = remove_value v (linear_term k) p in
    let term = ap₂ (λ o x. or_zero o *ℤ x) h (linear_term_value v k) in
    omega (int_laws, parts whole, parts term)

linear_rest-IsLinear :
    (o : Option ℤ) (k : DimVarId) (difference : PolyId) (s : Substitutions) (a : Arena)
    → get (linear_term k) (poly_at difference a) ≡ o
    → IsUnbound s a k
    → IsRanked a
    → IsValid difference a
    → IsLinear s a (linear_rest o k difference s a) (λ v. value_at v difference a)
unfolding linear_rest value_at IsUnbound
linear_rest-IsLinear none k difference s a h unbound ranked valid = none-IsLinear s a _ ranked
linear_rest-IsLinear (some c) k difference s a h unbound ranked valid =
    let p = remove (linear_term k) (poly_at difference a) in
    let r = intern p a in
    let found : Linear = record { variable = k; coeff = c; rest = r.1 } in
    let i = intern-Computes p a ranked.good in
    let (name, at, test) = unbound in
    let is = when_empty-some (unbound_params s r.1 r.0) found in
    record {
      ranked =
          intern-IsRanked p a
            (remove-AllAtoms (λ j. j < length a.atoms) (linear_term k) (poly_at difference a)
              (poly_at-Knows difference a ranked valid))
            ranked;
      grows = i.grows;
      valid = λ l e. subst (λ (l : Linear). IsValid l.rest r.0) (is l e) i.valid;
      unbound = λ l e.
          subst (λ (l : Linear). IsUnbound s r.0 l.variable) (is l e)
            (name, i.grows.atoms_stay k (param_atom name) at, test);
      values = λ l names v e m.
          subst
            (λ (l : Linear).
              poly_value v (poly_at difference a)
              ≡ l.coeff *ℤ v l.variable +ℤ value_at v l.rest r.0)
            (is l e)
            (split_term v k c (poly_at difference a) h
              ∙ ap (λ x. c *ℤ v k +ℤ x) (sym (i.values names v m)));
    }

linear_part-IsLinear :
    (ks : List DimVarId) (difference : PolyId) (s : Substitutions) (a : Arena)
    → AllUnbound s a ks
    → IsRanked a
    → IsValid difference a
    → IsLinear s a (linear_part ks difference s a) (λ v. value_at v difference a)
unfolding linear_part AllUnbound
linear_part-IsLinear [] difference s a all ranked valid = none-IsLinear s a _ ranked
linear_part-IsLinear (k ∷ []) difference s a (unbound, _) ranked valid =
    linear_rest-IsLinear (get (linear_term k) (poly_at difference a)) k difference s a refl unbound
      ranked valid
linear_part-IsLinear (_ ∷ _ ∷ _) difference s a all ranked valid = none-IsLinear s a _ ranked

pub linear_in_unbound-IsLinear :
    (expected actual : PolyId) (s : Substitutions) (a : Arena)
    → IsRanked a
    → IsValid expected a
    → IsValid actual a
    → IsLinear s a
        (linear_in_unbound expected actual s a)
        (λ v. value_at v expected a -ℤ value_at v actual a)
unfolding linear_in_unbound op_value
linear_in_unbound-IsLinear expected actual s a ranked l r =
    let c = apply-Computes sub expected actual a ranked.good l r in
    let (a', d) = apply sub expected actual a in
    let i =
      linear_part-IsLinear (unbound_params s d a') d s a' (unbound_params-AllUnbound s a' d)
        (apply-IsRanked sub expected actual a l r ranked) c.valid in
    record {
      ranked = i.ranked;
      grows = Grows-trans a a' (linear_in_unbound expected actual s a).0 c.grows i.grows;
      valid = i.valid;
      unbound = i.unbound;
      values = λ f names v e m.
          sym (c.values names v (IsModel-Grows names v a' _ c.good i.grows m))
          ∙ i.values f names v e m;
    }
