-- ===== src/Dims/Solving.antt =====
-- compiler/paco-types/src/dims.rs: what `unify` solves makes both dimensions equal.
use paco.Prelude.{
  if-holds, ℕ, zero, suc, ◌≡◌, refl, sym, ap, ap₂, ◌∙◌, subst, true, Option, none, some, arith,
  ◌==◌, ==_iff, ◌>>=◌,
}
use paco.Prelude.Int.{ℤ, pos, negsuc, parts, ◌+ℤ◌, ◌-ℤ◌, ◌*ℤ◌, int_laws, pos_one-*ℤ}
use paco.Prelude.Text.{Text}
use paco.Dims.Arena.{sub, PolyId, Atom, param_atom, Arena, lit, apply}
use paco.Dims.Values.{some_injective}
use paco.Dims.Invariant.{
  IsValid, Grows, Grows-refl, Grows-trans, op_value, value_at, atom_value, IsModel, value_at-Grows,
  IsModel-Grows,
}
use paco.Dims.Interning.{lit-Computes, IsValid-Grows, not_some}
use paco.Dims.Applying.{apply-Computes}
use paco.Dims.Ranks.{IsRanked, lit-IsRanked}
use paco.Dims.Ordered.{apply-IsRanked}
use paco.Dims.Substitution.{Substitutions, Tried, chain, done}
use paco.Dims.Unifying.{
  is_unbound, linear_in_unbound, param_name, param_name_of, solve, unify_difference, unify_resolved,
}
use paco.Dims.Linear.{IsUnbound, linear_in_unbound-IsLinear}

pub chain-holds :
    {A B : Type 0} (P : Arena × Option B → Type 0) (r : Arena × Option A)
    (next : A → Arena → Arena × Option B)
    → ((x : A) → r.1 ≡ some x → P (next x r.0))
    → P (r.0, none)
    → P (chain r next)
unfolding chain
chain-holds P (a, none) next f g = g
chain-holds P (a, some x) next f g = f x refl

-- an id at which `coeff` times it, and `rest`, is zero
record IsRoot (coeff : ℤ) (rest : PolyId) (a : Arena) (r : Tried) : Type 0 where
  pub ranked : IsRanked r.0
  pub grows : Grows a r.0
  pub valid : (id : PolyId) → r.1 ≡ some id → IsValid id r.0
  pub values :
      (id : PolyId) (names : Text → ℤ) (v : ℕ → ℤ)
      → r.1 ≡ some id
      → IsModel names v r.0
      → coeff *ℤ value_at v id r.0 +ℤ value_at v rest a ≡ pos 0

none-IsRoot : (coeff : ℤ) (rest : PolyId) (a : Arena) → IsRanked a → IsRoot coeff rest a (a, none)
none-IsRoot coeff rest a ranked = record {
  ranked = ranked;
  grows = Grows-refl a;
  valid = λ id e. absurd (not_some e);
  values = λ id names v e m. absurd (not_some e);
}

minus_itself : (x y : ℤ) → y ≡ pos 0 -ℤ x → pos 1 *ℤ y +ℤ x ≡ pos 0
minus_itself x y h = omega (int_laws, parts h, parts (pos_one-*ℤ y))

minus_one : (x : ℤ) → negsuc 0 *ℤ x ≡ pos 0 -ℤ x
unfolding ◌*ℤ◌ ◌-ℤ◌
minus_one x = ground arith

plus_itself : (x : ℤ) → negsuc 0 *ℤ x +ℤ x ≡ pos 0
plus_itself x = omega (int_laws, parts (minus_one x))

solve-IsRoot :
    (coeff : ℤ) (rest : PolyId) (a : Arena)
    → IsRanked a
    → IsValid rest a
    → IsRoot coeff rest a (solve coeff rest a)
unfolding solve chain done op_value
solve-IsRoot (pos zero) rest a ranked valid = none-IsRoot (pos zero) rest a ranked
solve-IsRoot (pos (suc zero)) rest a ranked valid =
    let z = lit-Computes (pos 0) a ranked.good in
    let (a1, zero_id) = lit (pos 0) a in
    let ranked1 = lit-IsRanked (pos 0) a ranked in
    let valid1 = IsValid-Grows rest a a1 z.grows valid in
    let c = apply-Computes sub zero_id rest a1 z.good z.valid valid1 in
    let r = apply sub zero_id rest a1 in
    record {
      ranked = apply-IsRanked sub zero_id rest a1 z.valid valid1 ranked1;
      grows = Grows-trans a a1 r.0 z.grows c.grows;
      valid = λ id e. subst (λ i. IsValid i r.0) (some_injective e) c.valid;
      values = λ id names v e m.
          let zero_is = z.values names v (IsModel-Grows names v a1 r.0 z.good c.grows m) in
          minus_itself (value_at v rest a) (value_at v id r.0) (
            ap (λ i. value_at v i r.0) (sym (some_injective e))
            ∙ c.values names v m
            ∙ ap₂ (λ x y. x -ℤ y) zero_is (value_at-Grows v rest a a1 valid z.grows));
    }
solve-IsRoot (pos (suc (suc n))) rest a ranked valid = none-IsRoot (pos (suc (suc n))) rest a ranked
solve-IsRoot (negsuc zero) rest a ranked valid = record {
  ranked = ranked;
  grows = Grows-refl a;
  valid = λ id e. subst (λ i. IsValid i a) (some_injective e) valid;
  values = λ id names v e m.
      ap (λ i. negsuc 0 *ℤ value_at v i a +ℤ value_at v rest a) (sym (some_injective e))
      ∙ plus_itself (value_at v rest a);
}
solve-IsRoot (negsuc (suc n)) rest a ranked valid = none-IsRoot (negsuc (suc n)) rest a ranked

-- the parameter has the value that was solved for
unfoldable pub Solved : (Text → ℤ) → (ℕ → ℤ) → Arena → Option (Text × PolyId) → Type 0
unfolding value_at
Solved names v a none = Unit {0}
Solved names v a (some (name, value)) = names name ≡ value_at v value a

-- both expressions have the same value in the models in which the parameter has the solved value
pub record Equates (s : Substitutions) (a : Arena) (r : Arena × Option (Option (Text × PolyId)))
    (left right : (ℕ → ℤ) → ℤ) : Type 0 where
  pub ranked : IsRanked r.0
  pub grows : Grows a r.0
  pub bound : (name : Text) (value : PolyId) → r.1 ≡ some (some (name, value)) → IsValid value r.0
  pub unbound :
      (name : Text) (value : PolyId) → r.1 ≡ some (some (name, value)) → is_unbound name s ≡ true
  pub values :
      (o : Option (Text × PolyId)) (names : Text → ℤ) (v : ℕ → ℤ)
      → r.1 ≡ some o
      → IsModel names v r.0
      → Solved names v r.0 o
      → left v ≡ right v

fails-Equates :
    (s : Substitutions) (a a' : Arena) (left right : (ℕ → ℤ) → ℤ)
    → IsRanked a'
    → Grows a a'
    → Equates s a (a', none) left right
fails-Equates s a a' left right ranked g = record {
  ranked = ranked;
  grows = g;
  bound = λ name value e. absurd (not_some e);
  unbound = λ name value e. absurd (not_some e);
  values = λ o names v e m h. absurd (not_some e);
}

difference_zero : (x y c k z r : ℤ) → x -ℤ y ≡ c *ℤ k +ℤ r → k ≡ z → c *ℤ z +ℤ r ≡ pos 0 → x ≡ y
difference_zero x y c k z r h same zero_is =
    let d : x -ℤ y ≡ pos 0 = h ∙ ap (λ k. c *ℤ k +ℤ r) same ∙ zero_is in omega (int_laws, parts d)

named :
    (name : Text) (value : PolyId) (o : Option (Text × PolyId)) (t : Option Atom)
    → t ≡ some (param_atom name)
    → (param_name_of t >>= λ n. some (some (n, value))) ≡ some o
    → o ≡ some (name, value)
unfolding param_name_of
named name value o t e h =
    sym (some_injective (sym (ap (λ t. param_name_of t >>= λ n. some (some (n, value))) e) ∙ h))

unify_difference-Equates :
    (expected actual : PolyId) (s : Substitutions) (a : Arena)
    → IsRanked a
    → IsValid expected a
    → IsValid actual a
    → Equates s a
        (unify_difference expected actual s a)
        (λ v. value_at v expected a)
        (λ v. value_at v actual a)
unfolding unify_difference IsUnbound Solved param_name IsModel atom_value
unify_difference-Equates expected actual s a ranked l r =
    let i = linear_in_unbound-IsLinear expected actual s a ranked l r in
    let linear = linear_in_unbound expected actual s a in
    chain-holds (λ q. Equates s a q (λ v. value_at v expected a) (λ v. value_at v actual a)) linear
      _
      (λ f hf.
        let a1 = linear.0 in
        let root = solve-IsRoot f.coeff f.rest a1 i.ranked (i.valid f hf) in
        let solved = solve f.coeff f.rest a1 in
        let grows = Grows-trans a a1 solved.0 i.grows root.grows in
        let (name, at, test) = i.unbound f hf in
        let there = root.grows.atoms_stay f.variable (param_atom name) at in
        chain-holds (λ q. Equates s a q (λ v. value_at v expected a) (λ v. value_at v actual a))
          solved _
          (λ value hv. record {
            ranked = root.ranked;
            grows = grows;
            bound = λ n w e.
                let same = some_injective (named name value (some (n, w)) _ there e) in
                subst (λ (p : Text × PolyId). IsValid p.1 solved.0) (sym same)
                  (root.valid value hv);
            unbound = λ n w e.
                let same = some_injective (named name value (some (n, w)) _ there e) in
                ap (λ (p : Text × PolyId). is_unbound p.0 s) same ∙ test;
            values = λ o names v e m h.
                let h' = subst (Solved names v solved.0) (named name value o _ there e) h in
                difference_zero (value_at v expected a) (value_at v actual a) f.coeff (v f.variable)
                  (value_at v value solved.0) (value_at v f.rest a1)
                  (i.values f names v hf
                    (IsModel-Grows names v a1 solved.0 i.ranked.good root.grows m))
                  (m f.variable (param_atom name) there ∙ h') (root.values value names v hv m);
          })
          (fails-Equates s a solved.0 _ _ root.ranked grows))
      (fails-Equates s a linear.0 _ _ i.ranked i.grows)

pub unify_resolved-Equates :
    (expected actual : PolyId) (s : Substitutions) (a : Arena)
    → IsRanked a
    → IsValid expected a
    → IsValid actual a
    → Equates s a
        (unify_resolved expected actual s a)
        (λ v. value_at v expected a)
        (λ v. value_at v actual a)
unfolding unify_resolved
unify_resolved-Equates expected actual s a ranked l r =
    if-holds (λ q. Equates s a q (λ v. value_at v expected a) (λ v. value_at v actual a))
      (expected == actual) (a, some none) (unify_difference expected actual s a)
      (λ same. record {
        ranked = ranked;
        grows = Grows-refl a;
        bound = λ name value e. absurd (not_some (some_injective e));
        unbound = λ name value e. absurd (not_some (some_injective e));
        values = λ o names v e m h. ap (λ i. value_at v i a) ((==_iff expected actual).0 same);
      })
      (λ _. unify_difference-Equates expected actual s a ranked l r)
