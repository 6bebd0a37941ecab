-- ===== src/Dims/Resolving.antt =====
-- compiler/paco-types/src/dims.rs: `resolve` puts values in for the parameters of an expression.
use paco.Prelude.{ℕ, zero, suc, ◌≡◌, refl, sym, ap, ap₂, ◌∙◌, subst, ◌≢◌, none, some}
use paco.Prelude.Int.{ℤ, pos, ◌*ℤ◌, *ℤ_comm, *ℤ_assoc, pos_one-*ℤ}
use paco.Prelude.Text.{Text}
use paco.Dims.Arena.{DimOp, mul, PolyId, Arena, lit, apply}
use paco.Dims.Values.{power, some_injective}
use paco.Dims.Invariant.{
  IsValid, Grows, Grows-refl, Grows-trans, op_value, value_at, IsModel, value_at-Grows,
  IsModel-Grows, Computes,
}
use paco.Dims.Interning.{lit-Computes, IsValid-Grows, not_some}
use paco.Dims.Applying.{apply-Computes}
use paco.Dims.Ranks.{IsRanked, lit-IsRanked}
use paco.Dims.Ordered.{apply-IsRanked}
use paco.Dims.Substitution.{Substitutions, dyn, binding, Tried, chain, done, times}
use paco.Dims.Walking.{Agrees}

-- no name is bound to `Dyn`
unfoldable pub NoDyn : Substitutions → Type 0
unfolding binding
NoDyn s = (name : Text) → binding name s ≢ dyn

-- What an operation that may fail gives: it keeps the arena in order, fails only when a name is
-- bound to `Dyn`, and the id it finds has the
-- value that `value` computes from the values `v0` of the atoms of the arena `a0`, in which the
-- expression was built, and the values `v` of the atoms of the arena it returns.
pub record Resolves (s : Substitutions) (a0 a : Arena) (r : Tried) (value : (ℕ → ℤ) → (ℕ → ℤ) → ℤ)
    : Type 0 where
  pub ranked : IsRanked r.0
  pub grows : Grows a r.0
  pub finds : NoDyn s → (id : PolyId) × (r.1 ≡ some id)
  pub valid : (id : PolyId) → r.1 ≡ some id → IsValid id r.0
  pub values :
      (id : PolyId) (names0 names : Text → ℤ) (v0 v : ℕ → ℤ)
      → r.1 ≡ some id
      → IsModel names0 v0 a0
      → IsModel names v r.0
      → Agrees s a0 names v names0
      → value_at v id r.0 ≡ value v0 v

module _ (s : Substitutions) (a0 : Arena) where
  abbrev pub Gives : Arena → Tried → ((ℕ → ℤ) → (ℕ → ℤ) → ℤ) → Type 0
  Gives a r value = Resolves s a0 a r value

  pub as_value :
      (a : Arena) (r : Tried) (f g : (ℕ → ℤ) → (ℕ → ℤ) → ℤ)
      → ((names0 names : Text → ℤ) (v0 v : ℕ → ℤ)
          → IsModel names0 v0 a0
          → IsModel names v r.0
          → Agrees s a0 names v names0
          → f v0 v ≡ g v0 v)
      → Gives a r f
      → Gives a r g
  as_value a r f g same c = record {
    ranked = c.ranked;
    grows = c.grows;
    finds = c.finds;
    valid = c.valid;
    values = λ id names0 names v0 v h m0 m ag.
        c.values id names0 names v0 v h m0 m ag ∙ same names0 names v0 v m0 m ag;
  }

  pub done-Gives :
      (a : Arena) (r : Arena × PolyId) (f : (ℕ → ℤ) → ℤ)
      → IsRanked r.0
      → Computes a r f
      → Gives a (done r) (λ v0 v. f v)
  unfolding done
  done-Gives a r f ranked c = record {
    ranked = ranked;
    grows = c.grows;
    finds = λ _. (r.1, refl);
    valid = λ id h. subst (λ i. IsValid i r.0) (some_injective h) c.valid;
    values = λ id names0 names v0 v h m0 m ag.
        ap (λ i. value_at v i r.0) (sym (some_injective h)) ∙ c.values names v m;
  }

  -- an id that was there already
  pub same-Gives :
      (a : Arena) (id : PolyId)
      → IsRanked a
      → IsValid id a
      → Gives a (a, some id) (λ v0 v. value_at v id a)
  same-Gives a id ranked valid = record {
    ranked = ranked;
    grows = Grows-refl a;
    finds = λ _. (id, refl);
    valid = λ i h. subst (λ i. IsValid i a) (some_injective h) valid;
    values = λ i names0 names v0 v h m0 m ag. ap (λ i. value_at v i a) (sym (some_injective h));
  }

  pub fail-Gives :
      (a : Arena) (f : (ℕ → ℤ) → (ℕ → ℤ) → ℤ) → IsRanked a → (NoDyn s → ⊥) → Gives a (a, none) f
  fail-Gives a f ranked dynamic = record {
    ranked = ranked;
    grows = Grows-refl a;
    finds = λ none_is. absurd (dynamic none_is);
    valid = λ i h. absurd (not_some h);
    values = λ i names0 names v0 v h m0 m ag. absurd (not_some h);
  }

  pub chain-Gives :
      (a : Arena) (r : Tried) (next : PolyId → Arena → Tried) (f h : (ℕ → ℤ) → (ℕ → ℤ) → ℤ)
      → Gives a r f
      → ((x : PolyId) (a1 : Arena)
          → IsRanked a1
          → Grows a a1
          → IsValid x a1
          → (g : (ℕ → ℤ) → (ℕ → ℤ) → ℤ) × Gives a1 (next x a1) g
            × ((v0 v : ℕ → ℤ) → value_at v x a1 ≡ f v0 v → g v0 v ≡ h v0 v))
      → Gives a (chain r next) h
  unfolding chain
  chain-Gives a (a1, none) next f h c k = record {
    ranked = c.ranked;
    grows = c.grows;
    finds = λ free. let (_, e) = c.finds free in absurd (not_some e);
    valid = λ i e. absurd (not_some e);
    values = λ i names0 names v0 v e m0 m ag. absurd (not_some e);
  }
  chain-Gives a (a1, some x) next f h c k =
      let (g, d, same) = k x a1 c.ranked c.grows (c.valid x refl) in
      record {
        ranked = d.ranked;
        grows = Grows-trans a a1 (next x a1).0 c.grows d.grows;
        finds = d.finds;
        valid = d.valid;
        values = λ id names0 names v0 v e m0 m ag.
            d.values id names0 names v0 v e m0 m ag
            ∙ same v0 v (
                c.values x names0 names v0 v refl m0
                  (IsModel-Grows names v a1 (next x a1).0 c.ranked.good d.grows m) ag);
      }

  pub apply-Gives :
      (op : DimOp) (left right : PolyId) (a : Arena)
      → IsRanked a
      → IsValid left a
      → IsValid right a
      → Gives a
          (done (apply op left right a))
          (λ v0 v. op_value op (value_at v left a) (value_at v right a))
  apply-Gives op left right a ranked l r =
      done-Gives a (apply op left right a) _ (apply-IsRanked op left right a l r ranked)
        (apply-Computes op left right a ranked.good l r)

  pub lit-Gives : (z : ℤ) (a : Arena) → IsRanked a → Gives a (done (lit z a)) (λ v0 v. z)
  lit-Gives z a ranked =
      done-Gives a (lit z a) (λ v. z) (lit-IsRanked z a ranked) (lit-Computes z a ranked.good)

  pub times-Gives :
      (exp : ℕ) (term value : PolyId) (a : Arena)
      → IsRanked a
      → IsValid term a
      → IsValid value a
      → Gives a
          (times exp term value a)
          (λ v0 v. value_at v term a *ℤ power (value_at v value a) exp)
  unfolding times power op_value
  times-Gives zero term value a ranked t x =
      as_value a _ _ _
        (λ names0 names v0 v m0 m ag.
          sym (*ℤ_comm (value_at v term a) (pos 1) ∙ pos_one-*ℤ (value_at v term a)))
        (same-Gives a term ranked t)
  times-Gives (suc exp) term value a ranked t x =
      chain-Gives a (done (apply mul term value a)) _ _ _ (apply-Gives mul term value a ranked t x)
        (λ y a1 r1 g vy. (
          (λ v0 v. value_at v y a1 *ℤ power (value_at v value a1) exp),
          times-Gives exp y value a1 r1 vy (IsValid-Grows value a a1 g x),
          λ v0 v e.
              ap₂ (λ b c. b *ℤ power c exp) e (value_at-Grows v value a a1 x g)
              ∙ *ℤ_assoc (value_at v term a) (value_at v value a) (power (value_at v value a) exp),
        ))
