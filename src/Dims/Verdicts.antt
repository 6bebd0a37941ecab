-- ===== src/Dims/Verdicts.antt =====
-- compiler/paco-types/src/dims.rs: what `verdict` says is true.
use paco.Prelude.{
  if-holds, ℕ, ◌≡◌, refl, sym, ap, ap₂, ◌∙◌, ◌≢◌, Bool, true, false, Option, none, some, arith,
  ◌==◌, ==_iff,
}
use paco.Prelude.Int.{ℤ, pos, parts, ◌-ℤ◌, eqb_ℤ, eqb_ℤ_iff, int_laws}
use paco.Prelude.Text.{Text}
use paco.Dims.Arena.{sub, PolyId, Arena, lit_of, apply}
use paco.Dims.Invariant.{IsValid, op_value, value_at, IsModel}
use paco.Dims.Applying.{apply-Computes, lit_of_value}
use paco.Dims.Ranks.{IsRanked}
use paco.Dims.Substitution.{Verdict, equal, different, cannot_prove, verdict, verdict_of}
use paco.Dims.Models.{value_at_same}
use paco.Dims.Extending.{apply-Extends}

-- what a verdict says of the values of two expressions
unfoldable pub IsRight : Verdict → ℤ → ℤ → Type 0
IsRight equal x y = x ≡ y
IsRight different x y = x ≢ y
IsRight cannot_prove x y = Unit {0}

zero_difference : (x y : ℤ) → x -ℤ y ≡ pos 0 → x ≡ y
zero_difference x y h = omega (int_laws, parts h)

same_difference : (x y : ℤ) → x ≡ y → x -ℤ y ≡ pos 0
same_difference x y h = omega (int_laws, parts h)

clash : (b : Bool) → b ≡ true → b ≡ false → ⊥
clash b h k = ground arith

verdict_of-IsRight :
    (x y : ℤ) (o : Option ℤ) → ((z : ℤ) → o ≡ some z → x -ℤ y ≡ z) → IsRight (verdict_of o) x y
unfolding verdict_of IsRight
verdict_of-IsRight x y none h = tt
verdict_of-IsRight x y (some z) h =
    if-holds (λ o. IsRight o x y) (eqb_ℤ z (pos 0)) equal different
      (λ e. zero_difference x y (h z refl ∙ (eqb_ℤ_iff z (pos 0)).0 e))
      (λ e same.
        clash (eqb_ℤ z (pos 0))
          ((eqb_ℤ_iff z (pos 0)).1 (sym (h z refl) ∙ same_difference x y same)) e)

-- On an arena in order and two ids of it, `verdict` tells the truth: in every model of the arena,
-- whatever the parameters' values, expressions that it calls equal have equal values and those that it
-- calls different have different ones.
pub verdict-IsRight :
    (expected actual : PolyId) (a : Arena) (names : Text → ℤ) (v : ℕ → ℤ)
    → IsRanked a
    → IsValid expected a
    → IsValid actual a
    → IsModel names v a
    → IsRight (verdict expected actual a).1 (value_at v expected a) (value_at v actual a)
unfolding verdict IsRight op_value
verdict-IsRight expected actual a names v ranked l r m =
    let c = apply-Computes sub expected actual a ranked.good l r in
    let (a', d) = apply sub expected actual a in
    let (v', m', same) = (apply-Extends names sub expected actual a l r ranked).model v m in
    if-holds (λ (p : Arena × Verdict). IsRight p.1 (value_at v expected a) (value_at v actual a))
      (expected == actual) (a, equal) (a', verdict_of (lit_of d a'))
      (λ e. ap (λ i. value_at v i a) ((==_iff expected actual).0 e))
      (λ _. verdict_of-IsRight (value_at v expected a) (value_at v actual a) (lit_of d a') (λ z h.
        sym (
          ap₂ (λ x y. x -ℤ y) (value_at_same v' v expected a ranked l same)
            (value_at_same v' v actual a ranked r same))
        ∙ sym (c.values names v' m')
        ∙ lit_of_value v' d a' z c.good c.valid h))
