-- ===== src/Dims/Ordered.antt =====
-- compiler/paco-types/src/dims.rs: `apply` keeps the arena in order.
use paco.Prelude.{◌<◌, ◌≡◌, refl, subst, Option, none, some, [], >>=-eq-some, length}
use paco.Prelude.Int.{ℤ, pos, negsuc}
use paco.Dims.Polys.{Poly, product_terms}
use paco.Dims.Arena.{
  DimOp, add, sub, mul, div, rem, PolyId, Arena, poly_at, lit_of, fold, combine_op, lit_or_opaque,
  intern_or_opaque, apply_to, apply,
}
use paco.Dims.Values.{some_injective}
use paco.Dims.Invariant.{IsValid}
use paco.Dims.Interning.{not_some}
use paco.Dims.Mentions.{
  AllAtoms, combine_terms-AllAtoms, product_terms-AllAtoms, retain_nonzero-AllAtoms,
}
use paco.Dims.Ranks.{Knows, IsRanked, poly_at-Knows, lit-IsRanked, intern-IsRanked, opaque-IsRanked}

combine_op-Knows :
    (op : DimOp) (p q r : Poly) (a : Arena)
    → combine_op op p q ≡ some r
    → Knows a p
    → Knows a q
    → Knows a r
unfolding combine_op AllAtoms
combine_op-Knows add p q r a h kp kq =
    combine_terms-AllAtoms (λ k. k < length a.atoms) (pos 1) p q r h kp kq
combine_op-Knows sub p q r a h kp kq =
    combine_terms-AllAtoms (λ k. k < length a.atoms) (negsuc 0) p q r h kp kq
combine_op-Knows mul p q r a h kp kq =
    let (t, h1, h2) = >>=-eq-some (product_terms [] p q) _ h in
    subst (Knows a) (some_injective h2) (
      retain_nonzero-AllAtoms (λ k. k < length a.atoms) t
        (product_terms-AllAtoms (λ k. k < length a.atoms) [] p q t h1 tt kp kq))
combine_op-Knows div p q r a h kp kq = absurd (not_some h)
combine_op-Knows rem p q r a h kp kq = absurd (not_some h)

intern_or_opaque-IsRanked :
    (combined : Option Poly) (op : DimOp) (left right : PolyId) (a : Arena)
    → combine_op op (poly_at left a) (poly_at right a) ≡ combined
    → IsValid left a
    → IsValid right a
    → IsRanked a
    → IsRanked (intern_or_opaque combined op left right a).0
unfolding intern_or_opaque
intern_or_opaque-IsRanked (some p) op left right a h l r ranked =
    intern-IsRanked p a
      (combine_op-Knows op (poly_at left a) (poly_at right a) p a h (poly_at-Knows left a ranked l)
        (poly_at-Knows right a ranked r))
      ranked
intern_or_opaque-IsRanked none op left right a h l r ranked =
    opaque-IsRanked op left right a l r ranked

lit_or_opaque-IsRanked :
    (folded : Option ℤ) (op : DimOp) (left right : PolyId) (a : Arena)
    → IsValid left a
    → IsValid right a
    → IsRanked a
    → IsRanked (lit_or_opaque folded op left right a).0
unfolding lit_or_opaque
lit_or_opaque-IsRanked (some z) op left right a l r ranked = lit-IsRanked z a ranked
lit_or_opaque-IsRanked none op left right a l r ranked = opaque-IsRanked op left right a l r ranked

apply_to-IsRanked :
    (x y : Option ℤ) (op : DimOp) (left right : PolyId) (a : Arena)
    → IsValid left a
    → IsValid right a
    → IsRanked a
    → IsRanked (apply_to x y op left right a).0
unfolding apply_to
apply_to-IsRanked (some x) (some y) op left right a l r ranked =
    lit_or_opaque-IsRanked (fold op x y) op left right a l r ranked
apply_to-IsRanked none y op left right a l r ranked =
    intern_or_opaque-IsRanked _ op left right a refl l r ranked
apply_to-IsRanked (some x) none op left right a l r ranked =
    intern_or_opaque-IsRanked _ op left right a refl l r ranked

-- `apply` keeps the arena in order: tables that agree with the lists they index, one id for each
-- polynomial, and polynomials whose atoms are there and stand only on polynomials before them.
pub apply-IsRanked :
    (op : DimOp) (left right : PolyId) (a : Arena)
    → IsValid left a
    → IsValid right a
    → IsRanked a
    → IsRanked (apply op left right a).0
unfolding apply
apply-IsRanked op left right a l r ranked =
    apply_to-IsRanked (lit_of left a) (lit_of right a) op left right a l r ranked
