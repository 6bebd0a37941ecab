-- ===== src/Dims/Applying.antt =====
-- compiler/paco-types/src/dims.rs: `apply` computes its operation, and `verdict` is right.
use paco.Prelude.{
  if-holds, ℕ, ◌≡◌, refl, sym, ap, ap₂, ◌∙◌, not, ◌&&◌, Option, none, some, [], arith, >>=-eq-some,
}
use paco.Prelude.Int.{ℤ, pos, negsuc, ◌+ℤ◌, ◌-ℤ◌, ◌*ℤ◌, eqb_ℤ, int_laws, pos_one-*ℤ}
use paco.Prelude.Text.{is_i64}
use paco.Dims.Checked.{quotient, remainder, checked, checked_div, checked_rem, checked-some}
use paco.Dims.Polys.{Poly, product_terms}
use paco.Dims.Arena.{
  DimOp, add, sub, mul, div, rem, PolyId, Interned, Arena, poly_at, lit_of, fold, combine_op,
  lit_or_opaque, intern_or_opaque, apply_to, apply,
}
use paco.Dims.Values.{poly_value, combine_terms_value, some_injective}
use paco.Dims.Products.{product_terms_value, retain_nonzero_value}
use paco.Dims.Invariant.{At, IsValid, IsGood, op_value, value_at, poly_at-At, Computes}
use paco.Dims.Interning.{intern-Computes, constant_of_value, lit-Computes, not_some}
use paco.Dims.Atoms.{opaque-Computes}

checked_div-some : (x y z : ℤ) → checked_div x y ≡ some z → z ≡ quotient x y
unfolding checked_div
checked_div-some x y z h =
    if-holds (λ o. o ≡ some z → z ≡ quotient x y) (eqb_ℤ y (pos 0)) none (checked (quotient x y))
      (λ _ k. absurd (not_some k)) (λ _ k. checked-some (quotient x y) z k) h

checked_rem-some : (x y z : ℤ) → checked_rem x y ≡ some z → z ≡ remainder x y
unfolding checked_rem
checked_rem-some x y z h =
    if-holds (λ o. o ≡ some z → z ≡ remainder x y) (not (eqb_ℤ y (pos 0)) && is_i64 (quotient x y))
      (some (remainder x y)) none (λ _ k. sym (some_injective k)) (λ _ k. absurd (not_some k)) h

minus_one-*ℤ : (x : ℤ) → negsuc 0 *ℤ x ≡ pos 0 -ℤ x
unfolding ◌*ℤ◌ ◌-ℤ◌
minus_one-*ℤ x = ground arith

zero_plus : (v : ℕ → ℤ) (x : ℤ) → poly_value v [] +ℤ x ≡ x
unfolding poly_value
zero_plus v x = omega int_laws

lit_of-At : (id : PolyId) (e : Interned) (a : Arena) → At id e a → lit_of id a ≡ e.constant
unfolding lit_of
lit_of-At id e a h = ground arith

pub fold_value : (op : DimOp) (x y z : ℤ) → fold op x y ≡ some z → z ≡ op_value op x y
unfolding fold op_value
fold_value add x y z h = checked-some (x +ℤ y) z h
fold_value sub x y z h = checked-some (x -ℤ y) z h
fold_value mul x y z h = checked-some (x *ℤ y) z h
fold_value div x y z h = checked_div-some x y z h
fold_value rem x y z h = checked_rem-some x y z h

combine_op_value :
    (v : ℕ → ℤ) (op : DimOp) (p q r : Poly)
    → combine_op op p q ≡ some r
    → poly_value v r ≡ op_value op (poly_value v p) (poly_value v q)
unfolding combine_op op_value
combine_op_value v add p q r h =
    combine_terms_value v (pos 1) p q r h
    ∙ ap (λ x. poly_value v p +ℤ x) (pos_one-*ℤ (poly_value v q))
combine_op_value v sub p q r h =
    combine_terms_value v (negsuc 0) p q r h
    ∙ ap (λ x. poly_value v p +ℤ x) (minus_one-*ℤ (poly_value v q))
    ∙ omega int_laws
combine_op_value v mul p q r h =
    let (t, h1, h2) = >>=-eq-some (product_terms [] p q) _ h in
    ap (poly_value v) (sym (some_injective h2))
    ∙ retain_nonzero_value v t
    ∙ product_terms_value v [] p q t h1
    ∙ zero_plus v (poly_value v p *ℤ poly_value v q)
combine_op_value v div p q r h = absurd (not_some h)
combine_op_value v rem p q r h = absurd (not_some h)

pub lit_of_value :
    (v : ℕ → ℤ) (id : PolyId) (a : Arena) (x : ℤ)
    → IsGood a
    → IsValid id a
    → lit_of id a ≡ some x
    → value_at v id a ≡ x
unfolding value_at
lit_of_value v id a x good (e, at) h =
    ap (poly_value v) (poly_at-At id e a at)
    ∙ constant_of_value v e.poly x (sym (good.constants id e at) ∙ sym (lit_of-At id e a at) ∙ h)

-- an id that stands for another value in every model of what the arena grows to
Computes-as :
    (a : Arena) (r : Arena × PolyId) (f g : (ℕ → ℤ) → ℤ)
    → Computes a r f
    → ((v : ℕ → ℤ) → f v ≡ g v)
    → Computes a r g
Computes-as a r f g c same = record {
  good = c.good;
  grows = c.grows;
  valid = c.valid;
  values = λ names v m. c.values names v m ∙ same v;
}

lit_or_opaque-Computes :
    (folded : Option ℤ) (op : DimOp) (x y : ℤ) (left right : PolyId) (a : Arena)
    → fold op x y ≡ folded
    → IsGood a
    → IsValid left a
    → IsValid right a
    → ((v : ℕ → ℤ) → value_at v left a ≡ x)
    → ((v : ℕ → ℤ) → value_at v right a ≡ y)
    → Computes a
        (lit_or_opaque folded op left right a)
        (λ v. op_value op (value_at v left a) (value_at v right a))
unfolding lit_or_opaque
lit_or_opaque-Computes (some z) op x y left right a h good l r ex ey =
    Computes-as a _ (λ v. z) _ (lit-Computes z a good)
      (λ v. fold_value op x y z h ∙ sym (ap₂ (op_value op) (ex v) (ey v)))
lit_or_opaque-Computes none op x y left right a h good l r ex ey =
    opaque-Computes op left right a good l r

intern_or_opaque-Computes :
    (combined : Option Poly) (op : DimOp) (left right : PolyId) (a : Arena)
    → combine_op op (poly_at left a) (poly_at right a) ≡ combined
    → IsGood a
    → IsValid left a
    → IsValid right a
    → Computes a
        (intern_or_opaque combined op left right a)
        (λ v. op_value op (value_at v left a) (value_at v right a))
unfolding intern_or_opaque value_at
intern_or_opaque-Computes (some p) op left right a h good l r =
    Computes-as a _ (λ v. poly_value v p) _ (intern-Computes p a good)
      (λ v. combine_op_value v op (poly_at left a) (poly_at right a) p h)
intern_or_opaque-Computes none op left right a h good l r = opaque-Computes op left right a good l r

apply_to-Computes :
    (x y : Option ℤ) (op : DimOp) (left right : PolyId) (a : Arena)
    → lit_of left a ≡ x
    → lit_of right a ≡ y
    → IsGood a
    → IsValid left a
    → IsValid right a
    → Computes a
        (apply_to x y op left right a)
        (λ v. op_value op (value_at v left a) (value_at v right a))
unfolding apply_to
apply_to-Computes (some x) (some y) op left right a hx hy good l r =
    lit_or_opaque-Computes (fold op x y) op x y left right a refl good l r
      (λ v. lit_of_value v left a x good l hx) (λ v. lit_of_value v right a y good r hy)
apply_to-Computes none y op left right a hx hy good l r =
    intern_or_opaque-Computes _ op left right a refl good l r
apply_to-Computes (some x) none op left right a hx hy good l r =
    intern_or_opaque-Computes _ op left right a refl good l r

-- On an arena in order and two ids of it, `apply` gives an arena in order that has grown and an id
-- of it. Its polynomial has, in every model of the grown arena, the value of the operation, on
-- integers without bounds, at the values of the two operands, whether it was folded, combined or
-- made opaque, and whichever operations overflowed.
pub apply-Computes :
    (op : DimOp) (left right : PolyId) (a : Arena)
    → IsGood a
    → IsValid left a
    → IsValid right a
    → Computes a (apply op left right a) (λ v. op_value op (value_at v left a) (value_at v right a))
unfolding apply
apply-Computes op left right a good l r =
    apply_to-Computes (lit_of left a) (lit_of right a) op left right a refl refl good l r
