-- ===== src/Dims/Products.antt =====
-- compiler/paco-types/src/dims.rs: the value of a product of polynomials.
use Prim.Native.Nat.{lt, eq, gt}
use paco.Prelude.{
  if-holds, order-holds, ℕ, zero, suc, ◌+◌, ◌^◌, compare, ◌≡◌, refl, sym, ap, ap₂, ◌∙◌, true, false,
  Option, none, some, [], ◌∷◌, arith, ltb, >>=-eq-some,
}
use paco.Prelude.Int.{
  ℤ, pos, parts, ◌+ℤ◌, ◌*ℤ◌, eqb_ℤ, eqb_ℤ_iff, int_laws, *ℤ_comm, *ℤ_assoc, pos_one-*ℤ, pos_zero-*ℤ,
  *ℤ-+ℤ, +ℤ-*ℤ,
}
use paco.Dims.Checked.{checked_add, checked_mul, checked-some}
use paco.Dims.Polys.{
  Monomial, Poly, get, insert, or_zero, attach, merge, product_row, product_terms, retain_nonzero,
}
use paco.Dims.Values.{power, monomial_value, poly_value, insert_value, step_value, some_injective}

compare-eq : (a b : ℕ) → compare a b ≡ eq → a ≡ b
compare-eq a b h = ground arith

swap_factor : (x y z : ℤ) → x *ℤ (y *ℤ z) ≡ y *ℤ (x *ℤ z)
swap_factor x y z = sym (*ℤ_assoc x y z) ∙ ap (λ t. t *ℤ z) (*ℤ_comm x y) ∙ *ℤ_assoc y x z

exchange : (x y z w : ℤ) → (x *ℤ y) *ℤ (z *ℤ w) ≡ (x *ℤ z) *ℤ (y *ℤ w)
exchange x y z w =
    *ℤ_assoc x y (z *ℤ w) ∙ ap (λ t. x *ℤ t) (swap_factor y z w) ∙ sym (*ℤ_assoc x z (y *ℤ w))

power_add : (z : ℤ) (a b : ℕ) → power z (a + b) ≡ power z a *ℤ power z b
unfolding power
power_add z zero b =
    let e : zero + b ≡ b = omega arith in ap (power z) e ∙ sym (pos_one-*ℤ (power z b))
power_add z (suc a) b =
    let e : suc a + b ≡ suc (a + b) = omega arith in
    ap (power z) e ∙ ap (λ x. z *ℤ x) (power_add z a b) ∙ (sym (*ℤ_assoc z (power z a) (power z b)))

module _ (v : ℕ → ℤ) where
  attach_value :
      (k e : ℕ) (o : Option Monomial) (m : Monomial)
      → attach (k, e) o ≡ some m
      → (n : Monomial) × (o ≡ some n) × (monomial_value v m ≡ power (v k) e *ℤ monomial_value v n)
  unfolding monomial_value
  attach_value k e none m h = ground arith
  attach_value k e (some n) m h = (n, refl, ap (monomial_value v) (sym (some_injective h)))

  merge_same :
      (a b e f : ℕ) (l r m : Monomial)
      → a ≡ b
      → ((n : Monomial)
          → merge l r ≡ some n
          → monomial_value v n ≡ monomial_value v l *ℤ monomial_value v r)
      → elim (ltb (e + f) (2 ^ 32)) [ true ↦ attach (a, e + f) (merge l r) | false ↦ none ] ≡ some m
      → monomial_value v m
        ≡ (power (v a) e *ℤ monomial_value v l) *ℤ (power (v b) f *ℤ monomial_value v r)
  merge_same a b e f l r m same ih k =
      elim (ltb (e + f) (2 ^ 32))
          as (λ t.
            elim t [ true ↦ attach (a, e + f) (merge l r) | false ↦ none ] ≡ some m
            → monomial_value v m
              ≡ (power (v a) e *ℤ monomial_value v l) *ℤ (power (v b) f *ℤ monomial_value v r)) [
                | true ↦ (λ k.
                    let (n, hn, e_m) = attach_value a (e + f) (merge l r) m k in
                    e_m
                    ∙ ap₂ (λ x y. x *ℤ y) (power_add (v a) e f) (ih n hn)
                    ∙ ap
                        (λ c.
                          (power (v a) e *ℤ power (v c) f)
                          *ℤ (monomial_value v l *ℤ monomial_value v r))
                        same
                    ∙ exchange (power (v a) e) (power (v b) f) (monomial_value v l)
                        (monomial_value v r))
                | false ↦ (λ k. ground arith)
              ]
        k

  pub merge_value :
      (l r m : Monomial)
      → merge l r ≡ some m
      → monomial_value v m ≡ monomial_value v l *ℤ monomial_value v r
  unfolding merge monomial_value
  merge_value [] r m h =
      ap (monomial_value v) (sym (some_injective h)) ∙ sym (pos_one-*ℤ (monomial_value v r))
  merge_value (f ∷ l) [] m h =
      ap (monomial_value v) (sym (some_injective h))
      ∙ sym (*ℤ_comm (monomial_value v (f ∷ l)) (pos 1) ∙ pos_one-*ℤ (monomial_value v (f ∷ l)))
  merge_value ((a, e) ∷ l) ((b, f) ∷ r) m h =
      order-holds
        (λ o.
          compare a b ≡ o
          → elim o [
            | lt ↦ attach (a, e) (merge l ((b, f) ∷ r))
            | gt ↦ attach (b, f) (merge ((a, e) ∷ l) r)
            | eq ↦ elim (ltb (e + f) (2 ^ 32)) [
              | true ↦ attach (a, e + f) (merge l r)
              | false ↦ none
            ]
          ]
            ≡ some m
          → monomial_value v m
            ≡ (power (v a) e *ℤ monomial_value v l) *ℤ (power (v b) f *ℤ monomial_value v r))
        (compare a b)
        (λ _ _ k.
          let (n, hn, e_m) = attach_value a e (merge l ((b, f) ∷ r)) m k in
          e_m
          ∙ ap (λ x. power (v a) e *ℤ x) (merge_value l ((b, f) ∷ r) n hn)
          ∙ sym (*ℤ_assoc (power (v a) e) (monomial_value v l) _))
        (λ _ same k.
          merge_same a b e f l r m (compare-eq a b same) (λ n hn. merge_value l r n hn) k)
        (λ _ _ k.
          let (n, hn, e_m) = attach_value b f (merge ((a, e) ∷ l) r) m k in
          e_m
          ∙ ap (λ x. power (v b) f *ℤ x) (merge_value ((a, e) ∷ l) r n hn)
          ∙ swap_factor (power (v b) f) (power (v a) e *ℤ monomial_value v l) (monomial_value v r))
        refl h

  product_row_value :
      (n : Monomial) (c : ℤ) (out p r : Poly)
      → product_row n c out p ≡ some r
      → poly_value v r ≡ poly_value v out +ℤ (c *ℤ monomial_value v n) *ℤ poly_value v p
  unfolding product_row poly_value
  product_row_value n c out [] r h =
      ap (poly_value v) (sym (some_injective h))
      ∙ omega (
        int_laws,
        parts (*ℤ_comm (c *ℤ monomial_value v n) (pos 0) ∙ pos_zero-*ℤ (c *ℤ monomial_value v n)),
      )
  product_row_value n c out ((k, d) ∷ p) r h =
      let (m, hm, h1) = >>=-eq-some (merge n k) _ h in
      let (t, ht, h2) = >>=-eq-some (checked_mul c d) _ h1 in
      let (s, hs, h3) = >>=-eq-some (checked_add (or_zero (get m out)) t) _ h2 in
      let whole = c *ℤ monomial_value v n in
      let term : t *ℤ monomial_value v m ≡ whole *ℤ (d *ℤ monomial_value v k) =
        ap₂ (λ x y. x *ℤ y) (checked-some _ t ht) (merge_value n k m hm)
        ∙ exchange c d (monomial_value v n) (monomial_value v k) in
      let step =
        step_value v m t s out (insert m s out) (checked-some _ s hs) (insert_value v m s out) in
      omega (
        int_laws,
        parts (product_row_value n c (insert m s out) p r h3),
        parts step,
        parts term,
        parts (*ℤ-+ℤ whole (d *ℤ monomial_value v k) (poly_value v p)),
      )

  pub product_terms_value :
      (out p q r : Poly)
      → product_terms out p q ≡ some r
      → poly_value v r ≡ poly_value v out +ℤ poly_value v p *ℤ poly_value v q
  unfolding product_terms poly_value
  product_terms_value out [] q r h =
      ap (poly_value v) (sym (some_injective h))
      ∙ omega (int_laws, parts (pos_zero-*ℤ (poly_value v q)))
  product_terms_value out ((m, c) ∷ p) q r h =
      let (out', h1, h2) = >>=-eq-some (product_row m c out q) _ h in
      omega (
        int_laws,
        parts (product_terms_value out' p q r h2),
        parts (product_row_value m c out q out' h1),
        parts (+ℤ-*ℤ (c *ℤ monomial_value v m) (poly_value v p) (poly_value v q)),
      )

  pub retain_nonzero_value : (p : Poly) → poly_value v (retain_nonzero p) ≡ poly_value v p
  unfolding retain_nonzero poly_value
  retain_nonzero_value [] = refl
  retain_nonzero_value ((m, c) ∷ p) =
      if-holds (λ q. poly_value v q ≡ c *ℤ monomial_value v m +ℤ poly_value v p) (eqb_ℤ c (pos 0))
        (retain_nonzero p) ((m, c) ∷ retain_nonzero p)
        (λ z. omega (
          int_laws,
          parts (retain_nonzero_value p),
          parts (
              ap (λ x. x *ℤ monomial_value v m) ((eqb_ℤ_iff c (pos 0)).0 z)
              ∙ pos_zero-*ℤ (monomial_value v m)),
        ))
        (λ _. omega (int_laws, parts (retain_nonzero_value p)))
