-- ===== src/Dims/Values.antt =====
-- compiler/paco-types/src/dims.rs: the value of a polynomial for given values of its atoms, which
-- the operations on polynomials respect.
use Prim.Native.Nat.{lt, eq, gt}
use paco.Prelude.{
  order-holds, if-holds, ℕ, zero, suc, ◌≡◌, refl, sym, ap, ◌∙◌, none, some, [], ◌∷◌, arith,
  >>=-eq-some,
}
use paco.Prelude.Int.{
  ℤ, pos, parts, ◌+ℤ◌, ◌*ℤ◌, eqb_ℤ, eqb_ℤ_iff, int_laws, *ℤ_comm, *ℤ_assoc, pos_zero-*ℤ, *ℤ-+ℤ,
  +ℤ-*ℤ,
}
use paco.Dims.Checked.{checked_add, checked_mul, checked-some}
use paco.Dims.Polys.{
  Monomial, Poly, compare_monomials, get, insert, remove, or_zero, put, combine_terms,
}

unfoldable pub power : ℤ → ℕ → ℤ
power z zero = pos 1
power z (suc n) = z *ℤ power z n

unfoldable pub monomial_value : (ℕ → ℤ) → Monomial → ℤ
unfolding power
monomial_value v [] = pos 1
monomial_value v ((atom, exp) ∷ m) = power (v atom) exp *ℤ monomial_value v m

unfoldable pub poly_value : (ℕ → ℤ) → Poly → ℤ
unfolding monomial_value
poly_value v [] = pos 0
poly_value v ((m, c) ∷ p) = c *ℤ monomial_value v m +ℤ poly_value v p

compare_monomials-eq : (m n : Monomial) → compare_monomials m n ≡ eq → m ≡ n
unfolding compare_monomials
compare_monomials-eq [] [] h = refl
compare_monomials-eq [] (_ ∷ _) h = ground arith
compare_monomials-eq (_ ∷ _) [] h = ground arith
compare_monomials-eq ((a, e) ∷ m) ((b, f) ∷ n) h = ground (arith, compare_monomials-eq m n)

compare_monomials_refl : (m : Monomial) → compare_monomials m m ≡ eq
unfolding compare_monomials
compare_monomials_refl [] = refl
compare_monomials_refl ((a, e) ∷ m) = ground (arith, compare_monomials_refl m)

pub get-insert : (m : Monomial) (s : ℤ) (p : Poly) → or_zero (get m (insert m s p)) ≡ s
unfolding get insert or_zero
get-insert m s [] = ground (arith, compare_monomials_refl m)
get-insert m s ((n, c) ∷ p) =
    order-holds
      (λ o.
        compare_monomials m n ≡ o
        → or_zero (
            get m
              (elim o [ lt ↦ (m, s) ∷ (n, c) ∷ p | eq ↦ (n, s) ∷ p | gt ↦ (n, c) ∷ insert m s p ]))
          ≡ s)
      (compare_monomials m n) (λ _ h. ground (arith, compare_monomials_refl m))
      (λ _ h. ground arith) (λ _ h. ground (arith, get-insert m s p)) refl

pub some_injective : {A : Type 0} {x y : A} → some x ≡ some y → x ≡ y
some_injective h = cc

-- an entry of the tree, or zero, is the coefficient of its monomial
module _ (v : ℕ → ℤ) where
  pub insert_value :
      (m : Monomial) (s : ℤ) (p : Poly)
      → poly_value v (insert m s p) +ℤ or_zero (get m p) *ℤ monomial_value v m
        ≡ poly_value v p +ℤ s *ℤ monomial_value v m
  unfolding insert get or_zero poly_value
  insert_value m s [] = rw (pos_zero-*ℤ (monomial_value v m)) (omega int_laws)
  insert_value m s ((n, c) ∷ p) =
      let value = monomial_value v in
      order-holds
        (λ o.
          poly_value v
              (elim o [ lt ↦ (m, s) ∷ (n, c) ∷ p | eq ↦ (n, s) ∷ p | gt ↦ (n, c) ∷ insert m s p ])
            +ℤ or_zero (elim o [ lt ↦ none | eq ↦ some c | gt ↦ get m p ]) *ℤ value m
          ≡ (c *ℤ value n +ℤ poly_value v p) +ℤ s *ℤ value m)
        (compare_monomials m n) (λ _. rw (pos_zero-*ℤ (value m)) (omega int_laws))
        (λ h. rw (compare_monomials-eq m n h) (omega int_laws))
        (λ _. omega (int_laws, parts (insert_value m s p)))

  -- a tree without the entry of a monomial
  pub remove_value :
      (m : Monomial) (p : Poly)
      → poly_value v (remove m p) +ℤ or_zero (get m p) *ℤ monomial_value v m ≡ poly_value v p
  unfolding remove get or_zero poly_value
  remove_value m [] = rw (pos_zero-*ℤ (monomial_value v m)) (omega int_laws)
  remove_value m ((n, c) ∷ p) =
      let value = monomial_value v in
      order-holds
        (λ o.
          poly_value v (elim o [ lt ↦ (n, c) ∷ p | eq ↦ p | gt ↦ (n, c) ∷ remove m p ])
            +ℤ or_zero (elim o [ lt ↦ none | eq ↦ some c | gt ↦ get m p ]) *ℤ value m
          ≡ c *ℤ value n +ℤ poly_value v p)
        (compare_monomials m n) (λ _. rw (pos_zero-*ℤ (value m)) (omega int_laws))
        (λ h. rw (compare_monomials-eq m n h) (omega int_laws))
        (λ _. omega (int_laws, parts (remove_value m p)))

  pub put_value :
      (m : Monomial) (s : ℤ) (p : Poly)
      → poly_value v (put m s p) +ℤ or_zero (get m p) *ℤ monomial_value v m
        ≡ poly_value v p +ℤ s *ℤ monomial_value v m
  unfolding put
  put_value m s p =
      if-holds
        (λ q.
          poly_value v q +ℤ or_zero (get m p) *ℤ monomial_value v m
          ≡ poly_value v p +ℤ s *ℤ monomial_value v m)
        (eqb_ℤ s (pos 0)) (remove m (insert m s p)) (insert m s p)
        (λ z.
          let gone = remove_value m (insert m s p) in
          let zero_term =
            ap (λ x. x *ℤ monomial_value v m) (get-insert m s p ∙ (eqb_ℤ_iff s (pos 0)).0 z)
            ∙ pos_zero-*ℤ (monomial_value v m) in
          omega (int_laws, parts gone, parts zero_term, parts (insert_value m s p)))
        (λ _. insert_value m s p)

  -- one round of a loop that adds to an entry
  pub step_value :
      (m : Monomial) (d s : ℤ) (out out' : Poly)
      → s ≡ or_zero (get m out) +ℤ d
      → poly_value v out' +ℤ or_zero (get m out) *ℤ monomial_value v m
        ≡ poly_value v out +ℤ s *ℤ monomial_value v m
      → poly_value v out' ≡ poly_value v out +ℤ d *ℤ monomial_value v m
  step_value m d s out out' e h =
      let split =
        ap (λ x. x *ℤ monomial_value v m) e ∙ +ℤ-*ℤ (or_zero (get m out)) d (monomial_value v m) in
      omega (int_laws, parts h, parts split)

  pub combine_terms_value :
      (sign : ℤ) (out p r : Poly)
      → combine_terms sign out p ≡ some r
      → poly_value v r ≡ poly_value v out +ℤ sign *ℤ poly_value v p
  unfolding combine_terms poly_value
  combine_terms_value sign out [] r h =
      ap (poly_value v) (sym (some_injective h))
      ∙ omega (int_laws, parts (*ℤ_comm sign (pos 0) ∙ pos_zero-*ℤ sign))
  combine_terms_value sign out ((m, c) ∷ p) r h =
      let (d, hd, h1) = >>=-eq-some (checked_mul c sign) _ h in
      let (s, hs, h2) = >>=-eq-some (checked_add (or_zero (get m out)) d) _ h1 in
      let term : d *ℤ monomial_value v m ≡ sign *ℤ (c *ℤ monomial_value v m) =
        ap (λ x. x *ℤ monomial_value v m) (checked-some (c *ℤ sign) d hd ∙ *ℤ_comm c sign)
        ∙ *ℤ_assoc sign c (monomial_value v m) in
      let step = step_value m d s out (put m s out) (checked-some _ s hs) (put_value m s out) in
      omega (
        int_laws,
        parts (combine_terms_value sign (put m s out) p r h2),
        parts step,
        parts term,
        parts (*ℤ-+ℤ sign (c *ℤ monomial_value v m) (poly_value v p)),
      )
