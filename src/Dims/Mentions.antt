-- ===== src/Dims/Mentions.antt =====
-- compiler/paco-types/src/dims.rs: the atoms that polynomials mention.
use Prim.Native.Nat.{lt, eq, gt}
use paco.Prelude.{
  if-holds, order-holds, ℕ, ◌+◌, ◌^◌, compare, ◌≡◌, refl, subst, true, false, Option, none, some,
  [], ◌∷◌, arith, ltb, >>=-eq-some,
}
use paco.Prelude.Int.{ℤ, pos, eqb_ℤ}
use paco.Dims.Checked.{checked_add, checked_mul}
use paco.Dims.Polys.{
  Monomial, Poly, compare_monomials, get, insert, remove, or_zero, put, combine_terms, attach,
  merge, product_row, product_terms, retain_nonzero,
}
use paco.Dims.Values.{some_injective}

unfoldable pub AllIn : (ℕ → Type 0) → Monomial → Type 0
AllIn P [] = Unit {0}
AllIn P ((atom, _) ∷ m) = P atom × AllIn P m

-- every atom that the polynomial mentions satisfies the predicate
unfoldable pub AllAtoms : (ℕ → Type 0) → Poly → Type 0
unfolding AllIn
AllAtoms P [] = Unit {0}
AllAtoms P ((m, _) ∷ p) = AllIn P m × AllAtoms P p

module _ (P Q : ℕ → Type 0) (f : (k : ℕ) → P k → Q k) where
  AllIn-mono : (m : Monomial) → AllIn P m → AllIn Q m
  unfolding AllIn
  AllIn-mono [] h = tt
  AllIn-mono ((k, _) ∷ m) (h, hs) = (f k h, AllIn-mono m hs)

  pub AllAtoms-mono : (p : Poly) → AllAtoms P p → AllAtoms Q p
  unfolding AllAtoms
  AllAtoms-mono [] h = tt
  AllAtoms-mono ((m, _) ∷ p) (h, hs) = (AllIn-mono m h, AllAtoms-mono p hs)

module _ (P : ℕ → Type 0) where
  insert-AllAtoms :
      (m : Monomial) (s : ℤ) (p : Poly) → AllIn P m → AllAtoms P p → AllAtoms P (insert m s p)
  unfolding insert AllAtoms
  insert-AllAtoms m s [] hm hp = (hm, tt)
  insert-AllAtoms m s ((n, c) ∷ p) hm (hn, hp) =
      order-holds
        (λ o.
          AllAtoms P
            (elim o [ lt ↦ (m, s) ∷ (n, c) ∷ p | eq ↦ (n, s) ∷ p | gt ↦ (n, c) ∷ insert m s p ]))
        (compare_monomials m n) (λ _. (hm, (hn, hp))) (λ _. (hn, hp))
        (λ _. (hn, insert-AllAtoms m s p hm hp))

  pub remove-AllAtoms : (m : Monomial) (p : Poly) → AllAtoms P p → AllAtoms P (remove m p)
  unfolding remove AllAtoms
  remove-AllAtoms m [] hp = tt
  remove-AllAtoms m ((n, c) ∷ p) (hn, hp) =
      order-holds (λ o. AllAtoms P (elim o [ lt ↦ (n, c) ∷ p | eq ↦ p | gt ↦ (n, c) ∷ remove m p ]))
        (compare_monomials m n) (λ _. (hn, hp)) (λ _. hp) (λ _. (hn, remove-AllAtoms m p hp))

  put-AllAtoms :
      (m : Monomial) (s : ℤ) (p : Poly) → AllIn P m → AllAtoms P p → AllAtoms P (put m s p)
  unfolding put
  put-AllAtoms m s p hm hp =
      let inserted = insert-AllAtoms m s p hm hp in
      if-holds (AllAtoms P) (eqb_ℤ s (pos 0)) (remove m (insert m s p)) (insert m s p)
        (λ _. remove-AllAtoms m (insert m s p) inserted) (λ _. inserted)

  pub combine_terms-AllAtoms :
      (sign : ℤ) (out p r : Poly)
      → combine_terms sign out p ≡ some r
      → AllAtoms P out
      → AllAtoms P p
      → AllAtoms P r
  unfolding combine_terms AllAtoms
  combine_terms-AllAtoms sign out [] r h ho hp = subst (AllAtoms P) (some_injective h) ho
  combine_terms-AllAtoms sign out ((m, c) ∷ p) r h ho (hm, hp) =
      let (d, hd, h1) = >>=-eq-some (checked_mul c sign) _ h in
      let (s, hs, h2) = >>=-eq-some (checked_add (or_zero (get m out)) d) _ h1 in
      combine_terms-AllAtoms sign (put m s out) p r h2 (put-AllAtoms m s out hm ho) hp

  attach-AllIn :
      (k e : ℕ) (o : Option Monomial) (m : Monomial)
      → P k
      → ((n : Monomial) → o ≡ some n → AllIn P n)
      → attach (k, e) o ≡ some m
      → AllIn P m
  unfolding AllIn
  attach-AllIn k e none m hk ho h = ground arith
  attach-AllIn k e (some n) m hk ho h = subst (AllIn P) (some_injective h) (hk, ho n refl)

  merge-AllIn : (l r m : Monomial) → merge l r ≡ some m → AllIn P l → AllIn P r → AllIn P m
  unfolding merge AllIn
  merge-AllIn [] r m h hl hr = subst (AllIn P) (some_injective h) hr
  merge-AllIn (f ∷ l) [] m h hl hr = subst (AllIn P) (some_injective h) hl
  merge-AllIn ((a, e) ∷ l) ((b, f) ∷ r) m h (ha, hl) (hb, hr) =
      order-holds
        (λ o.
          elim o [
            | lt ↦ attach (a, e) (merge l ((b, f) ∷ r))
            | gt ↦ attach (b, f) (merge ((a, e) ∷ l) r)
            | eq ↦ elim (ltb (e + f) (2 ^ 32)) [
              | true ↦ attach (a, e + f) (merge l r)
              | false ↦ none
            ]
          ]
            ≡ some m
          → AllIn P m)
        (compare a b)
        (λ _ k. attach-AllIn a e _ m ha (λ n hn. merge-AllIn l ((b, f) ∷ r) n hn hl (hb, hr)) k)
        (λ _ k.
          elim (ltb (e + f) (2 ^ 32))
              as (λ t.
                elim t [ true ↦ attach (a, e + f) (merge l r) | false ↦ none ] ≡ some m
                → AllIn P m) [
                  | true ↦
                      (λ k'. attach-AllIn a (e + f) _ m ha (λ n hn. merge-AllIn l r n hn hl hr) k')
                  | false ↦ (λ k'. ground arith)
                ]
            k)
        (λ _ k. attach-AllIn b f _ m hb (λ n hn. merge-AllIn ((a, e) ∷ l) r n hn (ha, hl) hr) k) h

  product_row-AllAtoms :
      (n : Monomial) (c : ℤ) (out p r : Poly)
      → product_row n c out p ≡ some r
      → AllIn P n
      → AllAtoms P out
      → AllAtoms P p
      → AllAtoms P r
  unfolding product_row AllAtoms
  product_row-AllAtoms n c out [] r h hn ho hp = subst (AllAtoms P) (some_injective h) ho
  product_row-AllAtoms n c out ((k, d) ∷ p) r h hn ho (hk, hp) =
      let (m, hm, h1) = >>=-eq-some (merge n k) _ h in
      let (t, ht, h2) = >>=-eq-some (checked_mul c d) _ h1 in
      let (s, hs, h3) = >>=-eq-some (checked_add (or_zero (get m out)) t) _ h2 in
      product_row-AllAtoms n c (insert m s out) p r h3 hn
        (insert-AllAtoms m s out (merge-AllIn n k m hm hn hk) ho) hp

  pub product_terms-AllAtoms :
      (out p q r : Poly)
      → product_terms out p q ≡ some r
      → AllAtoms P out
      → AllAtoms P p
      → AllAtoms P q
      → AllAtoms P r
  unfolding product_terms AllAtoms
  product_terms-AllAtoms out [] q r h ho hp hq = subst (AllAtoms P) (some_injective h) ho
  product_terms-AllAtoms out ((m, c) ∷ p) q r h ho (hm, hp) hq =
      let (out', h1, h2) = >>=-eq-some (product_row m c out q) _ h in
      product_terms-AllAtoms out' p q r h2 (product_row-AllAtoms m c out q out' h1 hm ho hq) hp hq

  pub retain_nonzero-AllAtoms : (p : Poly) → AllAtoms P p → AllAtoms P (retain_nonzero p)
  unfolding retain_nonzero AllAtoms
  retain_nonzero-AllAtoms [] h = tt
  retain_nonzero-AllAtoms ((m, c) ∷ p) (hm, hp) =
      let rest = retain_nonzero-AllAtoms p hp in
      if-holds (AllAtoms P) (eqb_ℤ c (pos 0)) (retain_nonzero p) ((m, c) ∷ retain_nonzero p)
        (λ _. rest) (λ _. (hm, rest))
