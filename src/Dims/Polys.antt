-- ===== src/Dims/Polys.antt =====
-- compiler/paco-types/src/dims.rs: monomials and polynomials. A polynomial is a `BTreeMap` from
-- monomials to coefficients, here the list of its entries in the order of its keys.
use Prim.Native.Nat.{lt, eq, gt}
use paco.Prelude.{
  ℕ, ◌+◌, ◌^◌, compare, Ordering, Option, none, some, List, [], ◌∷◌, Bool, true, false, ltb,
  if◌then◌else◌, ◌>>=◌,
}
use paco.Prelude.Int.{ℤ, pos, eqb_ℤ}
use paco.Dims.Checked.{checked_add, checked_mul}

abbrev pub Monomial : Type 0
Monomial = List (ℕ × ℕ)

abbrev pub Poly : Type 0
Poly = List (Monomial × ℤ)

abbrev then_compare : Ordering → Ordering → Ordering
then_compare eq o = o
then_compare lt _ = lt
then_compare gt _ = gt

-- the order of vectors of pairs
unfoldable pub compare_monomials : Monomial → Monomial → Ordering
compare_monomials [] [] = eq
compare_monomials [] (_ ∷ _) = lt
compare_monomials (_ ∷ _) [] = gt
compare_monomials ((a, e) ∷ m) ((b, f) ∷ n) =
    then_compare (compare a b) (then_compare (compare e f) (compare_monomials m n))

unfoldable pub get : Monomial → Poly → Option ℤ
unfolding compare_monomials
get m [] = none
get m ((n, c) ∷ p) = elim (compare_monomials m n) [ lt ↦ none | eq ↦ some c | gt ↦ get m p ]

unfoldable pub insert : Monomial → ℤ → Poly → Poly
unfolding compare_monomials
insert m s [] = (m, s) ∷ []
insert m s ((n, c) ∷ p) = elim (compare_monomials m n) [
  | lt ↦ (m, s) ∷ (n, c) ∷ p
  | eq ↦ (n, s) ∷ p
  | gt ↦ (n, c) ∷ insert m s p
]

unfoldable pub remove : Monomial → Poly → Poly
unfolding compare_monomials
remove m [] = []
remove m ((n, c) ∷ p) = elim (compare_monomials m n) [
  | lt ↦ (n, c) ∷ p
  | eq ↦ p
  | gt ↦ (n, c) ∷ remove m p
]

unfoldable pub or_zero : Option ℤ → ℤ
or_zero none = pos 0
or_zero (some c) = c

abbrev is_zero : ℤ → Bool
is_zero c = eqb_ℤ c (pos 0)

-- `if *entry == 0 { out.remove(mono); }`, behind the write of the entry
unfoldable pub put : Monomial → ℤ → Poly → Poly
unfolding insert remove
put m s p = if is_zero s then remove m (insert m s p) else insert m s p

-- the loop of `combine`
unfoldable pub combine_terms : ℤ → Poly → Poly → Option Poly
unfolding checked_add checked_mul get or_zero put
combine_terms sign out [] = some out
combine_terms sign out ((m, c) ∷ p) = checked_mul c sign >>= λ d.
    checked_add (or_zero (get m out)) d >>= λ s. combine_terms sign (put m s out) p

abbrev pub attach : ℕ × ℕ → Option Monomial → Option Monomial
attach f none = none
attach f (some m) = some (f ∷ m)

unfoldable pub merge : Monomial → Monomial → Option Monomial
merge [] r = some r
merge (f ∷ l) [] = some (f ∷ l)
merge ((a, e) ∷ l) ((b, f) ∷ r) = elim (compare a b) [
  | lt ↦ attach (a, e) (merge l ((b, f) ∷ r))
  | gt ↦ attach (b, f) (merge ((a, e) ∷ l) r)
  | eq ↦ elim (ltb (e + f) (2 ^ 32)) [ true ↦ attach (a, e + f) (merge l r) | false ↦ none ]
]

-- the inner loop of `product`
unfoldable pub product_row : Monomial → ℤ → Poly → Poly → Option Poly
unfolding checked_add checked_mul get or_zero insert merge
product_row left_mono left_coeff out [] = some out
product_row left_mono left_coeff out ((n, c) ∷ p) = merge left_mono n >>= λ m.
    checked_mul left_coeff c >>= λ d.
    checked_add (or_zero (get m out)) d >>= λ s. product_row left_mono left_coeff (insert m s out) p

unfoldable pub product_terms : Poly → Poly → Poly → Option Poly
unfolding product_row
product_terms out [] right = some out
product_terms out ((m, c) ∷ left) right =
    product_row m c out right >>= λ out'. product_terms out' left right

unfoldable pub retain_nonzero : Poly → Poly
retain_nonzero [] = []
retain_nonzero ((m, c) ∷ p) =
    let rest = retain_nonzero p in if is_zero c then rest else (m, c) ∷ rest
