-- ===== src/Layout/Packing.antt =====
-- compiler/paco-mir/src/layout.rs: `repr(default)` leaves no padding between fields.
use paco.Prelude.{
  ℕ, List, [], ◌∷◌, ◌+◌, ◌%◌, ◌^◌, ◌≤◌, ◌<◌, ◌≡◌, refl, ap, ap₂, ◌∙◌, max, arith, ◌⊎◌, leb,
  Bool-cases, inl, inr, tests,
}
use paco.Layout.{
  Repr, Field, align_up, insert_by_align, sort_onto, ordered_fields, place_fields, struct_layout,
  u64,
}
use paco.Layout.Placement.{
  total_size, total_align, ArePositive, Fit, align_up_bounds, ordered_fields_sums,
  place_fields_bounds,
}

-- the alignments that scalars, structs and enums have
abbrev pub IsAlign : ℕ → Type 0
IsAlign a = (a ≡ 1) ⊎ (a ≡ 2) ⊎ (a ≡ 4) ⊎ (a ≡ 8)

-- Every size is a multiple of its alignment.
abbrev pub AreRounded : List Field → Type 0
AreRounded [] = Unit
AreRounded ((_, layout) ∷ fs) =
    IsAlign layout.align × (layout.size % layout.align ≡ 0) × AreRounded fs

-- falling alignments, from `bound` down
abbrev Falling : ℕ → List Field → Type 0
Falling bound [] = Unit
Falling bound ((_, layout) ∷ fs) = (layout.align ≤ bound) × Falling layout.align fs

insert_by_align-Falling :
    (bound : ℕ) (f : Field) (fs : List Field)
    → f.1.align ≤ bound
    → Falling bound fs
    → Falling bound (insert_by_align f fs)
unfolding insert_by_align
insert_by_align-Falling bound f [] le h = (le, tt)
insert_by_align-Falling bound f (g ∷ gs) le h = elim (Bool-cases (leb f.1.align g.1.align)) [
  | inl behind ↦ rw behind (h.0, insert_by_align-Falling g.1.align f gs (omega (tests, behind)) h.1)
  | inr before ↦ rw before (le, (ground arith, h.1))
]

insert_by_align-AreRounded :
    (f : Field) (fs : List Field)
    → IsAlign f.1.align
    → f.1.size % f.1.align ≡ 0
    → AreRounded fs
    → AreRounded (insert_by_align f fs)
unfolding insert_by_align
insert_by_align-AreRounded f [] a s h = (a, s, tt)
insert_by_align-AreRounded f (g ∷ gs) a s h = elim (Bool-cases (leb f.1.align g.1.align)) [
  | inl behind ↦ rw behind (h.0, h.1, insert_by_align-AreRounded f gs a s h.2)
  | inr before ↦ rw before (a, s, h)
]

sort_onto-Falling :
    (sorted fs : List Field)
    → AreRounded fs
    → AreRounded sorted
    → Falling 8 sorted
    → Falling 8 (sort_onto sorted fs) × AreRounded (sort_onto sorted fs)
unfolding sort_onto
sort_onto-Falling sorted [] h r s = (s, r)
sort_onto-Falling sorted (f ∷ fs) h r s =
    sort_onto-Falling (insert_by_align f sorted) fs h.2
      (insert_by_align-AreRounded f sorted h.0 h.1 r)
      (insert_by_align-Falling 8 f sorted (grind arith) s)

-- A multiple of an alignment is one of every smaller alignment.
divides_down : (o a b : ℕ) → IsAlign a → IsAlign b → a ≤ b → o % b ≡ 0 → o % a ≡ 0
divides_down o a b ha hb le h = grind arith

multiple_add : (o s a : ℕ) → IsAlign a → o % a ≡ 0 → s % a ≡ 0 → (o + s) % a ≡ 0
multiple_add o s a ha ho hs = grind arith

align_up_exact : (o a : ℕ) → IsAlign a → o + a < 2 ^ 64 → o % a ≡ 0 → align_up o a ≡ o
align_up_exact o a ha fits h = grind (arith, align_up_bounds o a)

align_up_mono : (o o' a : ℕ) → IsAlign a → o' + a < 2 ^ 64 → o ≤ o' → align_up o a ≤ align_up o' a
align_up_mono o o' a ha fits le = grind (arith, align_up_bounds o a, align_up_bounds o' a)

place_fields_tight :
    (o a bound : ℕ) (fs : List Field)
    → IsAlign bound
    → o % bound ≡ 0
    → AreRounded fs
    → Falling bound fs
    → o + total_size fs + total_align fs < 2 ^ 64
    → (place_fields o a fs).offset ≡ o + total_size fs
unfolding place_fields total_size total_align
place_fields_tight o a bound [] hb ho r s fits = omega arith
place_fields_tight o a bound ((name, l) ∷ fs) hb ho r s fits =
    let aligned = divides_down o l.align bound r.0 hb s.0 ho in
    let start = align_up_exact o l.align r.0 (omega arith) aligned in
    let end : (o + l.size) % 2 ^ 64 ≡ o + l.size = omega arith in
    rw (start, end)
      (omega (
        arith,
        place_fields_tight (o + l.size) (max a l.align) l.align fs r.0
            (multiple_add o l.size l.align r.0 aligned r.1) r.2 s.1 (omega arith),
      ))

unfoldable pub max_align : List Field → ℕ
max_align [] = 1
max_align ((_, layout) ∷ fs) = max layout.align (max_align fs)

align-place_fields :
    (o a : ℕ) (fs : List Field) → 0 < a → (place_fields o a fs).align ≡ max a (max_align fs)
unfolding place_fields max_align
align-place_fields o a [] h = omega arith
align-place_fields o a ((name, l) ∷ fs) h =
    omega (
      arith,
      align-place_fields (u64 (align_up o l.align + l.size)) (max a l.align) fs (omega arith),
    )

max_align-insert_by_align :
    (f : Field) (fs : List Field) → max_align (insert_by_align f fs) ≡ max f.1.align (max_align fs)
unfolding insert_by_align max_align
max_align-insert_by_align f [] = refl
max_align-insert_by_align f (g ∷ gs) = ground (arith, max_align-insert_by_align f gs)

max_align_pos : (fs : List Field) → 0 < max_align fs
unfolding max_align
max_align_pos [] = omega arith
max_align_pos (f ∷ fs) = omega (arith, max_align_pos fs)

max_align-sort_onto :
    (sorted fs : List Field)
    → max_align (sort_onto sorted fs) ≡ max (max_align sorted) (max_align fs)
unfolding sort_onto max_align
max_align-sort_onto sorted [] = omega (arith, max_align_pos sorted)
max_align-sort_onto sorted (f ∷ fs) =
    omega
      (arith, max_align-sort_onto (insert_by_align f sorted) fs, max_align-insert_by_align f sorted)

max_align-IsAlign : (fs : List Field) → AreRounded fs → IsAlign (max_align fs)
unfolding max_align
max_align-IsAlign [] h = inl refl
max_align-IsAlign (f ∷ fs) h = grind (arith, h.0, max_align-IsAlign fs h.2)

max_align-le : (fs : List Field) → max_align fs ≤ 1 + total_align fs
unfolding max_align total_align
max_align-le [] = omega arith
max_align-le (f ∷ fs) = omega (arith, max_align-le fs)

AreRounded-ArePositive : (fs : List Field) → AreRounded fs → ArePositive fs
AreRounded-ArePositive [] h = tt
AreRounded-ArePositive (f ∷ fs) h = (grind (arith, h.0), AreRounded-ArePositive fs h.2)

size-struct_layout :
    (fs : List Field) (repr : Repr)
    → (struct_layout fs repr).size
      ≡ align_up
          (place_fields 0 1 (ordered_fields repr fs)).offset
          (max_align (ordered_fields repr fs))
unfolding struct_layout
size-struct_layout fs repr =
    let ordered = ordered_fields repr fs in
    let same : (place_fields 0 1 ordered).align ≡ max_align ordered =
      omega (arith, align-place_fields 0 1 ordered (omega arith), max_align_pos ordered) in
    ap (align_up (place_fields 0 1 ordered).offset) same

-- For fields with the alignments of scalars and sizes that are multiples of them, whose sizes and
-- paddings stay below 2 ^ 64, the size under the default representation is the sum of the sizes
-- rounded up to the largest alignment: there is no padding between fields.
pub default_size :
    (fs : List Field)
    → AreRounded fs
    → Fit fs
    → (struct_layout fs Repr.default).size ≡ align_up (total_size fs) (max_align fs)
unfolding ordered_fields total_size max_align
default_size fs h fits =
    let (falling, rounded) = sort_onto-Falling [] fs h tt tt in
    let (sizes, aligns) = ordered_fields_sums Repr.default fs in
    let end =
      place_fields_tight 0 1 8 (ordered_fields Repr.default fs) (inr (inr (inr refl))) refl rounded
        falling (omega arith) in
    let largest : max_align (ordered_fields Repr.default fs) ≡ max_align fs =
      omega (arith, max_align-sort_onto [] fs, max_align_pos fs) in
    size-struct_layout fs Repr.default ∙ ap₂ align_up (omega arith) largest

-- Under the same conditions the struct is not larger than with its fields in the given order, as
-- `repr(C)` has them.
pub default-le-c :
    (fs : List Field)
    → AreRounded fs
    → Fit fs
    → (struct_layout fs Repr.default).size ≤ (struct_layout fs Repr.c).size
unfolding ordered_fields
default-le-c fs h fits =
    let positive = AreRounded-ArePositive fs h in
    let (least, most, align_low, align_high) = place_fields_bounds 0 1 fs positive (omega arith) in
    let bound = max_align-le fs in
    let largest = max_align-IsAlign fs h in
    let pos_align = max_align_pos fs in
    rw (default_size fs h fits, size-struct_layout fs Repr.c)
      (align_up_mono (total_size fs) (place_fields 0 1 fs).offset (max_align fs) largest
        (omega arith) (omega arith))
