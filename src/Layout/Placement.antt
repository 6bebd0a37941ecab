-- ===== src/Layout/Placement.antt =====
-- compiler/paco-mir/src/layout.rs: every field stands at an aligned offset, behind the one before.
use mathlib.Core.List.{Perm, perm_middle}
use mathlib.Core.List.Perm
use native.Mathlib.Nat.{mul-mod_left, div-add-mod', mod-lt}
use paco.Prelude.{
  ℕ, List, [], ◌∷◌, ◌+◌, ◌*◌, ◌%◌, ◌^◌, ◌≤◌, ◌<◌, ◌≡◌, refl, max, arith, tests, ltb, Bool-cases,
  inl, inr, ◌++◌, append-nil, leb,
}
use paco.Layout.{
  Repr, FieldLayout, Field, align_up, div_ceil, insert_by_align, sort_onto, ordered_fields,
  place_fields, struct_layout, u64,
}

div_ceil-mul : (o a : ℕ) → 0 < a → (o ≤ div_ceil o a * a) × (div_ceil o a * a < o + a)
div_ceil-mul o a positive = elim (Bool-cases (ltb 0 (o % a))) [
  | inl more ↦ rw more (omega (tests, more, div-add-mod' o a, mod-lt o positive))
  | inr exact ↦ rw exact (ground (arith, div-add-mod' o a))
]

-- Below 2 ^ 64, `align_up` gives the least multiple of the alignment that is not below the offset.
pub align_up_bounds :
    (o a : ℕ)
    → 0 < a
    → o + a < 2 ^ 64
    → (o ≤ align_up o a) × (align_up o a < o + a) × (align_up o a % a ≡ 0)
unfolding align_up
align_up_bounds o a positive fits =
    let (low, high) = div_ceil-mul o a positive in
    let q = div_ceil o a in
    let small : q * a < 2 ^ 64 = omega arith in
    let same : (q * a) % 2 ^ 64 ≡ q * a = omega arith in rw same (low, high, mul-mod_left q a)

-- the sums of the sizes and of the alignments
unfoldable pub total_size : List Field → ℕ
total_size [] = 0
total_size ((_, layout) ∷ fs) = layout.size + total_size fs

unfoldable pub total_align : List Field → ℕ
total_align [] = 0
total_align ((_, layout) ∷ fs) = layout.align + total_align fs

abbrev pub ArePositive : List Field → Type 0
ArePositive [] = Unit
ArePositive ((_, layout) ∷ fs) = (0 < layout.align) × ArePositive fs

-- Offsets, padding included, stay below 2 ^ 64.
abbrev pub Fit : List Field → Type 0
Fit fs = total_size fs + total_align fs + total_align fs + 1 < 2 ^ 64

-- The placed fields are `fs` in their order, each aligned, at or behind `low` and behind the end of
-- the one before, and the last ends at or below `high`.
abbrev pub Packed : ℕ → List Field → List FieldLayout → ℕ → Type 0
Packed low [] [] high = low ≤ high
Packed low ((name, layout) ∷ fs) (p ∷ ps) high =
    (p.name ≡ name)
    × (low ≤ p.offset)
    × (p.offset % layout.align ≡ 0)
    × Packed (p.offset + layout.size) fs ps high
Packed _ _ _ _ = ⊥

abbrev pub AlignsBelow : ℕ → List Field → Type 0
AlignsBelow a [] = Unit
AlignsBelow a ((_, layout) ∷ fs) = (layout.align ≤ a) × AlignsBelow a fs

pub place_fields_bounds :
    (o a : ℕ) (fs : List Field)
    → ArePositive fs
    → o + total_size fs + total_align fs < 2 ^ 64
    → (o + total_size fs ≤ (place_fields o a fs).offset)
      × ((place_fields o a fs).offset ≤ o + total_size fs + total_align fs)
      × (a ≤ (place_fields o a fs).align)
      × ((place_fields o a fs).align ≤ a + total_align fs)
unfolding place_fields total_size total_align
place_fields_bounds o a [] h fits = omega arith
place_fields_bounds o a ((name, l) ∷ fs) h fits =
    let (low, high, aligned) = align_up_bounds o l.align h.0 (omega arith) in
    let start = align_up o l.align in
    let end : (start + l.size) % 2 ^ 64 ≡ start + l.size = omega arith in
    rw end
      (omega (arith, place_fields_bounds (start + l.size) (max a l.align) fs h.1 (omega arith)))

place_fields-Packed :
    (o a : ℕ) (fs : List Field)
    → ArePositive fs
    → o + total_size fs + total_align fs < 2 ^ 64
    → Packed o fs (place_fields o a fs).field_layouts (place_fields o a fs).offset
unfolding place_fields total_size total_align
place_fields-Packed o a [] h fits = omega arith
place_fields-Packed o a ((name, l) ∷ fs) h fits =
    let (low, high, aligned) = align_up_bounds o l.align h.0 (omega arith) in
    let start = align_up o l.align in
    let end : (start + l.size) % 2 ^ 64 ≡ start + l.size = omega arith in
    rw end (
      refl,
      low,
      aligned,
      place_fields-Packed (start + l.size) (max a l.align) fs h.1 (omega arith),
    )

AlignsBelow-mono : (a b : ℕ) (fs : List Field) → a ≤ b → AlignsBelow a fs → AlignsBelow b fs
AlignsBelow-mono a b [] le h = tt
AlignsBelow-mono a b (f ∷ fs) le h = (omega arith, AlignsBelow-mono a b fs le h.1)

align-place_fields-le : (o a : ℕ) (fs : List Field) → a ≤ (place_fields o a fs).align
unfolding place_fields
align-place_fields-le o a [] = omega arith
align-place_fields-le o a ((name, l) ∷ fs) =
    omega (arith, align-place_fields-le (u64 (align_up o l.align + l.size)) (max a l.align) fs)

place_fields-AlignsBelow : (o a : ℕ) (fs : List Field) → AlignsBelow (place_fields o a fs).align fs
unfolding place_fields
place_fields-AlignsBelow o a [] = tt
place_fields-AlignsBelow o a ((name, l) ∷ fs) =
    let end = u64 (align_up o l.align + l.size) in
    (
      omega (arith, align-place_fields-le end (max a l.align) fs),
      place_fields-AlignsBelow end (max a l.align) fs,
    )

-- Ordering by alignment keeps the sums, the positive alignments and the fields themselves.
insert_by_align_sums :
    (f : Field) (fs : List Field)
    → (total_size (insert_by_align f fs) ≡ f.1.size + total_size fs)
      × (total_align (insert_by_align f fs) ≡ f.1.align + total_align fs)
unfolding insert_by_align total_size total_align
insert_by_align_sums f [] = (refl, refl)
insert_by_align_sums f (g ∷ gs) = ground (arith, insert_by_align_sums f gs)

insert_by_align-ArePositive :
    (f : Field) (fs : List Field)
    → 0 < f.1.align
    → ArePositive fs
    → ArePositive (insert_by_align f fs)
unfolding insert_by_align
insert_by_align-ArePositive f [] h hs = (h, tt)
insert_by_align-ArePositive f (g ∷ gs) h hs =
    ground (arith, insert_by_align-ArePositive f gs h hs.1)

insert_by_align-perm : (f : Field) (fs : List Field) → Perm (insert_by_align f fs) (f ∷ fs)
unfolding insert_by_align
insert_by_align-perm f [] = Perm.refl (f ∷ [])
insert_by_align-perm f (g ∷ gs) = elim (Bool-cases (leb f.1.align g.1.align)) [
  | inl behind ↦ rw behind (Perm.trans (Perm.cons g (insert_by_align-perm f gs)) (Perm.swap f g gs))
  | inr before ↦ rw before (Perm.refl (f ∷ g ∷ gs))
]

sort_onto_sums :
    (sorted fs : List Field)
    → (total_size (sort_onto sorted fs) ≡ total_size sorted + total_size fs)
      × (total_align (sort_onto sorted fs) ≡ total_align sorted + total_align fs)
unfolding sort_onto total_size total_align
sort_onto_sums sorted [] = omega arith
sort_onto_sums sorted (f ∷ fs) =
    omega (arith, sort_onto_sums (insert_by_align f sorted) fs, insert_by_align_sums f sorted)

sort_onto-ArePositive :
    (sorted fs : List Field)
    → ArePositive sorted
    → ArePositive fs
    → ArePositive (sort_onto sorted fs)
unfolding sort_onto
sort_onto-ArePositive sorted [] hs h = hs
sort_onto-ArePositive sorted (f ∷ fs) hs h =
    sort_onto-ArePositive (insert_by_align f sorted) fs
      (insert_by_align-ArePositive f sorted h.0 hs) h.1

sort_onto-perm : (sorted fs : List Field) → Perm (sort_onto sorted fs) (fs ++ sorted)
unfolding sort_onto
sort_onto-perm sorted [] = Perm.refl sorted
sort_onto-perm sorted (f ∷ fs) = Perm.trans (sort_onto-perm (insert_by_align f sorted) fs) (
    Perm.trans (Perm.append (Perm.refl fs) (insert_by_align-perm f sorted)) (perm_middle fs sorted))

pub ordered_fields_sums :
    (repr : Repr) (fs : List Field)
    → (total_size (ordered_fields repr fs) ≡ total_size fs)
      × (total_align (ordered_fields repr fs) ≡ total_align fs)
unfolding ordered_fields total_size total_align
ordered_fields_sums Repr.default fs = omega (arith, sort_onto_sums [] fs)
ordered_fields_sums Repr.c fs = (refl, refl)

pub ordered_fields-ArePositive :
    (repr : Repr) (fs : List Field) → ArePositive fs → ArePositive (ordered_fields repr fs)
unfolding ordered_fields
ordered_fields-ArePositive Repr.default fs h = sort_onto-ArePositive [] fs tt h
ordered_fields-ArePositive Repr.c fs h = h

pub ordered_fields-perm : (repr : Repr) (fs : List Field) → Perm (ordered_fields repr fs) fs
unfolding ordered_fields
ordered_fields-perm Repr.default fs = rw append-nil at (sort_onto-perm [] fs)
ordered_fields-perm Repr.c fs = Perm.refl fs

Packed-mono :
    (low : ℕ) (fs : List Field) (ps : List FieldLayout) (high high' : ℕ)
    → high ≤ high'
    → Packed low fs ps high
    → Packed low fs ps high'
Packed-mono low [] [] high high' le h = omega arith
Packed-mono low [] (p ∷ ps) high high' le h = h
Packed-mono low (f ∷ fs) [] high high' le h = h
Packed-mono low (f ∷ fs) (p ∷ ps) high high' le h =
    (h.0, h.1, h.2, Packed-mono (p.offset + f.1.size) fs ps high high' le h.3)

-- For fields of positive alignments whose sizes and paddings stay below 2 ^ 64, the laid out
-- fields are a permutation of the given ones, the given order itself for `repr(C)`. Each stands
-- at a multiple of its alignment and behind the end of the one before, all end within the size of
-- the struct, whose alignment is not below any field's and divides the size.
pub struct_layout-Packed :
    (fs : List Field) (repr : Repr)
    → ArePositive fs
    → Fit fs
    → Perm (ordered_fields repr fs) fs
      × (ordered_fields Repr.c fs ≡ fs)
      × Packed 0
          (ordered_fields repr fs)
          (struct_layout fs repr).fields
          (struct_layout fs repr).size
      × AlignsBelow (struct_layout fs repr).align (ordered_fields repr fs)
      × ((struct_layout fs repr).size % (struct_layout fs repr).align ≡ 0)
unfolding struct_layout ordered_fields
struct_layout-Packed fs repr h fits =
    let ordered = ordered_fields repr fs in
    let positive = ordered_fields-ArePositive repr fs h in
    let (sizes, aligns) = ordered_fields_sums repr fs in
    let placed = place_fields 0 1 ordered in
    let (least, most, align_low, align_high) =
      place_fields_bounds 0 1 ordered positive (omega arith) in
    let (low, high, multiple) =
      align_up_bounds placed.offset placed.align (omega arith) (omega arith) in
    (
      ordered_fields-perm repr fs,
      refl,
      Packed-mono 0 ordered placed.field_layouts placed.offset (align_up placed.offset placed.align)
          low (place_fields-Packed 0 1 ordered positive (omega arith)),
      place_fields-AlignsBelow 0 1 ordered,
      multiple,
    )
