-- ===== src/Layout.antt =====
-- compiler/paco-mir/src/layout.rs: the byte layout of scalars and of structs. Sizes and offsets
-- are `u64`: sums and products wrap modulo 2 ^ 64.
pub mod Placement
pub mod Packing
use Prim.Native.String.{String}
use paco.Prelude.{
  ℕ, Bool, Option, none, some, List, [], ◌∷◌, ◌+◌, ◌*◌, ◌/◌, ◌%◌, ◌^◌, ltb, leb, if◌then◌else◌, max,
}
use paco.Types.{
  Ty, IntWidth, FloatWidth, bytes, float_bytes, int, float, bool, string, char, unit, never, struct,
  enum, borrow, raw_pointer, slice, tuple, fn, generic, type_value, code, dim, pack, spread,
  unknown, error,
}

pub data Repr : Type 0 where
  default c : Repr

pub record FieldLayout : Type 0 where
  pub name : String
  pub offset : ℕ

pub record Layout : Type 0 where
  pub size : ℕ
  pub align : ℕ
  pub fields : List FieldLayout

-- a named field with its own layout, the input of `struct_layout`
abbrev pub Field : Type 0
Field = String × Layout

abbrev leaf : ℕ → ℕ → Option Layout
leaf size align = some (record { size = size; align = align; fields = [] })

-- `matches!(ty.as_ref(), Type::Slice(_))` chooses the fat pointer
abbrev borrow_layout : Ty → Option Layout
borrow_layout (slice _) = leaf 16 8
borrow_layout _ = leaf 8 8

unfoldable pub scalar_layout : Ty → Option Layout
unfolding bytes float_bytes
scalar_layout unit = leaf 0 1
scalar_layout never = leaf 0 1
scalar_layout (dim _) = leaf 0 1
scalar_layout (pack _) = leaf 0 1
scalar_layout (spread _) = leaf 0 1
scalar_layout bool = leaf 1 1
scalar_layout (int w) = leaf (bytes w) (bytes w)
scalar_layout char = leaf 4 4
scalar_layout (float w) = leaf (float_bytes w) (float_bytes w)
scalar_layout string = leaf 16 8
scalar_layout (slice _) = leaf 16 8
scalar_layout (raw_pointer _ _) = leaf 8 8
scalar_layout (fn _ _ _ _) = leaf 8 8
scalar_layout (borrow _ ty) = borrow_layout ty
scalar_layout (type_value _) = leaf 8 8
scalar_layout code = leaf 8 8
scalar_layout (struct _ _) = none
scalar_layout (enum _ _) = none
scalar_layout (tuple _) = none
scalar_layout (generic _) = none
scalar_layout unknown = none
scalar_layout error = none

abbrev pub u64 : ℕ → ℕ
u64 n = n % 2 ^ 64

-- `u64::div_ceil`
abbrev div_ceil : ℕ → ℕ → ℕ
div_ceil n d = if ltb 0 (n % d) then n / d + 1 else n / d

unfoldable pub align_up : ℕ → ℕ → ℕ
align_up offset align = u64 (div_ceil offset align * align)

-- `sort_by_key(|(_, layout)| Reverse(layout.align))`, which is stable: a field goes behind those
-- already placed whose alignment is not smaller.
unfoldable pub insert_by_align : Field → List Field → List Field
insert_by_align f [] = f ∷ []
insert_by_align f (g ∷ gs) =
    let rest = insert_by_align f gs in if leb f.1.align g.1.align then g ∷ rest else f ∷ g ∷ gs

unfoldable pub sort_onto : List Field → List Field → List Field
unfolding insert_by_align
sort_onto sorted [] = sorted
sort_onto sorted (f ∷ fs) = sort_onto (insert_by_align f sorted) fs

unfoldable pub ordered_fields : Repr → List Field → List Field
unfolding sort_onto
ordered_fields Repr.default fields = sort_onto [] fields
ordered_fields Repr.c fields = fields

-- the variables of the loop over the ordered fields
pub record Placing : Type 0 where
  pub offset : ℕ
  pub align : ℕ
  pub field_layouts : List FieldLayout

-- The loop: `field_layouts` is built in the order of its pushes.
unfoldable pub place_fields : ℕ → ℕ → List Field → Placing
unfolding align_up
place_fields offset align [] = record { offset = offset; align = align; field_layouts = [] }
place_fields offset align ((name, layout) ∷ rest) =
    let start = align_up offset layout.align in
    let placed = place_fields (u64 (start + layout.size)) (max align layout.align) rest in
    record placed {
      field_layouts = (record { name = name; offset = start }) ∷ placed.field_layouts;
    }

unfoldable pub struct_layout : List Field → Repr → Layout
unfolding place_fields ordered_fields
struct_layout fields repr =
    let placed = place_fields 0 1 (ordered_fields repr fields) in
    record {
      size = align_up placed.offset placed.align;
      align = placed.align;
      fields = placed.field_layouts;
    }
