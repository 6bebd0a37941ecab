-- ===== src/Tests/Layouts.antt =====
-- Runs of compiler/paco-mir/src/layout.rs, and its tests.
use paco.Prelude.{◌%◌, ◌≤◌, ◌≡◌, refl, inl, inr, some, List, [], ◌∷◌, arith}
use mathlib.Core.List.{Perm}
use paco.Types.{IntWidth, bool, int}
use paco.Layout.{Repr, Layout, Field, scalar_layout, align_up, ordered_fields, struct_layout}
use paco.Layout.Placement.{Fit, Packed, AlignsBelow, total_size, total_align, struct_layout-Packed}
use paco.Layout.Packing.{AreRounded, max_align, default_size, default-le-c}

abbrev one_byte : Layout
one_byte = record { size = 1; align = 1; fields = [] }

abbrev eight_bytes : Layout
eight_bytes = record { size = 8; align = 8; fields = [] }

-- the fields of `repr_c_matches_hand_computed_c_layout`
abbrev sample : List Field
sample = ("a", one_byte) ∷ ("b", eight_bytes) ∷ ("c", one_byte) ∷ []

scalars :
    (scalar_layout bool ≡ some one_byte) × (scalar_layout (int IntWidth.i64) ≡ some eight_bytes)
unfolding scalar_layout
scalars = (refl, refl)

c_offsets : struct_layout sample Repr.c ≡ record {
  size = 24;
  align = 8;
  fields =
      (record { name = "a"; offset = 0 })
      ∷ (record { name = "b"; offset = 8 })
      ∷ (record { name = "c"; offset = 16 })
      ∷ [];
}
unfolding struct_layout
c_offsets = refl

default_offsets : struct_layout sample Repr.default ≡ record {
  size = 16;
  align = 8;
  fields =
      (record { name = "b"; offset = 0 })
      ∷ (record { name = "a"; offset = 8 })
      ∷ (record { name = "c"; offset = 9 })
      ∷ [];
}
unfolding struct_layout
default_offsets = refl

sample-Fit : Fit sample
unfolding total_size total_align
sample-Fit = omega arith

sample-AreRounded : AreRounded sample
sample-AreRounded = (inl refl, refl, (inr (inr (inr refl)), refl, (inl refl, refl, tt)))

struct_layout-Packed_example :
    Perm (ordered_fields Repr.default sample) sample
    × (ordered_fields Repr.c sample ≡ sample)
    × Packed 0
        (ordered_fields Repr.default sample)
        (struct_layout sample Repr.default).fields
        (struct_layout sample Repr.default).size
    × AlignsBelow (struct_layout sample Repr.default).align (ordered_fields Repr.default sample)
    × ((struct_layout sample Repr.default).size % (struct_layout sample Repr.default).align ≡ 0)
struct_layout-Packed_example = struct_layout-Packed sample Repr.default (omega arith) sample-Fit

default_size_example :
    (struct_layout sample Repr.default).size ≡ align_up (total_size sample) (max_align sample)
default_size_example = default_size sample sample-AreRounded sample-Fit

default-le-c_example : (struct_layout sample Repr.default).size ≤ (struct_layout sample Repr.c).size
default-le-c_example = default-le-c sample sample-AreRounded sample-Fit
