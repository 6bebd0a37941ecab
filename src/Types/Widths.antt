-- ===== src/Types/Widths.antt =====
-- compiler/paco-types/src/lib.rs, `IntWidth`: truncation of integers to a width.
use paco.Prelude.{◌*◌, ◌^◌, ◌≡◌, arith}
use paco.Prelude.Int.{ℤ, ◌≤ℤ◌}
use paco.Types.{IntWidth, bytes, range, to_i128, wrap, from_i128, as_unsigned}

abbrev pub IsInRange : IntWidth → ℤ → Type 0
IsInRange w z = ((range w).0 ≤ℤ z) × (z ≤ℤ (range w).1)

-- For every width and every integer, the value that `to_i128` reads back from `wrap` lies in the
-- width's range and is congruent to the integer modulo 2 to the number of bits.
pub wrap_canonical :
    (w : IntWidth) (z : ℤ)
    → IsInRange w (to_i128 w (wrap w z))
      × (as_unsigned (2 ^ (bytes w * 8)) (to_i128 w (wrap w z)) ≡ as_unsigned (2 ^ (bytes w * 8)) z)
unfolding to_i128 wrap range bytes
wrap_canonical IntWidth.i8 z = ground arith
wrap_canonical _ z = ground arith

-- An integer in the width's range is read back unchanged by `to_i128` both from `wrap` and from
-- `from_i128`.
pub wrap_exact :
    (w : IntWidth) (z : ℤ)
    → IsInRange w z
    → (to_i128 w (wrap w z) ≡ z) × (to_i128 w (from_i128 w z) ≡ z)
unfolding to_i128 wrap from_i128 range bytes
wrap_exact IntWidth.i8 z h = ground arith
wrap_exact _ z h = ground arith
