-- ===== src/Tests/Widths.antt =====
-- Runs of compiler/paco-types/src/lib.rs, `IntWidth`.
use paco.Prelude.{◌-◌, ◌*◌, ◌^◌, ◌≡◌, refl, arith}
use paco.Prelude.Int.{pos, negsuc}
use paco.Types.{IntWidth, bytes, range, to_i128, wrap, from_i128, as_unsigned}
use paco.Types.Widths.{IsInRange, wrap_canonical, wrap_exact}

wrap_300 : wrap IntWidth.i8 (pos 300) ≡ pos 44
unfolding wrap
wrap_300 = refl

wrap_200 : wrap IntWidth.i8 (pos 200) ≡ negsuc 55
unfolding wrap
wrap_200 = refl

wrap-u64_max : to_i128 IntWidth.u64 (wrap IntWidth.u64 (negsuc 0)) ≡ pos (2 ^ 64 - 1)
unfolding wrap to_i128
wrap-u64_max = refl

wrap_canonical_example :
    IsInRange IntWidth.i8 (to_i128 IntWidth.i8 (wrap IntWidth.i8 (pos 300)))
    × (as_unsigned (2 ^ (bytes IntWidth.i8 * 8)) (to_i128 IntWidth.i8 (wrap IntWidth.i8 (pos 300)))
        ≡ as_unsigned (2 ^ (bytes IntWidth.i8 * 8)) (pos 300))
wrap_canonical_example = wrap_canonical IntWidth.i8 (pos 300)

small-IsInRange : IsInRange IntWidth.u16 (pos 40000)
unfolding range
small-IsInRange = omega arith

wrap_exact_example :
    (to_i128 IntWidth.u16 (wrap IntWidth.u16 (pos 40000)) ≡ pos 40000)
    × (to_i128 IntWidth.u16 (from_i128 IntWidth.u16 (pos 40000)) ≡ pos 40000)
wrap_exact_example = wrap_exact IntWidth.u16 (pos 40000) small-IsInRange
