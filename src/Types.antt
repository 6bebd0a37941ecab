-- ===== src/Types.antt =====
-- compiler/paco-types/src/lib.rs: the types of a checked program and the integer and float widths.
-- An `i64`, `i128` or `u64` value is an integer (ℤ or ℕ) with its range kept by the operations: a
-- cast with `as` truncates by `% 2 ^ w`, written out.
pub mod Widths
use Prim.Native.String.{String}
use paco.Prelude.{
  ℕ, Bool, true, false, Option, ◌-◌, ◌*◌, ◌/◌, ◌%◌, ◌^◌, ◌==◌, ltb, if◌then◌else◌, ◌&&◌,
}
use paco.Prelude.Int.{ℤ, pos, negsuc, ◌-ℤ◌}

pub data IntWidth : Type 0 where
  i8 i16 i32 i64 u8 u16 u32 u64 : IntWidth

unfoldable pub is_signed : IntWidth → Bool
is_signed IntWidth.i8 = true
is_signed IntWidth.i16 = true
is_signed IntWidth.i32 = true
is_signed IntWidth.i64 = true
is_signed _ = false

unfoldable pub bytes : IntWidth → ℕ
bytes IntWidth.i8 = 1
bytes IntWidth.u8 = 1
bytes IntWidth.i16 = 2
bytes IntWidth.u16 = 2
bytes IntWidth.i32 = 4
bytes IntWidth.u32 = 4
bytes IntWidth.i64 = 8
bytes IntWidth.u64 = 8

-- `(min, max)`; `negsuc n` is -(n + 1)
unfoldable pub range : IntWidth → ℤ × ℤ
range IntWidth.i8 = (negsuc 127, pos 127)
range IntWidth.i16 = (negsuc 32767, pos 32767)
range IntWidth.i32 = (negsuc (2 ^ 31 - 1), pos (2 ^ 31 - 1))
range IntWidth.i64 = (negsuc (2 ^ 63 - 1), pos (2 ^ 63 - 1))
range IntWidth.u8 = (pos 0, pos 255)
range IntWidth.u16 = (pos 0, pos 65535)
range IntWidth.u32 = (pos 0, pos (2 ^ 32 - 1))
range IntWidth.u64 = (pos 0, pos (2 ^ 64 - 1))

-- `value as u128` and `value as u64`, of a signed value
abbrev pub as_unsigned : ℕ → ℤ → ℕ
as_unsigned modulus (pos n) = n % modulus
as_unsigned modulus (negsuc n) = modulus - 1 - n % modulus

-- `value as i64`, of a value that is already a bit pattern of 64 bits
abbrev pub as_signed : ℕ → ℤ
as_signed n = if ltb n (2 ^ 63) then pos n else negsuc (2 ^ 64 - 1 - n)

-- `value as i64`, of an `i128`
abbrev pub as_i64 : ℤ → ℤ
as_i64 z = as_signed (as_unsigned (2 ^ 64) z)

unfoldable pub to_i128 : IntWidth → ℤ → ℤ
to_i128 IntWidth.u64 bits = pos (as_unsigned (2 ^ 64) bits)
to_i128 _ bits = bits

-- the value of a bit field of `bits` bits whose top bit is its sign
abbrev sign_extend : ℕ → ℕ → ℤ
sign_extend bits low = as_i64 (pos low -ℤ pos (2 ^ bits))

unfoldable pub wrap : IntWidth → ℤ → ℤ
unfolding is_signed bytes ◌-ℤ◌
wrap w value =
    let bits = bytes w * 8 in
    let low = as_unsigned (2 ^ 128) value % 2 ^ bits in
    if is_signed w && ((low / 2 ^ (bits - 1)) % 2 == 1)
    then sign_extend bits low
    else as_signed (low % 2 ^ 64)

unfoldable pub from_i128 : IntWidth → ℤ → ℤ
from_i128 IntWidth.u64 value = as_signed (as_unsigned (2 ^ 64) value)
from_i128 _ value = as_i64 value

pub data FloatWidth : Type 0 where
  f64 f32 f16 bf16 f8e4m3 f8e5m2 : FloatWidth

unfoldable pub float_bytes : FloatWidth → ℕ
float_bytes FloatWidth.f64 = 8
float_bytes FloatWidth.f32 = 4
float_bytes FloatWidth.f16 = 2
float_bytes FloatWidth.bf16 = 2
float_bytes FloatWidth.f8e4m3 = 1
float_bytes FloatWidth.f8e5m2 = 1

-- compiler/paco-types/src/dims.rs: a dimension is an interned polynomial, or `Dyn`.
pub record ConstExpr : Type 0 where
  pub poly : ℕ
  pub written : Option (String × ℕ)

pub data Dim : Type 0 where
  const : ConstExpr → Dim
  dyn : Dim

mutual
  pub data Ty : Type 0 where
    int : IntWidth → Ty
    float : FloatWidth → Ty
    bool string char unit never : Ty
    struct enum : String → Tys → Ty
    borrow raw_pointer : Bool → Ty → Ty
    slice : Ty → Ty
    tuple : Tys → Ty
    fn : Tys → Ty → Option String → Bool → Ty
    generic : String → Ty
    type_value : Ty → Ty
    code : Ty
    dim : Dim → Ty
    pack : Tys → Ty
    spread : String → Ty
    unknown error : Ty

  pub data Tys : Type 0 where
    nil : Tys
    cons : Ty → Tys → Tys
