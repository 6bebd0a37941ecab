-- ===== src/Dims/Checked.antt =====
-- The checked operations of `i64` that compiler/paco-types/src/dims.rs calls.
use paco.Prelude.{ℕ, zero, suc, ◌/◌, ◌%◌, ◌≡◌, not, ◌&&◌, Option, none, some, arith, if◌then◌else◌}
use paco.Prelude.Int.{ℤ, pos, negsuc, ◌+ℤ◌, ◌-ℤ◌, ◌*ℤ◌, eqb_ℤ}
use paco.Prelude.Text.{is_i64}

abbrev pub neg : ℕ → ℤ
neg n = pos 0 -ℤ pos n

-- division toward zero; a quotient by zero is 0
unfoldable pub quotient : ℤ → ℤ → ℤ
quotient (pos a) (pos zero) = pos 0
quotient (pos a) (pos (suc b)) = pos (a / suc b)
quotient (pos a) (negsuc b) = neg (a / suc b)
quotient (negsuc a) (pos zero) = pos 0
quotient (negsuc a) (pos (suc b)) = neg (suc a / suc b)
quotient (negsuc a) (negsuc b) = pos (suc a / suc b)

-- its remainder, which has the dividend's sign
unfoldable pub remainder : ℤ → ℤ → ℤ
remainder (pos a) (pos zero) = pos a
remainder (pos a) (pos (suc b)) = pos (a % suc b)
remainder (pos a) (negsuc b) = pos (a % suc b)
remainder (negsuc a) (pos zero) = negsuc a
remainder (negsuc a) (pos (suc b)) = neg (suc a % suc b)
remainder (negsuc a) (negsuc b) = neg (suc a % suc b)

unfoldable pub checked : ℤ → Option ℤ
checked z = if is_i64 z then some z else none

unfoldable pub checked_add : ℤ → ℤ → Option ℤ
unfolding checked
checked_add a b = checked (a +ℤ b)

unfoldable pub checked_sub : ℤ → ℤ → Option ℤ
unfolding checked
checked_sub a b = checked (a -ℤ b)

unfoldable pub checked_mul : ℤ → ℤ → Option ℤ
unfolding checked
checked_mul a b = checked (a *ℤ b)

unfoldable pub checked_div : ℤ → ℤ → Option ℤ
unfolding checked quotient
checked_div a b = if eqb_ℤ b (pos 0) then none else checked (quotient a b)

-- `i64::MIN % -1` overflows with its quotient
unfoldable pub checked_rem : ℤ → ℤ → Option ℤ
unfolding quotient remainder
checked_rem a b =
    if not (eqb_ℤ b (pos 0)) && is_i64 (quotient a b) then some (remainder a b) else none

pub checked-some : (z r : ℤ) → checked z ≡ some r → r ≡ z
unfolding checked
checked-some z r h = ground arith
