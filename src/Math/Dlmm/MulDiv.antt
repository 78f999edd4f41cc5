-- ===== src/Math/Dlmm/MulDiv.antt =====
-- math/dlmm/types.go, u128x128.go and utils.go: multiply-then-divide with a
-- rounding, and the casts to a machine word.
pub mod Rounds
use soldex.Base.{
  ℕ, zero, suc, ◌+◌, ◌-◌, ◌*◌, ◌/◌, ◌%◌, ◌^◌, ◌≤◌, ◌<◌, Bool, true, false, Option, none, some, ltb,
  leb, ◌==◌, if◌then◌else◌, Result, ok, err, ◌>>=◌, ◌>>◌, Error, math_overflow, divide_by_zero,
  type_cast_failed,
}
use soldex.Base.Int.{ℤ, pos, negsuc}
use soldex.Base.Words.{u64_mod, max_u128}
use soldex.Math.Common.{BigInt, nat, ensure_uint_within, div_floor, div_ceil, is_uint_within}

pub data Rounding : Type 0 where
  rounding_up rounding_down : Rounding

-- The `switch` on the rounding.
unfoldable pub div_rounded : Rounding → BigInt → BigInt → Result ℕ
unfolding div_floor div_ceil
div_rounded rounding_up num den = div_ceil num den
div_rounded rounding_down num den = div_floor num den

-- `if !common.IsUintWithin(out, common.MaxU128) { return nil, common.ErrMathOverflow }`
unfoldable pub within_u128 : ℕ → Result ℕ
unfolding is_uint_within
within_u128 out = if is_uint_within (nat out) max_u128 then ok out else err math_overflow

unfoldable pub mul_div : BigInt → BigInt → BigInt → Rounding → Result ℕ
unfolding ensure_uint_within div_rounded within_u128
mul_div x y denominator rounding = do
  a ← ensure_uint_within x max_u128
  b ← ensure_uint_within y max_u128
  d ← ensure_uint_within denominator max_u128
  if d == 0
      then err divide_by_zero
      else (do out ← div_rounded rounding (nat (a * b)) (nat d); within_u128 out)

unfoldable pub mul_shr : BigInt → BigInt → ℕ → Rounding → Result ℕ
unfolding mul_div
mul_shr x y offset rounding =
    if leb 128 offset then err math_overflow else mul_div x y (nat (2 ^ offset)) rounding

unfoldable pub shl_div : BigInt → BigInt → ℕ → Rounding → Result ℕ
unfolding mul_div
shl_div x y offset rounding =
    if leb 128 offset then err math_overflow else mul_div x (nat (2 ^ offset)) y rounding

-- The type parameter is an unsigned word of `bits` bits; `^T(0)` is `2 ^ bits - 1`.
unfoldable pub cast_to_unsigned : ℕ → BigInt → Result ℕ
cast_to_unsigned bits none = err type_cast_failed
cast_to_unsigned bits (some (negsuc n)) = err type_cast_failed
cast_to_unsigned bits (some (pos n)) =
    if leb u64_mod n
    then err type_cast_failed
    else if ltb (2 ^ bits - 1) n
    then err type_cast_failed
    else ok n

unfoldable pub safe_mul_shr_cast : ℕ → BigInt → BigInt → ℕ → Rounding → Result ℕ
unfolding mul_shr cast_to_unsigned
safe_mul_shr_cast bits x y offset rounding = do
  v ← mul_shr x y offset rounding
  cast_to_unsigned bits (nat v)

unfoldable pub safe_shl_div_cast : ℕ → BigInt → BigInt → ℕ → Rounding → Result ℕ
unfolding shl_div cast_to_unsigned
safe_shl_div_cast bits x y offset rounding = do
  v ← shl_div x y offset rounding
  cast_to_unsigned bits (nat v)

unfoldable pub safe_mul_div_cast : ℕ → BigInt → BigInt → BigInt → Rounding → Result ℕ
unfolding mul_div cast_to_unsigned
safe_mul_div_cast bits x y denominator rounding = do
  v ← mul_div x y denominator rounding
  cast_to_unsigned bits (nat v)
