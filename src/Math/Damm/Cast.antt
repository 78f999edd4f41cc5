-- ===== src/Math/Damm/Cast.antt =====
-- math/damm/utils_math.go, without `SqrtU256`: the casts to a machine word.
pub mod Rounds
use soldex.Base.{
  ℕ, ◌-◌, ◌*◌, ◌^◌, none, some, ltb, leb, ◌==◌, if◌then◌else◌, Result, ok, err, ◌>>=◌, ◌>>◌,
  divide_by_zero, type_cast_failed, fail_if,
}
use soldex.Base.Int.{pos, negsuc}
use soldex.Base.Words.{u64_mod, max_u128}
use soldex.Math.Common.{BigInt, nat, mul_checked, ensure_uint_within}
use soldex.Math.Damm.MulDiv.{Rounding, mul_shr, mul_shr_256, shl_div, div_rounded, within}

-- The type parameter is an unsigned word of `bits` bits; `^T(0)` is `2 ^ bits - 1`.
unfoldable pub cast_to_unsigned : ℕ → BigInt → Result ℕ
cast_to_unsigned bits none = err type_cast_failed
cast_to_unsigned bits (some (negsuc n)) = err type_cast_failed
cast_to_unsigned bits (some (pos n)) =
    if leb u64_mod n
    then err type_cast_failed
    else if ltb (2 ^ bits - 1) n
    then err type_cast_failed
    else ok n

unfoldable pub safe_mul_shr_cast : ℕ → BigInt → BigInt → ℕ → Result ℕ
safe_mul_shr_cast bits x y offset = do v ← mul_shr x y offset; cast_to_unsigned bits (nat v)

unfoldable pub safe_mul_shr_256_cast : ℕ → BigInt → BigInt → ℕ → Result ℕ
safe_mul_shr_256_cast bits x y offset = do v ← mul_shr_256 x y offset; cast_to_unsigned bits (nat v)

unfoldable pub safe_mul_div_cast_u64 : ℕ → ℕ → ℕ → ℕ → Rounding → Result ℕ
safe_mul_div_cast_u64 bits x y denominator rounding = do
  fail_if (denominator == 0) divide_by_zero
  prod ← mul_checked (nat x) (nat y) max_u128
  out ← div_rounded rounding (nat prod) (nat denominator)
  cast_to_unsigned bits (nat out)

unfoldable pub safe_mul_div_cast_u128 : BigInt → BigInt → BigInt → Rounding → Result ℕ
safe_mul_div_cast_u128 x y denominator rounding = do
  a ← ensure_uint_within x max_u128
  b ← ensure_uint_within y max_u128
  d ← ensure_uint_within denominator max_u128
  fail_if (d == 0) divide_by_zero
  out ← div_rounded rounding (nat (a * b)) (nat d)
  within max_u128 type_cast_failed out

unfoldable pub safe_shl_div_cast : ℕ → BigInt → BigInt → ℕ → Rounding → Result ℕ
safe_shl_div_cast bits x y offset rounding = do
  v ← shl_div x y offset rounding
  cast_to_unsigned bits (nat v)
