-- ===== src/Math/Damm/MulDiv.antt =====
-- math/damm/u128x128_math.go: products, shifts and quotients of 128 and 256 bits.
use soldex.Base.{
  ℕ, zero, suc, ◌+◌, ◌*◌, ◌/◌, ◌^◌, Bool, ◌&&◌, ltb, leb, ◌==◌, if◌then◌else◌, Result, ok, err,
  ◌>>=◌, ◌>>◌, Error, math_overflow, divide_by_zero, fail_if,
}
use soldex.Base.Words.{max_u128, max_u256, max_u512}
use soldex.Math.Common.{
  BigInt, nat, mul_checked, div_floor, div_ceil, ensure_uint_within, is_uint_within,
}

pub data Rounding : Type 0 where
  rounding_up rounding_down : Rounding

-- `x.BitLen()`, for a number of at most `width` bits.
unfoldable pub bit_len : ℕ → ℕ → ℕ
bit_len zero x = 0
bit_len (suc width) x = if leb (2 ^ width) x then suc width else bit_len width x

-- `if rounding == RoundingUp { DivCeil } else { DivFloor }`
unfoldable pub div_rounded : Rounding → BigInt → BigInt → Result ℕ
div_rounded rounding_up num den = div_ceil num den
div_rounded rounding_down num den = div_floor num den

-- `if !common.IsUintWithin(out, max) { return nil, e }`
unfoldable pub within : ℕ → Error → ℕ → Result ℕ
within max e out = if is_uint_within (nat out) max then ok out else err e

unfoldable pub mul_shr : BigInt → BigInt → ℕ → Result ℕ
mul_shr x y offset = do
  a ← ensure_uint_within x max_u128
  b ← ensure_uint_within y max_u128
  within max_u128 math_overflow (a * b / 2 ^ offset)

unfoldable pub mul_shr_256 : BigInt → BigInt → ℕ → Result ℕ
mul_shr_256 x y offset = do
  a ← ensure_uint_within x max_u256
  b ← ensure_uint_within y max_u256
  prod ← mul_checked (nat a) (nat b) max_u512
  within max_u128 math_overflow (prod / 2 ^ offset)

-- `x.Sign() > 0 && x.BitLen()+int(offset) > 256`, for an x of at most 128 bits.
unfoldable pub shift_overflows : ℕ → ℕ → Bool
shift_overflows x offset = ltb 0 x && ltb 256 (bit_len 128 x + offset)

unfoldable pub shl_div : BigInt → BigInt → ℕ → Rounding → Result ℕ
shl_div x y offset rounding = do
  a ← ensure_uint_within x max_u128
  b ← ensure_uint_within y max_u128
  fail_if (b == 0) divide_by_zero
  fail_if (shift_overflows a offset) math_overflow
  out ← div_rounded rounding (nat (a * 2 ^ offset)) (nat b)
  within max_u128 math_overflow out

unfoldable pub shl_div_256 : BigInt → BigInt → ℕ → Result ℕ
shl_div_256 x y offset = do
  a ← ensure_uint_within x max_u128
  b ← ensure_uint_within y max_u128
  fail_if (b == 0) divide_by_zero
  fail_if (shift_overflows a offset) math_overflow
  out ← div_floor (nat (a * 2 ^ offset)) (nat b)
  within max_u256 math_overflow out

unfoldable pub mul_div_u256 : BigInt → BigInt → BigInt → Rounding → Result ℕ
mul_div_u256 x y denominator rounding = do
  a ← ensure_uint_within x max_u256
  b ← ensure_uint_within y max_u256
  d ← ensure_uint_within denominator max_u256
  fail_if (d == 0) divide_by_zero
  prod ← mul_checked (nat a) (nat b) max_u512
  out ← div_rounded rounding (nat prod) (nat d)
  within max_u256 math_overflow out
