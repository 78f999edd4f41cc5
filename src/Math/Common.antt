-- ===== src/Math/Common.antt =====
-- math/common/common.go: checked arithmetic on `*big.Int`.
-- A pointer to a big integer is an `Option ℤ`, `none` for nil. What a function returns without an
-- error is neither nil nor negative, so a result is a natural number, and `nat` passes it on.
pub mod Success
use soldex.Base.{
  ℕ, zero, suc, ◌+◌, ◌-◌, ◌*◌, ◌/◌, ◌%◌, ◌^◌, ◌≤◌, ◌<◌, Bool, true, false, Option, none, some, ltb,
  leb, ◌==◌, if◌then◌else◌, Result, ok, err, ◌>>=◌, ◌>>◌, Error, math_overflow, divide_by_zero,
  negative_value, type_cast_failed,
}
use soldex.Base.Int.{ℤ, pos, negsuc}
use soldex.Base.Words.{u64_mod}
use soldex.Base.Division.{ceil_div}

abbrev pub BigInt : Type 0
BigInt = Option ℤ

abbrev pub nat : ℕ → BigInt
nat n = some (pos n)

unfoldable pub clone : BigInt → BigInt
clone none = none
clone (some x) = some x

-- The bound of each call is one of the constants `MaxU128`, `MaxU256` and `MaxU512`.
unfoldable pub is_uint_within : BigInt → ℕ → Bool
is_uint_within none max = false
is_uint_within (some (negsuc n)) max = false
is_uint_within (some (pos n)) max = leb n max

-- The result is the number that passed, with which the caller goes on.
unfoldable pub ensure_uint_within : BigInt → ℕ → Result ℕ
ensure_uint_within none max = err math_overflow
ensure_uint_within (some (negsuc n)) max = err negative_value
ensure_uint_within (some (pos n)) max = if ltb max n then err math_overflow else ok n

unfoldable pub mul_checked : BigInt → BigInt → ℕ → Result ℕ
unfolding ensure_uint_within
mul_checked a b max = do
  x ← ensure_uint_within a max
  y ← ensure_uint_within b max
  if ltb max (x * y) then err math_overflow else ok (x * y)

unfoldable pub add_checked : BigInt → BigInt → ℕ → Result ℕ
unfolding ensure_uint_within
add_checked a b max = do
  x ← ensure_uint_within a max
  y ← ensure_uint_within b max
  if ltb max (x + y) then err math_overflow else ok (x + y)

unfoldable pub sub_checked : BigInt → BigInt → ℕ → Result ℕ
unfolding ensure_uint_within
sub_checked a b max = do
  x ← ensure_uint_within a max
  y ← ensure_uint_within b max
  if ltb x y then err math_overflow else ok (x - y)

-- The guards of `DivFloor` and `DivCeil`, in the order of the code, with the division that follows.
unfoldable pub div_checked : (ℕ → ℕ → ℕ) → BigInt → BigInt → Result ℕ
div_checked divide num none = err divide_by_zero
div_checked divide num (some (pos zero)) = err divide_by_zero
div_checked divide none (some (pos (suc d))) = err math_overflow
div_checked divide none (some (negsuc d)) = err math_overflow
div_checked divide (some (negsuc n)) (some (pos (suc d))) = err negative_value
div_checked divide (some (negsuc n)) (some (negsuc d)) = err negative_value
div_checked divide (some (pos n)) (some (negsuc d)) = err negative_value
div_checked divide (some (pos n)) (some (pos (suc d))) = ok (divide n (suc d))

unfoldable pub div_floor : BigInt → BigInt → Result ℕ
unfolding div_checked
div_floor = div_checked (◌/◌)

unfoldable pub div_ceil : BigInt → BigInt → Result ℕ
unfolding div_checked ceil_div
div_ceil = div_checked ceil_div

-- `v.BitLen() > 64` is `2 ^ 64 ≤ v`.
unfoldable pub big_to_uint64_checked : BigInt → Result ℕ
big_to_uint64_checked none = err type_cast_failed
big_to_uint64_checked (some (negsuc n)) = err type_cast_failed
big_to_uint64_checked (some (pos n)) = if leb u64_mod n then err type_cast_failed else ok n
