-- ===== src/Math/Damm/Safe.antt =====
-- math/damm/safe_math.go: checked arithmetic on uint64 and on big integers.
use soldex.Base.{
  ℕ, ◌-◌, ◌*◌, ◌/◌, ◌%◌, ◌^◌, ◌||◌, none, some, ltb, leb, ◌==◌, if◌then◌else◌, Result, ok, err,
  ◌>>=◌, math_overflow, divide_by_zero, negative_value,
}
use soldex.Base.Int.{pos, negsuc}
use soldex.Base.Words.{u64_mod, max_u64, max_u128, add_wrap, sub_wrap, mul_wrap}
use soldex.Math.Common.{
  BigInt, nat, add_checked, sub_checked, mul_checked, div_floor, ensure_uint_within,
  big_to_uint64_checked,
}

unfoldable pub safe_add_u64 : ℕ → ℕ → Result ℕ
safe_add_u64 a b = if ltb (max_u64 - b) a then err math_overflow else ok (add_wrap a b)

unfoldable pub safe_sub_u64 : ℕ → ℕ → Result ℕ
safe_sub_u64 a b = if ltb a b then err math_overflow else ok (sub_wrap a b)

unfoldable pub safe_mul_u64 : ℕ → ℕ → Result ℕ
safe_mul_u64 a b =
    if (a == 0) || (b == 0)
    then ok 0
    else if ltb (max_u64 / b) a
    then err math_overflow
    else ok (mul_wrap a b)

unfoldable pub safe_div_u64 : ℕ → ℕ → Result ℕ
safe_div_u64 a b = if b == 0 then err divide_by_zero else ok (a / b)

unfoldable pub safe_rem_u64 : ℕ → ℕ → Result ℕ
safe_rem_u64 a b = if b == 0 then err divide_by_zero else ok (a % b)

unfoldable pub safe_shl_u64 : ℕ → ℕ → Result ℕ
safe_shl_u64 a offset =
    if leb 64 offset
    then err math_overflow
    else if ltb (max_u64 / 2 ^ offset) a
    then err math_overflow
    else ok ((a * 2 ^ offset) % u64_mod)

unfoldable pub safe_shr_u64 : ℕ → ℕ → Result ℕ
safe_shr_u64 a offset = if leb 64 offset then err math_overflow else ok (a / 2 ^ offset)

unfoldable pub safe_add_big : BigInt → BigInt → ℕ → Result ℕ
safe_add_big a b max = add_checked a b max

unfoldable pub safe_sub_big : BigInt → BigInt → ℕ → Result ℕ
safe_sub_big a b max = sub_checked a b max

unfoldable pub safe_mul_big : BigInt → BigInt → ℕ → Result ℕ
safe_mul_big a b max = mul_checked a b max

unfoldable pub safe_div_big : BigInt → BigInt → Result ℕ
safe_div_big a b = div_floor a b

unfoldable pub safe_shl_big : BigInt → ℕ → ℕ → Result ℕ
safe_shl_big none offset max = err math_overflow
safe_shl_big (some (negsuc n)) offset max = err negative_value
safe_shl_big (some (pos n)) offset max =
    if ltb max (n * 2 ^ offset) then err math_overflow else ok (n * 2 ^ offset)

unfoldable pub safe_shr_big : BigInt → ℕ → Result ℕ
safe_shr_big none offset = err math_overflow
safe_shr_big (some (negsuc n)) offset = err negative_value
safe_shr_big (some (pos n)) offset = ok (n / 2 ^ offset)

unfoldable pub safe_cast_u128_to_u64 : BigInt → Result ℕ
safe_cast_u128_to_u64 v = do x ← ensure_uint_within v max_u128; big_to_uint64_checked (nat x)
