-- ===== src/Math/Damm/Fee.antt =====
-- math/damm/fee_math.go: the fee schedules and their power function.
use soldex.Base.{
  ℕ, zero, suc, ◌+◌, ◌-◌, ◌*◌, ◌/◌, ◌%◌, ◌^◌, Bool, true, false, not, ltb, leb, ◌==◌, if◌then◌else◌,
  Result, ok, ◌>>=◌, ◌>>◌, math_overflow, fail_if,
}
use soldex.Base.Int.{ℤ, pos, negsuc, nat_abs, ltb_ℤ, eqb_ℤ}
use soldex.Base.Words.{max_u128}
use soldex.Math.Common.{
  BigInt, nat, mul_checked, sub_checked, div_floor, ensure_uint_within, big_to_uint64_checked,
}

abbrev pub max_basis_point : ℕ
max_basis_point = 10_000

abbrev pub one_q64 : ℕ
one_q64 = 2 ^ 64

abbrev pub max_exponential : ℕ
max_exponential = 0x80000

abbrev pub min_int32 : ℤ
min_int32 = negsuc (2 ^ 31 - 1)

-- `absExp & (1 << i) > 0`
abbrev pub has_bit : ℕ → ℕ → Bool
has_bit n i = ((n / 2 ^ i) % 2) == 1

-- One multiplication of the loop: checked to 128 bits, then shifted back.
unfoldable pub mul_q64 : ℕ → ℕ → Result ℕ
unfolding mul_checked
mul_q64 a b = do mul ← mul_checked (nat a) (nat b) max_u128; ok (mul / 2 ^ 64)

-- The two `if`s of the loop body: the multiplication where the test holds, else the number as it is.
unfoldable pub mul_if : Bool → ℕ → ℕ → Result ℕ
mul_if true a b = mul_q64 a b
mul_if false a b = ok a

-- The rounds of `for i := uint(0); i < 19; i++` from `i` on, `left` of them.
unfoldable pub pow_loop : (left i abs_exp result squared : ℕ) → Result ℕ
pow_loop zero i abs_exp result squared = ok result
pow_loop (suc left) i abs_exp result squared = do
  result' ← mul_if (has_bit abs_exp i) result squared
  squared' ← mul_if (ltb i 18) squared squared
  pow_loop left (i + 1) abs_exp result' squared'

-- What `Pow` does after the guards on the exponent, for a base of at most 128 bits.
unfoldable pub pow_abs : (base abs_exp : ℕ) (invert : Bool) → Result ℕ
pow_abs base abs_exp invert =
    let flip = leb one_q64 base in
    let squared = if flip then max_u128 / base else base in
    let invert' = if flip then not invert else invert in
    do
      result ← pow_loop 19 0 abs_exp one_q64 squared
      fail_if (result == 0) math_overflow
      ok (if invert' then max_u128 / result else result)

unfoldable pub pow : BigInt → ℤ → Result ℕ
pow base exp = do
  fail_if (eqb_ℤ exp min_int32) math_overflow
  b ← ensure_uint_within base max_u128
  if eqb_ℤ exp (pos 0) then ok one_q64 else (do
    fail_if (leb max_exponential (nat_abs exp)) math_overflow
    pow_abs b (nat_abs exp) (ltb_ℤ exp (pos 0)))

unfoldable pub get_fee_in_period : ℕ → ℕ → ℕ → Result ℕ
get_fee_in_period cliff_fee_numerator reduction_factor passed_period =
    if reduction_factor == 0 then ok cliff_fee_numerator else (do
      bps ← div_floor (nat (reduction_factor * 2 ^ 64)) (nat max_basis_point)
      base ← sub_checked (nat one_q64) (nat bps) max_u128
      result ← pow (nat base) (pos passed_period)
      mul ← mul_checked (nat result) (nat cliff_fee_numerator) max_u128
      big_to_uint64_checked (nat (mul / 2 ^ 64)))

-- The subtraction leaves a number below the cliff fee, so `.Uint64()` is exact.
unfoldable pub get_fee_in_period_linear : ℕ → ℕ → ℕ → ℕ
get_fee_in_period_linear cliff_fee_numerator reduction_factor passed_period =
    let reduction = reduction_factor * passed_period in
    if leb cliff_fee_numerator reduction then 0 else cliff_fee_numerator - reduction
