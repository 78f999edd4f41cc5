-- ===== src/Math/Damm/Sqrt.antt =====
-- math/damm/utils_math.go: `SqrtU256`, digit by digit.
pub mod Loop
pub mod Root
use soldex.Base.{
  ℕ, zero, suc, ◌+◌, ◌-◌, ◌*◌, ◌/◌, ◌^◌, Option, none, some, leb, ◌==◌, if◌then◌else◌, Result, ok,
  err, math_overflow,
}
use soldex.Base.Words.{max_u256}
use soldex.Math.Common.{BigInt, ensure_uint_within}
use soldex.Math.Damm.MulDiv.{bit_len, within}

-- `for bit.Sign() != 0`, on fuel; `none` means that the fuel ran out.
unfoldable pub sqrt_loop : (fuel bit n result : ℕ) → Option ℕ
sqrt_loop zero bit n result = none
sqrt_loop (suc fuel) bit n result =
    let taken = sqrt_loop fuel (bit / 4) (n - (result + bit)) (result / 2 + bit) in
    let passed = sqrt_loop fuel (bit / 4) n (result / 2) in
    if bit == 0 then some result else if leb (result + bit) n then taken else passed

-- `(maxShift - (radicand.BitLen() - 1)) &^ 1`, for a radicand of 1 to 256 bits.
unfoldable pub sqrt_shift : ℕ → ℕ
unfolding bit_len
sqrt_shift radicand = (255 - (bit_len 256 radicand - 1)) / 2 * 2

abbrev pub sqrt_fuel : ℕ
sqrt_fuel = 129

-- The end of `SqrtU256`: the check of the loop's result.
unfoldable pub sqrt_result : Option ℕ → Option (Result ℕ)
sqrt_result none = none
sqrt_result (some result) = some (within max_u256 math_overflow result)

unfoldable pub sqrt_of : ℕ → Option (Result ℕ)
sqrt_of n = if n == 0 then some (ok 0) else sqrt_result (sqrt_loop sqrt_fuel (2 ^ sqrt_shift n) n 0)

unfoldable pub sqrt_checked : Result ℕ → Option (Result ℕ)
sqrt_checked (err e) = some (err e)
sqrt_checked (ok n) = sqrt_of n

-- `none`, out of fuel, does not occur.
unfoldable pub sqrt_u256 : BigInt → Option (Result ℕ)
sqrt_u256 radicand = sqrt_checked (ensure_uint_within radicand max_u256)
